-- ===== src/Store/Dialogues/Examples.antt =====
-- A first save of the state of a new character, on a column that takes every snapshot.
use new_yokosuka_server.Base.{suc, ◌≡◌, refl, sym, true, some, none, List, [], ◌∷◌, arith}
use new_yokosuka_server.Dialogue.{Snapshot, default, is_valid}
use new_yokosuka_server.Store.Examples.{start as database}
use new_yokosuka_server.Store.Transaction.{ok, err, Error}
use new_yokosuka_server.Store.Dialogues.{
  Json, Decodes, Dialogues, dialogue_state, next_snapshot, write_row, save_dialogue_state, Save,
  save_all,
}
use new_yokosuka_server.Store.Dialogues.Saved.{save_once, dialogue_state_loads, save_loads}

abbrev plain : Json
plain = record { Stored = Snapshot; encode = λ s. some s; decode = λ s. some s }

plain_decodes : Decodes plain
plain_decodes s t h = sym h

abbrev tables : Dialogues plain
tables = record { characters = database.characters; rows = λ c. none }

abbrev first : Snapshot
first = next_snapshot plain default

abbrev after_first : Dialogues plain
after_first = write_row plain 7 1 first tables

first_save : save_dialogue_state plain 3 7 default tables ≡ (ok first, after_first)
unfolding save_dialogue_state is_valid default
first_save = refl

abbrev saves : List Save
saves =
    record { account_id = 3; character_id = 7; snapshot = default }
    ∷ record { account_id = 3; character_id = 7; snapshot = first }
    ∷ []

abbrev again : List Save
again = record { account_id = 3; character_id = 7; snapshot = first } ∷ []

save_once_example :
    (e : Error) × (save_dialogue_state plain 3 7 default (save_all plain again after_first)
      ≡ (err e, save_all plain again after_first))
save_once_example =
    save_once 3 7 default first tables after_first first_save again 3 default (omega arith)

save_loads_example :
    (first ≡ record default { revision = suc default.revision })
    × (dialogue_state plain 3 7 after_first ≡ ok first)
save_loads_example = save_loads plain_decodes 3 7 default first tables after_first first_save

dialogue_state_loads_example :
    (snapshot : Snapshot) × (dialogue_state plain 3 7 (save_all plain saves tables) ≡ ok snapshot)
    × (is_valid snapshot ≡ true)
unfolding save_dialogue_state is_valid default
dialogue_state_loads_example = dialogue_state_loads plain_decodes tables 7 refl saves 3 refl
