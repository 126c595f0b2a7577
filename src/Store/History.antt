-- ===== src/Store/History.antt =====
-- Any sequence of the operations on the tables, each a transaction of its own.
pub mod Books
pub mod Once
pub mod Replay
pub mod Sound
use new_yokosuka_server.Base.{ℕ, ◌≢◌, Bool, String, List, [], ◌∷◌}
use new_yokosuka_server.Base.Int.{ℤ}
use new_yokosuka_server.Store.Tables.{Db}
use new_yokosuka_server.Store.Economy.{credit_yen, spend_yen, grant_item, consume_item}
use new_yokosuka_server.Store.Progression.{
  award_experience, apply_damage, heal_character, use_healing_item,
}
use new_yokosuka_server.Store.Vending.{purchase_vending_drink}
use new_yokosuka_server.Store.Later.{Later, Later-refl, Later-trans}
use new_yokosuka_server.Store.Later.Operations.{
  credit_yen-Later, spend_yen-Later, grant_item-Later, consume_item-Later, award_experience-Later,
  apply_damage-Later, heal_character-Later, use_healing_item-Later, purchase_vending_drink-Later,
}

pub data Op : Type 0 where
  credit : ℕ → ℤ → String → String → Op
  spend : ℕ → ℤ → String → String → Op
  grant : ℕ → String → ℤ → String → String → Op
  consume : ℕ → String → ℤ → String → Op
  award : ℕ → ℤ → String → String → Op
  damage : ℕ → ℤ → String → String → Op
  heal : ℕ → ℤ → String → String → Op
  use_item : ℕ → String → Op
  buy : ℕ → String → String → String → ℤ → Bool → Op

-- The tables after one operation, whatever it returned.
unfoldable pub step : Op → Db → Db
step (credit c amount key reason) db = (credit_yen c amount key reason db).1
step (spend c amount key reason) db = (spend_yen c amount key reason db).1
step (grant c item quantity key reason) db = (grant_item c item quantity key reason db).1
step (consume c item quantity reason) db = (consume_item c item quantity reason db).1
step (award c amount key reason) db = (award_experience c amount key reason db).1
step (damage c amount key reason) db = (apply_damage c amount key reason db).1
step (heal c amount key reason) db = (heal_character c amount key reason db).1
step (use_item c item) db = (use_healing_item c item db).1
step (buy c request_id machine_id drink_key price winning) db =
    (purchase_vending_drink c request_id machine_id drink_key price winning db).1

unfoldable pub run : List Op → Db → Db
run [] db = db
run (op ∷ ops) db = run ops (step op db)

-- An operation on items names one: the empty text stands for no item in `economy_events`.
abbrev pub NamesItem : Op → Type 0
NamesItem (grant c item quantity key reason) = item ≢ ""
NamesItem (consume c item quantity reason) = item ≢ ""
NamesItem (use_item c item) = item ≢ ""
NamesItem (credit c amount key reason) = Unit
NamesItem (spend c amount key reason) = Unit
NamesItem (award c amount key reason) = Unit
NamesItem (damage c amount key reason) = Unit
NamesItem (heal c amount key reason) = Unit
NamesItem (buy c request_id machine_id drink_key price winning) = Unit

step-Later : (op : Op) (db : Db) → Later db (step op db)
unfolding step
step-Later (credit c amount key reason) db = credit_yen-Later c amount key reason db
step-Later (spend c amount key reason) db = spend_yen-Later c amount key reason db
step-Later (grant c item quantity key reason) db = grant_item-Later c item quantity key reason db
step-Later (consume c item quantity reason) db = consume_item-Later c item quantity reason db
step-Later (award c amount key reason) db = award_experience-Later c amount key reason db
step-Later (damage c amount key reason) db = apply_damage-Later c amount key reason db
step-Later (heal c amount key reason) db = heal_character-Later c amount key reason db
step-Later (use_item c item) db = use_healing_item-Later c item db
step-Later (buy c request_id machine_id drink_key price winning) db =
    purchase_vending_drink-Later c request_id machine_id drink_key price winning db

-- After any operations the CHECK constraints that held still hold, no ledger event is lost, and
-- every recorded purchase is there unchanged.
pub run-Later : (ops : List Op) (db : Db) → Later db (run ops db)
unfolding run
run-Later [] db = Later-refl db
run-Later (op ∷ ops) db = Later-trans (step-Later op db) (run-Later ops (step op db))
