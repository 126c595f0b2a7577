-- ===== src/Store/History/Books.antt =====
-- The books over a whole history.
use new_yokosuka_server.Base.{List, [], ◌∷◌}
use new_yokosuka_server.Base.Lists.{All}
use new_yokosuka_server.Store.Tables.{Db}
use new_yokosuka_server.Store.Ledger.{Kept, Kept-refl, Kept-trans}
use new_yokosuka_server.Store.Ledger.Economy.{
  credit_yen-Kept, spend_yen-Kept, grant_item-Kept, consume_item-Kept,
}
use new_yokosuka_server.Store.Ledger.Progression.{
  award_experience-Kept, apply_damage-Kept, heal_character-Kept, use_healing_item-Kept,
}
use new_yokosuka_server.Store.Ledger.Vending.{purchase_vending_drink-Kept}
use new_yokosuka_server.Store.History.{
  Op, credit, spend, grant, consume, award, damage, heal, use_item, buy, step, run, NamesItem,
}

step-Kept : (op : Op) (db : Db) → NamesItem op → Kept db (step op db)
unfolding step
step-Kept (credit c amount key reason) db h = credit_yen-Kept c amount key reason db
step-Kept (spend c amount key reason) db h = spend_yen-Kept c amount key reason db
step-Kept (grant c item quantity key reason) db h = grant_item-Kept c item quantity key reason db h
step-Kept (consume c item quantity reason) db h = consume_item-Kept c item quantity reason db h
step-Kept (award c amount key reason) db h = award_experience-Kept c amount key reason db
step-Kept (damage c amount key reason) db h = apply_damage-Kept c amount key reason db
step-Kept (heal c amount key reason) db h = heal_character-Kept c amount key reason db
step-Kept (use_item c item) db h = use_healing_item-Kept c item db h
step-Kept (buy c request_id machine_id drink_key price winning) db h =
    purchase_vending_drink-Kept c request_id machine_id drink_key price winning db

-- Over any operations, each of which names its item if it is on one, the change of every
-- character's money and of every item's quantity is what the new rows of `economy_events` say.
pub run-Kept : (ops : List Op) (db : Db) → All NamesItem ops → Kept db (run ops db)
unfolding run
run-Kept [] db h = Kept-refl db
run-Kept (op ∷ ops) db h = Kept-trans (step-Kept op db h.0) (run-Kept ops (step op db) h.1)
