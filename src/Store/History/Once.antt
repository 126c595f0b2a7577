-- ===== src/Store/History/Once.antt =====
-- What a key or a request stands for is done once, whatever happens in between.
use new_yokosuka_server.Base.{◌∙◌, ℕ, suc, ◌≡◌, ◌≢◌, refl, true, String, List, ◌∷◌, arith, eq_iff}
use new_yokosuka_server.Base.Int.{ℤ, pos}
use new_yokosuka_server.Store.Tables.{Db, EconomyKind}
use new_yokosuka_server.Store.Transaction.{
  ok, err, require_positive, after_bind, duplicate_event, transact_ok, transact_err, bind_ok,
  bind_err,
}
use new_yokosuka_server.Store.Economy.{has_event, record_economy_event, credit_yen, credit_yen_tx}
use new_yokosuka_server.Store.Later.Steps.{add_yen-Later}
use new_yokosuka_server.Store.History.{Op, credit, step, run, run-Later}

record_economy_event-has_event :
    (c : ℕ) (key : String) (kind : EconomyKind) (item : String) (q y : ℤ) (reason : String)
    (s t : Db) {a : Unit {0}}
    → key ≢ ""
    → record_economy_event c key kind item q y reason s ≡ ok (a, t)
    → has_event c key t.economy ≡ true
unfolding record_economy_event has_event
record_economy_event-has_event c key kind item q y reason s t named h =
    ground (arith, eq_iff key "", eq_iff key key)

record_economy_event_again :
    (c : ℕ) (key : String) (kind : EconomyKind) (item : String) (y : ℤ) (reason : String) (s : Db)
    → key ≢ ""
    → has_event c key s.economy ≡ true
    → record_economy_event c key kind item (pos 0) y reason s ≡ err duplicate_event
unfolding record_economy_event
record_economy_event_again c key kind item y reason s named h = ground (arith, eq_iff key "")

credit_yen_again :
    (c n : ℕ) (key reason : String) (s : Db)
    → key ≢ ""
    → has_event c key s.economy ≡ true
    → credit_yen_tx c (pos (suc n)) key reason s ≡ err duplicate_event
unfolding credit_yen_tx require_positive
credit_yen_again c n key reason s named h =
    bind_ok (require_positive (pos (suc n))) _ s refl
    ∙ bind_err _ _ s (record_economy_event_again c key _ "" (pos (suc n)) reason s named h)

credit_yen_tx-has_event :
    (c : ℕ) (amount : ℤ) (key reason : String) (s t : Db) {b : ℕ}
    → key ≢ ""
    → credit_yen_tx c amount key reason s ≡ ok (b, t)
    → has_event c key t.economy ≡ true
unfolding credit_yen_tx
credit_yen_tx-has_event c amount key reason s t named h = after_bind _ _ _ h λ n u e h.
    after_bind _ _ _ h λ _ v f h.
      (add_yen-Later c n h).events c key
        (record_economy_event-has_event c key _ _ _ _ reason u v named f)

-- A credit under a non-empty key that succeeded is not made again: after any later operations, a
-- credit of a positive amount to the same character under the same key returns `duplicate_event`
-- and changes nothing.
pub credit_yen_once :
    (c : ℕ) (amount : ℤ) (key reason : String) (db : Db) (b : ℕ) (ops : List Op) (n : ℕ)
    (reason' : String)
    → key ≢ ""
    → (credit_yen c amount key reason db).0 ≡ ok b
    → credit_yen c (pos (suc n)) key reason' (run (credit c amount key reason ∷ ops) db)
      ≡ (err duplicate_event, run (credit c amount key reason ∷ ops) db)
unfolding credit_yen run step
credit_yen_once c amount key reason db b ops n reason' named h =
    let first = transact_ok (credit_yen_tx c amount key reason) db h in
    let known = credit_yen_tx-has_event c amount key reason db _ named first in
    let later = run (credit c amount key reason ∷ ops) db in
    let kept = (run-Later ops (credit_yen c amount key reason db).1).events c key known in
    transact_err (credit_yen_tx c (pos (suc n)) key reason') later
      (credit_yen_again c n key reason' later named kept)
