-- ===== src/Store/Ledger/Economy.antt =====
-- The operations of internal/store/economy.go keep the books.
use new_yokosuka_server.Base.{ℕ, ◌≢◌, String, arith}
use new_yokosuka_server.Base.Int.{ℤ, pos}
use new_yokosuka_server.Store.Tables.{Db}
use new_yokosuka_server.Store.Transaction.{after_bind, transact_lem}
use new_yokosuka_server.Store.Economy.{
  credit_yen, credit_yen_tx, spend_yen, spend_yen_tx, grant_item, grant_item_tx, consume_item,
  consume_item_tx,
}
use new_yokosuka_server.Store.Ledger.{Kept, Kept-intro, Kept-refl, only_zero, only_item_zero}
use new_yokosuka_server.Store.Ledger.Steps.{
  require_positive-Step, record_economy_event-Step, add_yen-Step, take_yen-Step, add_item-Step,
  remove_item-Step, record_spend-Step, record_use-Step, return-Step,
}

pub ruleset books = (arith, only_zero, only_item_zero)

pub credit_yen-Kept :
    (c : ℕ) (amount : ℤ) (key reason : String) (db : Db)
    → Kept db (credit_yen c amount key reason db).1
unfolding credit_yen credit_yen_tx
credit_yen-Kept c amount key reason db =
    transact_lem (Kept db) (credit_yen_tx c amount key reason) db (Kept-refl db) λ balance t h.
      after_bind _ _ _ h λ n u e h. after_bind _ _ _ h λ _ v f h. Kept-intro λ d k. omega (
        books,
        require_positive-Step d k amount e,
        record_economy_event-Step d k c key _ "" (pos 0) (pos n) reason f,
        add_yen-Step d k c n h,
      )

pub spend_yen-Kept :
    (c : ℕ) (amount : ℤ) (key reason : String) (db : Db)
    → Kept db (spend_yen c amount key reason db).1
unfolding spend_yen spend_yen_tx
spend_yen-Kept c amount key reason db =
    transact_lem (Kept db) (spend_yen_tx c amount key reason) db (Kept-refl db) λ balance t h.
      after_bind _ _ _ h λ n u e h. after_bind _ _ _ h λ _ v f h. after_bind _ _ _ h λ _ w g h.
        Kept-intro λ d k. omega (
          books,
          require_positive-Step d k amount e,
          take_yen-Step d k c n f,
          record_spend-Step d k c key _ "" 0 n reason g,
          return-Step d k _ h,
        )

pub grant_item-Kept :
    (c : ℕ) (item : String) (quantity : ℤ) (key reason : String) (db : Db)
    → item ≢ ""
    → Kept db (grant_item c item quantity key reason db).1
unfolding grant_item grant_item_tx
grant_item-Kept c item quantity key reason db named =
    transact_lem (Kept db) (grant_item_tx c item quantity key reason) db (Kept-refl db) λ _ t h.
      after_bind _ _ _ h λ n u e h. after_bind _ _ _ h λ _ v f h. Kept-intro λ d k. omega (
        books,
        require_positive-Step d k quantity e,
        record_economy_event-Step d k c key _ item (pos n) (pos 0) reason f,
        add_item-Step d k c item n named h,
      )

pub consume_item-Kept :
    (c : ℕ) (item : String) (quantity : ℤ) (reason : String) (db : Db)
    → item ≢ ""
    → Kept db (consume_item c item quantity reason db).1
unfolding consume_item consume_item_tx
consume_item-Kept c item quantity reason db named =
    transact_lem (Kept db) (consume_item_tx c item quantity reason) db (Kept-refl db) λ _ t h.
      after_bind _ _ _ h λ n u e h. after_bind _ _ _ h λ _ v f h. after_bind _ _ _ h λ _ w g h.
        Kept-intro λ d k. omega (
          books,
          require_positive-Step d k quantity e,
          remove_item-Step d k c item n named f,
          record_use-Step d k c "" _ item n reason g,
          return-Step d k _ h,
        )
