-- ===== src/Store/History/Sound.antt =====
-- What no sequence of operations breaks: the constraints of the tables, and what was recorded.
use new_yokosuka_server.Base.{ℕ, ◌≡◌, true, String, some, List}
use new_yokosuka_server.Store.Tables.{Db, PurchaseRow}
use new_yokosuka_server.Store.Economy.{has_event}
use new_yokosuka_server.Store.Later.{IsSoundAt}
use new_yokosuka_server.Store.History.{Op, run, run-Later}

-- If the row of a character and its stack of an item satisfy the CHECK constraints (health at most
-- the maximum, money in the range of its column, a held item defined, held at least once and at
-- most as often as its stack allows), then they do so after any sequence of operations.
pub run-IsSoundAt :
    (ops : List Op) (db : Db) (c : ℕ) (k : String) → IsSoundAt c k db → IsSoundAt c k (run ops db)
run-IsSoundAt ops db c k h = (run-Later ops db).sound c k h

-- A purchase and an event key that are recorded stay recorded, the purchase unchanged, through any
-- sequence of operations.
pub run_keeps_records :
    (ops : List Op) (db : Db) (c : ℕ) (r : String) (row : PurchaseRow) (d : ℕ) (key : String)
    → db.purchases c r ≡ some row
    → has_event d key db.economy ≡ true
    → ((run ops db).purchases c r ≡ some row) × (has_event d key (run ops db).economy ≡ true)
run_keeps_records ops db c r row d key p e =
    ((run-Later ops db).purchases c r row p, (run-Later ops db).events d key e)
