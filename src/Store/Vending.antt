-- ===== src/Store/Vending.antt =====
-- internal/store/vending.go: the purchase of a drink, once for each request of a character.
use Prim.Native.String.{◌++◌ as append_text}
use new_yokosuka_server.Base.{
  ℕ, ◌+◌, Bool, true, false, not, ◌||◌, String, Option, none, some, ltb, ◌==◌, if◌then◌else◌,
  str_eq, is_some,
}
use new_yokosuka_server.Base.Int.{ℤ, pos, neg_ℕ}
use new_yokosuka_server.Base.Text.{trim_space}
use new_yokosuka_server.Store.Tables.{Db, PurchaseRow, vending_purchase, put_item}
use new_yokosuka_server.Store.Transaction.{
  Tx, Result, ok, err, ◌>>=◌, ◌>>◌, return, fail, transact, require_positive, duplicate_event,
  no_rows, sql_error, invalid,
}
use new_yokosuka_server.Store.Economy.{take_yen, record_economy_event}

-- The inventory is the character's rows as a map: the order of the listing is left out.
pub record VendingPurchase : Type 0 where
  pub request_id : String
  pub machine_id : String
  pub drink_key : String
  pub price : ℕ
  pub winning_can : Bool
  pub yen : ℕ
  pub inventory : String → Option ℕ

abbrev pub purchase_of : String → PurchaseRow → ℕ → (String → Option ℕ) → VendingPurchase
purchase_of request_id row yen inventory = record {
  request_id = request_id;
  machine_id = row.machine_id;
  drink_key = row.drink_key;
  price = row.price;
  winning_can = row.winning_can;
  yen = yen;
  inventory = inventory;
}

-- A request that was already served: the same selection gets the recorded purchase again.
unfoldable pub replay_purchase : ℕ → String → String → String → PurchaseRow → Tx Db VendingPurchase
replay_purchase c request_id machine_id drink_key existing db =
    if not (str_eq existing.machine_id machine_id) || not (str_eq existing.drink_key drink_key)
    then err duplicate_event
    else elim (db.characters c) [
      | none ↦ err no_rows
      | some row ↦
          if row.deleted
          then err no_rows
          else ok (purchase_of request_id existing row.yen (db.inventory c), db)
    ]

-- The winning can, unless the stack is full; says whether it was granted.
unfoldable pub grant_winning_can : ℕ → Bool → Tx Db Bool
grant_winning_can c false db = ok (false, db)
grant_winning_can c true db = elim (db.items "winning_can") [
  | none ↦ err sql_error
  | some def ↦ elim (db.inventory c "winning_can") [
    | none ↦ ok (true, record db { inventory = put_item db.inventory c "winning_can" (some 1) })
    | some held ↦
        if ltb held def.max_stack
        then ok (
          true,
          record db { inventory = put_item db.inventory c "winning_can" (some (held + 1)) },
        )
        else ok (false, db)
  ]
]

-- INSERT INTO vending_purchases, with its unique key and its foreign key.
unfoldable pub insert_purchase : ℕ → String → PurchaseRow → Tx Db (Unit {0})
insert_purchase c request_id row db =
    if is_some (db.purchases c request_id)
    then err duplicate_event
    else if not (is_some (db.characters c))
    then err sql_error
    else ok (
      tt,
      record db {
        purchases = λ d r.
            if d == c
            then (if str_eq r request_id then some row else db.purchases d r)
            else db.purchases d r;
      },
    )

unfoldable pub inventory_of : ℕ → Tx Db (String → Option ℕ)
inventory_of c db = ok (db.inventory c, db)

unfoldable pub new_purchase : ℕ → String → String → String → ℕ → Bool → Tx Db VendingPurchase
new_purchase c request_id machine_id drink_key price winning = do
  balance ← take_yen c price
  granted ← grant_winning_can c winning
  let row : PurchaseRow = record {
    machine_id = machine_id;
    drink_key = drink_key;
    price = price;
    winning_can = granted;
  }
  insert_purchase c request_id row
  record_economy_event c (append_text "vending:" request_id) vending_purchase
      (if granted then "winning_can" else "") (if granted then pos 1 else pos 0) (neg_ℕ price)
      (append_text "vending machine " (append_text machine_id (append_text ": " drink_key)))
  inventory ← inventory_of c
  return (purchase_of request_id row balance inventory)

unfoldable pub existing_purchase : ℕ → String → Tx Db (Option PurchaseRow)
existing_purchase c request_id db = ok (db.purchases c request_id, db)

-- The branch on the lookup: a purchase that is there, or ErrNoRows.
unfoldable pub serve_request :
    ℕ → String → String → String → ℕ → Bool → Option PurchaseRow → Tx Db VendingPurchase
serve_request c request_id machine_id drink_key price winning (some row) =
    replay_purchase c request_id machine_id drink_key row
serve_request c request_id machine_id drink_key price winning none =
    new_purchase c request_id machine_id drink_key price winning

unfoldable pub purchase_tx : ℕ → String → String → String → ℕ → Bool → Tx Db VendingPurchase
purchase_tx c request_id machine_id drink_key price winning = do
  existing ← existing_purchase c request_id
  serve_request c request_id machine_id drink_key price winning existing

-- The request with its texts trimmed and its price checked.
unfoldable pub checked_purchase : ℕ → String → String → String → ℤ → Bool → Tx Db VendingPurchase
checked_purchase c request_id machine_id drink_key price winning =
    if c == 0 || str_eq request_id "" || str_eq machine_id "" || str_eq drink_key ""
    then fail invalid
    else do n ← require_positive price; purchase_tx c request_id machine_id drink_key n winning

unfoldable pub purchase_vending_drink :
    ℕ → String → String → String → ℤ → Bool → Db → Result VendingPurchase × Db
purchase_vending_drink c request_id machine_id drink_key price winning = transact (
    checked_purchase c (trim_space request_id) (trim_space machine_id) (trim_space drink_key) price
      winning)
