-- ===== src/Store/Economy.antt =====
-- internal/store/economy.go: credits, purchases, grants and uses, each with its row of
-- `economy_events`. Money is a `bigint` and a quantity an `integer` column.
use new_yokosuka_server.Base.{
  ℕ, ◌+◌, ◌-◌, Bool, false, not, ◌&&◌, ◌||◌, String, Option, none, some, List, [], ◌∷◌, ltb, leb,
  ◌==◌, if◌then◌else◌, str_eq, is_some,
}
use new_yokosuka_server.Base.Int.{ℤ, pos, neg_ℕ, pos_part, neg_part}
use new_yokosuka_server.Base.Maps.{put}
use new_yokosuka_server.Store.Tables.{
  Db, Character, EconomyEvent, EconomyKind, yen_credit, yen_spend, item_grant, item_consume,
  put_item,
}
use new_yokosuka_server.Store.Transaction.{
  Tx, Result, ok, err, ◌>>=◌, ◌>>◌, return, transact, require_positive, insufficient,
  duplicate_event, no_rows, sql_error,
}

abbrev pub max_int32 : ℕ
max_int32 = 2147483647

abbrev pub max_int64 : ℕ
max_int64 = 9223372036854775807

abbrev pub in_int32 : ℤ → Bool
in_int32 z = leb (pos_part z) max_int32 && leb (neg_part z) 2147483648

-- NULLIF(text, '')
abbrev pub null_if_empty : String → Option String
null_if_empty s = if str_eq s "" then none else some s

abbrev pub has_key : String → Option String → Bool
has_key k none = false
has_key k (some j) = str_eq j k

-- The unique index on (character_id, event_key) where the key is not null.
unfoldable pub has_event : ℕ → String → List EconomyEvent → Bool
has_event c k [] = false
has_event c k (e ∷ es) = (e.character_id == c && has_key k e.event_key) || has_event c k es

-- The foreign key of the nullable column `item_key`.
abbrev pub known_item : Db → String → Bool
known_item db item = str_eq item "" || is_some (db.items item)

-- `event_key` and `item_key` are null when the texts are empty.
unfoldable pub record_economy_event :
    ℕ → String → EconomyKind → String → ℤ → ℤ → String → Tx Db (Unit {0})
record_economy_event c key kind item quantity_delta yen_delta reason db =
    if not (in_int32 quantity_delta)
    then err sql_error
    else if not (str_eq key "") && has_event c key db.economy
    then err duplicate_event
    else if not (is_some (db.characters c)) || not (known_item db item)
    then err sql_error
    else ok (
      tt,
      record db {
        economy =
            record {
              character_id = c;
              event_key = null_if_empty key;
              kind = kind;
              item_key = null_if_empty item;
              quantity_delta = quantity_delta;
              yen_delta = yen_delta;
              reason = reason;
            }
            ∷ db.economy;
      },
    )

abbrev pub set_yen : Db → ℕ → Character → ℕ → Db
set_yen db c row yen = record db {
  characters = put db.characters c (some (record row { yen = yen }));
}

-- UPDATE characters SET yen = yen + n WHERE id = c AND deleted_at IS NULL RETURNING yen
unfoldable pub add_yen : ℕ → ℕ → Tx Db ℕ
add_yen c n db = elim (db.characters c) [
  | none ↦ err no_rows
  | some row ↦
      if row.deleted
      then err no_rows
      else if ltb max_int64 (row.yen + n)
      then err sql_error
      else ok (row.yen + n, set_yen db c row (row.yen + n))
]

-- UPDATE characters SET yen = yen - n WHERE … AND yen >= n RETURNING yen, with ErrNoRows read as
-- ErrInsufficient.
unfoldable pub take_yen : ℕ → ℕ → Tx Db ℕ
take_yen c n db = elim (db.characters c) [
  | none ↦ err insufficient
  | some row ↦
      if row.deleted || ltb row.yen n
      then err insufficient
      else ok (row.yen - n, set_yen db c row (row.yen - n))
]

unfoldable pub credit_yen_tx : ℕ → ℤ → String → String → Tx Db ℕ
credit_yen_tx c amount event_key reason = do
  n ← require_positive amount
  record_economy_event c event_key yen_credit "" (pos 0) (pos n) reason
  add_yen c n

unfoldable pub credit_yen : ℕ → ℤ → String → String → Db → Result ℕ × Db
unfolding credit_yen_tx
credit_yen c amount event_key reason = transact (credit_yen_tx c amount event_key reason)

unfoldable pub spend_yen_tx : ℕ → ℤ → String → String → Tx Db ℕ
spend_yen_tx c amount event_key reason = do
  n ← require_positive amount
  balance ← take_yen c n
  record_economy_event c event_key yen_spend "" (pos 0) (neg_ℕ n) reason
  return balance

unfoldable pub spend_yen : ℕ → ℤ → String → String → Db → Result ℕ × Db
unfolding spend_yen_tx
spend_yen c amount event_key reason = transact (spend_yen_tx c amount event_key reason)

-- INSERT … SELECT … FROM item_definitions WHERE key = item AND n <= max_stack
-- ON CONFLICT DO UPDATE … WHERE the sum <= max_stack RETURNING quantity
unfoldable pub add_item : ℕ → String → ℕ → Tx Db ℕ
add_item c item n db = elim (db.items item) [
  | none ↦ err insufficient
  | some def ↦ if ltb def.max_stack n then err insufficient else elim (db.inventory c item) [
    | none ↦ ok (n, record db { inventory = put_item db.inventory c item (some n) })
    | some held ↦
        if ltb max_int32 (held + n)
        then err sql_error
        else if ltb def.max_stack (held + n)
        then err insufficient
        else ok (held + n, record db { inventory = put_item db.inventory c item (some (held + n)) })
  ]
]

unfoldable pub grant_item_tx : ℕ → String → ℤ → String → String → Tx Db ℕ
grant_item_tx c item quantity event_key reason = do
  n ← require_positive quantity
  record_economy_event c event_key item_grant item (pos n) (pos 0) reason
  add_item c item n

unfoldable pub grant_item : ℕ → String → ℤ → String → String → Db → Result ℕ × Db
unfolding grant_item_tx
grant_item c item quantity event_key reason =
    transact (grant_item_tx c item quantity event_key reason)

-- The locked SELECT, then DELETE of a row that falls to zero or UPDATE of one that does not.
unfoldable pub remove_item : ℕ → String → ℕ → Tx Db ℕ
remove_item c item n db = elim (db.inventory c item) [
  | none ↦ err insufficient
  | some held ↦
      if ltb held n
      then err insufficient
      else let left = held - n in
        ok (
          left,
          record db {
            inventory = put_item db.inventory c item (if left == 0 then none else some left);
          },
        )
]

unfoldable pub consume_item_tx : ℕ → String → ℤ → String → Tx Db ℕ
consume_item_tx c item quantity reason = do
  n ← require_positive quantity
  left ← remove_item c item n
  record_economy_event c "" item_consume item (neg_ℕ n) (pos 0) reason
  return left

unfoldable pub consume_item : ℕ → String → ℤ → String → Db → Result ℕ × Db
unfolding consume_item_tx
consume_item c item quantity reason = transact (consume_item_tx c item quantity reason)
