-- ===== src/Store/Later.antt =====
-- What every later state of the tables keeps of an earlier one.
pub mod Steps
pub mod Operations
use new_yokosuka_server.Base.{ℕ, ◌≤◌, ◌<◌, ◌≡◌, true, String, Option, none, some}
use new_yokosuka_server.Store.Tables.{Db, Character, ItemDefinition, PurchaseRow}
use new_yokosuka_server.Store.Economy.{has_event, max_int64}

-- The CHECK constraints of `characters`, and the range of its `bigint` column.
abbrev pub RowIsSound : Option Character → Type 0
RowIsSound none = Unit
RowIsSound (some row) = (row.current_hp ≤ row.max_hp) × (row.yen ≤ max_int64)

-- A held item is defined, is held at least once, and fits its stack.
abbrev pub StackIsSound : Option ItemDefinition → Option ℕ → Type 0
StackIsSound none none = Unit
StackIsSound none (some held) = ⊥
StackIsSound (some def) none = 0 < def.max_stack
StackIsSound (some def) (some held) = (0 < held) × (held ≤ def.max_stack)

-- The constraints at one character and one item.
abbrev pub IsSoundAt : ℕ → String → Db → Type 0
IsSoundAt c k db = RowIsSound (db.characters c) × StackIsSound (db.items k) (db.inventory c k)

-- The constraints still hold, no event of the ledger is lost, and no purchase is lost or changed.
pub record Later (s t : Db) : Type 0 where
  pub sound : (c : ℕ) (k : String) → IsSoundAt c k s → IsSoundAt c k t
  pub events :
      (c : ℕ) (key : String) → has_event c key s.economy ≡ true → has_event c key t.economy ≡ true
  pub purchases :
      (c : ℕ) (r : String) (row : PurchaseRow)
      → s.purchases c r ≡ some row
      → t.purchases c r ≡ some row

pub Later-refl : (db : Db) → Later db db
Later-refl db = record { sound = λ c k h. h; events = λ c key h. h; purchases = λ c r row h. h }

pub Later-trans : {a b c : Db} → Later a b → Later b c → Later a c
Later-trans p q = record {
  sound = λ c k h. q.sound c k (p.sound c k h);
  events = λ c key h. q.events c key (p.events c key h);
  purchases = λ c r row h. q.purchases c r row (p.purchases c r row h);
}
