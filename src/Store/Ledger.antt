-- ===== src/Store/Ledger.antt =====
-- The books that `economy_events` keeps of a character's money and items.
pub mod Steps
pub mod Economy
pub mod Progression
pub mod Vending
use new_yokosuka_server.Base.{
  ℕ, ◌+◌, ◌≡◌, refl, arith, String, Option, none, some, List, [], ◌∷◌, ◌==◌, ◌&&◌, if◌then◌else◌,
}
use new_yokosuka_server.Base.Int.{pos_part, neg_part}
use new_yokosuka_server.Store.Tables.{Db, Character, EconomyEvent}
use new_yokosuka_server.Store.Economy.{has_key, null_if_empty}

-- What a character has, with 0 for a missing row.
abbrev pub yen_at : Option Character → ℕ
yen_at none = 0
yen_at (some row) = row.yen

abbrev pub quantity_at : Option ℕ → ℕ
quantity_at none = 0
quantity_at (some n) = n

-- Money that the events of a character bring in, and take out.
abbrev pub yen_in : ℕ → List EconomyEvent → ℕ
yen_in c [] = 0
yen_in c (e ∷ es) = (if e.character_id == c then pos_part e.yen_delta else 0) + yen_in c es

abbrev pub yen_out : ℕ → List EconomyEvent → ℕ
yen_out c [] = 0
yen_out c (e ∷ es) = (if e.character_id == c then neg_part e.yen_delta else 0) + yen_out c es

-- Items of one key that the events of a character bring in, and take out.
abbrev pub items_in : ℕ → String → List EconomyEvent → ℕ
items_in c k [] = 0
items_in c k (e ∷ es) =
    (if e.character_id == c && has_key k e.item_key then pos_part e.quantity_delta else 0)
    + items_in c k es

abbrev pub items_out : ℕ → String → List EconomyEvent → ℕ
items_out c k [] = 0
items_out c k (e ∷ es) =
    (if e.character_id == c && has_key k e.item_key then neg_part e.quantity_delta else 0)
    + items_out c k es

-- From one state to the next, the change of every balance is what the new events say.
pub record Kept (old new : Db) : Type 0 where
  pub yen :
      (c : ℕ)
      → yen_at (new.characters c) + yen_out c new.economy + yen_in c old.economy
        ≡ yen_at (old.characters c) + yen_out c old.economy + yen_in c new.economy
  pub items :
      (c : ℕ) (k : String)
      → quantity_at (new.inventory c k) + items_out c k new.economy + items_in c k old.economy
        ≡ quantity_at (old.inventory c k) + items_out c k old.economy + items_in c k new.economy

-- `n` on the books of `c`, and nothing on those of another character.
pub only : ℕ → ℕ → ℕ → ℕ
only c d n = if c == d then n else 0

pub only_item : ℕ → String → ℕ → String → ℕ → ℕ
only_item c item d k n = if c == d && has_key k (null_if_empty item) then n else 0

-- What a step adds to a balance and takes from it, and what it books as come in and gone out.
pub record Move : Type 0 where
  pub up : ℕ
  pub down : ℕ
  pub credit : ℕ
  pub debit : ℕ

abbrev pub still : Move
still = record { up = 0; down = 0; credit = 0; debit = 0 }

abbrev pub ups : ℕ → Move
ups n = record still { up = n }

abbrev pub downs : ℕ → Move
downs n = record still { down = n }

-- The money of `d` moves by `y`, and what `d` has of the item `k` by `i`.
pub record Step (d : ℕ) (k : String) (old new : Db) (y i : Move) : Type 0 where
  pub yen : yen_at (new.characters d) + y.down ≡ yen_at (old.characters d) + y.up
  pub yen_credit : yen_in d new.economy ≡ yen_in d old.economy + y.credit
  pub yen_debit : yen_out d new.economy ≡ yen_out d old.economy + y.debit
  pub items : quantity_at (new.inventory d k) + i.down ≡ quantity_at (old.inventory d k) + i.up
  pub item_credit : items_in d k new.economy ≡ items_in d k old.economy + i.credit
  pub item_debit : items_out d k new.economy ≡ items_out d k old.economy + i.debit

-- The same for one character and one item, and from there for all.
abbrev pub KeptAt : ℕ → String → Db → Db → Type 0
KeptAt c k old new =
    (yen_at (new.characters c) + yen_out c new.economy + yen_in c old.economy
      ≡ yen_at (old.characters c) + yen_out c old.economy + yen_in c new.economy)
    × (quantity_at (new.inventory c k) + items_out c k new.economy + items_in c k old.economy
        ≡ quantity_at (old.inventory c k) + items_out c k old.economy + items_in c k new.economy)

pub Kept-intro : {old new : Db} → ((c : ℕ) (k : String) → KeptAt c k old new) → Kept old new
Kept-intro h = record { yen = λ c. (h c "").0; items = λ c k. (h c k).1 }

pub Kept-refl : (db : Db) → Kept db db
Kept-refl db = record { yen = λ c. refl; items = λ c k. refl }

pub Kept-trans : {a b c : Db} → Kept a b → Kept b c → Kept a c
Kept-trans p q = record {
  yen = λ c. omega (arith, p.yen c, q.yen c);
  items = λ c k. omega (arith, p.items c k, q.items c k);
}

pub only_zero : (c d : ℕ) → only c d 0 ≡ 0
unfolding only
only_zero c d = ground arith

pub only_item_zero : (c : ℕ) (item : String) (d : ℕ) (k : String) → only_item c item d k 0 ≡ 0
unfolding only_item
only_item_zero c item d k = ground arith
