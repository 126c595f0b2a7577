-- ===== src/Store/Ledger/Steps.antt =====
-- What each statement of a transaction does to the books.
use new_yokosuka_server.Base.{
  ℕ, ◌≡◌, ◌≢◌, Bool, true, false, String, Option, some, if◌then◌else◌, arith, eq_iff,
}
use new_yokosuka_server.Base.Int.{ℤ, pos, neg_ℕ, pos_part, neg_part}
use new_yokosuka_server.Store.Tables.{Db, Character, EconomyKind, ProgressionKind, PurchaseRow}
use new_yokosuka_server.Store.Transaction.{ok, return, require_positive}
use new_yokosuka_server.Store.Economy.{
  record_economy_event, add_yen, take_yen, add_item, remove_item,
}
use new_yokosuka_server.Store.Progression.{
  live_character, set_character, set_experience, or_not_found, healing_item, require_not_full,
  record_progression_event,
}
use new_yokosuka_server.Store.Vending.{
  VendingPurchase, grant_winning_can, insert_purchase, existing_purchase, inventory_of,
  replay_purchase,
}
use new_yokosuka_server.Store.Ledger.{Step, still, ups, downs, only, only_item}

module _ (d : ℕ) (k : String) {s t : Db} where
  pub return-Step : {A : Type 0} (x : A) {y : A} → return x s ≡ ok (y, t) → Step d k s t still still
  return-Step x h = ground arith

  pub require_positive-Step :
      (z : ℤ) {n : ℕ} → require_positive z s ≡ ok (n, t) → Step d k s t still still
  unfolding require_positive
  require_positive-Step z h = ground arith

  pub record_economy_event-Step :
      (c : ℕ) (key : String) (kind : EconomyKind) (item : String) (q y : ℤ) (reason : String)
      {a : Unit {0}}
      → record_economy_event c key kind item q y reason s ≡ ok (a, t)
      → Step d k s t
          (record still { credit = only c d (pos_part y); debit = only c d (neg_part y) })
          (record still {
            credit = only_item c item d k (pos_part q);
            debit = only_item c item d k (neg_part q);
          })
  unfolding record_economy_event only only_item
  record_economy_event-Step c key kind item q y reason h = ground arith

  pub add_yen-Step :
      (c n : ℕ) {b : ℕ} → add_yen c n s ≡ ok (b, t) → Step d k s t (ups (only c d n)) still
  unfolding add_yen only
  add_yen-Step c n h = ground arith

  pub take_yen-Step :
      (c n : ℕ) {b : ℕ} → take_yen c n s ≡ ok (b, t) → Step d k s t (downs (only c d n)) still
  unfolding take_yen only
  take_yen-Step c n h = ground arith

  pub add_item-Step :
      (c : ℕ) (item : String) (n : ℕ) {b : ℕ}
      → item ≢ ""
      → add_item c item n s ≡ ok (b, t)
      → Step d k s t still (ups (only_item c item d k n))
  unfolding add_item only_item
  add_item-Step c item n named h = ground (arith, eq_iff k item, eq_iff item k, eq_iff item "")

  pub remove_item-Step :
      (c : ℕ) (item : String) (n : ℕ) {b : ℕ}
      → item ≢ ""
      → remove_item c item n s ≡ ok (b, t)
      → Step d k s t still (downs (only_item c item d k n))
  unfolding remove_item only_item
  remove_item-Step c item n named h = ground (arith, eq_iff k item, eq_iff item k, eq_iff item "")

  pub live_character-Step :
      (c : ℕ) {row : Character}
      → live_character c s ≡ ok (row, t)
      → Step d k s t still still × (t.characters c ≡ some row)
  unfolding live_character
  live_character-Step c h = ground arith

  pub or_not_found-Step :
      (c : ℕ) {row : Character}
      → or_not_found (live_character c) s ≡ ok (row, t)
      → Step d k s t still still × (t.characters c ≡ some row)
  unfolding or_not_found live_character
  or_not_found-Step c h = ground arith

  pub set_character-Step :
      (c : ℕ) (row new : Character) {a : Unit {0}}
      → s.characters c ≡ some row
      → new.yen ≡ row.yen
      → set_character c new s ≡ ok (a, t)
      → Step d k s t still still
  unfolding set_character
  set_character-Step c row new e same h = ground arith

  pub record_progression_event-Step :
      (c : ℕ) (key : String) (kind : ProgressionKind) (x : ℕ) (hp : ℤ) (reason : String)
      {a : Unit {0}}
      → record_progression_event c key kind x hp reason s ≡ ok (a, t)
      → Step d k s t still still
  unfolding record_progression_event
  record_progression_event-Step c key kind x hp reason h = ground arith

  pub healing_item-Step :
      (c : ℕ) (item : String) {r : ℤ × ℕ}
      → healing_item c item s ≡ ok (r, t)
      → Step d k s t still still
  unfolding healing_item
  healing_item-Step c item h = ground arith

  pub require_not_full-Step :
      (row : Character) {a : Unit {0}}
      → require_not_full row s ≡ ok (a, t)
      → Step d k s t still still
  unfolding require_not_full
  require_not_full-Step row h = ground arith

  pub grant_winning_can-Step :
      (c : ℕ) (winning granted : Bool)
      → grant_winning_can c winning s ≡ ok (granted, t)
      → Step d k s t still (ups (if granted then only_item c "winning_can" d k 1 else 0))
  unfolding grant_winning_can only_item
  grant_winning_can-Step c true true h =
      ground (arith, eq_iff k "winning_can", eq_iff "winning_can" k)
  grant_winning_can-Step c true false h = ground arith
  grant_winning_can-Step c false granted h = ground arith

  pub insert_purchase-Step :
      (c : ℕ) (request_id : String) (row : PurchaseRow) {a : Unit {0}}
      → insert_purchase c request_id row s ≡ ok (a, t)
      → Step d k s t still still
  unfolding insert_purchase
  insert_purchase-Step c request_id row h = ground arith

  pub replay_purchase-Step :
      (c : ℕ) (request_id machine_id drink_key : String) (row : PurchaseRow) {p : VendingPurchase}
      → replay_purchase c request_id machine_id drink_key row s ≡ ok (p, t)
      → Step d k s t still still
  unfolding replay_purchase
  replay_purchase-Step c request_id machine_id drink_key row h = ground arith

  pub set_experience-Step :
      (c : ℕ) (row : Character) (n : ℕ) {a : Unit {0}}
      → s.characters c ≡ some row
      → set_experience c row n s ≡ ok (a, t)
      → Step d k s t still still
  unfolding set_experience
  set_experience-Step c row n e h = ground arith

  -- The event of a spending, and that of a use.
  pub record_spend-Step :
      (c : ℕ) (key : String) (kind : EconomyKind) (item : String) (q n : ℕ) (reason : String)
      {a : Unit {0}}
      → record_economy_event c key kind item (pos q) (neg_ℕ n) reason s ≡ ok (a, t)
      → Step d k s t
          (record still { debit = only c d n })
          (record still { credit = only_item c item d k q })
  unfolding record_economy_event only only_item
  record_spend-Step c key kind item q n reason h = ground arith

  pub record_use-Step :
      (c : ℕ) (key : String) (kind : EconomyKind) (item : String) (n : ℕ) (reason : String)
      {a : Unit {0}}
      → record_economy_event c key kind item (neg_ℕ n) (pos 0) reason s ≡ ok (a, t)
      → Step d k s t still (record still { debit = only_item c item d k n })
  unfolding record_economy_event only only_item
  record_use-Step c key kind item n reason h = ground arith

  pub record_sale-Step :
      (c : ℕ) (key : String) (kind : EconomyKind) (granted : Bool) (n : ℕ) (reason : String)
      {a : Unit {0}}
      → record_economy_event c key kind
          (if granted then "winning_can" else "")
          (if granted then pos 1 else pos 0)
          (neg_ℕ n)
          reason
          s
        ≡ ok (a, t)
      → Step d k s t
          (record still { debit = only c d n })
          (record still { credit = if granted then only_item c "winning_can" d k 1 else 0 })
  unfolding record_economy_event only only_item
  record_sale-Step c key kind true n reason h = ground arith
  record_sale-Step c key kind false n reason h = ground arith

  pub inventory_of-Step :
      (c : ℕ) {r : String → Option ℕ} → inventory_of c s ≡ ok (r, t) → Step d k s t still still
  unfolding inventory_of
  inventory_of-Step c h = ground arith

  pub existing_purchase-Step :
      (c : ℕ) (request_id : String) {r : Option PurchaseRow}
      → existing_purchase c request_id s ≡ ok (r, t)
      → Step d k s t still still
  unfolding existing_purchase
  existing_purchase-Step c request_id h = ground arith
