-- ===== src/Store/Later/Steps.antt =====
-- Each statement of a transaction leads to a later state.
use new_yokosuka_server.Base.{
  ℕ, ◌≡◌, ◌≤◌, ◌<◌, Bool, true, false, String, Option, some, arith, eq_iff,
}
use new_yokosuka_server.Base.Int.{ℤ}
use new_yokosuka_server.Store.Tables.{Db, Character, EconomyKind, ProgressionKind, PurchaseRow}
use new_yokosuka_server.Store.Transaction.{ok, return, require_positive}
use new_yokosuka_server.Store.Economy.{
  record_economy_event, add_yen, take_yen, add_item, remove_item, has_event,
}
use new_yokosuka_server.Store.Progression.{
  live_character, set_character, set_experience, or_not_found, healing_item, require_not_full,
  record_progression_event,
}
use new_yokosuka_server.Store.Vending.{
  VendingPurchase, grant_winning_can, insert_purchase, existing_purchase, inventory_of,
  replay_purchase,
}
use new_yokosuka_server.Store.Later.{Later}

module _ {s t : Db} where
  pub require_positive-Later :
      (z : ℤ) {n : ℕ} → require_positive z s ≡ ok (n, t) → Later s t × (0 < n)
  unfolding require_positive
  require_positive-Later z h = (
    record {
      sound = λ c k v. ground arith;
      events = λ c key v. ground arith;
      purchases = λ c r row v. ground arith;
    },
    ground arith,
  )

  pub record_economy_event-Later :
      (c : ℕ) (key : String) (kind : EconomyKind) (item : String) (q y : ℤ) (reason : String)
      {a : Unit {0}}
      → record_economy_event c key kind item q y reason s ≡ ok (a, t)
      → Later s t
  unfolding record_economy_event has_event
  record_economy_event-Later c key kind item q y reason h = record {
    sound = λ c' k v. ground arith;
    events = λ c' key' v. ground arith;
    purchases = λ c' r row v. ground arith;
  }

  pub add_yen-Later : (c n : ℕ) {b : ℕ} → add_yen c n s ≡ ok (b, t) → Later s t
  unfolding add_yen
  add_yen-Later c n h = record {
    sound = λ c' k v. ground arith;
    events = λ c' key' v. ground arith;
    purchases = λ c' r row v. ground arith;
  }

  pub take_yen-Later : (c n : ℕ) {b : ℕ} → take_yen c n s ≡ ok (b, t) → Later s t
  unfolding take_yen
  take_yen-Later c n h = record {
    sound = λ c' k v. ground arith;
    events = λ c' key' v. ground arith;
    purchases = λ c' r row v. ground arith;
  }

  pub add_item-Later :
      (c : ℕ) (item : String) (n : ℕ) {b : ℕ} → 0 < n → add_item c item n s ≡ ok (b, t) → Later s t
  unfolding add_item
  add_item-Later c item n positive h = record {
    sound = λ c' k v. ground (arith, eq_iff k item);
    events = λ c' key' v. ground arith;
    purchases = λ c' r row v. ground arith;
  }

  pub remove_item-Later :
      (c : ℕ) (item : String) (n : ℕ) {b : ℕ} → remove_item c item n s ≡ ok (b, t) → Later s t
  unfolding remove_item
  remove_item-Later c item n h = record {
    sound = λ c' k v. ground (arith, eq_iff k item);
    events = λ c' key' v. ground arith;
    purchases = λ c' r row v. ground arith;
  }

  pub return-Later : {A : Type 0} (x : A) {y : A} → return x s ≡ ok (y, t) → Later s t
  return-Later x h = record {
    sound = λ c' k v. ground arith;
    events = λ c' key' v. ground arith;
    purchases = λ c' r' row' v. ground arith;
  }

  pub live_character-Later :
      (c : ℕ) {row : Character}
      → live_character c s ≡ ok (row, t)
      → Later s t × (t.characters c ≡ some row)
  unfolding live_character
  live_character-Later c h = (
    record {
      sound = λ c' k v. ground arith;
      events = λ c' key' v. ground arith;
      purchases = λ c' r' row' v. ground arith;
    },
    ground arith,
  )

  pub or_not_found-Later :
      (c : ℕ) {row : Character}
      → or_not_found (live_character c) s ≡ ok (row, t)
      → Later s t × (t.characters c ≡ some row)
  unfolding or_not_found live_character
  or_not_found-Later c h = (
    record {
      sound = λ c' k v. ground arith;
      events = λ c' key' v. ground arith;
      purchases = λ c' r' row' v. ground arith;
    },
    ground arith,
  )

  pub set_hp-Later :
      (c : ℕ) (row : Character) (hp : ℕ) {a : Unit {0}}
      → s.characters c ≡ some row
      → hp ≤ row.max_hp
      → set_character c (record row { current_hp = hp }) s ≡ ok (a, t)
      → Later s t
  unfolding set_character
  set_hp-Later c row hp e le h = record {
    sound = λ c' k v. ground arith;
    events = λ c' key' v. ground arith;
    purchases = λ c' r' row' v. ground arith;
  }

  pub set_experience-Later :
      (c : ℕ) (row : Character) (n : ℕ) {a : Unit {0}}
      → s.characters c ≡ some row
      → set_experience c row n s ≡ ok (a, t)
      → Later s t
  unfolding set_experience
  set_experience-Later c row n e h = record {
    sound = λ c' k v. ground arith;
    events = λ c' key' v. ground arith;
    purchases = λ c' r' row' v. ground arith;
  }

  pub record_progression_event-Later :
      (c : ℕ) (key : String) (kind : ProgressionKind) (x : ℕ) (hp : ℤ) (reason : String)
      {a : Unit {0}}
      → record_progression_event c key kind x hp reason s ≡ ok (a, t)
      → Later s t
  unfolding record_progression_event
  record_progression_event-Later c key kind x hp reason h = record {
    sound = λ c' k v. ground arith;
    events = λ c' key' v. ground arith;
    purchases = λ c' r' row' v. ground arith;
  }

  pub healing_item-Later :
      (c : ℕ) (item : String) {r : ℤ × ℕ} → healing_item c item s ≡ ok (r, t) → Later s t
  unfolding healing_item
  healing_item-Later c item h = record {
    sound = λ c' k v. ground arith;
    events = λ c' key' v. ground arith;
    purchases = λ c' r' row' v. ground arith;
  }

  pub require_not_full-Later :
      (row : Character) {a : Unit {0}} → require_not_full row s ≡ ok (a, t) → Later s t
  unfolding require_not_full
  require_not_full-Later row h = record {
    sound = λ c' k v. ground arith;
    events = λ c' key' v. ground arith;
    purchases = λ c' r' row' v. ground arith;
  }

  pub grant_winning_can-Later :
      (c : ℕ) (winning granted : Bool) → grant_winning_can c winning s ≡ ok (granted, t) → Later s t
  unfolding grant_winning_can
  grant_winning_can-Later c false granted h = record {
    sound = λ c' k v. ground (arith, eq_iff k "winning_can");
    events = λ c' key' v. ground arith;
    purchases = λ c' r' row' v. ground arith;
  }
  grant_winning_can-Later c true granted h = record {
    sound = λ c' k v. ground (arith, eq_iff k "winning_can");
    events = λ c' key' v. ground arith;
    purchases = λ c' r' row' v. ground arith;
  }

  pub insert_purchase-Later :
      (c : ℕ) (request_id : String) (row : PurchaseRow) {a : Unit {0}}
      → insert_purchase c request_id row s ≡ ok (a, t)
      → Later s t
  unfolding insert_purchase
  insert_purchase-Later c request_id row h = record {
    sound = λ c' k v. ground arith;
    events = λ c' key' v. ground arith;
    purchases = λ c' r' row' v. ground (arith, eq_iff r' request_id);
  }

  pub inventory_of-Later :
      (c : ℕ) {r : String → Option ℕ} → inventory_of c s ≡ ok (r, t) → Later s t
  unfolding inventory_of
  inventory_of-Later c h = record {
    sound = λ c' k v. ground arith;
    events = λ c' key' v. ground arith;
    purchases = λ c' r' row' v. ground arith;
  }

  pub existing_purchase-Later :
      (c : ℕ) (request_id : String) {r : Option PurchaseRow}
      → existing_purchase c request_id s ≡ ok (r, t)
      → Later s t
  unfolding existing_purchase
  existing_purchase-Later c request_id h = record {
    sound = λ c' k v. ground arith;
    events = λ c' key' v. ground arith;
    purchases = λ c' r' row' v. ground arith;
  }

  pub replay_purchase-Later :
      (c : ℕ) (request_id machine_id drink_key : String) (row : PurchaseRow) {p : VendingPurchase}
      → replay_purchase c request_id machine_id drink_key row s ≡ ok (p, t)
      → Later s t
  unfolding replay_purchase
  replay_purchase-Later c request_id machine_id drink_key row h = record {
    sound = λ c' k v. ground arith;
    events = λ c' key' v. ground arith;
    purchases = λ c' r' row' v. ground arith;
  }
