-- ===== src/Store/History/Replay.antt =====
-- A vending request is served once: a repetition gets the recorded purchase and is not charged.
use text.Mathlib.TextPositions.{eq_refl}
use new_yokosuka_server.Base.{
  ℕ, suc, ◌≡◌, refl, ◌∙◌, inl, inr, Bool, Bool-cases, true, false, ◌||◌, ◌==◌, String, Option, none,
  some, List, ◌∷◌, arith, eq_iff, str_eq, ap, sym,
}
use new_yokosuka_server.Base.Int.{ℤ, pos}
use new_yokosuka_server.Base.Text.{trim_space}
use new_yokosuka_server.Store.Tables.{Db, Character, PurchaseRow}
use new_yokosuka_server.Store.Transaction.{
  ok, after_bind, require_positive, transact_ok, transact_done, bind_ok,
}
use new_yokosuka_server.Store.Vending.{
  VendingPurchase, purchase_of, insert_purchase, replay_purchase, existing_purchase, new_purchase,
  serve_request, purchase_tx, checked_purchase, purchase_vending_drink,
}
use new_yokosuka_server.Store.Later.{Later}
use new_yokosuka_server.Store.Later.Steps.{
  record_economy_event-Later, inventory_of-Later, return-Later,
}
use new_yokosuka_server.Store.History.{Op, buy, step, run, run-Later}

-- The purchase stands in the table under its request, for the machine and the drink.
record IsRecorded (c : ℕ) (r m d : String) (p : VendingPurchase) (db : Db) : Type 0 where
  row : PurchaseRow
  found : db.purchases c r ≡ some row
  machine : str_eq row.machine_id m ≡ true
  drink : str_eq row.drink_key d ≡ true
  same : p ≡ purchase_of r row p.yen p.inventory

insert_purchase-purchases :
    (c : ℕ) (r : String) (row : PurchaseRow) (s t : Db) {a : Unit {0}}
    → insert_purchase c r row s ≡ ok (a, t)
    → t.purchases c r ≡ some row
unfolding insert_purchase
insert_purchase-purchases c r row s t h = ground (arith, eq_iff r r)

new_purchase-IsRecorded :
    (c : ℕ) (r m d : String) (price : ℕ) (winning : Bool) (s t : Db) (p : VendingPurchase)
    → new_purchase c r m d price winning s ≡ ok (p, t)
    → IsRecorded c r m d p t
unfolding new_purchase
new_purchase-IsRecorded c r m d price winning s t p h = after_bind _ _ _ h λ balance u e h.
    after_bind _ _ _ h λ granted v f h. after_bind _ _ _ h λ _ w g h. after_bind _ _ _ h λ _ x i h.
      after_bind _ _ _ h λ held y j h. record {
        row = sold granted;
        found = (return-Later _ h).purchases c r (sold granted) (
            (inventory_of-Later c j).purchases c r (sold granted) (
              (record_economy_event-Later c _ _ _ _ _ _ i).purchases c r (sold granted)
                (insert_purchase-purchases c r (sold granted) v w g)));
        machine = eq_refl m;
        drink = eq_refl d;
        same = ground arith;
      }
  where
    sold : Bool → PurchaseRow
    sold granted = record { machine_id = m; drink_key = d; price = price; winning_can = granted }

replay_purchase-IsRecorded :
    (c : ℕ) (r m d : String) (row : PurchaseRow) (s t : Db) (p : VendingPurchase)
    → s.purchases c r ≡ some row
    → replay_purchase c r m d row s ≡ ok (p, t)
    → IsRecorded c r m d p t
unfolding replay_purchase
replay_purchase-IsRecorded c r m d row s t p e h = record {
  row = row;
  found = ground arith;
  machine = ground arith;
  drink = ground arith;
  same = ground arith;
}

serve_request-IsRecorded :
    (c : ℕ) (r m d : String) (price : ℕ) (winning : Bool) (existing : Option PurchaseRow) (s t : Db)
    (p : VendingPurchase)
    → s.purchases c r ≡ existing
    → serve_request c r m d price winning existing s ≡ ok (p, t)
    → IsRecorded c r m d p t
unfolding serve_request
serve_request-IsRecorded c r m d price winning none s t p e h =
    new_purchase-IsRecorded c r m d price winning s t p h
serve_request-IsRecorded c r m d price winning (some row) s t p e h =
    replay_purchase-IsRecorded c r m d row s t p e h

existing_purchase_lem :
    (c : ℕ) (r : String) (s : Db) {existing : Option PurchaseRow} {u : Db}
    → existing_purchase c r s ≡ ok (existing, u)
    → (u.purchases c r ≡ existing)
unfolding existing_purchase
existing_purchase_lem c r s h = ground arith

-- The test of the texts in front of a purchase.
abbrev is_refused : ℕ → String → String → String → Bool
is_refused c r m d = c == 0 || str_eq r "" || str_eq m "" || str_eq d ""

checked_purchase-IsRecorded :
    (c : ℕ) (r m d : String) (price : ℤ) (winning : Bool) (s t : Db) (p : VendingPurchase)
    → checked_purchase c r m d price winning s ≡ ok (p, t)
    → IsRecorded c r m d p t × (is_refused c r m d ≡ false)
unfolding checked_purchase purchase_tx
checked_purchase-IsRecorded c r m d price winning s t p h = elim (Bool-cases (is_refused c r m d)) [
  | inl refused ↦ absurd (ground (arith, refused, h))
  | inr checked ↦ after_bind _ _ _ (rw checked at h) λ n u e h. after_bind _ _ _ h λ existing v f h.
      (
        serve_request-IsRecorded c r m d n winning existing v t p (existing_purchase_lem c r u f) h,
        checked,
      )
]

replay_purchase_again :
    (c : ℕ) (r m d : String) (row : PurchaseRow) (s : Db) (character : Character)
    → str_eq row.machine_id m ≡ true
    → str_eq row.drink_key d ≡ true
    → s.characters c ≡ some character
    → character.deleted ≡ false
    → replay_purchase c r m d row s ≡ ok (purchase_of r row character.yen (s.inventory c), s)
unfolding replay_purchase
replay_purchase_again c r m d row s character e f g h = ground arith

existing_purchase_again :
    (c : ℕ) (r : String) (s : Db) (row : PurchaseRow)
    → s.purchases c r ≡ some row
    → existing_purchase c r s ≡ ok (some row, s)
unfolding existing_purchase
existing_purchase_again c r s row e = ground arith

checked_purchase_again :
    (c : ℕ) (r m d : String) (n : ℕ) (winning : Bool) (s : Db) (row : PurchaseRow)
    (character : Character)
    → is_refused c r m d ≡ false
    → s.purchases c r ≡ some row
    → str_eq row.machine_id m ≡ true
    → str_eq row.drink_key d ≡ true
    → s.characters c ≡ some character
    → character.deleted ≡ false
    → checked_purchase c r m d (pos (suc n)) winning s
      ≡ ok (purchase_of r row character.yen (s.inventory c), s)
unfolding checked_purchase purchase_tx require_positive serve_request
checked_purchase_again c r m d n winning s row character checked e f g i j = rw checked (
    bind_ok (require_positive (pos (suc n))) _ s refl
    ∙ bind_ok _ _ s (existing_purchase_again c r s row e)
    ∙ replay_purchase_again c r m d row s character f g i j)

recorded_purchase_again :
    (c : ℕ) (r m d : String) (p : VendingPurchase) (n : ℕ) (winning : Bool) (s later : Db)
    (character : Character)
    → IsRecorded c r m d p s × (is_refused c r m d ≡ false)
    → Later s later
    → later.characters c ≡ some character
    → character.deleted ≡ false
    → checked_purchase c r m d (pos (suc n)) winning later
      ≡ ok (record p { yen = character.yen; inventory = later.inventory c }, later)
recorded_purchase_again c r m d p n winning s later character (made, checked) kept e live =
    checked_purchase_again c r m d n winning later made.row character checked
      (kept.purchases c r made.row made.found) made.machine made.drink e live
    ∙ ap
        (λ (q : VendingPurchase).
          ok (record q { yen = character.yen; inventory = later.inventory c }, later))
        (sym made.same)

-- A purchase that succeeded is not made again. After any later operations, while the character is
-- not deleted, the same request for the same machine and drink, at any positive price and with any
-- draw, changes nothing and returns the purchase that was made, its price and its winning can, with
-- the balance and the inventory of that later time.
pub purchase_once :
    (c : ℕ) (request_id machine_id drink_key : String) (price : ℤ) (winning : Bool) (db : Db)
    (p : VendingPurchase) (ops : List Op) (n : ℕ) (winning' : Bool) (character : Character)
    → (purchase_vending_drink c request_id machine_id drink_key price winning db).0 ≡ ok p
    → (run (buy c request_id machine_id drink_key price winning ∷ ops) db).characters c
      ≡ some character
    → character.deleted ≡ false
    → purchase_vending_drink c request_id machine_id drink_key
        (pos (suc n))
        winning'
        (run (buy c request_id machine_id drink_key price winning ∷ ops) db)
      ≡ (
        ok (record p {
          yen = character.yen;
          inventory =
              (run (buy c request_id machine_id drink_key price winning ∷ ops) db).inventory c;
        }),
        run (buy c request_id machine_id drink_key price winning ∷ ops) db,
      )
unfolding purchase_vending_drink run step
purchase_once c request_id machine_id drink_key price winning db p ops n winning' character h g
      live =
    let request = trim_space request_id in
    let machine = trim_space machine_id in
    let drink = trim_space drink_key in
    let sold = step (buy c request_id machine_id drink_key price winning) db in
    transact_done (checked_purchase c request machine drink (pos (suc n)) winning') (run ops sold) (
      recorded_purchase_again c request machine drink p n winning' sold (run ops sold) character
        (checked_purchase-IsRecorded c request machine drink price winning db sold p
          (transact_ok (checked_purchase c request machine drink price winning) db h))
        (run-Later ops sold) g live)
