-- ===== src/Store/Charge.antt =====
-- A new purchase of a drink takes its price, and nothing more.
use new_yokosuka_server.Base.{
  ℕ, zero, suc, ◌+◌, ◌≡◌, sym, ap, subst, ◌∙◌, Bool, Bool-cases, inl, inr, ◌||◌, ◌==◌, String,
  Option, none, some, arith, str_eq, Option-cases,
}
use new_yokosuka_server.Base.Int.{ℤ, pos, negsuc}
use new_yokosuka_server.Base.Text.{trim_space}
use new_yokosuka_server.Store.Tables.{Db, PurchaseRow, EconomyKind, Character}
use new_yokosuka_server.Store.Transaction.{Result, ok, after_bind, require_positive, transact_ok}
use new_yokosuka_server.Store.Economy.{take_yen, record_economy_event}
use new_yokosuka_server.Store.Vending.{
  VendingPurchase, purchase_of, grant_winning_can, insert_purchase, inventory_of, new_purchase,
  serve_request, existing_purchase, purchase_tx, checked_purchase, purchase_vending_drink,
}
use new_yokosuka_server.Store.Ledger.{yen_at}

take_yen_takes :
    (c n : ℕ) (s t : Db) {b : ℕ}
    → take_yen c n s ≡ ok (b, t)
    → (yen_at (s.characters c) ≡ b + n) × (yen_at (t.characters c) ≡ b)
unfolding take_yen
take_yen_takes c n s t h = elim (Option-cases (s.characters c)) [
  | inl missing ↦ absurd (ground (arith, missing, h))
  | inr (row, found) ↦ (ground (arith, found, h), ground (arith, found, h))
]

grant_winning_can-characters :
    (c : ℕ) (winning : Bool) (s t : Db) {g : Bool}
    → grant_winning_can c winning s ≡ ok (g, t)
    → t.characters ≡ s.characters
unfolding grant_winning_can
grant_winning_can-characters c winning s t h = ground (arith, h)

insert_purchase-characters :
    (c : ℕ) (r : String) (row : PurchaseRow) (s t : Db) {a : Unit {0}}
    → insert_purchase c r row s ≡ ok (a, t)
    → t.characters ≡ s.characters
unfolding insert_purchase
insert_purchase-characters c r row s t h = ground (arith, h)

record_economy_event-characters :
    (c : ℕ) (key : String) (kind : EconomyKind) (item : String) (q y : ℤ) (reason : String)
    (s t : Db) {a : Unit {0}}
    → record_economy_event c key kind item q y reason s ≡ ok (a, t)
    → t.characters ≡ s.characters
unfolding record_economy_event
record_economy_event-characters c key kind item q y reason s t h = ground (arith, h)

-- The character had what is left and the price, and has what is left.
record Charges (c n : ℕ) (s : Db) (p : VendingPurchase) (t : Db) : Type 0 where
  price : p.price ≡ n
  before : yen_at (s.characters c) ≡ p.yen + n
  after : yen_at (t.characters c) ≡ p.yen

inventory_of-characters :
    (c : ℕ) (s t : Db) {held : String → Option ℕ}
    → inventory_of c s ≡ ok (held, t)
    → t.characters ≡ s.characters
unfolding inventory_of
inventory_of-characters c s t h = ground (arith, h)

sold_as :
    (r : String) (row : PurchaseRow) (yen : ℕ) (held : String → Option ℕ) (s t : Db)
    (p : VendingPurchase)
    → ◌≡◌ {A = Result (VendingPurchase × Db)} (ok (purchase_of r row yen held, s)) (ok (p, t))
    → (p.price ≡ row.price) × (p.yen ≡ yen) × (t.characters ≡ s.characters)
sold_as r row yen held s t p h = (ground (arith, h), ground (arith, h), ground (arith, h))

new_purchase-Charges :
    (c : ℕ) (r m d : String) (n : ℕ) (winning : Bool) (s t : Db) (p : VendingPurchase)
    → new_purchase c r m d n winning s ≡ ok (p, t)
    → Charges c n s p t
unfolding new_purchase
new_purchase-Charges c r m d n winning s t p h = after_bind _ _ _ h λ balance u e h.
    after_bind _ _ _ h λ granted v f h. after_bind _ _ _ h λ _ w g h. after_bind _ _ _ h λ _ x i h.
      after_bind _ _ _ h λ held y j h.
        let (before, after) = take_yen_takes c n s u e in
        let (price, yen, last) = sold_as r _ balance held y t p h in
        let kept =
          last
          ∙ inventory_of-characters c x y j
          ∙ record_economy_event-characters c _ _ _ _ _ _ w x i
          ∙ insert_purchase-characters c r _ v w g
          ∙ grant_winning_can-characters c winning u v f in
        record {
          price = price;
          before = before ∙ ap (λ b. b + n) (sym yen);
          after =
              ap (λ (characters : ℕ → Option Character). yen_at (characters c)) kept
              ∙ after
              ∙ sym yen;
        }

serve_request-Charges :
    (c : ℕ) (r m d : String) (n : ℕ) (winning : Bool) (existing : Option PurchaseRow) (s t : Db)
    (p : VendingPurchase)
    → existing ≡ none
    → serve_request c r m d n winning existing s ≡ ok (p, t)
    → Charges c n s p t
unfolding serve_request
serve_request-Charges c r m d n winning none s t p e h =
    new_purchase-Charges c r m d n winning s t p h
serve_request-Charges c r m d n winning (some row) s t p e h = absurd (cc)

existing_purchase-same :
    (c : ℕ) (r : String) (s u : Db) {existing : Option PurchaseRow}
    → existing_purchase c r s ≡ ok (existing, u)
    → (existing ≡ s.purchases c r) × (s ≡ u)
unfolding existing_purchase
existing_purchase-same c r s u h = (ground (arith, h), ground (arith, h))

purchase_tx-Charges :
    (c : ℕ) (r m d : String) (n : ℕ) (winning : Bool) (s t : Db) (p : VendingPurchase)
    → s.purchases c r ≡ none
    → purchase_tx c r m d n winning s ≡ ok (p, t)
    → Charges c n s p t
unfolding purchase_tx
purchase_tx-Charges c r m d n winning s t p new h = after_bind _ _ _ h λ existing u e h.
    let (found, same) = existing_purchase-same c r s u e in
    subst (λ v. Charges c n v p t) (sym same)
      (serve_request-Charges c r m d n winning existing u t p (found ∙ new) h)

require_positive-pos :
    (price : ℤ) (s u : Db) {n : ℕ}
    → require_positive price s ≡ ok (n, u)
    → (price ≡ pos n) × (s ≡ u)
unfolding require_positive
require_positive-pos (pos zero) s u h = absurd (cc)
require_positive-pos (pos (suc k)) s u h = (ground (arith, h), ground (arith, h))
require_positive-pos (negsuc k) s u h = absurd (cc)

checked_charges :
    (c : ℕ) (r m d : String) (price : ℤ) (winning : Bool) (s t : Db) (p : VendingPurchase)
    → s.purchases c r ≡ none
    → checked_purchase c r m d price winning s ≡ ok (p, t)
    → (pos p.price ≡ price)
      × (yen_at (s.characters c) ≡ p.yen + p.price)
      × (yen_at (t.characters c) ≡ p.yen)
unfolding checked_purchase
checked_charges c r m d price winning s t p new h =
    elim (Bool-cases (c == 0 || str_eq r "" || str_eq m "" || str_eq d "")) [
      | inl refused ↦ absurd (ground (arith, refused, h))
      | inr checked ↦ after_bind _ _ _ (rw checked at h) λ n u e h.
          let (asked, same) = require_positive-pos price s u e in
          let charged =
            purchase_tx-Charges c r m d n winning u t p
              (subst (λ (v : Db). v.purchases c r ≡ none) same new) h in
          (
            ap pos charged.price ∙ sym asked,
            ap (λ (v : Db). yen_at (v.characters c)) same
                ∙ charged.before
                ∙ ap (λ k. p.yen + k) (sym charged.price),
            charged.after,
          )
    ]

-- A purchase under a request that was not served before, if it succeeds, returns the price that was
-- asked; the character had the returned balance and the price, and now has the returned balance.
pub purchase_charges :
    (c : ℕ) (request_id machine_id drink_key : String) (price : ℤ) (winning : Bool) (db : Db)
    (p : VendingPurchase)
    → db.purchases c (trim_space request_id) ≡ none
    → (purchase_vending_drink c request_id machine_id drink_key price winning db).0 ≡ ok p
    → (pos p.price ≡ price)
      × (yen_at (db.characters c) ≡ p.yen + p.price)
      × (yen_at (
            (purchase_vending_drink c request_id machine_id drink_key price winning db).1.characters
              c)
          ≡ p.yen)
unfolding purchase_vending_drink
purchase_charges c request_id machine_id drink_key price winning db p new h =
    checked_charges c (trim_space request_id) (trim_space machine_id) (trim_space drink_key) price
      winning db _ p new (transact_ok _ db h)
