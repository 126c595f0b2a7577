-- ===== src/Store/Ledger/Vending.antt =====
-- A vending purchase keeps the books.
use new_yokosuka_server.Base.{
  ◌==◌, ◌||◌, ℕ, ◌≡◌, inl, inr, Bool, String, Option, none, some, arith, Bool-cases, str_eq,
}
use new_yokosuka_server.Base.Int.{ℤ}
use new_yokosuka_server.Store.Tables.{Db, PurchaseRow}
use new_yokosuka_server.Store.Transaction.{ok, after_bind, transact_lem}
use new_yokosuka_server.Store.Vending.{
  VendingPurchase, checked_purchase, purchase_tx, serve_request, new_purchase,
  purchase_vending_drink,
}
use new_yokosuka_server.Store.Ledger.{Kept, Kept-intro, Kept-refl, Kept-trans}
use new_yokosuka_server.Store.Ledger.Steps.{
  take_yen-Step, grant_winning_can-Step, insert_purchase-Step, record_sale-Step, inventory_of-Step,
  return-Step, replay_purchase-Step, existing_purchase-Step, require_positive-Step,
}

new_purchase-Kept :
    (c : ℕ) (request_id machine_id drink_key : String) (price : ℕ) (winning : Bool) (s t : Db)
    {p : VendingPurchase}
    → new_purchase c request_id machine_id drink_key price winning s ≡ ok (p, t)
    → Kept s t
unfolding new_purchase
new_purchase-Kept c request_id machine_id drink_key price winning s t h =
    after_bind _ _ _ h λ balance u e h. after_bind _ _ _ h λ granted v f h.
      after_bind _ _ _ h λ _ w g h. after_bind _ _ _ h λ _ x i h. after_bind _ _ _ h λ _ y j h.
        Kept-intro λ d k. omega (
          arith,
          take_yen-Step d k c price e,
          grant_winning_can-Step d k c winning granted f,
          insert_purchase-Step d k c request_id _ g,
          record_sale-Step d k c _ _ granted price _ i,
          inventory_of-Step d k c j,
          return-Step d k _ h,
        )

serve_request-Kept :
    (c : ℕ) (request_id machine_id drink_key : String) (price : ℕ) (winning : Bool)
    (existing : Option PurchaseRow) (s t : Db) {p : VendingPurchase}
    → serve_request c request_id machine_id drink_key price winning existing s ≡ ok (p, t)
    → Kept s t
unfolding serve_request
serve_request-Kept c request_id machine_id drink_key price winning none s t h =
    new_purchase-Kept c request_id machine_id drink_key price winning s t h
serve_request-Kept c request_id machine_id drink_key price winning (some row) s t h =
    Kept-intro
      λ d k. omega (arith, replay_purchase-Step d k c request_id machine_id drink_key row h)

purchase_tx-Kept :
    (c : ℕ) (request_id machine_id drink_key : String) (price : ℕ) (winning : Bool) (s t : Db)
    {p : VendingPurchase}
    → purchase_tx c request_id machine_id drink_key price winning s ≡ ok (p, t)
    → Kept s t
unfolding purchase_tx
purchase_tx-Kept c request_id machine_id drink_key price winning s t h =
    after_bind _ _ _ h λ existing u e h.
      Kept-trans {b = u}
        (Kept-intro λ d k. omega (arith, existing_purchase-Step d k c request_id e))
        (serve_request-Kept c request_id machine_id drink_key price winning existing u t h)

checked_purchase-Kept :
    (c : ℕ) (request_id machine_id drink_key : String) (price : ℤ) (winning : Bool) (s t : Db)
    {p : VendingPurchase}
    → checked_purchase c request_id machine_id drink_key price winning s ≡ ok (p, t)
    → Kept s t
unfolding checked_purchase
checked_purchase-Kept c request_id machine_id drink_key price winning s t h =
    elim (Bool-cases
      (c == 0 || str_eq request_id "" || str_eq machine_id "" || str_eq drink_key "")) [
        | inl refused ↦ absurd (ground (arith, refused, h))
        | inr checked ↦ after_bind _ _ _ (rw checked at h) λ n u e h.
            Kept-trans {b = u} (Kept-intro λ d k. omega (arith, require_positive-Step d k price e))
              (purchase_tx-Kept c request_id machine_id drink_key n winning u t h)
      ]

pub purchase_vending_drink-Kept :
    (c : ℕ) (request_id machine_id drink_key : String) (price : ℤ) (winning : Bool) (db : Db)
    → Kept db (purchase_vending_drink c request_id machine_id drink_key price winning db).1
unfolding purchase_vending_drink
purchase_vending_drink-Kept c request_id machine_id drink_key price winning db =
    transact_lem (Kept db) _ db (Kept-refl db)
      λ p t h. checked_purchase-Kept c _ _ _ price winning db t h
