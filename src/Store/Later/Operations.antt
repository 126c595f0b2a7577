-- ===== src/Store/Later/Operations.antt =====
-- Each operation leads to a later state.
use new_yokosuka_server.Base.{
  ℕ, ◌≤◌, ◌≡◌, inl, inr, ◌||◌, ◌==◌, Bool, Bool-cases, String, Option, none, some, str_eq, arith,
}
use new_yokosuka_server.Base.Int.{ℤ, neg_ℕ, pos}
use new_yokosuka_server.Store.Tables.{Db, ProgressionKind, PurchaseRow}
use new_yokosuka_server.Store.Transaction.{ok, after_bind, transact_lem}
use new_yokosuka_server.Store.Economy.{
  credit_yen, credit_yen_tx, spend_yen, spend_yen_tx, grant_item, grant_item_tx, consume_item,
  consume_item_tx,
}
use new_yokosuka_server.Store.Progression.{
  Progression, clamp_hp, award_experience, award_experience_tx, change_hp_in_tx, apply_damage,
  heal_character, use_healing_item, use_healing_item_tx,
}
use new_yokosuka_server.Store.Vending.{
  VendingPurchase, new_purchase, serve_request, purchase_tx, checked_purchase,
  purchase_vending_drink,
}
use new_yokosuka_server.Store.Later.{Later, Later-refl, Later-trans}
use new_yokosuka_server.Store.Later.Steps.{
  require_positive-Later, record_economy_event-Later, add_yen-Later, take_yen-Later, add_item-Later,
  remove_item-Later, return-Later, live_character-Later, or_not_found-Later, set_hp-Later,
  set_experience-Later, record_progression_event-Later, healing_item-Later, require_not_full-Later,
  grant_winning_can-Later, insert_purchase-Later, inventory_of-Later, existing_purchase-Later,
  replay_purchase-Later,
}

infixr 30 ◌then_later◌
abbrev ◌then_later◌ : {a b c : Db} → Later a b → Later b c → Later a c
p then_later q = Later-trans p q

pub credit_yen-Later :
    (c : ℕ) (amount : ℤ) (key reason : String) (db : Db)
    → Later db (credit_yen c amount key reason db).1
unfolding credit_yen credit_yen_tx
credit_yen-Later c amount key reason db =
    transact_lem (Later db) (credit_yen_tx c amount key reason) db (Later-refl db) λ _ t h.
      after_bind _ _ _ h λ n u e h. after_bind _ _ _ h λ _ v f h.
        (require_positive-Later amount e).0
        then_later record_economy_event-Later c key _ _ _ _ reason f
        then_later add_yen-Later c n h

pub spend_yen-Later :
    (c : ℕ) (amount : ℤ) (key reason : String) (db : Db)
    → Later db (spend_yen c amount key reason db).1
unfolding spend_yen spend_yen_tx
spend_yen-Later c amount key reason db =
    transact_lem (Later db) (spend_yen_tx c amount key reason) db (Later-refl db) λ _ t h.
      after_bind _ _ _ h λ n u e h. after_bind _ _ _ h λ _ v f h. after_bind _ _ _ h λ _ w g h.
        (require_positive-Later amount e).0
        then_later take_yen-Later c n f
        then_later record_economy_event-Later c key _ _ _ _ reason g
        then_later return-Later _ h

pub grant_item-Later :
    (c : ℕ) (item : String) (quantity : ℤ) (key reason : String) (db : Db)
    → Later db (grant_item c item quantity key reason db).1
unfolding grant_item grant_item_tx
grant_item-Later c item quantity key reason db =
    transact_lem (Later db) (grant_item_tx c item quantity key reason) db (Later-refl db) λ _ t h.
      after_bind _ _ _ h λ n u e h. after_bind _ _ _ h λ _ v f h.
        (require_positive-Later quantity e).0
        then_later record_economy_event-Later c key _ item _ _ reason f
        then_later add_item-Later c item n (require_positive-Later quantity e).1 h

pub consume_item-Later :
    (c : ℕ) (item : String) (quantity : ℤ) (reason : String) (db : Db)
    → Later db (consume_item c item quantity reason db).1
unfolding consume_item consume_item_tx
consume_item-Later c item quantity reason db =
    transact_lem (Later db) (consume_item_tx c item quantity reason) db (Later-refl db) λ _ t h.
      after_bind _ _ _ h λ n u e h. after_bind _ _ _ h λ _ v f h. after_bind _ _ _ h λ _ w g h.
        (require_positive-Later quantity e).0
        then_later remove_item-Later c item n f
        then_later record_economy_event-Later c "" _ item _ _ reason g
        then_later return-Later _ h

clamp_hp-le : (max_hp current_hp : ℕ) (delta : ℤ) → clamp_hp max_hp current_hp delta ≤ max_hp
unfolding clamp_hp
clamp_hp-le max_hp current_hp delta = omega arith

change_hp_in_tx-Later :
    (c : ℕ) (delta : ℤ) (kind : ProgressionKind) (key reason : String) (s t : Db) {p : Progression}
    → change_hp_in_tx c delta kind key reason s ≡ ok (p, t)
    → Later s t
unfolding change_hp_in_tx
change_hp_in_tx-Later c delta kind key reason s t h = after_bind _ _ _ h λ row u e h.
    after_bind _ _ _ h λ _ v f h. after_bind _ _ _ h λ _ w g h.
      (or_not_found-Later c e).0
      then_later set_hp-Later c row _ (or_not_found-Later c e).1
          (clamp_hp-le row.max_hp row.current_hp delta) f
      then_later record_progression_event-Later c key kind 0 _ reason g
      then_later return-Later _ h

pub award_experience-Later :
    (c : ℕ) (amount : ℤ) (key reason : String) (db : Db)
    → Later db (award_experience c amount key reason db).1
unfolding award_experience award_experience_tx
award_experience-Later c amount key reason db =
    transact_lem (Later db) (award_experience_tx c amount key reason) db (Later-refl db) λ _ t h.
      after_bind _ _ _ h λ n u e h. after_bind _ _ _ h λ _ v f h. after_bind _ _ _ h λ row w g h.
        after_bind _ _ _ h λ _ x i h.
          (require_positive-Later amount e).0
          then_later record_progression_event-Later c key _ n _ reason f
          then_later (live_character-Later c g).0
          then_later set_experience-Later c row _ (live_character-Later c g).1 i
          then_later return-Later _ h

pub apply_damage-Later :
    (c : ℕ) (amount : ℤ) (key reason : String) (db : Db)
    → Later db (apply_damage c amount key reason db).1
unfolding apply_damage
apply_damage-Later c amount key reason db = transact_lem (Later db) _ db (Later-refl db) λ _ t h.
    after_bind _ _ _ h λ n u e h.
      (require_positive-Later amount e).0
      then_later change_hp_in_tx-Later c (neg_ℕ n) _ key reason u t h

pub heal_character-Later :
    (c : ℕ) (amount : ℤ) (key reason : String) (db : Db)
    → Later db (heal_character c amount key reason db).1
unfolding heal_character
heal_character-Later c amount key reason db = transact_lem (Later db) _ db (Later-refl db) λ _ t h.
    after_bind _ _ _ h λ n u e h.
      (require_positive-Later amount e).0
      then_later change_hp_in_tx-Later c (pos n) _ key reason u t h

pub use_healing_item-Later :
    (c : ℕ) (item : String) (db : Db) → Later db (use_healing_item c item db).1
unfolding use_healing_item use_healing_item_tx
use_healing_item-Later c item db =
    transact_lem (Later db) (use_healing_item_tx c item) db (Later-refl db) λ _ t h.
      after_bind _ _ _ h λ r u e h. after_bind _ _ _ h λ row v f h. after_bind _ _ _ h λ _ w g h.
        after_bind _ _ _ h λ _ x i h. after_bind _ _ _ h λ _ y j h. after_bind _ _ _ h λ _ z l h.
          healing_item-Later c item e
          then_later (live_character-Later c f).0
          then_later require_not_full-Later row g
          then_later remove_item-Later c item 1 i
          then_later record_economy_event-Later c "" _ item _ _ _ j
          then_later change_hp_in_tx-Later c r.0 _ _ _ y z l
          then_later return-Later _ h

new_purchase-Later :
    (c : ℕ) (request_id machine_id drink_key : String) (price : ℕ) (winning : Bool) (s t : Db)
    {p : VendingPurchase}
    → new_purchase c request_id machine_id drink_key price winning s ≡ ok (p, t)
    → Later s t
unfolding new_purchase
new_purchase-Later c request_id machine_id drink_key price winning s t h =
    after_bind _ _ _ h λ balance u e h. after_bind _ _ _ h λ granted v f h.
      after_bind _ _ _ h λ _ w g h. after_bind _ _ _ h λ _ x i h. after_bind _ _ _ h λ _ y j h.
        take_yen-Later c price e
        then_later grant_winning_can-Later c winning granted f
        then_later insert_purchase-Later c request_id _ g
        then_later record_economy_event-Later c _ _ _ _ _ _ i
        then_later inventory_of-Later c j
        then_later return-Later _ h

serve_request-Later :
    (c : ℕ) (request_id machine_id drink_key : String) (price : ℕ) (winning : Bool)
    (existing : Option PurchaseRow) (s t : Db) {p : VendingPurchase}
    → serve_request c request_id machine_id drink_key price winning existing s ≡ ok (p, t)
    → Later s t
unfolding serve_request
serve_request-Later c request_id machine_id drink_key price winning none s t h =
    new_purchase-Later c request_id machine_id drink_key price winning s t h
serve_request-Later c request_id machine_id drink_key price winning (some row) s t h =
    replay_purchase-Later c request_id machine_id drink_key row h

purchase_tx-Later :
    (c : ℕ) (request_id machine_id drink_key : String) (price : ℕ) (winning : Bool) (s t : Db)
    {p : VendingPurchase}
    → purchase_tx c request_id machine_id drink_key price winning s ≡ ok (p, t)
    → Later s t
unfolding purchase_tx
purchase_tx-Later c request_id machine_id drink_key price winning s t h =
    after_bind _ _ _ h λ existing u e h.
      existing_purchase-Later c request_id e
      then_later serve_request-Later c request_id machine_id drink_key price winning existing u t h

checked_purchase-Later :
    (c : ℕ) (request_id machine_id drink_key : String) (price : ℤ) (winning : Bool) (s t : Db)
    {p : VendingPurchase}
    → checked_purchase c request_id machine_id drink_key price winning s ≡ ok (p, t)
    → Later s t
unfolding checked_purchase
checked_purchase-Later c request_id machine_id drink_key price winning s t h =
    elim (Bool-cases
      (c == 0 || str_eq request_id "" || str_eq machine_id "" || str_eq drink_key "")) [
        | inl refused ↦ absurd (ground (arith, refused, h))
        | inr checked ↦ after_bind _ _ _ (rw checked at h) λ n u e h.
            (require_positive-Later price e).0
            then_later purchase_tx-Later c request_id machine_id drink_key n winning u t h
      ]

pub purchase_vending_drink-Later :
    (c : ℕ) (request_id machine_id drink_key : String) (price : ℤ) (winning : Bool) (db : Db)
    → Later db (purchase_vending_drink c request_id machine_id drink_key price winning db).1
unfolding purchase_vending_drink
purchase_vending_drink-Later c request_id machine_id drink_key price winning db =
    transact_lem (Later db) _ db (Later-refl db)
      λ p t h. checked_purchase-Later c _ _ _ price winning db t h
