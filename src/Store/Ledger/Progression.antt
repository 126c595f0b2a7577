-- ===== src/Store/Ledger/Progression.antt =====
-- The operations of internal/store/progression.go keep the books.
use new_yokosuka_server.Base.{ℕ, ◌≢◌, ◌≡◌, refl, String, arith}
use new_yokosuka_server.Base.Int.{ℤ, pos, neg_ℕ}
use new_yokosuka_server.Store.Tables.{Db, ProgressionKind}
use new_yokosuka_server.Store.Transaction.{ok, after_bind, transact_lem}
use new_yokosuka_server.Store.Progression.{
  Progression, award_experience, award_experience_tx, change_hp_in_tx, apply_damage, heal_character,
  use_healing_item, use_healing_item_tx,
}
use new_yokosuka_server.Store.Ledger.{Kept, Kept-intro, Kept-refl, Step, still}
use new_yokosuka_server.Store.Ledger.Steps.{
  require_positive-Step, record_use-Step, remove_item-Step, return-Step, or_not_found-Step,
  set_character-Step, record_progression_event-Step, healing_item-Step, live_character-Step,
  require_not_full-Step, set_experience-Step,
}
use new_yokosuka_server.Store.Ledger.Economy.{books}

change_hp_in_tx-Step :
    (d : ℕ) (k : String) (c : ℕ) (delta : ℤ) (kind : ProgressionKind) (key reason : String)
    (s t : Db) {p : Progression}
    → change_hp_in_tx c delta kind key reason s ≡ ok (p, t)
    → Step d k s t still still
unfolding change_hp_in_tx
change_hp_in_tx-Step d k c delta kind key reason s t h = after_bind _ _ _ h λ row u e h.
    after_bind _ _ _ h λ _ v f h. after_bind _ _ _ h λ _ w g h.
      let (first, _) = or_not_found-Step d k c e in
      let (_, found) = or_not_found-Step d k c e in
      omega (
        arith,
        first,
        set_character-Step d k c row _ found refl f,
        record_progression_event-Step d k c key kind 0 _ reason g,
        return-Step d k _ h,
      )

pub award_experience-Kept :
    (c : ℕ) (amount : ℤ) (key reason : String) (db : Db)
    → Kept db (award_experience c amount key reason db).1
unfolding award_experience award_experience_tx
award_experience-Kept c amount key reason db =
    transact_lem (Kept db) (award_experience_tx c amount key reason) db (Kept-refl db) λ _ t h.
      after_bind _ _ _ h λ n u e h. after_bind _ _ _ h λ _ v f h. after_bind _ _ _ h λ row w g h.
        after_bind _ _ _ h λ _ x i h. Kept-intro λ d k.
          let (same, found) = live_character-Step d k c g in
          omega (
            arith,
            require_positive-Step d k amount e,
            record_progression_event-Step d k c key _ n _ reason f,
            same,
            set_experience-Step d k c row _ found i,
            return-Step d k _ h,
          )

pub apply_damage-Kept :
    (c : ℕ) (amount : ℤ) (key reason : String) (db : Db)
    → Kept db (apply_damage c amount key reason db).1
unfolding apply_damage
apply_damage-Kept c amount key reason db = transact_lem (Kept db) _ db (Kept-refl db) λ _ t h.
    after_bind _ _ _ h λ n u e h. Kept-intro λ d k. omega (
      arith,
      require_positive-Step d k amount e,
      change_hp_in_tx-Step d k c (neg_ℕ n) _ key reason u t h,
    )

pub heal_character-Kept :
    (c : ℕ) (amount : ℤ) (key reason : String) (db : Db)
    → Kept db (heal_character c amount key reason db).1
unfolding heal_character
heal_character-Kept c amount key reason db = transact_lem (Kept db) _ db (Kept-refl db) λ _ t h.
    after_bind _ _ _ h λ n u e h. Kept-intro λ d k. omega (
      arith,
      require_positive-Step d k amount e,
      change_hp_in_tx-Step d k c (pos n) _ key reason u t h,
    )

pub use_healing_item-Kept :
    (c : ℕ) (item : String) (db : Db) → item ≢ "" → Kept db (use_healing_item c item db).1
unfolding use_healing_item use_healing_item_tx
use_healing_item-Kept c item db named =
    transact_lem (Kept db) (use_healing_item_tx c item) db (Kept-refl db) λ _ t h.
      after_bind _ _ _ h λ r u e h. after_bind _ _ _ h λ row v f h. after_bind _ _ _ h λ _ w g h.
        after_bind _ _ _ h λ _ x i h. after_bind _ _ _ h λ _ y j h. after_bind _ _ _ h λ _ z l h.
          Kept-intro λ d k.
            let (same, _) = live_character-Step d k c f in
            omega (
              books,
              healing_item-Step d k c item e,
              same,
              require_not_full-Step d k row g,
              remove_item-Step d k c item 1 named i,
              record_use-Step d k c "" _ item 1 "heal_hp" j,
              change_hp_in_tx-Step d k c r.0 _ _ _ y z l,
              return-Step d k _ h,
            )
