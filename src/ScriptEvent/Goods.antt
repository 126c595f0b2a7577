-- ===== src/ScriptEvent/Goods.antt =====
-- The money and the items that an event stages are those of the tables after its effects.
use new_yokosuka_server.Base.{
  ℕ, ◌+◌, ◌-◌, ◌≡◌, refl, sym, ap, subst, ◌∙◌, Bool, true, false, String, some, arith,
  if◌then◌else◌, ◌≤◌,
}
use new_yokosuka_server.Base.Int.{ℤ, pos, neg_ℕ, ◌+ℤ◌}
use new_yokosuka_server.Base.Maps.{put_text}
use new_yokosuka_server.Floats.{Floats}
use new_yokosuka_server.Store.Tables.{Db}
use new_yokosuka_server.Store.Transaction.{Tx, Result, ok, err, after_bind, bind_ok}
use new_yokosuka_server.Store.Economy.{max_int32, max_int64, add_item, remove_item}
use new_yokosuka_server.Store.Ledger.{quantity_at}
use new_yokosuka_server.Store.Effects.{
  ScriptTables, ScriptEffect, static_argument, positive_argument, apply_yen, apply_item,
  apply_item_effect, on_db, move_yen, required,
}
use new_yokosuka_server.Store.Effects.Finish.{CharacterScriptState}
use new_yokosuka_server.ScriptEvent.State.{
  stage_yen, stage_spend, stage_grant, stage_item, stage_take, stage_give, get_int, wrap_add,
  minus_ℤ,
}
use new_yokosuka_server.ScriptEvent.Agreement.{
  required_ok, Agrees, Agrees-db, Agrees-yen, Agrees-item, record_economy_event-same,
  move_yen_moves, add_item_adds, remove_item_removes,
}
use new_yokosuka_server.ScriptEvent.Staging.{static_string, positive_agrees, require_same}

plus_ℤ : (x y n : ℕ) → pos x ≡ pos y +ℤ pos n → x ≡ y + n
unfolding ◌+ℤ◌
plus_ℤ x y n h = ground (arith, h)

less_ℤ : (x y n : ℕ) → pos x ≡ pos y +ℤ neg_ℕ n → x ≡ y - n
unfolding ◌+ℤ◌
less_ℤ x y n h = ground (arith, h)

wrap_add_small : (z : ℤ) (q n : ℕ) → z ≡ pos q → q + n ≤ max_int32 → wrap_add z n ≡ pos (q + n)
wrap_add_small z q n e small = ground (arith, e)

minus_held : (z : ℤ) (q n : ℕ) → z ≡ pos q → n ≤ q → minus_ℤ z n ≡ pos (q - n)
minus_held z q n e enough = ground (arith, e)

module _ (F : Floats) where
  on_db_ok :
      {A : Type 0} (m : Tx Db A) (s t : ScriptTables F) {a : A}
      → on_db F m s ≡ ok (a, t)
      → (d : Db) × (m s.db ≡ ok (a, d)) × (record s { db = d } ≡ t)
  unfolding on_db
  on_db_ok {A = A} m s t {a} h = go (m s.db) refl h
    where
      go :
          (r : Result (A × Db))
          → m s.db ≡ r
          → (elim r as (λ _. Result (A × ScriptTables F)) [
            | ok (b, d) ↦ ok (b, record s { db = d })
            | err e ↦ err e
          ])
            ≡ ok (a, t)
          → (d : Db) × (m s.db ≡ ok (a, d)) × (record s { db = d } ≡ t)
      go (ok (b, d)) e h = (d, ground (arith, e, h), ground (arith, h))
      go (err x) e h = absurd (cc)

  -- Booked, with the same money and items.
  booked_Agrees :
      (c : ℕ) {st : CharacterScriptState F} {s t : ScriptTables F} (m : Tx Db (Unit {0}))
      {a : Unit {0}}
      → ((d : Db)
          → m s.db ≡ ok (a, d)
          → (d.characters ≡ s.db.characters) × (d.inventory ≡ s.db.inventory))
      → Agrees F c st s
      → on_db F m s ≡ ok (a, t)
      → Agrees F c st t
  booked_Agrees c {st} {s} {t} m same agrees h =
      let (d, made, e) = on_db_ok m s t h in
      subst (Agrees F c st) e (Agrees-db F c d agrees (same d made).0 (same d made).1)

  stage_grant_grants :
      (n : ℕ) (st st' : CharacterScriptState F) {a : Unit {0}}
      → stage_grant F n st ≡ ok (a, st')
      → record st { yen = st.yen + n } ≡ st'
  unfolding stage_grant
  stage_grant_grants n st st' h = ground (arith, h)

  stage_spend_spends :
      (n : ℕ) (st st' : CharacterScriptState F) {a : Unit {0}}
      → stage_spend F n st ≡ ok (a, st')
      → (record st { yen = st.yen - n } ≡ st') × (n ≤ st.yen)
  unfolding stage_spend
  stage_spend_spends n st st' h = (ground (arith, h), ground (arith, h))

  stage_yen_as :
      (effect : ScriptEffect) (spends : Bool) (n : ℕ) (s u : ScriptTables F)
      (st : CharacterScriptState F)
      → positive_argument F effect.arguments 0 max_int64 s ≡ ok (n, u)
      → stage_yen F effect.arguments spends st
        ≡ (if spends then stage_spend F n else stage_grant F n) st
  unfolding stage_yen
  stage_yen_as effect spends n s u st h =
      bind_ok _ _ st (positive_agrees F effect.arguments 0 max_int64 st s h).0

  moved_Agrees :
      (c n : ℕ) (spends : Bool) {st st' : CharacterScriptState F} {s : ScriptTables F} (d : Db)
      {a : Unit {0}} {b : ℕ}
      → Agrees F c st s
      → (if spends then stage_spend F n else stage_grant F n) st ≡ ok (a, st')
      → move_yen c (if spends then neg_ℕ n else pos n) s.db ≡ ok (b, d)
      → Agrees F c st' (record s { db = d })
  moved_Agrees c n false {st} {st'} {s} d agrees staged moved =
      let (balance, items) = move_yen_moves c _ s.db d moved in
      subst (λ x. Agrees F c x (record s { db = d })) (stage_grant_grants n st st' staged)
        (Agrees-yen F c (st.yen + n) d agrees (plus_ℤ _ _ n balance ∙ ap (λ y. y + n) agrees.yen)
          items)
  moved_Agrees c n true {st} {st'} {s} d agrees staged moved =
      let (balance, items) = move_yen_moves c _ s.db d moved in
      let (spent, enough) = stage_spend_spends n st st' staged in
      subst (λ x. Agrees F c x (record s { db = d })) spent
        (Agrees-yen F c (st.yen - n) d agrees (less_ℤ _ _ n balance ∙ ap (λ y. y - n) agrees.yen)
          items)

  pub stage_yen-Agrees :
      (c run_id : ℕ) (effect : ScriptEffect) {st st' : CharacterScriptState F}
      {s s' : ScriptTables F} {a b : Unit {0}}
      → Agrees F c st s
      → (spends : Bool) → stage_yen F effect.arguments spends st ≡ ok (a, st')
      → apply_yen F c run_id effect spends s ≡ ok (b, s')
      → Agrees F c st' s'
  unfolding apply_yen
  stage_yen-Agrees c run_id effect {st} {st'} {s} {s'} agrees spends staged applied =
      after_bind _ _ _ applied λ n u e h. after_bind _ _ _ h λ reason v f h.
        after_bind _ _ _ h λ _ w g h. after_bind _ _ _ h λ balance x i h.
          let (_, same, limit) = positive_agrees F effect.arguments 0 max_int64 st s e in
          let start =
            subst (Agrees F c st) (same ∙ (required_ok _ u f).1 ∙ (require_same F _ v g).1)
              agrees in
          let (d, moved, made) = on_db_ok _ w x i in
          booked_Agrees c _ (λ t k. record_economy_event-same c _ _ _ _ _ _ x.db t k)
            (subst (Agrees F c st') made (
              moved_Agrees c n spends d start (sym (stage_yen_as effect spends n s u st e) ∙ staged)
                moved))
            h

  stage_item_as :
      (effect : ScriptEffect) (gives : Bool) (item : String) (n : ℕ) (s u : ScriptTables F)
      (st : CharacterScriptState F)
      → static_argument effect.arguments 0 "string" ≡ some item
      → positive_argument F effect.arguments 1 max_int32 s ≡ ok (n, u)
      → stage_item F effect.arguments gives st
        ≡ (if gives then stage_give F item n else stage_take F item n) st
  unfolding stage_item
  stage_item_as effect gives item n s u st h k =
      bind_ok _ _ st (ap (λ o. required o st) (static_string effect.arguments 0 h))
      ∙ bind_ok _ _ st (positive_agrees F effect.arguments 1 max_int32 st s k).0

  stage_give_gives :
      (item : String) (n : ℕ) (st st' : CharacterScriptState F) {a : Unit {0}}
      → stage_give F item n st ≡ ok (a, st')
      → record st {
        inventory = put_text st.inventory item (some (wrap_add (get_int (st.inventory item)) n));
      }
        ≡ st'
  unfolding stage_give
  stage_give_gives item n st st' h = ground (arith, h)

  stage_take_takes :
      (item : String) (n : ℕ) (st st' : CharacterScriptState F) {a : Unit {0}}
      → stage_take F item n st ≡ ok (a, st')
      → record st {
        inventory = put_text st.inventory item (some (minus_ℤ (get_int (st.inventory item)) n));
      }
        ≡ st'
  unfolding stage_take
  stage_take_takes item n st st' h = ground (arith, h)

  item_Agrees :
      (c : ℕ) (item : String) (n : ℕ) (gives : Bool) {st st' : CharacterScriptState F}
      {s : ScriptTables F} (d : Db) {a : Unit {0}} {b : ℕ}
      → Agrees F c st s
      → n ≤ max_int32
      → (if gives then stage_give F item n else stage_take F item n) st ≡ ok (a, st')
      → (if gives then add_item c item n else remove_item c item n) s.db ≡ ok (b, d)
      → Agrees F c st' (record s { db = d })
  item_Agrees c item n true {st} {st'} {s} d agrees small staged moved =
      let (people, items, sum) = add_item_adds c item n s.db d small moved in
      let held = quantity_at (s.db.inventory c item) in
      subst (λ x. Agrees F c x (record s { db = d }))
        (ap (λ z. record st { inventory = put_text st.inventory item (some z) })
            (sym (wrap_add_small _ held n (agrees.inventory item) sum))
          ∙ stage_give_gives item n st st' staged)
        (Agrees-item F c item (held + n) d (some (held + n)) agrees people items refl)
  item_Agrees c item n false {st} {st'} {s} d agrees small staged moved =
      let (people, (v, items, left, enough)) = remove_item_removes c item n s.db d moved in
      let held = quantity_at (s.db.inventory c item) in
      subst (λ x. Agrees F c x (record s { db = d }))
        (ap (λ z. record st { inventory = put_text st.inventory item (some z) })
            (sym (minus_held _ held n (agrees.inventory item) enough))
          ∙ stage_take_takes item n st st' staged)
        (Agrees-item F c item (held - n) d v agrees people items left)

  pub stage_item-Agrees :
      (c run_id : ℕ) (effect : ScriptEffect) {st st' : CharacterScriptState F}
      {s s' : ScriptTables F} {a b : Unit {0}}
      → Agrees F c st s
      → (gives : Bool) → stage_item F effect.arguments gives st ≡ ok (a, st')
      → apply_item F c run_id effect gives s ≡ ok (b, s')
      → Agrees F c st' s'
  unfolding apply_item apply_item_effect
  stage_item-Agrees c run_id effect {st} {st'} {s} {s'} agrees gives staged applied =
      after_bind _ _ _ applied λ item u e h. after_bind _ _ _ h λ n v f h.
        after_bind _ _ _ h λ held x i h.
          let (text, same) = required_ok _ s e in
          let (_, same2, limit) = positive_agrees F effect.arguments 1 max_int32 st u f in
          let (d, moved, made) = on_db_ok _ v x i in
          booked_Agrees c _ (λ t k. record_economy_event-same c _ _ _ _ _ _ x.db t k)
            (subst (Agrees F c st') made (
              item_Agrees c item n gives d (subst (Agrees F c st) (same ∙ same2) agrees) limit
                (sym (stage_item_as effect gives item n u v st text f) ∙ staged) moved))
            h
