-- ===== src/ScriptEvent/Agreement.antt =====
-- The state that an event stages, and the tables that its effects change.
use new_yokosuka_server.Base.{
  ℕ, ◌+◌, ◌-◌, ◌≤◌, ◌≡◌, sym, ap, ◌∙◌, Bool, String, Option, none, some, arith, ◌==◌, if◌then◌else◌,
  Option-cases, inl, inr,
}
use new_yokosuka_server.Base.Int.{ℤ, pos, ◌+ℤ◌}
use new_yokosuka_server.Base.Maps.{put_text}
use new_yokosuka_server.Floats.{Floats}
use new_yokosuka_server.Store.Tables.{Db, Character, EconomyKind, put_item}
use new_yokosuka_server.Store.Transaction.{ok}
use new_yokosuka_server.Store.Economy.{record_economy_event, add_item, remove_item, max_int32}
use new_yokosuka_server.Store.Ledger.{yen_at, quantity_at}
use new_yokosuka_server.Store.Effects.{ScriptTables, put_row, required, move_yen}
use new_yokosuka_server.Store.Effects.Finish.{CharacterScriptState}
use new_yokosuka_server.ScriptEvent.State.{get_int}

pub required_ok :
    {S A : Type 0} (o : Option A) (s : S) {a : A} {t : S}
    → required o s ≡ ok (a, t)
    → (o ≡ some a) × (s ≡ t)
required_ok none s h = absurd (cc)
required_ok (some b) s h = (ground (arith, h), ground (arith, h))

module _ (F : Floats) where
  -- Money, flags and progress are the same, and of every item as much is held, where an item that
  -- has no row counts as held 0 times.
  pub record Agrees (c : ℕ) (st : CharacterScriptState F) (s : ScriptTables F) : Type 0 where
    pub yen : yen_at (s.db.characters c) ≡ st.yen
    pub flags : (k : String) → st.flags k ≡ s.flags c k
    pub progress : (k : String) → st.progress k ≡ s.progress c k
    pub inventory : (k : String) → get_int (st.inventory k) ≡ pos (quantity_at (s.db.inventory c k))

  pub Agrees-flag :
      (c : ℕ) (key : String) (v : Option Bool) {st : CharacterScriptState F} {s : ScriptTables F}
      → Agrees c st s
      → Agrees c
          (record st { flags = put_text st.flags key v })
          (record s { flags = put_row F s.flags c key v })
  Agrees-flag c key v a = record {
    yen = a.yen;
    flags = λ k. ground (arith, a.flags k);
    progress = a.progress;
    inventory = a.inventory;
  }

  pub Agrees-progress :
      (c : ℕ) (key : String) (v : Option F.Float) {st : CharacterScriptState F} {s : ScriptTables F}
      → Agrees c st s
      → Agrees c
          (record st { progress = put_text st.progress key v })
          (record s { progress = put_row F s.progress c key v })
  Agrees-progress c key v a = record {
    yen = a.yen;
    flags = a.flags;
    progress = λ k. ground (arith, a.progress k);
    inventory = a.inventory;
  }

  -- Tables whose story is the same, and whose characters and items are.
  pub Agrees-db :
      (c : ℕ) {st : CharacterScriptState F} {s : ScriptTables F} (t : Db)
      → Agrees c st s
      → t.characters ≡ s.db.characters
      → t.inventory ≡ s.db.inventory
      → Agrees c st (record s { db = t })
  Agrees-db c {st} {s} t a e i = record {
    yen = ap (λ (m : ℕ → Option Character). yen_at (m c)) e ∙ a.yen;
    flags = a.flags;
    progress = a.progress;
    inventory =
        λ k. a.inventory k ∙ sym (ap (λ (m : ℕ → String → Option ℕ). pos (quantity_at (m c k))) i);
  }

  pub Agrees-yen :
      (c n : ℕ) {st : CharacterScriptState F} {s : ScriptTables F} (t : Db)
      → Agrees c st s
      → yen_at (t.characters c) ≡ n
      → t.inventory ≡ s.db.inventory
      → Agrees c (record st { yen = n }) (record s { db = t })
  Agrees-yen c n {st} {s} t a e i = record {
    yen = e;
    flags = a.flags;
    progress = a.progress;
    inventory =
        λ k. a.inventory k ∙ sym (ap (λ (m : ℕ → String → Option ℕ). pos (quantity_at (m c k))) i);
  }

  pub Agrees-item :
      (c : ℕ) (item : String) (n : ℕ) {st : CharacterScriptState F} {s : ScriptTables F} (t : Db)
      (v : Option ℕ)
      → Agrees c st s
      → t.characters ≡ s.db.characters
      → t.inventory ≡ put_item s.db.inventory c item v
      → quantity_at v ≡ n
      → Agrees c
          (record st { inventory = put_text st.inventory item (some (pos n)) })
          (record s { db = t })
  Agrees-item c item n {st} {s} t v a e i q = record {
    yen = ap (λ (m : ℕ → Option Character). yen_at (m c)) e ∙ a.yen;
    flags = a.flags;
    progress = a.progress;
    inventory = λ k. ground (arith, a.inventory k, i, q);
  }

pub record_economy_event-same :
    (c : ℕ) (key : String) (kind : EconomyKind) (item : String) (q y : ℤ) (reason : String)
    (s t : Db) {a : Unit {0}}
    → record_economy_event c key kind item q y reason s ≡ ok (a, t)
    → (t.characters ≡ s.characters) × (t.inventory ≡ s.inventory)
unfolding record_economy_event
record_economy_event-same c key kind item q y reason s t h = (ground (arith, h), ground (arith, h))

-- A change of a balance that the tables allow.
pub move_yen_moves :
    (c : ℕ) (delta : ℤ) (s t : Db) {b : ℕ}
    → move_yen c delta s ≡ ok (b, t)
    → (pos (yen_at (t.characters c)) ≡ pos (yen_at (s.characters c)) +ℤ delta)
      × (t.inventory ≡ s.inventory)
unfolding move_yen ◌+ℤ◌
move_yen_moves c delta s t h = (ground (arith, h), ground (arith, h))

pub add_item_adds :
    (c : ℕ) (item : String) (n : ℕ) (s t : Db) {b : ℕ}
    → n ≤ max_int32
    → add_item c item n s ≡ ok (b, t)
    → (t.characters ≡ s.characters)
      × (t.inventory ≡ put_item s.inventory c item (some (quantity_at (s.inventory c item) + n)))
      × (quantity_at (s.inventory c item) + n ≤ max_int32)
unfolding add_item
add_item_adds c item n s t small h = (ground (arith, h), ground (arith, h), ground (arith, h))

pub remove_item_removes :
    (c : ℕ) (item : String) (n : ℕ) (s t : Db) {b : ℕ}
    → remove_item c item n s ≡ ok (b, t)
    → (t.characters ≡ s.characters)
      × ((v : Option ℕ) × (t.inventory ≡ put_item s.inventory c item v)
          × (quantity_at v ≡ quantity_at (s.inventory c item) - n)
          × (n ≤ quantity_at (s.inventory c item)))
unfolding remove_item
remove_item_removes c item n s t h = elim (Option-cases (s.inventory c item)) [
  | inl missing ↦ absurd (ground (arith, missing, h))
  | inr (held, found) ↦ (
    ground (arith, found, h),
    (
      if held - n == 0 then none else some (held - n),
      ground (arith, found, h),
      ground (arith, found, h),
      ground (arith, found, h),
    ),
  )
]
