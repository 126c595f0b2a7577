-- ===== src/ScriptEvent/Begin.antt =====
-- The state that a run starts with.
use mathlib.Core.List.{Mem, mem-cons_self}
use new_yokosuka_server.Base.{
  ℕ, ◌≡◌, refl, sym, ap, subst, ◌∙◌, String, Option, none, some, List, ◌∷◌, arith, Option-cases,
  inl, inr,
}
use new_yokosuka_server.Base.Int.{pos}
use new_yokosuka_server.Floats.{Floats}
use new_yokosuka_server.Store.Tables.{Db}
use new_yokosuka_server.Store.Transaction.{Tx, ok, after_bind, Result-cases}
use new_yokosuka_server.Store.Ledger.{yen_at, quantity_at}
use new_yokosuka_server.Store.Runs.{
  Run, TriggerCandidate, Events, claim_revision, insert_run, active, expire_runs,
  resolve_published_trigger, new_run,
}
use new_yokosuka_server.Store.Effects.{ScriptTables}
use new_yokosuka_server.Store.Effects.Finish.{
  CharacterScriptState, load_character_script_state, start_event_tx, held_item, lock_character,
  on_events, scene_of,
}
use new_yokosuka_server.ScriptEvent.State.{get_int}
use new_yokosuka_server.ScriptEvent.Agreement.{Agrees}

module _ (F : Floats) where
  held_item_same : (o : Option ℕ) → get_int (held_item F o) ≡ pos (quantity_at o)
  held_item_same none = refl
  held_item_same (some n) = refl

  pub load-Agrees :
      (c revision yen : ℕ) (scene : String) (s : ScriptTables F)
      → yen_at (s.db.characters c) ≡ yen
      → Agrees F c (load_character_script_state F c scene yen revision s) s
  load-Agrees c revision yen scene s e = record {
    yen = e;
    flags = λ k. refl;
    progress = λ k. refl;
    inventory = λ k. held_item_same (s.db.inventory c k);
  }

  -- A step on the runs and the revisions leaves the other tables.
  on_events_only :
      {A : Type 0} (m : Tx Events A) (s t : ScriptTables F) {a : A}
      → on_events F m s ≡ ok (a, t)
      → (m s.events ≡ ok (a, t.events)) × (t ≡ record s { events = t.events })
  on_events_only m s t {a} h = elim (Result-cases (m s.events)) [
    | inr (e, refused) ↦ absurd (ground (arith, refused, h))
    | inl ((b, u), done) ↦ (done ∙ ground (arith, done, h), ground (arith, done, h))
  ]

  lock_character_yen :
      (account_id c : ℕ) (s t : ScriptTables F) {row : String × ℕ}
      → lock_character F account_id c s ≡ ok (row, t)
      → (yen_at (s.db.characters c) ≡ row.1) × (s ≡ t)
  unfolding lock_character
  lock_character_yen account_id c s t h = elim (Option-cases (s.db.characters c)) [
    | inl missing ↦ absurd (ground (arith, missing, h))
    | inr (row, found) ↦ (ground (arith, found, h), ground (arith, found, h))
  ]

  claim_revision_claims :
      (c : ℕ) (s t : Events) {revision : ℕ}
      → claim_revision c s ≡ ok (revision, t)
      → t.revisions c ≡ some revision
  unfolding claim_revision
  claim_revision_claims c s t h = elim (Option-cases (s.revisions c)) [
    | inl missing ↦ ground (arith, missing, h)
    | inr (revision, found) ↦ ground (arith, found, h)
  ]

  insert_run_inserts :
      (run : Run) (s t : Events) {made : Run}
      → insert_run run s ≡ ok (made, t)
      → (made ≡ run) × (t.runs ≡ run ∷ s.runs) × (t.revisions ≡ s.revisions)
  unfolding insert_run
  insert_run_inserts run s t h = (ground (arith, h), ground (arith, h), ground (arith, h))

  -- The tables that a start leaves have its run, of the character, under the character's revision,
  -- which is that of the state, and agree with the state.
  pub record Begins (c : ℕ) (run : Run) (state : CharacterScriptState F) (t : ScriptTables F)
      : Type 0 where
    pub agrees : Agrees F c state t
    pub listed : Mem run t.events.runs
    pub of_character : run.character_id ≡ c
    pub running : run.status ≡ active
    pub revision : run.state_revision ≡ state.revision
    pub current : t.events.revisions c ≡ some state.revision

  finish_start-Begins :
      (c revision yen : ℕ) (scene : String) (made : Run) (s t : ScriptTables F) (run : Run)
      (state : CharacterScriptState F)
      → yen_at (s.db.characters c) ≡ yen
      → s.events.revisions c ≡ some revision
      → made.character_id ≡ c
      → made.status ≡ active
      → made.state_revision ≡ revision
      → on_events F (insert_run made) s ≡ ok (run, t)
      → load_character_script_state F c scene yen revision s ≡ state
      → Begins c run state t
  finish_start-Begins c revision yen scene made s t run state money current own live rev h loaded =
      let (inserted, only) = on_events_only (insert_run made) s t h in
      let (same, runs, revisions) = insert_run_inserts made s.events t.events inserted in
      let same_revision = ap (λ (x : CharacterScriptState F). x.revision) loaded in
      let a : Agrees F c state s =
        subst (λ (x : CharacterScriptState F). Agrees F c x s) loaded
          (load-Agrees c revision yen scene s money) in
      record {
        agrees =
            subst (λ (x : ScriptTables F). Agrees F c state x) (sym only)
              (record {
                yen = a.yen;
                flags = a.flags;
                progress = a.progress;
                inventory = a.inventory;
              });
        listed =
            subst (Mem run) (sym runs)
              (subst (λ (r : Run). Mem r (made ∷ s.events.runs)) (sym same) mem-cons_self);
        of_character = ap (λ (r : Run). r.character_id) same ∙ own;
        running = ap (λ (r : Run). r.status) same ∙ live;
        revision = ap (λ (r : Run). r.state_revision) same ∙ rev ∙ same_revision;
        current = ap (λ (m : ℕ → Option ℕ). m c) revisions ∙ current ∙ ap some same_revision;
      }

  -- A start that succeeds leaves its run in the tables, active, of the character, and begun with the
  -- revision that the tables have for the character; the state that it returns has that revision,
  -- and agrees with the tables that it leaves.
  pub start_event-Agrees :
      (account_id c : ℕ) (area : String) (excluded : List ℕ) (rows : List TriggerCandidate) (id : ℕ)
      (token : String) (expires now : ℕ) (s t : ScriptTables F) (run : Run)
      (state : CharacterScriptState F)
      → start_event_tx F account_id c area excluded rows id token expires now s
        ≡ ok ((run, state), t)
      → Begins c run state t
  unfolding start_event_tx
  start_event-Agrees account_id c area excluded rows id token expires now s t run state h =
      after_bind _ _ _ h λ character s0 locked h0. after_bind _ _ _ h0 λ _ s1 expiry h1.
        after_bind _ _ _ h1 λ candidate s2 chosen h2. after_bind _ _ _ h2 λ revision s3 claimed h3.
          after_bind _ _ _ h3 λ loaded s4 load h4. after_bind _ _ _ h4 λ made s5 inserted h5.
            let (money, same0) = lock_character_yen account_id c s s0 locked in
            let (_, only1) = on_events_only (expire_runs c now) s0 s1 expiry in
            let (_, only2) =
              on_events_only (resolve_published_trigger excluded rows) s1 s2 chosen in
            let (claim, only3) = on_events_only (claim_revision c) s2 s3 claimed in
            let scene = scene_of F area character.0 in
            let same_db : s3.db ≡ s.db =
              ap (λ (x : ScriptTables F). x.db) only3
              ∙ ap (λ (x : ScriptTables F). x.db) only2
              ∙ ap (λ (x : ScriptTables F). x.db) only1
              ∙ ap (λ (x : ScriptTables F). x.db) (sym same0) in
            let same_state : loaded ≡ state = ground (arith, h5) in
            let loads : load_character_script_state F c scene character.1 revision s3 ≡ loaded =
              ground (arith, load) in
            let stays : s3 ≡ s4 = ground (arith, load) in
            let same_made : made ≡ run = ground (arith, h5) in
            let same_t : s5 ≡ t = ground (arith, h5) in
            finish_start-Begins c revision character.1 scene
              (new_run id c candidate.version_id token expires loaded.revision) s3 t run state
              (ap (λ (d : Db). yen_at (d.characters c)) same_db ∙ money)
              (claim_revision_claims c s2.events s3.events claim) refl refl
              (ap (λ (x : CharacterScriptState F). x.revision) (sym loads))
              (ap
                  (on_events F
                    (insert_run (new_run id c candidate.version_id token expires loaded.revision)))
                  stays
                ∙ inserted
                ∙ ap (λ m. ok (m, s5)) same_made
                ∙ ap (λ x. ok (run, x)) same_t)
              (loads ∙ same_state)
