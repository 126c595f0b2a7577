-- ===== src/Store/Effects/Complete.antt =====
-- What the completion of a run commits.
use mathlib.Core.List.{Mem, mem-cons_self, mem-cons_of_mem}
use new_yokosuka_server.Base.{
  Bool, true, ◌<◌, ◌&&◌, sym, subst, inl, inr, Bool-cases, if_true, if_false, eq_iff, ℕ, suc, ◌≡◌,
  refl, ap, ◌∙◌, false, String, Option, none, some, List, [], ◌∷◌, arith, ◌==◌,
}
use new_yokosuka_server.Base.Int.{ℤ, pos, leb_ℤ}
use new_yokosuka_server.Floats.{Floats}
use new_yokosuka_server.Store.Transaction.{
  ok, err, transact_ok, transact_err, bind_err, script_event_ended,
}
use new_yokosuka_server.Store.Runs.{
  Run, Events, Status, active, completed, passed, cancelled, failed, expired, is_leased,
  update_where, end_as,
}
use new_yokosuka_server.Store.Effects.{ScriptTables, ScriptEffect, EffectRow}
use new_yokosuka_server.Store.Effects.Finish.{
  leased_run, lock_run, insert_effect, apply_effects, advance_revision, end_run, finish_tx,
  complete_script_event,
}
use new_yokosuka_server.Store.Effects.Steps.{after_effect, after_finish}
use new_yokosuka_server.Store.Effects.Kept.{apply_script_effect-SameRuns}

-- The sequence numbers are above the last one, each above the one before it.
unfoldable pub IsIncreasing : ℤ → List ScriptEffect → Type 0
IsIncreasing last [] = Unit
IsIncreasing last (effect ∷ effects) =
    (leb_ℤ effect.sequence last ≡ false) × IsIncreasing effect.sequence effects

-- The rows of a run's effects, newest first, on top of those that were there.
unfoldable pub rows_onto : ℕ → List ScriptEffect → List EffectRow → List EffectRow
rows_onto run_id [] rows = rows
rows_onto run_id (effect ∷ effects) rows =
    rows_onto run_id effects (record { run_id = run_id; effect = effect } ∷ rows)

-- The revision goes up by one if there are effects.
unfoldable pub next_revision : ℕ → List ScriptEffect → ℕ
next_revision revision [] = revision
next_revision revision (effect ∷ effects) = suc revision

-- A run of the table that the caller holds: it has the identifier and the token, it is active, its
-- lease is not over, and it began with the revision.
pub record IsHeldRun (id : ℕ) (token : String) (expected now : ℕ) (runs : List Run) (run : Run)
    : Type 0 where
  pub listed : Mem run runs
  pub same_id : run.id ≡ id
  pub same_token : run.lease_token ≡ token
  pub running : run.status ≡ active
  pub lease : now < run.lease_expires_at
  pub began : run.state_revision ≡ expected

active_status :
    (status : Status)
    → ◌≡◌ {A = Bool} (elim status [ active ↦ true | _ ↦ false ]) true
    → status ≡ active
active_status active h = refl
active_status completed h = absurd (cc)
active_status passed h = absurd (cc)
active_status cancelled h = absurd (cc)
active_status failed h = absurd (cc)
active_status expired h = absurd (cc)

some_inj : {a b : Run} → ◌≡◌ {A = Option Run} (some a) (some b) → a ≡ b
some_inj h = cc

leased_run-IsHeldRun :
    (id : ℕ) (token : String) (expected now : ℕ) (runs : List Run) (run : Run)
    → leased_run id token expected now runs ≡ some run
    → IsHeldRun id token expected now runs run
unfolding leased_run
leased_run-IsHeldRun id token expected now [] run h = absurd (cc)
leased_run-IsHeldRun id token expected now (first ∷ runs) run h =
    let test = is_leased id token now first && first.state_revision == expected in
    let rest = leased_run id token expected now runs in
    elim (Bool-cases test) [
      | inr other ↦
          let later =
            leased_run-IsHeldRun id token expected now runs run
              (sym (if_false (some first) rest test other) ∙ h) in
          record {
            listed = mem-cons_of_mem first later.listed;
            same_id = later.same_id;
            same_token = later.same_token;
            running = later.running;
            lease = later.lease;
            began = later.began;
          }
      | inl taken ↦
          subst (IsHeldRun id token expected now (first ∷ runs))
            (some_inj (sym (if_true (some first) rest test taken) ∙ h))
            (record {
              listed = mem-cons_self;
              same_id = ground (arith, taken);
              same_token = (eq_iff first.lease_token token).0 (ground (arith, taken));
              running = active_status first.status (ground (arith, taken));
              lease = ground (arith, taken);
              began = ground (arith, taken);
            })
    ]

module _ (F : Floats) where
  insert_effect_inserts :
      (run_id : ℕ) (effect : ScriptEffect) (s t : ScriptTables F) {b : Unit {0}}
      → insert_effect F run_id effect s ≡ ok (b, t)
      → (t.events ≡ s.events)
        × (t.effects ≡ record { run_id = run_id; effect = effect } ∷ s.effects)
  unfolding insert_effect
  insert_effect_inserts run_id effect s t h = (ground (arith, h), ground (arith, h))

  apply_effects_applies :
      (c run_id : ℕ) (last : ℤ) (effects : List ScriptEffect) (s t : ScriptTables F) {b : Unit {0}}
      → apply_effects F c run_id last effects s ≡ ok (b, t)
      → IsIncreasing last effects
        × (t.effects ≡ rows_onto run_id effects s.effects)
        × (t.events ≡ s.events)
  unfolding apply_effects IsIncreasing rows_onto
  apply_effects_applies c run_id last [] s t h =
      let same : t ≡ s = ground (arith, h) in
      (tt, ap (λ (x : ScriptTables F). x.effects) same, ap (λ (x : ScriptTables F). x.events) same)
  apply_effects_applies c run_id last (effect ∷ effects) s t h =
      after_effect F c run_id last effect effects s t h λ above u v inserted applied rest.
        let (events, row) = insert_effect_inserts run_id effect s u inserted in
        let kept = apply_script_effect-SameRuns F c run_id effect u v applied in
        let (increasing, rows, later) =
          apply_effects_applies c run_id effect.sequence effects v t rest in
        (
          (above, increasing),
          rows ∙ ap (rows_onto run_id effects) (kept.effects ∙ row),
          later ∙ kept.events ∙ events,
        )

  advance_revision_result :
      (c revision : ℕ) (effects : List ScriptEffect) (s t : ScriptTables F) {new : ℕ}
      → s.events.revisions c ≡ some revision
      → advance_revision F c revision effects s ≡ ok (new, t)
      → (t.events.runs ≡ s.events.runs)
        × (t.events.revisions c ≡ some new)
        × (new ≡ next_revision revision effects)
  unfolding advance_revision next_revision
  advance_revision_result c revision [] s t e h =
      (ground (arith, h), ground (arith, e, h), ground (arith, h))
  advance_revision_result c revision (effect ∷ effects) s t e h =
      (ground (arith, h), ground (arith, h), ground (arith, h))

  end_run_result :
      (id : ℕ) (status : Status) (s t : ScriptTables F) {b : Unit {0}}
      → end_run F id status s ≡ ok (b, t)
      → (t.effects ≡ s.effects)
        × (t.events.revisions ≡ s.events.revisions)
        × (t.events.runs ≡ update_where (λ run. run.id == id) (end_as status) s.events.runs)
  unfolding end_run
  end_run_result id status s t h = (ground (arith, h), ground (arith, h), ground (arith, h))

  -- What a completion leaves, of a run that began with the revision `expected`.
  pub record Commits (id expected : ℕ) (effects : List ScriptEffect) (run : Run) (new : ℕ)
      (s t : ScriptTables F) : Type 0 where
    pub current : s.events.revisions run.character_id ≡ some expected
    pub revised : t.events.revisions run.character_id ≡ some new
    pub revision : new ≡ next_revision expected effects
    pub increasing : IsIncreasing (pos 0) effects
    pub rows : t.effects ≡ rows_onto id effects s.effects
    pub runs : t.events.runs ≡ update_where (λ r. r.id == id) (end_as completed) s.events.runs

  -- A completion that succeeds ends a run of the table with the identifier and the token, that was
  -- active, whose lease was not over, and that began with the expected revision, which still was its
  -- character's; the effects came in strictly
  -- increasing sequence, each has its row, in their order, and the revision that is returned is the
  -- character's, one more than before if there were effects.
  pub complete-Commits :
      (id : ℕ) (token : String) (expected now : ℕ) (effects : List ScriptEffect)
      (s : ScriptTables F) {new : ℕ}
      → (complete_script_event F id token expected effects now s).0 ≡ ok new
      → (run : Run) × IsHeldRun id token expected now s.events.runs run
        × Commits id expected effects run new s
            (complete_script_event F id token expected effects now s).1
  unfolding complete_script_event
  complete-Commits id token expected now effects s {new} done =
      let t = (complete_script_event F id token expected effects now s).1 in
      after_finish F id token expected now effects completed s t (transact_ok _ s done)
        λ run locked current u v applied advanced ended same.
          let (increasing, rows, events) =
            apply_effects_applies run.character_id id (pos 0) effects s u applied in
          let (runs, revised, revision) =
            advance_revision_result run.character_id expected effects u v
              (ap (λ (e : Events). e.revisions run.character_id) events ∙ current) advanced in
          let (_, revisions, ended_runs) = end_run_result id completed v t ended in
          (
            run,
            leased_run-IsHeldRun id token expected now s.events.runs run locked,
            record {
              current = current;
              revised = ap (λ (m : ℕ → Option ℕ). m run.character_id) revisions ∙ revised;
              revision = revision;
              increasing = increasing;
              rows = ap (λ (x : ScriptTables F). x.effects) same ∙ rows;
              runs =
                  ended_runs
                  ∙ ap (update_where (λ r. r.id == id) (end_as completed))
                      (runs ∙ ap (λ (e : Events). e.runs) events);
            },
          )

  ended_not_leased :
      (id : ℕ) (token : String) (expected now : ℕ) (runs : List Run)
      → leased_run id token expected now (update_where (λ r. r.id == id) (end_as completed) runs)
        ≡ none
  unfolding leased_run update_where
  ended_not_leased id token expected now [] = refl
  ended_not_leased id token expected now (run ∷ runs) =
      ground (arith, ended_not_leased id token expected now runs)

  lock_run_ended :
      (id : ℕ) (token : String) (expected now : ℕ) (s : ScriptTables F)
      → leased_run id token expected now s.events.runs ≡ none
      → lock_run F id token expected now s ≡ err script_event_ended
  unfolding lock_run
  lock_run_ended id token expected now s h = ground (arith, h)

  -- A run that was completed is not completed again: with any token, revision and effects, and at
  -- any time, a later completion returns `script_event_ended` and changes nothing.
  pub complete_once :
      (id : ℕ) (token token2 : String) (expected expected2 now later : ℕ)
      (effects effects2 : List ScriptEffect) (s : ScriptTables F) {new : ℕ}
      → (complete_script_event F id token expected effects now s).0 ≡ ok new
      → let t = (complete_script_event F id token expected effects now s).1 in
        complete_script_event F id token2 expected2 effects2 later t ≡ (err script_event_ended, t)
  unfolding complete_script_event finish_tx
  complete_once id token token2 expected expected2 now later effects effects2 s done =
      let (run, locked, commits) = complete-Commits id token expected now effects s done in
      let t = (complete_script_event F id token expected effects now s).1 in
      transact_err _ t (
        bind_err _ _ t (
          lock_run_ended id token2 expected2 later t (
            ap (leased_run id token2 expected2 later) commits.runs
            ∙ ended_not_leased id token2 expected2 later s.events.runs)))
