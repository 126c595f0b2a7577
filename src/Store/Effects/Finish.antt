-- ===== src/Store/Effects/Finish.antt =====
-- internal/store/script_events.go: the state that a script event starts from, its end with the
-- effects it staged, and the steps of its trace.
use Prim.Native.Char.{code}
use new_yokosuka_server.Base.{
  ℕ, zero, suc, Bool, true, false, not, ◌&&◌, ◌||◌, String, Option, none, some, List, [], ◌∷◌, leb,
  ◌==◌, str_eq, if◌then◌else◌,
}
use new_yokosuka_server.Base.Int.{ℤ, pos, ltb_ℤ, leb_ℤ, eq_ℤ}
use new_yokosuka_server.Base.Maps.{put}
use new_yokosuka_server.Base.Text.{trim_space, is_alphanumeric}
use new_yokosuka_server.Floats.{Floats}
use new_yokosuka_server.Store.Transaction.{
  Tx, Result, ok, err, ◌>>=◌, ◌>>◌, return, fail, transact, invalid, sql_error, script_event_ended,
  revision_conflict, not_found,
}
use new_yokosuka_server.Store.Economy.{max_int32, max_int64}
use new_yokosuka_server.Store.Runs.{
  Run, Events, Status, TriggerCandidate, completed, passed, end_as, update_where, any_run,
  is_leased, expire_runs, resolve_published_trigger, claim_revision, insert_run, new_run,
}
use new_yokosuka_server.Store.Effects.{
  ScriptTables, ScriptEffect, EffectRow, TraceStep, TraceRow, apply_script_effect,
}

-- The run of the query, whose revision is the expected one.
unfoldable pub leased_run : ℕ → String → ℕ → ℕ → List Run → Option Run
leased_run id token expected now [] = none
leased_run id token expected now (run ∷ runs) =
    let rest = leased_run id token expected now runs in
    if is_leased id token now run && run.state_revision == expected then some run else rest

abbrev pub has_effect : ℕ → ℤ → List EffectRow → Bool
has_effect run_id sequence [] = false
has_effect run_id sequence (row ∷ rows) =
    (row.run_id == run_id && eq_ℤ row.effect.sequence sequence) || has_effect run_id sequence rows

abbrev pub has_step : ℕ → ℤ → List TraceRow → Bool
has_step run_id ordinal [] = false
has_step run_id ordinal (row ∷ rows) =
    (row.run_id == run_id && eq_ℤ row.step.ordinal ordinal) || has_step run_id ordinal rows

-- The CHECK constraint of the kind of a step: a letter, then at most 63 letters, digits, `_` and `-`.
abbrev pub all_kind_chars : ℕ → String → Bool
all_kind_chars room String.[] = true
all_kind_chars zero (String.◌∷◌ c s) = false
all_kind_chars (suc room) (String.◌∷◌ c s) =
    (is_alphanumeric (code c) || code c == 95 || code c == 45) && all_kind_chars room s

unfoldable pub is_step_kind : String → Bool
is_step_kind String.[] = false
is_step_kind (String.◌∷◌ c s) =
    is_alphanumeric (code c) && not (leb (code c) 57) && all_kind_chars 63 s

abbrev pub is_bad_step : TraceStep → Bool
is_bad_step step =
    leb_ℤ step.ordinal (pos 0)
    || ltb_ℤ step.runtime_sequence (pos 0)
    || not (str_eq step.direction "runtime" || str_eq step.direction "controller")
    || str_eq (trim_space step.kind) ""

module _ (F : Floats) where
  pub record CharacterScriptState : Type 0 where
    pub revision : ℕ
    pub scene : String
    pub yen : ℕ
    pub flags : String → Option Bool
    pub progress : String → Option F.Float
    pub inventory : String → Option ℤ

  abbrev pub on_events : {A : Type 0} → Tx Events A → Tx (ScriptTables F) A
  on_events m s = elim (m s.events) [ ok (a, t) ↦ ok (a, record s { events = t }) | err e ↦ err e ]

  abbrev pub held_item : Option ℕ → Option ℤ
  held_item none = none
  held_item (some n) = some (pos n)

  -- The rows of a character, which the transaction holds, beside what was read of it before.
  abbrev pub load_character_script_state :
      ℕ → String → ℕ → ℕ → ScriptTables F → CharacterScriptState
  load_character_script_state c scene yen revision s = record {
    revision = revision;
    scene = scene;
    yen = yen;
    flags = s.flags c;
    progress = s.progress c;
    inventory = λ item. held_item (s.db.inventory c item);
  }

  -- The locked SELECT of the world and the money of a character.
  unfoldable pub lock_character : ℕ → ℕ → Tx (ScriptTables F) (String × ℕ)
  lock_character account_id c s = elim (s.db.characters c) [
    | none ↦ err not_found
    | some row ↦
        if row.account_id == account_id && not row.deleted
        then ok ((row.world_id, row.yen), s)
        else err not_found
  ]

  abbrev pub scene_of : String → String → String
  scene_of area world_id = if str_eq area "" then world_id else area

  abbrev pub load_state : ℕ → String → ℕ → ℕ → Tx (ScriptTables F) CharacterScriptState
  load_state c scene yen revision s = ok (load_character_script_state c scene yen revision s, s)

  -- The start of a run, with the state that its script begins from; `area` is the selector's.
  unfoldable pub start_event_tx :
      ℕ
      → ℕ
      → String
      → List ℕ
      → List TriggerCandidate
      → ℕ
      → String
      → ℕ
      → ℕ
      → Tx (ScriptTables F) (Run × CharacterScriptState)
  start_event_tx account_id c area excluded rows id token expires now = do
    character ← lock_character account_id c
    on_events (expire_runs c now)
    candidate ← on_events (resolve_published_trigger excluded rows)
    revision ← on_events (claim_revision c)
    state ← load_state c (scene_of area character.0) character.1 revision
    run ← on_events (insert_run (new_run id c candidate.version_id token expires state.revision))
    return (run, state)

  -- The locked SELECT of a run that is leased, with the revision of its character's state.
  unfoldable pub lock_run : ℕ → String → ℕ → ℕ → Tx (ScriptTables F) (ℕ × ℕ)
  lock_run id token expected now s = elim (leased_run id token expected now s.events.runs) [
    | none ↦ err script_event_ended
    | some run ↦ elim (s.events.revisions run.character_id) [
      | none ↦ err script_event_ended
      | some revision ↦
          if revision == expected
          then ok ((run.character_id, revision), s)
          else err revision_conflict
    ]
  ]

  -- INSERT INTO script_event_effects, whose sequence is positive, fits an integer column and is
  -- unique in the run.
  unfoldable pub insert_effect : ℕ → ScriptEffect → Tx (ScriptTables F) (Unit {0})
  insert_effect run_id effect s =
      if leb_ℤ effect.sequence (pos 0)
        || ltb_ℤ (pos max_int32) effect.sequence
        || has_effect run_id effect.sequence s.effects
      then err sql_error
      else ok (tt, record s { effects = record { run_id = run_id; effect = effect } ∷ s.effects })

  unfoldable pub apply_effects : ℕ → ℕ → ℤ → List ScriptEffect → Tx (ScriptTables F) (Unit {0})
  apply_effects c run_id last [] s = ok (tt, s)
  apply_effects c run_id last (effect ∷ effects) s =
      let rest = apply_effects c run_id effect.sequence effects in
      if leb_ℤ effect.sequence last
      then err invalid
      else ◌>>=◌ (insert_effect run_id effect)
          (λ _. ◌>>=◌ (apply_script_effect F c run_id effect) (λ _. rest)) s

  -- The revision goes up by one if there are effects, in a `bigint` column.
  unfoldable pub advance_revision : ℕ → ℕ → List ScriptEffect → Tx (ScriptTables F) ℕ
  advance_revision c revision [] s = ok (revision, s)
  advance_revision c revision (effect ∷ effects) s =
      if leb max_int64 revision
      then err sql_error
      else ok (
        suc revision,
        record s {
          events = record s.events { revisions = put s.events.revisions c (some (suc revision)) };
        },
      )

  unfoldable pub end_run : ℕ → Status → Tx (ScriptTables F) (Unit {0})
  end_run id status s = ok (
    tt,
    record s {
      events = record s.events {
        runs = update_where (λ run. run.id == id) (end_as status) s.events.runs;
      };
    },
  )

  unfoldable pub finish_tx : ℕ → String → ℕ → List ScriptEffect → Status → ℕ → Tx (ScriptTables F) ℕ
  finish_tx id token expected effects status now = do
    locked ← lock_run id token expected now
    apply_effects locked.0 id (pos 0) effects
    revision ← advance_revision locked.0 locked.1 effects
    end_run id status
    return revision

  unfoldable pub complete_script_event :
      ℕ → String → ℕ → List ScriptEffect → ℕ → ScriptTables F → Result ℕ × ScriptTables F
  unfolding finish_tx
  complete_script_event id token expected effects now =
      transact (finish_tx id token expected effects completed now)

  unfoldable pub pass_script_event :
      ℕ → String → ℕ → List ScriptEffect → ℕ → ScriptTables F → Result ℕ × ScriptTables F
  unfolding finish_tx
  pass_script_event id token expected effects now =
      transact (finish_tx id token expected effects passed now)

  -- The payload is a JSON object, so its tests pass. The step is kept if its run is leased; its ordinal is unique in the run.
  unfoldable pub insert_step : ℕ → String → TraceStep → ℕ → Tx (ScriptTables F) (Unit {0})
  insert_step id token step now s =
      if not (any_run (is_leased id token now) s.events.runs)
      then err script_event_ended
      else if ltb_ℤ (pos max_int32) step.ordinal
          || ltb_ℤ (pos max_int32) step.runtime_sequence
          || not (is_step_kind step.kind)
          || has_step id step.ordinal s.trace
      then err sql_error
      else ok (tt, record s { trace = record { run_id = id; step = step } ∷ s.trace })

  unfoldable pub record_script_event_step :
      ℕ → String → TraceStep → ℕ → ScriptTables F → Result (Unit {0}) × ScriptTables F
  unfolding insert_step
  record_script_event_step id token step now =
      transact (if is_bad_step step then fail invalid else insert_step id token step now)
