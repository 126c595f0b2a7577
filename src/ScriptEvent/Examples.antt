-- ===== src/ScriptEvent/Examples.antt =====
-- Two commands that are staged and committed.
use new_yokosuka_server.Base.{ℕ, ◌≡◌, refl, String, List, some, none, [], ◌∷◌, arith}
use new_yokosuka_server.Base.Int.{pos, ◌+ℤ◌}
use new_yokosuka_server.Base.Text.{trim_space, show_ℕ, is_key}
use new_yokosuka_server.Floats.Naturals.{naturals}
use new_yokosuka_server.ScriptRuntime.{Event}
use new_yokosuka_server.Store.Transaction.{ok, err, transact, ◌>>=◌}
use new_yokosuka_server.Store.Economy.{record_economy_event, has_event}
use new_yokosuka_server.Store.Runs.{
  Run, update_where, expire_runs, choose, claim_revision, insert_run,
}
use new_yokosuka_server.Store.Effects.{
  ScriptTables, durable_of, apply_script_effect, apply_durable, apply_yen, apply_flag, counted,
  on_db, move_yen, static_argument, positive_argument, integer_argument, effect_event_key,
  write_flag,
}
use new_yokosuka_server.Store.Effects.Finish.{
  complete_script_event, finish_tx, lock_run, leased_run, apply_effects, insert_effect,
  advance_revision, end_run, load_character_script_state, CharacterScriptState, start_event_tx,
  lock_character,
}
use new_yokosuka_server.Store.Effects.Examples.{tables, leased, number, text}
use new_yokosuka_server.ScriptEvent.State.{
  EventState, stage, stage_saved, stage_durable, stage_yen, stage_grant, stage_flag,
  positive_integer, event_integer, event_number, string_argument,
}
use new_yokosuka_server.Store.Ledger.{yen_at}
use new_yokosuka_server.ScriptEvent.Agreement.{Agrees}
use new_yokosuka_server.ScriptEvent.Staging.{AddsLikeNumbers}
use new_yokosuka_server.ScriptEvent.Begin.{Begins, load-Agrees, start_event-Agrees}
use new_yokosuka_server.ScriptEvent.Commit.{stage_all, complete-Agrees}

naturals_laws : AddsLikeNumbers naturals
naturals_laws = record { commutes = λ x y. omega arith; keeps = λ x h. omega arith }

abbrev command : ℕ → String → Event
command sequence name = record {
  type_name = "command";
  sequence = pos sequence;
  query_id = none;
  name = name;
  node = "Start";
  line_id = "";
  arguments = [];
  options = [];
  message = "";
}

abbrev commands : List Event
commands =
    record (command 2 "grant_yen") { arguments = number "100" ∷ text "gift" ∷ [] }
    ∷ record (command 3 "set_flag") { arguments = text "met" ∷ [] }
    ∷ []

abbrev begin : EventState naturals
begin = record {
  saved = load_character_script_state naturals 7 "" (yen_at (tables.db.characters 7)) 4 tables;
  facts = record {
    game_hour = none;
    game_date = none;
    actor_presence = λ a. none;
    actor_states = λ a k. none;
    actor_bounds = λ a k. none;
    object_existence = λ o. none;
    activity_results = λ a. none;
  };
  effects = [];
}

unfoldable staged : EventState naturals
staged = elim (stage_all naturals commands begin) [ ok state ↦ state | err e ↦ begin ]

commands-staged : stage_all naturals commands begin ≡ ok staged
unfolding staged stage_all stage stage_saved stage_durable stage_yen stage_grant stage_flag
    positive_integer event_integer event_number string_argument durable_of ◌>>=◌
commands-staged = refl

found_leased : leased_run 1 "a" 4 10 tables.events.runs ≡ some leased
unfolding leased_run
found_leased = refl

committed : (complete_script_event naturals 1 "a" 4 staged.effects 10 tables).0 ≡ ok 5
unfolding staged stage_all stage stage_saved stage_durable stage_yen stage_grant stage_flag
    positive_integer event_integer event_number string_argument complete_script_event finish_tx
    lock_run leased_run apply_effects insert_effect apply_script_effect durable_of apply_durable
    apply_yen apply_flag counted on_db move_yen ◌+ℤ◌ static_argument positive_argument
    integer_argument effect_event_key write_flag is_key record_economy_event has_event
    advance_revision end_run transact ◌>>=◌ trim_space show_ℕ update_where
committed = refl

complete-Agrees_example :
    Agrees naturals leased.character_id staged.saved
      (complete_script_event naturals 1 "a" 4 staged.effects 10 tables).1
complete-Agrees_example =
    complete-Agrees naturals naturals_laws 1 "a" 4 10 leased commands begin staged tables
      found_leased refl (load-Agrees naturals 7 4 (yen_at (tables.db.characters 7)) "" tables refl)
      commands-staged committed

abbrev quiet : ScriptTables naturals
quiet = record tables { events = record { runs = []; revisions = λ c. none } }

unfoldable started : Run × CharacterScriptState naturals × ScriptTables naturals
started =
    elim (start_event_tx naturals 3 7 "" [] (record { version_id = 4; priority = pos 2 } ∷ []) 1 "a"
      300 10 quiet) [
        | ok ((run, state), t) ↦ (run, state, t)
        | err e ↦ (leased, begin.saved, tables)
      ]

begun :
    start_event_tx naturals 3 7 "" []
      (record { version_id = 4; priority = pos 2 } ∷ [])
      1
      "a"
      300
      10
      quiet
    ≡ ok ((started.0, started.1), started.2)
unfolding started start_event_tx lock_character expire_runs update_where choose claim_revision
    insert_run ◌>>=◌
begun = refl

start_event-Agrees_example : Begins naturals 7 started.0 started.1 started.2
start_event-Agrees_example =
    start_event-Agrees naturals 3 7 "" [] (record { version_id = 4; priority = pos 2 } ∷ []) 1 "a"
      300 10 quiet started.2 started.0 started.1 begun
