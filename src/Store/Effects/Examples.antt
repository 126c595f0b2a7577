-- ===== src/Store/Effects/Examples.antt =====
-- A run with two effects, completed.
use new_yokosuka_server.Base.{◌≡◌, refl, true, String, List, some, none, [], ◌∷◌}
use new_yokosuka_server.Base.Int.{pos, ◌+ℤ◌}
use new_yokosuka_server.Base.Text.{trim_space, show_ℕ, is_key}
use new_yokosuka_server.Floats.Naturals.{naturals}
use new_yokosuka_server.ScriptContent.{CompiledArgument}
use new_yokosuka_server.Store.Examples.{start}
use new_yokosuka_server.Store.Transaction.{ok, err, script_event_ended, transact, ◌>>=◌}
use new_yokosuka_server.Store.Economy.{record_economy_event, has_event}
use new_yokosuka_server.Store.Runs.{Run, new_run, update_where}
use new_yokosuka_server.Store.Effects.{
  ScriptTables, ScriptEffect, durable_of, apply_script_effect, apply_durable, apply_yen, apply_flag,
  counted, on_db, move_yen, static_argument, positive_argument, integer_argument, effect_event_key,
  write_flag,
}
use new_yokosuka_server.Store.Effects.Finish.{
  complete_script_event, finish_tx, lock_run, leased_run, apply_effects, insert_effect,
  advance_revision, end_run,
}
use new_yokosuka_server.Store.Effects.Complete.{IsHeldRun, Commits, complete-Commits, complete_once}

abbrev pub number : String → CompiledArgument
number text = record { type_name = "number"; is_static = true; value = some text }

abbrev pub text : String → CompiledArgument
text t = record { type_name = "string"; is_static = true; value = some t }

abbrev pub leased : Run
leased = new_run 1 7 4 "a" 300 4

-- The character 7 has 500 yen, and a run that began at the revision 4.
abbrev pub tables : ScriptTables naturals
tables = record {
  db = start;
  events = record { runs = leased ∷ []; revisions = λ c. some 4 };
  flags = λ c k. none;
  progress = λ c k. none;
  effects = [];
  trace = [];
}

abbrev pub two_effects : List ScriptEffect
two_effects =
    record { sequence = pos 2; name = "grant_yen"; arguments = number "100" ∷ text "gift" ∷ [] }
    ∷ record { sequence = pos 3; name = "set_flag"; arguments = text "met" ∷ [] }
    ∷ []

pub completed_run : (complete_script_event naturals 1 "a" 4 two_effects 10 tables).0 ≡ ok 5
unfolding complete_script_event finish_tx lock_run leased_run apply_effects insert_effect
    apply_script_effect durable_of apply_durable apply_yen apply_flag counted on_db move_yen ◌+ℤ◌
    static_argument positive_argument integer_argument effect_event_key write_flag is_key
    record_economy_event has_event advance_revision end_run transact ◌>>=◌ trim_space show_ℕ
    update_where
completed_run = refl

complete-Commits_example :
    (run : Run) × IsHeldRun 1 "a" 4 10 tables.events.runs run
    × Commits naturals 1 4 two_effects run 5 tables
        (complete_script_event naturals 1 "a" 4 two_effects 10 tables).1
complete-Commits_example = complete-Commits naturals 1 "a" 4 10 two_effects tables completed_run

complete_once_example :
    let t = (complete_script_event naturals 1 "a" 4 two_effects 10 tables).1 in
    complete_script_event naturals 1 "a" 5 [] 20 t ≡ (err script_event_ended, t)
complete_once_example =
    complete_once naturals 1 "a" "a" 4 5 10 20 two_effects [] tables completed_run
