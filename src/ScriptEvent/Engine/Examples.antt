-- ===== src/ScriptEvent/Engine/Examples.antt =====
-- A script that shows a line, pays the player and completes, on the store.

use new_yokosuka_server.Store.Runs.{expire_runs, update_where, choose, claim_revision, insert_run}
use new_yokosuka_server.Store.Effects.Finish.{
  start_event_tx, lock_character, record_script_event_step, insert_step, is_step_kind,
  load_character_script_state,
}
use new_yokosuka_server.Base.{
  suc, ◌≡◌, refl, true, String, ℕ, List, Option, some, none, [], ◌∷◌, is_some,
}
use new_yokosuka_server.Base.Int.{pos}
use new_yokosuka_server.Base.Text.{trim_space, show_ℕ, is_key}
use new_yokosuka_server.Floats.Naturals.{naturals}
use new_yokosuka_server.ScriptRuntime.{Event, continue_input}
use new_yokosuka_server.Store.Examples.{start as database}
use new_yokosuka_server.Store.Transaction.{ok, err, transact, ◌>>=◌}
use new_yokosuka_server.Store.Effects.{ScriptTables, durable_of}
use new_yokosuka_server.Store.Effects.Examples.{number, text}
use new_yokosuka_server.ScriptEvent.State.{
  WorldFacts, stage, stage_saved, stage_durable, stage_yen, stage_grant, positive_integer,
  event_integer, event_number,
}
use new_yokosuka_server.ScriptContent.Triggers.{
  TriggerSelector, normalize_trigger_selector, is_valid_selector, has_trigger_shape,
}
use new_yokosuka_server.ScriptEvent.Engine.{
  ActiveEvent, World, Environment, invalid, kind_of, disposition_of, durable_of,
  PublishedScriptEvent, Repository, new_active,
}
use new_yokosuka_server.ScriptEvent.Engine.Pump.{
  Answer, start, advance, start_candidate, pump, send, trace_input, receive, record_trace, dispatch,
  run_command, stage_command, show_line, advance_event, finish, open_session,
}
use new_yokosuka_server.ScriptEvent.Engine.Sessions.{open_session-IsTracked, IsTracked, Settles}
use new_yokosuka_server.ScriptEvent.Engine.Reached.{new_engine, begun, started, reaches-IsTracked}
use new_yokosuka_server.ScriptEvent.Engine.Answers.{
  start_answers, is_last, is_last_event, is_last_command, has_identifier, has_identifier_at,
}
use new_yokosuka_server.ScriptEvent.Engine.Tracked.{start-Settles, advance-Settles}
use new_yokosuka_server.ScriptEvent.Engine.Stored.{Supply, stored}

abbrev pub plain : String → ℕ → String → Event
plain type_name sequence name = record {
  type_name = type_name;
  sequence = pos sequence;
  query_id = none;
  name = name;
  node = "Start";
  line_id = "l1";
  arguments = [];
  options = [];
  message = "";
}

abbrev pub to_the_line : List (Option Event)
to_the_line =
    some (plain "nodeStart" 1 "")
    ∷ some (record (plain "command" 2 "grant_yen") { arguments = number "100" ∷ text "gift" ∷ [] })
    ∷ some (plain "line" 3 "")
    ∷ []

abbrev pub to_the_end : List (Option Event)
to_the_end = some (plain "command" 4 "complete") ∷ some (plain "complete" 5 "") ∷ []

abbrev pub no_facts : WorldFacts naturals
no_facts = record {
  game_hour = none;
  game_date = none;
  actor_presence = λ a. none;
  actor_states = λ a k. none;
  actor_bounds = λ a k. none;
  object_existence = λ o. none;
  activity_results = λ a. none;
}

abbrev supply : Supply naturals
supply = record {
  now = 10;
  expires = 300;
  next_id = λ s. 1;
  next_token = λ s. "a";
  candidates = λ selector. record { version_id = 4; priority = pos 2 } ∷ [];
  version = λ id. record {
    entry_node = "Start";
    program = 1 ∷ [];
    lines = record { id = "l1"; text = some "Hello." } ∷ [];
  };
}

abbrev env : Environment naturals (ScriptTables naturals)
env = record {
  repository = stored naturals supply;
  launches = λ published. true;
  random = none;
  text_of = λ e. "failed";
}

abbrev tables : ScriptTables naturals
tables = record {
  db = database;
  events = record { runs = []; revisions = λ c. none };
  flags = λ c k. none;
  progress = λ c k. none;
  effects = [];
  trace = [];
}

abbrev pub area : TriggerSelector
area = record { kind = "enter"; area = "dobuita"; actor = ""; object = ""; activity = "" }

abbrev engine : World naturals (ScriptTables naturals)
engine = new_engine tables

abbrev answer_or :
    Option (Answer naturals (ScriptTables naturals)) → Answer naturals (ScriptTables naturals)
answer_or none = (err invalid, engine)
answer_or (some answer) = answer

unfoldable shown : Answer naturals (ScriptTables naturals)
shown = answer_or (start env to_the_line 3 7 area no_facts engine)

start_shows : start env to_the_line 3 7 area no_facts engine ≡ some shown
unfolding shown start start_candidate pump send trace_input receive record_trace dispatch
    run_command stage_command show_line kind_of disposition_of durable_of stage stage_saved
    stage_durable stage_yen stage_grant positive_integer event_integer event_number start_event_tx
    lock_character expire_runs update_where choose claim_revision insert_run transact ◌>>=◌
    record_script_event_step insert_step is_step_kind trim_space show_ℕ normalize_trigger_selector
    is_valid_selector has_trigger_shape is_key
start_shows = refl

-- A repository that agrees to everything and counts its calls.
abbrev pub published : PublishedScriptEvent naturals
published = record {
  run_id = 1;
  lease_token = "a";
  account_id = 3;
  character_id = 7;
  version_id = 4;
  entry_node = "Start";
  program = 1 ∷ [];
  trigger = area;
  lines = record { id = "l1"; text = some "Hello." } ∷ [];
  state = load_character_script_state naturals 7 "" 0 4 tables;
}

abbrev pub agreeing : Repository naturals ℕ
agreeing = record {
  start_event = λ account_id c selector excluded n. (ok published, suc n);
  renew_event = λ id token n. (ok tt, suc n);
  cancel_event = λ id token n. (ok tt, suc n);
  fail_event = λ id token code message n. (ok tt, suc n);
  complete_event = λ id token revision effects n. (ok (suc revision), suc n);
  pass_event = λ id token revision effects n. (ok (suc revision), suc n);
  record_step = λ id token step n. (ok tt, suc n);
}

abbrev pub small : Environment naturals ℕ
small = record {
  repository = agreeing;
  launches = λ p. true;
  random = none;
  text_of = λ e. "failed";
}

abbrev running : ActiveEvent naturals
running = new_active naturals published no_facts []

abbrev one_running : World naturals ℕ
one_running = open_session running (new_engine 0)

unfoldable paid : Answer naturals ℕ
paid = elim (advance small to_the_end 3 7 1 continue_input one_running) [
  | none ↦ (err invalid, one_running)
  | some answer ↦ answer
]

advance_pays : advance small to_the_end 3 7 1 continue_input one_running ≡ some paid
unfolding paid pump send trace_input receive record_trace dispatch run_command kind_of
    disposition_of durable_of advance advance_event finish
advance_pays = refl

advance-Settles_example : Settles 1 one_running.active paid
advance-Settles_example =
    advance-Settles small to_the_end 1 continue_input running one_running paid
      (open_session-IsTracked running (reaches-IsTracked small (new_engine 0) (begun 0))) refl
      advance_pays

start_answers_example : is_some (start env to_the_line 3 7 area no_facts engine) ≡ true
unfolding is_last is_last_event kind_of is_last_command disposition_of durable_of has_identifier
    has_identifier_at
start_answers_example = start_answers env to_the_line 3 7 area no_facts engine refl refl

reaches-IsTracked_example : IsTracked naturals (ScriptTables naturals) shown.1
reaches-IsTracked_example =
    reaches-IsTracked env shown.1
      (started to_the_line 3 7 area no_facts engine shown (begun tables) start_shows)

start-Settles_example : Settles 2 engine.active shown
start-Settles_example =
    start-Settles env to_the_line 3 7 area no_facts 2 engine shown
      (reaches-IsTracked env engine (begun tables)) refl start_shows
