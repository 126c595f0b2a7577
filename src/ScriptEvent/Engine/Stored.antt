-- ===== src/ScriptEvent/Engine/Stored.antt =====
-- The store as the repository of the engine. The clock, the identifiers and tokens that are
-- generated, the published candidates of a trigger and the texts of their versions are arguments.
use new_yokosuka_server.Base.{ℕ, String, List, Option, none, some}
use new_yokosuka_server.Floats.{Floats}
use new_yokosuka_server.Store.Transaction.{Result, ok, err, invalid, transact}
use new_yokosuka_server.Store.Runs.{
  Run, Events, TriggerCandidate, renew_script_event, cancel_script_event, fail_script_event,
}
use new_yokosuka_server.Store.Effects.{ScriptTables}
use new_yokosuka_server.Store.Effects.Finish.{
  CharacterScriptState, start_event_tx, complete_script_event, pass_script_event,
  record_script_event_step,
}
use new_yokosuka_server.ScriptContent.Triggers.{TriggerSelector, normalize_trigger_selector}
use new_yokosuka_server.ScriptEvent.Engine.{CompiledLine, PublishedScriptEvent, Repository}

pub record Version : Type 0 where
  pub entry_node : String
  pub program : List ℕ
  pub lines : List CompiledLine

module _ (F : Floats) where
  pub record Supply : Type 0 where
    pub now : ℕ
    pub expires : ℕ
    pub next_id : ScriptTables F → ℕ
    pub next_token : ScriptTables F → String
    pub candidates : TriggerSelector → List TriggerCandidate
    pub version : ℕ → Version

  abbrev pub published_of :
      Supply → ℕ → TriggerSelector → Run × CharacterScriptState F → PublishedScriptEvent F
  published_of supply account_id selector (run, state) = record {
    run_id = run.id;
    lease_token = run.lease_token;
    account_id = account_id;
    character_id = run.character_id;
    version_id = run.version_id;
    entry_node = (supply.version run.version_id).entry_node;
    program = (supply.version run.version_id).program;
    trigger = selector;
    lines = (supply.version run.version_id).lines;
    state = state;
  }

  abbrev pub publish :
      Supply
      → ℕ
      → TriggerSelector
      → Result (Run × CharacterScriptState F)
      → Result (PublishedScriptEvent F)
  publish supply account_id selector (err e) = err e
  publish supply account_id selector (ok made) = ok (published_of supply account_id selector made)

  abbrev pub start_normalized :
      Supply
      → ℕ
      → ℕ
      → List ℕ
      → ScriptTables F
      → Option TriggerSelector
      → Result (PublishedScriptEvent F) × ScriptTables F
  start_normalized supply account_id c excluded s none = (err invalid, s)
  start_normalized supply account_id c excluded s (some selector) =
      let done =
        transact
          (start_event_tx F account_id c selector.area excluded (supply.candidates selector)
            (supply.next_id s) (supply.next_token s) supply.expires supply.now)
          s in
      (publish supply account_id selector done.0, done.1)

  abbrev pub start_stored :
      Supply
      → ℕ
      → ℕ
      → TriggerSelector
      → List ℕ
      → ScriptTables F
      → Result (PublishedScriptEvent F) × ScriptTables F
  start_stored supply account_id c requested excluded s =
      start_normalized supply account_id c excluded s (normalize_trigger_selector requested)

  abbrev pub of_events :
      {A : Type 0} → (Events → Result A × Events) → ScriptTables F → Result A × ScriptTables F
  of_events f s = let done = f s.events in (done.0, record s { events = done.1 })

  abbrev pub stored : Supply → Repository F (ScriptTables F)
  stored supply = record {
    start_event = start_stored supply;
    renew_event = λ id token. of_events (renew_script_event id token supply.expires supply.now);
    cancel_event = λ id token. of_events (cancel_script_event id token);
    fail_event = λ id token code message. of_events (fail_script_event id token code message);
    complete_event =
        λ id token revision effects. complete_script_event F id token revision effects supply.now;
    pass_event =
        λ id token revision effects. pass_script_event F id token revision effects supply.now;
    record_step = λ id token step. record_script_event_step F id token step supply.now;
  }
