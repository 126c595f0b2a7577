-- ===== src/ScriptEvent/Engine/Calls.antt =====
-- What an engine does to its repository, as a log: the events whose runtime started, the answers of
-- the runtimes that were recorded, and the effects that were committed. And what a script said,
-- read off the log alone.
use new_yokosuka_server.Base.{
  ℕ, Bool, true, false, ◌&&◌, ◌||◌, ◌≡◌, String, Option, none, some, List, [], ◌∷◌, ◌++◌, ◌==◌,
  str_eq, is_some, if◌then◌else◌,
}
use new_yokosuka_server.Floats.{Floats}
use new_yokosuka_server.ScriptRuntime.{Event}
use new_yokosuka_server.Store.Transaction.{Result, ok, err}
use new_yokosuka_server.Store.Effects.{
  ScriptEffect, Payload, event_payload, input_payload, durable_of,
}
use new_yokosuka_server.ScriptEvent.State.{EventState}
use new_yokosuka_server.ScriptEvent.Commit.{stage_all}
use new_yokosuka_server.ScriptEvent.Engine.{PublishedScriptEvent, Environment}

abbrev pub asks_completion : Event → Bool
asks_completion event = str_eq event.type_name "command" && str_eq event.name "complete"

abbrev pub is_durable : Event → Bool
is_durable event = str_eq event.type_name "command" && is_some (durable_of event.name)

-- The commands that a player sees.
abbrev pub is_scene_command : String → Bool
is_scene_command name =
    str_eq name "play_player_motion"
    || str_eq name "look_at_actor"
    || str_eq name "clear_actor_look"
    || str_eq name "start_camera"
    || str_eq name "stop_camera"
    || str_eq name "play_sequence"
    || str_eq name "start_activity"

abbrev pub is_visible : Event → Bool
is_visible event =
    str_eq event.type_name "line"
    || str_eq event.type_name "options"
    || (str_eq event.type_name "command" && is_scene_command event.name)

abbrev pub any_event : (Event → Bool) → List Event → Bool
any_event test [] = false
any_event test (event ∷ events) = test event || any_event test events

abbrev pub durable_events : List Event → List Event
durable_events [] = []
durable_events (event ∷ events) =
    let rest = durable_events events in if is_durable event then event ∷ rest else rest

module _ (F : Floats) where
  pub data Call : Type 0 where
    launched : PublishedScriptEvent F → Call
    heard : ℕ → Event → Call
    committed declined : ℕ → String → ℕ → List ScriptEffect → Call

  abbrev pub note_start :
      (PublishedScriptEvent F → Bool) → Result (PublishedScriptEvent F) → List Call → List Call
  note_start launches (err e) log = log
  note_start launches (ok published) log =
      if launches published then launched published ∷ log else log

  abbrev pub note_step : ℕ → Payload → List Call → List Call
  note_step id (event_payload event) log = heard id event ∷ log
  note_step id (input_payload input) log = log

  -- The same repository, beside the log, the newest call first.
  abbrev pub logged : {R : Type 0} → Environment F R → Environment F (R × List Call)
  logged env = record {
    repository = record {
      start_event = λ account_id c selector excluded s.
          let done = env.repository.start_event account_id c selector excluded s.0 in
          (done.0, (done.1, note_start env.launches done.0 s.1));
      renew_event = λ id token s.
          let done = env.repository.renew_event id token s.0 in (done.0, (done.1, s.1));
      cancel_event = λ id token s.
          let done = env.repository.cancel_event id token s.0 in (done.0, (done.1, s.1));
      fail_event = λ id token code message s.
          let done = env.repository.fail_event id token code message s.0 in (done.0, (done.1, s.1));
      complete_event = λ id token revision effects s.
          let done = env.repository.complete_event id token revision effects s.0 in
          (done.0, (done.1, committed id token revision effects ∷ s.1));
      pass_event = λ id token revision effects s.
          let done = env.repository.pass_event id token revision effects s.0 in
          (done.0, (done.1, declined id token revision effects ∷ s.1));
      record_step = λ id token step s.
          let done = env.repository.record_step id token step s.0 in
          (done.0, (done.1, note_step id step.payload s.1));
    };
    launches = env.launches;
    random = env.random;
    text_of = env.text_of;
  }

  abbrev pub add_heard :
      Event
      → Option (PublishedScriptEvent F × List Event)
      → Option (PublishedScriptEvent F × List Event)
  add_heard event none = none
  add_heard event (some (published, events)) = some (published, events ++ (event ∷ []))

  -- The event that a run was last launched for, and the answers of its runtime since then.
  abbrev pub transcript : ℕ → List Call → Option (PublishedScriptEvent F × List Event)
  transcript id [] = none
  transcript id (launched published ∷ log) =
      let rest = transcript id log in if published.run_id == id then some (published, []) else rest
  transcript id (heard run_id event ∷ log) =
      let rest = transcript id log in if run_id == id then add_heard event rest else rest
  transcript id (committed run_id token revision effects ∷ log) = transcript id log
  transcript id (declined run_id token revision effects ∷ log) = transcript id log

  -- The run's token and first revision, and the effects that its durable commands stage one after
  -- the other, from the state it was published with and from no effects.
  pub record IsScript (log : List Call) (id : ℕ) (token : String) (revision : ℕ)
      (effects : List ScriptEffect) (events : List Event) : Type 0 where
    pub published : PublishedScriptEvent F
    pub found : transcript id log ≡ some (published, events)
    pub same_token : published.lease_token ≡ token
    pub same_revision : published.state.revision ≡ revision
    pub begin : EventState F
    pub last : EventState F
    pub from_state : begin.saved ≡ published.state
    pub from_none : begin.effects ≡ []
    pub staged : stage_all F (durable_events events) begin ≡ ok last
    pub same_effects : last.effects ≡ effects

  abbrev pub IsJustified : List Call → Call → Type 0
  IsJustified log (launched published) = Unit
  IsJustified log (heard id event) = Unit
  IsJustified log (committed id token revision effects) =
      (events : List Event) × IsScript log id token revision effects events
      × (any_event asks_completion events ≡ true)
  IsJustified log (declined id token revision effects) =
      (events : List Event) × IsScript log id token revision effects events
      × (any_event is_visible events ≡ false)

  -- Every call by those before it.
  abbrev pub AllJustified : List Call → Type 0
  AllJustified [] = Unit
  AllJustified (call ∷ log) = IsJustified log call × AllJustified log
