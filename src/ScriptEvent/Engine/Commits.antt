-- ===== src/ScriptEvent/Engine/Commits.antt =====
-- What the engine knows of an active event is what its runtime said, by the log.
use new_yokosuka_server.Base.{
  ℕ, ◌≡◌, refl, sym, ap, ◌∙◌, Bool, true, false, ◌||◌, some, List, [], ◌∷◌, ◌++◌, arith, ◌==◌,
  Bool-cases, inl, inr, if_true, if◌then◌else◌,
}
use new_yokosuka_server.Floats.{Floats}
use new_yokosuka_server.ScriptRuntime.{Event}
use new_yokosuka_server.Store.Transaction.{Result-cases, ok}
use new_yokosuka_server.ScriptEvent.State.{EventState, stage, WorldFacts}
use new_yokosuka_server.ScriptEvent.Commit.{stage_all}
use new_yokosuka_server.ScriptEvent.Engine.{PublishedScriptEvent, ActiveEvent, new_active}
use new_yokosuka_server.ScriptEvent.Engine.Calls.{
  Call, launched, transcript, add_heard, any_event, durable_events, is_durable, is_visible,
  asks_completion, IsScript,
}
use new_yokosuka_server.ScriptEvent.Engine.Pump.{run_of, token_of}

any_event-append :
    (test : Event → Bool) (events : List Event) (event : Event)
    → any_event test (events ++ (event ∷ [])) ≡ (any_event test events || test event)
any_event-append test [] event = ground arith
any_event-append test (e ∷ events) event = ground (arith, any_event-append test events event)

abbrev pub durable_part : Event → List Event
durable_part event = if is_durable event then event ∷ [] else []

durable_events-append :
    (events : List Event) (event : Event)
    → durable_events (events ++ (event ∷ [])) ≡ durable_events events ++ durable_part event
durable_events-append [] event = refl
durable_events-append (e ∷ events) event = elim (Bool-cases (is_durable e)) [
  | inl kept ↦ rw kept (ap (λ es. e ∷ es) (durable_events-append events event))
  | inr other ↦ rw other (durable_events-append events event)
]

or_left : (a b c : Bool) → (a ≡ true → b ≡ true) → (a || c) ≡ true → (b || c) ≡ true
or_left true b c f h = rw (f refl) refl
or_left false false c f h = h
or_left false true c f h = refl

module _ {F : Floats} where
  stage_all-append :
      (events more : List Event) (begin middle : EventState F)
      → stage_all F events begin ≡ ok middle
      → stage_all F (events ++ more) begin ≡ stage_all F more middle
  unfolding stage_all
  stage_all-append [] more begin middle h =
      let same : begin ≡ middle = ground (arith, h) in ap (stage_all F more) same
  stage_all-append (e ∷ events) more begin middle h = elim (Result-cases (stage F e begin)) [
    | inr (x, refused) ↦ absurd (ground (arith, refused, h))
    | inl (next, first) ↦
        rw (stage_all, first)
          (stage_all-append events more next middle (rw (stage_all, first) at h))
  ]

  -- The state is what the durable commands stage, completion was asked for if the flag says so, and
  -- nothing was visible unless the flag says so.
  pub record Played (log : List (Call F)) (active : ActiveEvent F) : Type 0 where
    pub events : List Event
    pub found : transcript F (run_of active) log ≡ some (active.published, events)
    pub begin : EventState F
    pub from_state : begin.saved ≡ active.published.state
    pub from_none : begin.effects ≡ []
    pub staged : stage_all F (durable_events events) begin ≡ ok active.state
    pub asked : active.completion_requested ≡ true → any_event asks_completion events ≡ true
    pub shown : any_event is_visible events ≡ true → active.visible_yielded ≡ true

  pub new-Played :
      (published : PublishedScriptEvent F) (facts : WorldFacts F) (excluded : List ℕ)
      (log : List (Call F))
      → Played (launched published ∷ log) (new_active F published facts excluded)
  unfolding stage_all
  new-Played published facts excluded log = record {
    events = [];
    found = if_true _ _ (published.run_id == published.run_id) (ground arith);
    begin = record { saved = published.state; facts = facts; effects = [] };
    from_state = refl;
    from_none = refl;
    staged = refl;
    asked = λ e. absurd (cc);
    shown = λ e. absurd (cc);
  }

  -- The log goes on with an event that the engine has not acted on.
  pub record Hears (event : Event) (log : List (Call F)) (active : ActiveEvent F) : Type 0 where
    pub before : List (Call F)
    pub played : Played before active
    pub goes_on :
        transcript F (run_of active) log ≡ add_heard F event (transcript F (run_of active) before)

  -- The engine has acted on the event.
  pub settle :
      (event : Event) (log : List (Call F)) (active : ActiveEvent F) (state : EventState F)
      (asked visible : Bool)
      → Hears event log active
      → stage_all F (durable_part event) active.state ≡ ok state
      → (asked ≡ true → (active.completion_requested || asks_completion event) ≡ true)
      → ((active.visible_yielded || is_visible event) ≡ true → visible ≡ true)
      → Played log
          (record active { state = state; completion_requested = asked; visible_yielded = visible })
  settle event log active state asked visible h staged asks shows =
      let p = h.played in
      record {
        events = p.events ++ (event ∷ []);
        found = h.goes_on ∙ ap (add_heard F event) p.found;
        begin = p.begin;
        from_state = p.from_state;
        from_none = p.from_none;
        staged =
            ap (λ es. stage_all F es p.begin) (durable_events-append p.events event)
            ∙ stage_all-append (durable_events p.events) (durable_part event) p.begin active.state
                p.staged
            ∙ staged;
        asked = λ e.
            any_event-append asks_completion p.events event
            ∙ or_left active.completion_requested (any_event asks_completion p.events)
                (asks_completion event) p.asked (asks e);
        shown = λ e. shows (
            or_left (any_event is_visible p.events) active.visible_yielded (is_visible event)
              p.shown (sym (any_event-append is_visible p.events event) ∙ e));
      }

  -- Nothing was staged.
  pub stages_nothing :
      (event : Event) (state : EventState F)
      → is_durable event ≡ false
      → stage_all F (durable_part event) state ≡ ok state
  unfolding stage_all
  stages_nothing event state h = rw h refl

  pub stages_one :
      (event : Event) (state next : EventState F)
      → is_durable event ≡ true
      → stage F event state ≡ ok next
      → stage_all F (durable_part event) state ≡ ok next
  unfolding stage_all
  stages_one event state next h k =
      ap (λ es. stage_all F es state) (if_true (event ∷ []) [] (is_durable event) h)
      ∙ rw (stage_all, k) refl

  pub unchanged :
      (event : Event) (log : List (Call F)) (active : ActiveEvent F)
      → Hears event log active
      → is_durable event ≡ false
      → is_visible event ≡ false
      → Played log active
  unchanged event log active h quiet unseen =
      settle event log active active.state active.completion_requested active.visible_yielded h
        (stages_nothing event active.state quiet) (λ e. ground (arith, e))
        (λ e. ground (arith, e, unseen))

  pub IsScript-of :
      (log : List (Call F)) (active : ActiveEvent F) (p : Played log active)
      → IsScript F log
          (run_of active)
          (token_of active)
          active.published.state.revision
          active.state.effects
          p.events
  IsScript-of log active p = record {
    published = active.published;
    found = p.found;
    same_token = refl;
    same_revision = refl;
    begin = p.begin;
    last = active.state;
    from_state = p.from_state;
    from_none = p.from_none;
    staged = p.staged;
    same_effects = refl;
  }

  -- The same transcript.
  pub still_Played :
      (log log' : List (Call F)) (a : ActiveEvent F)
      → transcript F (run_of a) log' ≡ transcript F (run_of a) log
      → Played log a
      → Played log' a
  still_Played log log' a e p = record {
    events = p.events;
    found = e ∙ p.found;
    begin = p.begin;
    from_state = p.from_state;
    from_none = p.from_none;
    staged = p.staged;
    asked = p.asked;
    shown = p.shown;
  }
