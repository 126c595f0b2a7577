-- ===== src/ScriptEvent/Engine/Settled.antt =====
-- Every answer of the engine leaves open just the sessions of the events that are active.
use new_yokosuka_server.Base.{
  ℕ, ◌≡◌, refl, ap, ◌∙◌, true, false, String, Option, none, some, List, arith, ◌==◌, ==_iff,
  is_some, Bool-cases, Option-cases, inl, inr,
}
use new_yokosuka_server.Floats.{Floats}
use new_yokosuka_server.ScriptRuntime.{Event, Input}
use new_yokosuka_server.Store.Transaction.{Result-cases, ok, err, Error, invalid}
use new_yokosuka_server.ScriptEvent.State.{WorldFacts, stage}
use new_yokosuka_server.ScriptEvent.Query.{resolve_query}
use new_yokosuka_server.ScriptContent.Triggers.{TriggerSelector}
use new_yokosuka_server.ScriptEvent.Engine.{
  at_line, at_options, at_cancel, at_end, kind_of, ActiveEvent, World, Environment, yield_of,
  ended_yield, present_options, new_active,
}
use new_yokosuka_server.ScriptEvent.Engine.Pump.{
  Answer, Loop, run_of, open_session, with_repository, fail, answer_query, stage_command,
  start_candidate, show_line, show_options, cancel, finish, not_started,
}
use new_yokosuka_server.ScriptEvent.Engine.Sessions.{
  is_live, IsTracked, IsSettled, Settles, tracks, open_session-IsTracked, removed-Settles,
  shown-Settles, ended-Settles, is_live_kind,
}

module _ {F : Floats} {R : Type 0} where
  -- What is shown of an answer, if there is one.
  abbrev pub AllSettle : ℕ → (ℕ → Option (ActiveEvent F)) → Option (Answer F R) → Type 0
  AllSettle run before none = Unit
  AllSettle run before (some answer) = Settles run before answer

  pub record Keeps (next : Loop F R) : Type 0 where
    pub settles :
        (input : Option Input) (active : ActiveEvent F) (w : World F R)
        → IsTracked F R w
        → w.sessions (run_of active) ≡ true
        → AllSettle (run_of active) w.active (next input active w)

  pub opened_true :
      (active : ActiveEvent F) (w : World F R)
      → (open_session active w).sessions (run_of active) ≡ true
  opened_true active w = ground (arith, ==_iff (run_of active) (run_of active))

  pub refused-Settles :
      (run : ℕ) (e : Error) (w : World F R)
      → IsTracked F R w
      → is_some (w.active run) ≡ false
      → Settles run w.active (err e, w)
  unfolding IsSettled
  refused-Settles run e w t idle = record {
    tracked = t;
    settled = λ id gone. elim (Bool-cases (id == run)) [
      | inl same ↦ ap (λ (i : ℕ). is_some (w.active i)) ((==_iff id run).0 same) ∙ idle
      | inr other ↦ ground (arith, other, gone)
    ];
  }

  -- From the event that began to the run that was not active.
  began-Settles :
      (run : ℕ) (active : ActiveEvent F) (w : World F R) (answer : Option (Answer F R))
      → is_some (w.active run) ≡ false
      → AllSettle (run_of active) (open_session active w).active answer
      → AllSettle run w.active answer
  unfolding IsSettled
  began-Settles run active w none idle h = tt
  began-Settles run active w (some (ok yield, w')) idle h = record {
    tracked = h.tracked;
    settled = h.settled;
  }
  began-Settles run active w (some (err e, w')) idle h = record {
    tracked = h.tracked;
    settled = λ id gone. h.settled id (elim (Bool-cases (id == run)) [
      | inl same ↦
          let free = ap (λ (i : ℕ). is_some (w.active i)) ((==_iff id run).0 same) ∙ idle in
          ground (arith, free)
      | inr other ↦ ground (arith, other, gone)
    ]);
  }

  module _ (env : Environment F R) where
    pub fail-Settles :
        (active : ActiveEvent F) (code : String) (cause : Error) (w : World F R)
        → IsTracked F R w
        → Settles (run_of active) w.active (fail env active code cause w)
    unfolding fail
    fail-Settles active code cause w t = removed-Settles active _ w _ t

    pub answer_query-Settles :
        (next : Loop F R) (event : Event) (active : ActiveEvent F) (w : World F R)
        → Keeps next
        → IsTracked F R w
        → w.sessions (run_of active) ≡ true
        → AllSettle (run_of active) w.active (answer_query env next event active w)
    unfolding answer_query
    answer_query-Settles next event active w n t opened =
        elim (Result-cases (resolve_query F env.random active.state event)) [
          | inr (e, refused) ↦
              rw (AllSettle, answer_query, refused) (fail-Settles active "query" e w t)
          | inl (value, resolved) ↦ elim (Option-cases event.query_id) [
            | inl missing ↦ rw (AllSettle, answer_query, resolved, missing) tt
            | inr (id, found) ↦
                rw (AllSettle, answer_query, resolved, found) (n.settles _ active w t opened)
          ]
        ]

    pub stage_command-Settles :
        (next : Loop F R) (event : Event) (active : ActiveEvent F) (w : World F R)
        → Keeps next
        → IsTracked F R w
        → w.sessions (run_of active) ≡ true
        → AllSettle (run_of active) w.active (stage_command env next event active w)
    unfolding stage_command
    stage_command-Settles next event active w n t opened =
        elim (Result-cases (stage F event active.state)) [
          | inr (e, refused) ↦
              rw (AllSettle, stage_command, refused) (fail-Settles active "effect" e w t)
          | inl (state, staged) ↦
              rw (AllSettle, stage_command, staged)
                (n.settles _ (record active { state = state }) w t opened)
        ]

    pub show_line-Settles :
        (event : Event) (active : ActiveEvent F) (w : World F R)
        → kind_of event.type_name ≡ at_line
        → IsTracked F R w
        → w.sessions (run_of active) ≡ true
        → AllSettle (run_of active) w.active (show_line env event active w)
    unfolding show_line is_live is_live_kind
    show_line-Settles event active w kind t opened =
        elim (Bool-cases (is_some (active.lines event.line_id))) [
          | inr missing ↦
              rw (AllSettle, show_line, missing) (fail-Settles active "line" invalid w t)
          | inl found ↦
              rw (AllSettle, show_line, found)
                (shown-Settles active (yield_of F active event) w refl (rw kind refl) t opened)
        ]

    pub show_options-Settles :
        (event : Event) (active : ActiveEvent F) (w : World F R)
        → kind_of event.type_name ≡ at_options
        → IsTracked F R w
        → w.sessions (run_of active) ≡ true
        → AllSettle (run_of active) w.active (show_options env event active w)
    unfolding show_options is_live is_live_kind
    show_options-Settles event active w kind t opened =
        elim (Option-cases (present_options active.lines event.options)) [
          | inl refused ↦
              rw (AllSettle, show_options, refused) (fail-Settles active "options" invalid w t)
          | inr (presented, found) ↦
              rw (AllSettle, show_options, found)
                (shown-Settles active
                  (record (yield_of F active event) { options = some presented }) w refl
                  (rw kind refl) t opened)
        ]

    pub cancel-Settles :
        (event : Event) (active : ActiveEvent F) (w : World F R)
        → kind_of event.type_name ≡ at_cancel
        → IsTracked F R w
        → AllSettle (run_of active) w.active (cancel env event active w)
    unfolding cancel is_live is_live_kind
    cancel-Settles event active w kind t =
        let done =
          env.repository.cancel_event (run_of active) active.published.lease_token w.repository in
        elim (Result-cases done.0) [
          | inr (e, failed) ↦
              rw (AllSettle, cancel, failed)
                (fail-Settles active "cancel" e (with_repository w done.1) (tracks t done.1))
          | inl (_, cancelled) ↦
              rw (AllSettle, cancel, cancelled)
                (ended-Settles active (yield_of F active event) w done.1 refl (rw kind refl) t)
        ]

    pub finish-Settles :
        (event : Event) (active : ActiveEvent F) (w : World F R)
        → kind_of event.type_name ≡ at_end
        → IsTracked F R w
        → AllSettle (run_of active) w.active (finish env event active w)
    unfolding finish is_live is_live_kind fail
    finish-Settles event active w kind t =
        let done =
          env.repository.complete_event (run_of active) active.published.lease_token
            active.published.state.revision active.state.effects w.repository in
        elim (Bool-cases active.completion_requested) [
          | inr unasked ↦
              rw (AllSettle, finish, unasked)
                (fail-Settles active "completion_required" invalid w t)
          | inl asked ↦ elim (Result-cases done.0) [
            | inr (e, failed) ↦
                rw (AllSettle, finish, asked, failed)
                  (fail-Settles active "commit" e (with_repository w done.1) (tracks t done.1))
            | inl (revision, finished) ↦
                rw (AllSettle, finish, asked, finished)
                  (ended-Settles active (ended_yield F active event revision) w done.1 refl
                    (rw kind refl) t)
          ]
        ]

    -- A start where the run is not active.
    pub start_candidate-Settles :
        (next : Loop F R) (account_id c : ℕ) (selector : TriggerSelector) (facts : WorldFacts F)
        (excluded : List ℕ) (run : ℕ) (w : World F R)
        → Keeps next
        → IsTracked F R w
        → is_some (w.active run) ≡ false
        → AllSettle run w.active (start_candidate env next account_id c selector facts excluded w)
    unfolding start_candidate
    start_candidate-Settles next account_id c selector facts excluded run w n t idle =
        let done = env.repository.start_event account_id c selector excluded w.repository in
        elim (Result-cases done.0) [
          | inr (e, refused) ↦
              rw (AllSettle, start_candidate, refused)
                (refused-Settles run e (with_repository w done.1) (tracks t done.1) idle)
          | inl (published, begun) ↦ elim (Bool-cases (env.launches published)) [
            | inr dead ↦
                rw (AllSettle, start_candidate, begun, dead)
                  (refused-Settles run invalid
                    (with_repository w (not_started env published done.1))
                    (tracks t (not_started env published done.1)) idle)
            | inl alive ↦
                let active = new_active F published facts excluded in
                let w' = open_session active (with_repository w done.1) in
                rw (AllSettle, start_candidate, begun, alive)
                  (began-Settles run active (with_repository w done.1) (next none active w') idle (
                    n.settles none active w' (open_session-IsTracked active (tracks t done.1))
                      (opened_true active (with_repository w done.1))))
          ]
        ]
