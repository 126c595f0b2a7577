-- ===== src/ScriptRuntime/Session/Order.antt =====
-- The events that a session returns are a transcript.
use new_yokosuka_server.ScriptRuntime.Session.Receive.{receive-Advances}
use new_yokosuka_server.ScriptRuntime.Session.Transcript.{
  IsEnding, IsProper, Call, talk, replies, IsTranscript, done, ended, next,
}
use new_yokosuka_server.Base.{
  suc, Bool, true, not, ◌&&◌, ◌≡◌, ◌⊎◌, refl, Option, none, some, List, [], ◌∷◌, arith, str_eq, inl,
  inr, is_some, Bool-cases, subst, sym, ◌∙◌, ap,
}
use new_yokosuka_server.Base.Int.{pos, eq_ℤ, eq_ℤ→eq}
use new_yokosuka_server.ScriptContent.{CommandRegistry}
use new_yokosuka_server.ScriptRuntime.{Input, Event}
use new_yokosuka_server.ScriptRuntime.Session.{
  finish, scan, cancelled, stopped, garbled, received, proceed, validate_input, Session,
  RuntimeError, validate_event, Scanned, Reply, failed, replied, exchange, new_session, next_turn,
}
use new_yokosuka_server.ScriptRuntime.Session.Failure.{
  exchange_failed, exchange_over, exchange_live, IsStopped,
}

-- What an exchange that returns an event did.
record Replied (event : Event) (s t : Session) : Type 0 where
  number : event.sequence ≡ pos (suc s.sequence)
  sequence : t.sequence ≡ suc s.sequence
  registry : t.registry ≡ s.registry
  going :
      (IsEnding event × (t.terminal ≡ true))
      ⊎ (IsProper s.registry event × (t.terminal ≡ s.terminal))

validate_event-Replied :
    (event : Event) (s t : Session) → validate_event event s ≡ (none, t) → Replied event s t
unfolding validate_event
validate_event-Replied event s t h = elim (Bool-cases (str_eq event.type_name "error")) [
  | inl e ↦ absurd (ground (arith, e))
  | inr e ↦ elim (Bool-cases (eq_ℤ event.sequence (pos (suc s.sequence)))) [
    | inr f ↦ absurd (ground (arith, e, f))
    | inl f ↦
        let a = receive-Advances event (next_turn s) t (ground (arith, e, f)) in
        record {
          number = eq_ℤ→eq event.sequence (pos (suc s.sequence)) f;
          sequence = a.sequence;
          registry = a.registry;
          going = a.going;
        }
  ]
]

event_of : (a b : Event) (u v : Session) → finish a (none, u) ≡ (replied b, v) → a ≡ b
unfolding finish
event_of a b u v h = cc

session_of : (a b : Event) (u v : Session) → finish a (none, u) ≡ (replied b, v) → u ≡ v
unfolding finish
session_of a b u v h = cc

finish-Replied :
    (event e : Event) (s t : Session) (r : Option RuntimeError × Session)
    → validate_event e s ≡ r
    → finish e r ≡ (replied event, t)
    → Replied event s t
unfolding finish
finish-Replied event e s t (some d, u) q h = absurd (cc)
finish-Replied event e s t (none, u) q h =
    subst (λ (f : Event). Replied f s t) (event_of e event u t h)
      (validate_event-Replied e s t
        (q ∙ ap (λ (v : Session). (none, v)) (session_of e event u t h)))

scan-Replied :
    (scanned : Scanned) (event : Event) (s t : Session)
    → scan scanned s ≡ (replied event, t)
    → Replied event s t
unfolding scan
scan-Replied cancelled event s t h = absurd (cc)
scan-Replied stopped event s t h = absurd (cc)
scan-Replied garbled event s t h = absurd (cc)
scan-Replied (received e) event s t h = finish-Replied event e s t (validate_event e s) refl h

validate_input_taken :
    (input : Option Input) (s u : Session)
    → validate_input input s ≡ (none, u)
    → (u.sequence ≡ s.sequence) × (u.registry ≡ s.registry) × (u.terminal ≡ s.terminal)
unfolding validate_input
validate_input_taken none s u h = (ground arith, ground arith, ground arith)
validate_input_taken (some input) s u h = (ground arith, ground arith, ground arith)

Replied-same :
    (event : Event) (s u t : Session)
    → (u.sequence ≡ s.sequence) × (u.registry ≡ s.registry) × (u.terminal ≡ s.terminal)
    → Replied event u t
    → Replied event s t
Replied-same event s u t (n, r, e) h = record {
  number = h.number ∙ ap (λ m. pos (suc m)) n;
  sequence = h.sequence ∙ ap suc n;
  registry = h.registry ∙ r;
  going = elim h.going [
    | inl ending ↦ inl ending
    | inr (proper, same) ↦ inr (subst (λ registry. IsProper registry event) r proper, same ∙ e)
  ];
}

proceed-Replied :
    (input : Option Input) (written : Bool) (scanned : Scanned) (r : Option RuntimeError × Session)
    (event : Event) (s t : Session)
    → validate_input input s ≡ r
    → proceed input written scanned r ≡ (replied event, t)
    → Replied event s t
unfolding proceed
proceed-Replied input written scanned (some d, u) event s t q h = absurd (cc)
proceed-Replied input written scanned (none, u) event s t q h =
    elim (Bool-cases (is_some input && not written)) [
      | inl lost ↦ absurd (ground (arith, lost))
      | inr sent ↦
          Replied-same event s u t (validate_input_taken input s u q)
            (scan-Replied scanned event u t (ground (arith, sent)))
    ]

exchange-Replied :
    (input : Option Input) (written : Bool) (scanned : Scanned) (event : Event) (s t : Session)
    → exchange input written scanned s ≡ (replied event, t)
    → Replied event s t
exchange-Replied input written scanned event s t h = elim (Bool-cases s.terminal) [
  | inl over ↦ absurd (failed_replied (sym (exchange_over input written scanned s over) ∙ h))
  | inr live ↦
      proceed-Replied input written scanned (validate_input input s) event s t refl
        (sym (exchange_live input written scanned s live) ∙ h)
]
  where
    failed_replied :
        {e : RuntimeError} {u : Session}
        → ◌≡◌ {A = Reply × Session} (failed e, u) (replied event, t)
        → ⊥
    failed_replied h = absurd (cc)

-- A session that has ended returns no event.
talk_over : (calls : List Call) (s : Session) → s.terminal ≡ true → talk calls s ≡ []
unfolding talk
talk_over [] s over = refl
talk_over (c ∷ calls) s over =
    ap (λ (r : Reply × Session). replies r.0 (talk calls r.1))
      (exchange_over c.input c.written c.scanned s over)
    ∙ talk_over calls s over

talk-step :
    (calls : List Call) (s : Session) (r : Reply × Session)
    → ((t : Session) → IsTranscript t.registry t.sequence (talk calls t))
    → ((e : RuntimeError) → r.0 ≡ failed e → (r.1 ≡ s) ⊎ IsStopped r.1)
    → ((event : Event) → r.0 ≡ replied event → Replied event s r.1)
    → IsTranscript s.registry s.sequence (replies r.0 (talk calls r.1))
talk-step calls s (failed e, t) ih f g = elim (f e refl) [
  | inl same ↦
      subst (λ (u : Session). IsTranscript s.registry s.sequence (talk calls u)) (sym same) (ih s)
  | inr (over, _) ↦
      subst (λ es. IsTranscript s.registry s.sequence es) (sym (talk_over calls t over)) done
]
talk-step calls s (replied event, t) ih f g =
    let h = g event refl in
    elim h.going [
      | inl (ending, over) ↦
          subst (λ es. IsTranscript s.registry s.sequence (event ∷ es))
            (sym (talk_over calls t over)) (ended h.number ending)
      | inr (proper, _) ↦ next h.number proper (
          subst (λ n. IsTranscript s.registry n (talk calls t)) h.sequence
            (subst (λ r. IsTranscript r t.sequence (talk calls t)) h.registry (ih t)))
    ]

talk-from : (calls : List Call) (s : Session) → IsTranscript s.registry s.sequence (talk calls s)
unfolding talk
talk-from [] s = done
talk-from (c ∷ calls) s =
    talk-step calls s (exchange c.input c.written c.scanned s) (λ t. talk-from calls t)
      (λ e h. exchange_failed c.input c.written c.scanned s _ e (pair h))
      (λ event h. exchange-Replied c.input c.written c.scanned event s _ (pair h))
  where
    pair : {r : Reply × Session} {reply : Reply} → r.0 ≡ reply → r ≡ (reply, r.1)
    pair {r} h = ap (λ (x : Reply). (x, r.1)) h

-- Whatever the runtime process prints and whatever its client sends, the events that a new session
-- returns are numbered 1, 2, 3 and so on. Each but the last lets the script go on: it names its
-- node or its line, or is a valid call of a command or of a function under a positive number, or
-- offers options that each have a line. A completion or a cancellation is the last.
pub talk-IsTranscript :
    (registry : CommandRegistry) (calls : List Call)
    → IsTranscript registry 0 (talk calls (new_session registry))
talk-IsTranscript registry calls = talk-from calls (new_session registry)
