-- ===== src/ScriptRuntime/Session/Failure.antt =====
-- An exchange that fails: a refused input leaves the session, and any other failure ends it.
use new_yokosuka_server.Base.{
  Bool, true, false, not, ◌&&◌, ◌≡◌, ◌⊎◌, refl, Option, none, some, arith, inl, inr, is_some,
  Bool-cases, subst, ap, sym, ◌∙◌, if_true, if_false,
}
use new_yokosuka_server.ScriptRuntime.{Input, Event}
use new_yokosuka_server.ScriptRuntime.Session.{
  Session, RuntimeError, validate_input, force_stop, validate_event, Scanned, session_ended,
  cancelled, stopped, garbled, received, Reply, failed, finish, scan, proceed, exchange,
}

-- No further exchange, and the process is killed.
abbrev pub IsStopped : Session → Type 0
IsStopped s = (s.terminal ≡ true) × (s.running ≡ false)

force_stop-IsStopped : (s : Session) → IsStopped (force_stop s)
unfolding force_stop
force_stop-IsStopped s = (refl, refl)

pub validate_input_refused :
    (input : Option Input) (s t : Session) (e : RuntimeError)
    → validate_input input s ≡ (some e, t)
    → t ≡ s
unfolding validate_input
validate_input_refused none s t e h = ground arith
validate_input_refused (some input) s t e h = ground arith

finish_failed :
    (event : Event) (r : Option RuntimeError × Session) (t : Session) (e : RuntimeError)
    → finish event r ≡ (failed e, t)
    → IsStopped t
unfolding finish
finish_failed event (some d, s) t e h =
    subst (λ (r : Reply × Session). IsStopped r.1) h (force_stop-IsStopped s)
finish_failed event (none, s) t e h = absurd (cc)

scan_failed :
    (scanned : Scanned) (s t : Session) (e : RuntimeError)
    → scan scanned s ≡ (failed e, t)
    → IsStopped t
unfolding scan
scan_failed cancelled s t e h =
    subst (λ (r : Reply × Session). IsStopped r.1) h (force_stop-IsStopped s)
scan_failed stopped s t e h =
    subst (λ (r : Reply × Session). IsStopped r.1) h (force_stop-IsStopped s)
scan_failed garbled s t e h =
    subst (λ (r : Reply × Session). IsStopped r.1) h (force_stop-IsStopped s)
scan_failed (received event) s t e h = finish_failed event (validate_event event s) t e h

proceed_failed :
    (input : Option Input) (written : Bool) (scanned : Scanned) (r : Option RuntimeError × Session)
    (s t : Session) (e : RuntimeError)
    → validate_input input s ≡ r
    → proceed input written scanned r ≡ (failed e, t)
    → (t ≡ s) ⊎ IsStopped t
unfolding proceed
proceed_failed input written scanned (some d, u) s t e q h =
    inl (subst (λ (r : Reply × Session). r.1 ≡ s) h (validate_input_refused input s u d q))
proceed_failed input written scanned (none, u) s t e q h =
    elim (Bool-cases (is_some input && not written)) [
      | inl lost ↦
          inr
            (subst (λ (r : Reply × Session). IsStopped r.1) (rw lost at h) (force_stop-IsStopped u))
      | inr sent ↦ inr (scan_failed scanned u t e (rw sent at h))
    ]

pub exchange_live :
    (input : Option Input) (written : Bool) (scanned : Scanned) (s : Session)
    → s.terminal ≡ false
    → exchange input written scanned s ≡ proceed input written scanned (validate_input input s)
unfolding exchange
exchange_live input written scanned s live = if_false _ _ s.terminal live

pub exchange_over :
    (input : Option Input) (written : Bool) (scanned : Scanned) (s : Session)
    → s.terminal ≡ true
    → exchange input written scanned s ≡ (failed session_ended, s)
unfolding exchange
exchange_over input written scanned s over = if_true _ _ s.terminal over

-- An exchange that fails leaves the session as it was, or ends it and kills the process.
pub exchange_failed :
    (input : Option Input) (written : Bool) (scanned : Scanned) (s t : Session) (e : RuntimeError)
    → exchange input written scanned s ≡ (failed e, t)
    → (t ≡ s) ⊎ IsStopped t
exchange_failed input written scanned s t e h = elim (Bool-cases s.terminal) [
  | inl over ↦
      inl (ap (λ (r : Reply × Session). r.1) (sym h ∙ exchange_over input written scanned s over))
  | inr live ↦
      proceed_failed input written scanned (validate_input input s) s t e refl
        (sym (exchange_live input written scanned s live) ∙ h)
]
