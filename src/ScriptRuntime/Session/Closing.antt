-- ===== src/ScriptRuntime/Session/Closing.antt =====
-- The method `Close`.
use new_yokosuka_server.Base.{
  true, false, ◌≡◌, refl, none, arith, if_false, if_true, if◌then◌else◌, ap, ◌∙◌, Option,
}
use new_yokosuka_server.ScriptRuntime.Session.{
  Session, RuntimeError, Waited, exited, exited_badly, timed_out, wait_for, close, force_stop,
}

abbrev ending : Session → Session
ending s = record (if s.terminal then s else force_stop s) { closed = true }

close_open :
    (outcome : Waited) (s : Session)
    → s.closed ≡ false
    → close outcome s ≡ wait_for outcome (ending s)
unfolding close
close_open outcome s h = if_false _ _ s.closed h

close_closed : (outcome : Waited) (s : Session) → s.closed ≡ true → close outcome s ≡ (none, s)
unfolding close
close_closed outcome s h = if_true _ _ s.closed h

ending-terminal : (s : Session) → (ending s).terminal ≡ true
unfolding force_stop
ending-terminal s = ground arith

wait_for_lem :
    (outcome : Waited) (s : Session)
    → s.terminal ≡ true
    → s.closed ≡ true
    → ((wait_for outcome s).1.terminal ≡ true) × ((wait_for outcome s).1.closed ≡ true)
unfolding wait_for force_stop
wait_for_lem exited s h c = (h, c)
wait_for_lem exited_badly s h c = (h, c)
wait_for_lem timed_out s h c = (refl, c)

-- Closing an open session ends it, however the process exits, and closing it again does nothing and
-- reports no error.
pub close_once :
    (outcome again : Waited) (s : Session)
    → s.closed ≡ false
    → ((close outcome s).1.terminal ≡ true)
      × (close again (close outcome s).1 ≡ (none, (close outcome s).1))
close_once outcome again s h =
    let (over, shut) = wait_for_lem outcome (ending s) (ending-terminal s) refl in
    let e = ap (λ (r : Option RuntimeError × Session). r.1) (close_open outcome s h) in
    (
      ap (λ (t : Session). t.terminal) e ∙ over,
      close_closed again (close outcome s).1 (ap (λ (t : Session). t.closed) e ∙ shut),
    )
