-- ===== src/ScriptEvent/Engine/Justified.antt =====
-- The engine on a logged repository, from its start.
use new_yokosuka_server.Base.{ℕ, ◌≡◌, subst, Option, List, [], some}
use new_yokosuka_server.Floats.{Floats}
use new_yokosuka_server.ScriptRuntime.{Event, Input}
use new_yokosuka_server.ScriptEvent.State.{WorldFacts}
use new_yokosuka_server.ScriptContent.Triggers.{TriggerSelector}
use new_yokosuka_server.ScriptEvent.Engine.{Environment}
use new_yokosuka_server.ScriptEvent.Engine.Calls.{Call, logged, AllJustified}
use new_yokosuka_server.ScriptEvent.Engine.Others.{IsSound}
use new_yokosuka_server.ScriptEvent.Engine.Permitted.{Logged, log_of, AllSound}
use new_yokosuka_server.ScriptEvent.Engine.Looped.{start-AllSound, advance-AllSound}
use new_yokosuka_server.ScriptEvent.Engine.Pump.{Answer, start, advance, with_repository}
use new_yokosuka_server.ScriptEvent.Engine.Reached.{new_engine}

module _ {F : Floats} {R : Type 0} (env : Environment F R) where
  -- From a new engine and an empty log, by calls that answer, and by what others do to the
  -- repository.
  pub data Runs : Logged env → Type 0 where
    made : (r : R) → Runs (new_engine (r, []))
    changed : (w : Logged env) (r : R) → Runs w → Runs (with_repository w (r, log_of env w))
    started :
        (answers : List (Option Event)) (account_id c : ℕ) (selector : TriggerSelector)
        (facts : WorldFacts F) (w : Logged env) (answer : Answer F (R × List (Call F)))
        → Runs w
        → start (logged F env) answers account_id c selector facts w ≡ some answer
        → Runs answer.1
    advanced :
        (answers : List (Option Event)) (account_id c run_id : ℕ) (input : Input) (w : Logged env)
        (answer : Answer F (R × List (Call F)))
        → Runs w
        → advance (logged F env) answers account_id c run_id input w ≡ some answer
        → Runs answer.1

  new_engine-IsSound : (r : R × List (Call F)) → IsSound {F = F} [] (new_engine {F = F} r).active
  new_engine-IsSound r = record {
    holds = tt;
    own = λ j a h. absurd (cc);
    played = λ j a h. absurd (cc);
  }

  runs-IsSound : (w : Logged env) → Runs w → IsSound (log_of env w) w.active
  runs-IsSound w (made r) = new_engine-IsSound (r, [])
  runs-IsSound w (changed v r before) = runs-IsSound v before
  runs-IsSound w (started answers account_id c selector facts v answer before h) =
      subst (AllSound env) h
        (start-AllSound env answers account_id c selector facts v (runs-IsSound v before))
  runs-IsSound w (advanced answers account_id c run_id input v answer before h) =
      subst (AllSound env) h
        (advance-AllSound env answers account_id c run_id input v (runs-IsSound v before))

  -- In the log of every engine that runs from its start, whatever the repository answers and while
  -- others change it, each request to commit effects follows from the calls before it. For a
  -- completion: since the run was last launched, the answers of its runtime that were recorded have
  -- the command `complete` among them, and their durable commands, staged one after the other from
  -- the state that the run was published with, give the effects to commit, with the run's token and
  -- first revision. For a pass the same holds of the effects, and none of the answers is a line, a
  -- choice of options or a scene command, which the player sees.
  pub runs-AllJustified : (w : Logged env) → Runs w → AllJustified F (log_of env w)
  runs-AllJustified w reached = (runs-IsSound w reached).holds
