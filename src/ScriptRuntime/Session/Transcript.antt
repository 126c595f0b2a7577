-- ===== src/ScriptRuntime/Session/Transcript.antt =====
-- What a session lets through of what the runtime prints: exchanges in a row, and the events they
-- may return.
use new_yokosuka_server.Base.{ℕ, suc, Bool, false, ◌≡◌, ◌≢◌, ◌⊎◌, Option, some, List, [], ◌∷◌}
use new_yokosuka_server.Base.Int.{ℤ, pos, leb_ℤ}
use new_yokosuka_server.Base.Lists.{All}
use new_yokosuka_server.Base.Text.{trim_space}
use new_yokosuka_server.ScriptContent.{CommandRegistry}
use new_yokosuka_server.ScriptContent.Calls.Valid.{IsValidCall}
use new_yokosuka_server.ScriptRuntime.{Input, Event, RuntimeOption}
use new_yokosuka_server.ScriptRuntime.Session.{
  Session, call_of, Scanned, Reply, failed, replied, exchange,
}

-- One call of the method `Exchange`, with what it meets.
pub record Call : Type 0 where
  pub input : Option Input
  pub written : Bool
  pub scanned : Scanned

abbrev pub replies : Reply → List Event → List Event
replies (failed e) events = events
replies (replied event) events = event ∷ events

-- The events that a sequence of exchanges returns.
unfoldable pub talk : List Call → Session → List Event
talk [] s = []
talk (c ∷ calls) s = let r = exchange c.input c.written c.scanned s in replies r.0 (talk calls r.1)

abbrev pub HasLine : RuntimeOption → Type 0
HasLine option = option.line_id ≢ ""

-- An event after which the script goes on.
pub data IsProper (registry : CommandRegistry) (event : Event) : Type 0 where
  named_node :
      (event.type_name ≡ "nodeStart") ⊎ (event.type_name ≡ "nodeComplete")
      → trim_space event.node ≢ ""
      → IsProper registry event
  named_line : event.type_name ≡ "line" → trim_space event.line_id ≢ "" → IsProper registry event
  valid_command :
      event.type_name ≡ "command"
      → IsValidCall registry (call_of "command" event)
      → IsProper registry event
  valid_query :
      (i : ℤ)
      → event.type_name ≡ "query"
      → event.query_id ≡ some i
      → leb_ℤ i (pos 0) ≡ false
      → IsValidCall registry (call_of "function" event)
      → IsProper registry event
  named_options :
      event.type_name ≡ "options"
      → event.options ≢ []
      → All HasLine event.options
      → IsProper registry event

abbrev pub IsEnding : Event → Type 0
IsEnding event = (event.type_name ≡ "complete") ⊎ (event.type_name ≡ "cancelled")

-- Events numbered on from `n`, proper ones up to an ending one, which is the last.
pub data IsTranscript (registry : CommandRegistry) : ℕ → List Event → Type 0 where
  done : {n : ℕ} → IsTranscript registry n []
  ended :
      {n : ℕ} {event : Event}
      → event.sequence ≡ pos (suc n)
      → IsEnding event
      → IsTranscript registry n (event ∷ [])
  next :
      {n : ℕ} {event : Event} {events : List Event}
      → event.sequence ≡ pos (suc n)
      → IsProper registry event
      → IsTranscript registry (suc n) events
      → IsTranscript registry n (event ∷ events)
