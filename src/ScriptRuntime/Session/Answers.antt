-- ===== src/ScriptRuntime/Session/Answers.antt =====
-- The inputs that a session takes, said as what answers the request that it waits for.
use new_yokosuka_server.Base.{
  true, false, ◌≡◌, ◌≢◌, ◌⊎◌, ◌↔◌, refl, Option, none, some, arith, eq_iff, str_eq, Bool-cases,
  Option-cases, inl, inr, subst,
}
use new_yokosuka_server.Base.Int.{ℤ, eq_ℤ, eq_ℤ→eq, eq_ℤ-refl}
use new_yokosuka_server.ScriptRuntime.{Input, Value}
use new_yokosuka_server.ScriptRuntime.Session.{
  Session, Awaiting, nothing, continue, query_result, select, validate_input, refusal, mem_ℤ, is_id,
  is_option, is_nothing,
}

-- One of the available options.
abbrev pub IsOffered : Session → Option ℤ → Type 0
IsOffered s none = ⊥
IsOffered s (some i) = mem_ℤ i s.options ≡ true

abbrev pub IsQuery : Session → Option ℤ → Type 0
IsQuery s none = ⊥
IsQuery s (some i) = i ≡ s.query_id

-- Nothing answers no request; a request is answered by its own kind of input, or cancelled.
pub data Answers (s : Session) : Option Input → Type 0 where
  quiet : s.awaiting ≡ nothing → Answers s none
  cancels :
      {input : Input} → s.awaiting ≢ nothing → input.type_name ≡ "cancel" → Answers s (some input)
  continues :
      {input : Input}
      → s.awaiting ≡ continue
      → input.type_name ≡ "continue"
      → Answers s (some input)
  results :
      {input : Input} (value : Value)
      → s.awaiting ≡ query_result
      → input.type_name ≡ "queryResult"
      → IsQuery s input.query_id
      → input.value ≡ some value
      → Answers s (some input)
  selects :
      {input : Input}
      → s.awaiting ≡ select
      → input.type_name ≡ "select"
      → IsOffered s input.option_id
      → Answers s (some input)

is_id-IsQuery : (s : Session) (o : Option ℤ) → is_id o s.query_id ≡ true → IsQuery s o
is_id-IsQuery s none h = absurd (cc)
is_id-IsQuery s (some i) h = eq_ℤ→eq i s.query_id h

IsQuery-is_id : (s : Session) (o : Option ℤ) → IsQuery s o → is_id o s.query_id ≡ true
IsQuery-is_id s none h = absurd h
IsQuery-is_id s (some i) h = subst (λ j. eq_ℤ i j ≡ true) h (eq_ℤ-refl i)

is_option-IsOffered : (s : Session) (o : Option ℤ) → is_option o s.options ≡ true → IsOffered s o
is_option-IsOffered s none h = absurd (cc)
is_option-IsOffered s (some i) h = h

IsOffered-is_option : (s : Session) (o : Option ℤ) → IsOffered s o → is_option o s.options ≡ true
IsOffered-is_option s none h = absurd h
IsOffered-is_option s (some i) h = h

refusal-Answers :
    (s : Session) (a : Awaiting) (input : Input)
    → s.awaiting ≡ a
    → a ≢ nothing
    → refusal a s input ≡ none
    → Answers s (some input)
unfolding refusal
refusal-Answers s nothing input e live h = absurd (live refl)
refusal-Answers s continue input e live h =
    continues e (ground (arith, eq_iff input.type_name "continue"))
refusal-Answers s query_result input e live h = elim (Option-cases input.value) [
  | inl missing ↦ absurd (ground (arith, missing))
  | inr (value, given) ↦
      results value e (ground (arith, eq_iff input.type_name "queryResult"))
        (is_id-IsQuery s input.query_id (ground arith)) given
]
refusal-Answers s select input e live h =
    selects e (ground (arith, eq_iff input.type_name "select"))
      (is_option-IsOffered s input.option_id (ground arith))

nothing-awaiting : (a : Awaiting) → is_nothing a ≡ true → a ≡ nothing
nothing-awaiting nothing h = refl
nothing-awaiting continue h = absurd (cc)
nothing-awaiting query_result h = absurd (cc)
nothing-awaiting select h = absurd (cc)

something-awaiting : (a : Awaiting) → is_nothing a ≡ false → a ≢ nothing
something-awaiting nothing h e = absurd (cc)
something-awaiting continue h e = absurd (cc)
something-awaiting query_result h e = absurd (cc)
something-awaiting select h e = absurd (cc)

validate_input-Answers :
    (s : Session) (input : Option Input) → (validate_input input s).0 ≡ none → Answers s input
unfolding validate_input
validate_input-Answers s none h = quiet (nothing-awaiting s.awaiting (ground arith))
validate_input-Answers s (some input) h = elim (Bool-cases (is_nothing s.awaiting)) [
  | inl idle ↦ absurd (ground (arith, idle))
  | inr live ↦ elim (Bool-cases (str_eq input.type_name "cancel")) [
    | inl e ↦
        cancels (something-awaiting s.awaiting live)
          (ground (arith, e, eq_iff input.type_name "cancel"))
    | inr e ↦
        refusal-Answers s s.awaiting input refl (something-awaiting s.awaiting live)
          (ground (arith, live, e))
  ]
]

live_input :
    (s : Session) (a : Awaiting) (input : Input)
    → s.awaiting ≡ a
    → a ≢ nothing
    → (input.type_name ≡ "cancel") ⊎ (refusal s.awaiting s input ≡ none)
    → (validate_input (some input) s).0 ≡ none
unfolding validate_input
live_input s nothing input e live h = absurd (live refl)
live_input s continue input e live h = ground (arith, eq_iff input.type_name "cancel")
live_input s query_result input e live h = ground (arith, eq_iff input.type_name "cancel")
live_input s select input e live h = ground (arith, eq_iff input.type_name "cancel")

Answers-validate_input :
    (s : Session) (input : Option Input) → Answers s input → (validate_input input s).0 ≡ none
unfolding validate_input refusal
Answers-validate_input s none (quiet e) = ground arith
Answers-validate_input s (some input) (cancels live e) =
    live_input s s.awaiting input refl live (inl e)
Answers-validate_input s (some input) (continues e h) =
    live_input s continue input e (λ d. absurd (cc))
      (inr (rw e (ground (arith, eq_iff input.type_name "continue"))))
Answers-validate_input s (some input) (results value e h q v) =
    live_input s query_result input e (λ d. absurd (cc))
      (inr (
        rw e (
          ground
            (arith, eq_iff input.type_name "queryResult", IsQuery-is_id s input.query_id q, v))))
Answers-validate_input s (some input) (selects e h o) =
    live_input s select input e (λ d. absurd (cc))
      (inr (
        rw e (
          ground
            (arith, eq_iff input.type_name "select", IsOffered-is_option s input.option_id o))))

-- An input is taken just when it answers what the session waits for: nothing if it waits for
-- nothing, and otherwise a cancellation, or the continuation, the result of this query with a value,
-- or the selection of an available option, whichever it waits for.
pub validate_input_iff :
    (s : Session) (input : Option Input) → ((validate_input input s).0 ≡ none) ↔ Answers s input
validate_input_iff s input = (validate_input-Answers s input, Answers-validate_input s input)
