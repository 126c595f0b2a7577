-- ===== src/ScriptRuntime/Session/Receive.antt =====
-- Each kind of event that is let through, and what it does to the session.
use new_yokosuka_server.ScriptRuntime.Session.Transcript.{
  IsEnding, IsProper, HasLine, named_node, named_line, valid_command, valid_query, named_options,
}
use new_yokosuka_server.Base.{
  true, false, not, ◌||◌, ◌≡◌, ◌≢◌, ◌⊎◌, refl, String, Option, none, some, List, [], ◌∷◌, arith,
  eq_iff, str_eq, if◌then◌else◌, inl, inr, Bool-cases, Option-cases, sym, ◌∙◌, if_false, if_false,
}
use new_yokosuka_server.Base.Lists.{All}
use new_yokosuka_server.Base.Text.{trim_space}
use new_yokosuka_server.ScriptContent.{Diagnostic}
use new_yokosuka_server.ScriptContent.Calls.Valid.{IsValidCall}
use new_yokosuka_server.ScriptContent.Calls.Validity.{analyze_calls-IsValidCall}
use new_yokosuka_server.ScriptRuntime.{Event, RuntimeOption}
use new_yokosuka_server.ScriptRuntime.Session.{
  Session, RuntimeError, call_of, has_diagnostics, receive_command, receive_query, receive_options,
  receive_node, receive_line, receive_choice, receive_end, receive, unknown_event, is_empty,
}

-- What an event that is let through does to the session.
pub record Advances (event : Event) (s t : Session) : Type 0 where
  pub sequence : t.sequence ≡ s.sequence
  pub registry : t.registry ≡ s.registry
  pub going :
      (IsEnding event × (t.terminal ≡ true))
      ⊎ (IsProper s.registry event × (t.terminal ≡ s.terminal))

no_diagnostics :
    (kind : String) (event : Event) (s : Session)
    → has_diagnostics kind event s ≡ false
    → IsValidCall s.registry (call_of kind event)
no_diagnostics kind event s h =
    ((analyze_calls-IsValidCall (call_of kind event ∷ []) s.registry).0 (go _ h)).0
  where
    go : (ds : List Diagnostic) → not (is_empty ds) ≡ false → ds ≡ []
    go [] h = refl
    go (d ∷ ds) h = absurd (cc)

receive_command-Advances :
    (event : Event) (s t : Session)
    → event.type_name ≡ "command"
    → receive_command event s ≡ (none, t)
    → Advances event s t
unfolding receive_command
receive_command-Advances event s t e h = record {
  sequence = ground arith;
  registry = ground arith;
  going = inr (valid_command e (no_diagnostics "command" event s (ground arith)), ground arith);
}

receive_query-Advances :
    (event : Event) (s t : Session)
    → event.type_name ≡ "query"
    → receive_query event s ≡ (none, t)
    → Advances event s t
unfolding receive_query
receive_query-Advances event s t e h = elim (Option-cases event.query_id) [
  | inl missing ↦ absurd (ground (arith, missing))
  | inr (i, found) ↦ record {
    sequence = ground (arith, found);
    registry = ground (arith, found);
    going = inr (
      valid_query i e found (ground (arith, found))
          (no_diagnostics "function" event s (ground (arith, found))),
      ground (arith, found),
    );
  }
]

-- The options of an event are all read, and each has its line.
record Offers (options : List RuntimeOption) (s t : Session) : Type 0 where
  pub sequence : t.sequence ≡ s.sequence
  pub registry : t.registry ≡ s.registry
  terminal : t.terminal ≡ s.terminal
  lines : All HasLine options

receive_options-Offers :
    (options : List RuntimeOption) (s t : Session)
    → receive_options options s ≡ (none, t)
    → Offers options s t
unfolding receive_options
receive_options-Offers [] s t h = record {
  sequence = ground arith;
  registry = ground arith;
  terminal = ground arith;
  lines = tt;
}
receive_options-Offers (option ∷ rest) s t h =
    let more = if option.is_available then record s { options = option.id ∷ s.options } else s in
    let ih = receive_options-Offers rest more t (ground arith) in
    record {
      sequence = ground (arith, ih.sequence);
      registry = ground (arith, ih.registry);
      terminal = ground (arith, ih.terminal);
      lines = (ground (arith, eq_iff option.line_id ""), ih.lines);
    }

receive_node-Advances :
    (event : Event) (s t : Session)
    → (event.type_name ≡ "nodeStart") ⊎ (event.type_name ≡ "nodeComplete")
    → receive_node event s ≡ (none, t)
    → Advances event s t
unfolding receive_node
receive_node-Advances event s t e h = record {
  sequence = ground arith;
  registry = ground arith;
  going = inr (named_node e (ground (arith, eq_iff (trim_space event.node) "")), ground arith);
}

receive_line-Advances :
    (event : Event) (s t : Session)
    → event.type_name ≡ "line"
    → receive_line event s ≡ (none, t)
    → Advances event s t
unfolding receive_line
receive_line-Advances event s t e h = record {
  sequence = ground arith;
  registry = ground arith;
  going = inr (named_line e (ground (arith, eq_iff (trim_space event.line_id) "")), ground arith);
}

Offers-Advances :
    (event : Event) (s t : Session)
    → event.type_name ≡ "options"
    → event.options ≢ []
    → Offers event.options s t
    → Advances event s t
Offers-Advances event s t e some_options h = record {
  sequence = h.sequence;
  registry = h.registry;
  going = inr (named_options e some_options h.lines, h.terminal);
}

receive_choice-Advances :
    (event : Event) (s t : Session)
    → event.type_name ≡ "options"
    → receive_choice event s ≡ (none, t)
    → Advances event s t
unfolding receive_choice
receive_choice-Advances event s t e h = elim (Bool-cases (is_empty event.options)) [
  | inl empty ↦ absurd (ground (arith, empty))
  | inr full ↦ Offers-Advances event s t e (ground (arith, full)) (
      receive_options-Offers event.options s t
        (sym (if_false _ _ (is_empty event.options) full) ∙ h))
]

receive_end-Advances :
    (event : Event) (s t : Session)
    → IsEnding event
    → receive_end s ≡ (none, t)
    → Advances event s t
unfolding receive_end
receive_end-Advances event s t e h = record {
  sequence = ground arith;
  registry = ground arith;
  going = inl (e, ground arith);
}

refused_ok :
    (e : RuntimeError) (s t : Session)
    → ◌≡◌ {A = Option RuntimeError × Session} (some e, s) (none, t)
    → ⊥
refused_ok e s t h = absurd (cc)

pub receive-Advances :
    (event : Event) (s t : Session) → receive event s ≡ (none, t) → Advances event s t
unfolding receive
receive-Advances event s t h =
    let name = event.type_name in
    elim (Bool-cases (str_eq name "nodeStart" || str_eq name "nodeComplete")) [
      | inl e1 ↦
          receive_node-Advances event s t
            (ground (arith, e1, eq_iff name "nodeStart", eq_iff name "nodeComplete"))
            (ground (arith, e1))
      | inr e1 ↦ elim (Bool-cases (str_eq name "line")) [
        | inl e2 ↦
            receive_line-Advances event s t (ground (arith, e2, eq_iff name "line"))
              (ground (arith, e1, e2))
        | inr e2 ↦ elim (Bool-cases (str_eq name "command")) [
          | inl e3 ↦
              receive_command-Advances event s t (ground (arith, e3, eq_iff name "command"))
                (ground (arith, e1, e2, e3))
          | inr e3 ↦ elim (Bool-cases (str_eq name "query")) [
            | inl e4 ↦
                receive_query-Advances event s t (ground (arith, e4, eq_iff name "query"))
                  (ground (arith, e1, e2, e3, e4))
            | inr e4 ↦ elim (Bool-cases (str_eq name "options")) [
              | inl e5 ↦
                  receive_choice-Advances event s t (ground (arith, e5, eq_iff name "options"))
                    (ground (arith, e1, e2, e3, e4, e5))
              | inr e5 ↦ elim (Bool-cases (str_eq name "complete" || str_eq name "cancelled")) [
                | inl e6 ↦
                    receive_end-Advances event s t
                      (ground (arith, e6, eq_iff name "complete", eq_iff name "cancelled"))
                      (ground (arith, e1, e2, e3, e4, e5, e6))
                | inr e6 ↦
                    absurd (refused_ok unknown_event s t (ground (arith, e1, e2, e3, e4, e5, e6)))
              ]
            ]
          ]
        ]
      ]
    ]
