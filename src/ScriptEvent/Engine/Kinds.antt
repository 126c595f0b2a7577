-- ===== src/ScriptEvent/Engine/Kinds.antt =====
-- What the kind of an event, and the disposition of a command, say of its texts.
use new_yokosuka_server.Base.{
  Bool, true, false, ◌≡◌, refl, sym, ap, ◌∙◌, String, str_eq, is_some, arith, Bool-cases, inl, inr,
  eq_iff,
}
use new_yokosuka_server.ScriptRuntime.{Event}
use new_yokosuka_server.Store.Effects.{durable_of}
use new_yokosuka_server.ScriptEvent.Engine.{
  EventKind, at_command, at_line, at_options, kind_of, Disposition, durable, completion, external,
  disposition_of, at_node, at_query, at_cancel, at_end, unexpected,
}
use new_yokosuka_server.ScriptEvent.Engine.Calls.{
  asks_completion, is_durable, is_visible, is_scene_command,
}

differs :
    {K : Type 0} (f : String → K) (test : K → Bool) (t w : String)
    → test (f w) ≡ true
    → test (f t) ≡ false
    → str_eq t w ≡ false
differs f test t w holds fails = elim (Bool-cases (str_eq t w)) [
  | inr other ↦ other
  | inl same ↦
      let e = (eq_iff t w).0 same in
      absurd (true_false (sym holds ∙ ap (λ s. test (f s)) (sym e) ∙ fails))
]
  where
    true_false : true ≡ false → ⊥
    true_false h = absurd (cc)

abbrev command_kind : EventKind → Bool
command_kind kind = elim kind [ at_command ↦ true | _ ↦ false ]

abbrev shown_kind : EventKind → Bool
shown_kind kind = elim kind [ at_line ↦ true | at_options ↦ true | _ ↦ false ]

not_command :
    (event : Event)
    → command_kind (kind_of event.type_name) ≡ false
    → str_eq event.type_name "command" ≡ false
unfolding kind_of
not_command event h = differs kind_of command_kind event.type_name "command" refl h

pub not_durable :
    (event : Event) → command_kind (kind_of event.type_name) ≡ false → is_durable event ≡ false
not_durable event h = rw (not_command event h) refl

not_shown_type :
    (event : Event)
    → shown_kind (kind_of event.type_name) ≡ false
    → (str_eq event.type_name "line" ≡ false) × (str_eq event.type_name "options" ≡ false)
unfolding kind_of
not_shown_type event h = (
  differs kind_of shown_kind event.type_name "line" refl h,
  differs kind_of shown_kind event.type_name "options" refl h,
)

pub not_visible :
    (event : Event)
    → command_kind (kind_of event.type_name) ≡ false
    → shown_kind (kind_of event.type_name) ≡ false
    → is_visible event ≡ false
not_visible event h k =
    let (line, options) = not_shown_type event k in rw (line, options, not_command event h) refl

abbrev external_disposition : Disposition → Bool
external_disposition d = elim d [ external ↦ true | _ ↦ false ]

not_scene :
    (name : String)
    → external_disposition (disposition_of name) ≡ false
    → is_scene_command name ≡ false
unfolding disposition_of durable_of
not_scene name h =
    let d = differs disposition_of external_disposition name in
    rw
      (
        d "play_player_motion" refl h,
        d "look_at_actor" refl h,
        d "clear_actor_look" refl h,
        d "start_camera" refl h,
        d "stop_camera" refl h,
        d "play_sequence" refl h,
        d "start_activity" refl h,
      )
      refl

pub command_not_visible :
    (event : Event)
    → shown_kind (kind_of event.type_name) ≡ false
    → external_disposition (disposition_of event.name) ≡ false
    → is_visible event ≡ false
command_not_visible event k h =
    let (line, options) = not_shown_type event k in
    elim (Bool-cases (str_eq event.type_name "command")) [
      | inl c ↦ rw (line, options, c) (not_scene event.name h)
      | inr c ↦ rw (line, options, c) refl
    ]

pub command_type :
    (event : Event) → kind_of event.type_name ≡ at_command → str_eq event.type_name "command" ≡ true
unfolding kind_of
command_type event h = ground (arith, h)

abbrev durable_disposition : Disposition → Bool
durable_disposition d = elim d [ durable ↦ true | _ ↦ false ]

not_durable_name :
    (name : String)
    → durable_disposition (disposition_of name) ≡ false
    → is_some (durable_of name) ≡ false
unfolding disposition_of
not_durable_name name h = elim (Bool-cases (is_some (durable_of name))) [
  | inr other ↦ other
  | inl found ↦ absurd (ground (arith, found, h))
]

pub command_not_durable :
    (event : Event)
    → durable_disposition (disposition_of event.name) ≡ false
    → is_durable event ≡ false
command_not_durable event h = ground (arith, not_durable_name event.name h)

pub command_durable :
    (event : Event)
    → kind_of event.type_name ≡ at_command
    → disposition_of event.name ≡ durable
    → is_durable event ≡ true
unfolding disposition_of
command_durable event k h = elim (Bool-cases (is_some (durable_of event.name))) [
  | inl found ↦ rw (command_type event k, found) refl
  | inr other ↦ absurd (ground (arith, other, h))
]

pub command_asks :
    (event : Event)
    → kind_of event.type_name ≡ at_command
    → disposition_of event.name ≡ completion
    → asks_completion event ≡ true
unfolding disposition_of
command_asks event k h = elim (Bool-cases (str_eq event.name "complete")) [
  | inl same ↦ rw (command_type event k, same) refl
  | inr other ↦ absurd (ground (arith, other, h))
]

-- The kinds that are neither a command nor something shown.
abbrev pub is_quiet : EventKind → Bool
is_quiet kind = elim kind [ at_node ↦ true | at_query ↦ true | at_end ↦ true | _ ↦ false ]

pub quiet_command : (kind : EventKind) → is_quiet kind ≡ true → command_kind kind ≡ false
quiet_command at_node h = refl
quiet_command at_query h = refl
quiet_command at_command h = absurd (cc)
quiet_command at_line h = refl
quiet_command at_options h = refl
quiet_command at_cancel h = refl
quiet_command at_end h = refl
quiet_command unexpected h = refl

pub quiet_shown : (kind : EventKind) → is_quiet kind ≡ true → shown_kind kind ≡ false
quiet_shown at_node h = refl
quiet_shown at_query h = refl
quiet_shown at_command h = refl
quiet_shown at_line h = absurd (cc)
quiet_shown at_options h = absurd (cc)
quiet_shown at_cancel h = refl
quiet_shown at_end h = refl
quiet_shown unexpected h = refl
