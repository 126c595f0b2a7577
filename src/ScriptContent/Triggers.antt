-- ===== src/ScriptContent/Triggers.antt =====
-- internal/scriptcontent/triggers.go: the triggers of a script version, and their normal form.
pub mod Accepted
pub mod Examples
use mathlib.Core.List.{List, [], ◌∷◌}
use new_yokosuka_server.Base.{
  ℕ, Bool, true, false, not, ◌&&◌, ◌||◌, String, Option, none, some, ltb, str_eq, if◌then◌else◌,
}
use new_yokosuka_server.Base.Int.{ℤ, pos, neg_ℕ, ltb_ℤ}
use new_yokosuka_server.Base.Lists.{length}
use new_yokosuka_server.Base.Text.{trim_space, is_key}

pub record TriggerSelector : Type 0 where
  pub kind : String
  pub area : String
  pub actor : String
  pub object : String
  pub activity : String

-- The configuration, which is always emptied, is left out.
pub record Trigger : Type 0 where
  pub node_id : String
  pub selector : TriggerSelector
  pub priority : ℤ

pub data TriggerProblem : Type 0 where
  too_many_triggers node_not_unique node_missing bad_priority bad_selector : TriggerProblem

pub record TriggerDiagnostic : Type 0 where
  pub node : String
  pub problem : TriggerProblem

-- MaxYarnTriggers
abbrev pub max_yarn_triggers : ℕ
max_yarn_triggers = 32

abbrev pub is_given : String → Bool
is_given s = not (str_eq s "")

abbrev pub is_absent : String → Bool
is_absent s = str_eq s ""

-- The function `validateTriggerShape`: which selectors a kind has.
unfoldable pub has_trigger_shape : TriggerSelector → Bool
has_trigger_shape s =
    if str_eq s.kind "talk"
    then is_given s.area && is_given s.actor && is_absent s.object && is_absent s.activity
    else if str_eq s.kind "use" || str_eq s.kind "inspect"
    then is_given s.area && is_given s.object && is_absent s.actor && is_absent s.activity
    else if str_eq s.kind "enter" || str_eq s.kind "automatic"
    then is_given s.area && is_absent s.actor && is_absent s.object && is_absent s.activity
    else if str_eq s.kind "activity"
    then is_given s.activity && is_absent s.area && is_absent s.actor && is_absent s.object
    else false

abbrev pub trim_selector : TriggerSelector → TriggerSelector
trim_selector s = record {
  kind = trim_space s.kind;
  area = trim_space s.area;
  actor = trim_space s.actor;
  object = trim_space s.object;
  activity = trim_space s.activity;
}

abbrev pub is_key_or_absent : String → Bool
is_key_or_absent s = is_absent s || is_key s

unfoldable pub is_valid_selector : TriggerSelector → Bool
is_valid_selector s =
    is_key_or_absent s.area
    && is_key_or_absent s.actor
    && is_key_or_absent s.object
    && is_key_or_absent s.activity
    && has_trigger_shape s

unfoldable pub normalize_trigger_selector : TriggerSelector → Option TriggerSelector
normalize_trigger_selector s =
    if is_valid_selector (trim_selector s) then some (trim_selector s) else none

abbrev pub no_selector : TriggerSelector
no_selector = record { kind = ""; area = ""; actor = ""; object = ""; activity = "" }

abbrev pub selector_or_empty : Option TriggerSelector → TriggerSelector
selector_or_empty none = no_selector
selector_or_empty (some s) = s

unfoldable pub normalize_trigger : Trigger → Trigger
normalize_trigger t = record {
  node_id = trim_space t.node_id;
  selector = selector_or_empty (normalize_trigger_selector t.selector);
  priority = t.priority;
}

abbrev pub mem_text : String → List String → Bool
mem_text s [] = false
mem_text s (t ∷ ts) = str_eq s t || mem_text s ts

abbrev pub when : Bool → String → TriggerProblem → List TriggerDiagnostic → List TriggerDiagnostic
when b node problem rest = if b then record { node = node; problem = problem } ∷ rest else rest

abbrev pub is_missing_selector : Option TriggerSelector → Bool
is_missing_selector none = true
is_missing_selector (some s) = false

abbrev pub is_bad_priority : ℤ → Bool
is_bad_priority p = ltb_ℤ p (neg_ℕ 1000) || ltb_ℤ (pos 1000) p

-- What is reported of a trigger whose node is its own.
unfoldable pub trigger_problems :
    List String → Trigger → List TriggerDiagnostic → List TriggerDiagnostic
trigger_problems nodes t rest =
    let node = trim_space t.node_id in
    when (not (mem_text node nodes)) node node_missing (
      when (is_bad_priority t.priority) node bad_priority
        (when (is_missing_selector (normalize_trigger_selector t.selector)) node bad_selector rest))

-- The loop, with the nodes that were seen.
unfoldable pub check_triggers :
    List String → List String → List Trigger → List Trigger × List TriggerDiagnostic
check_triggers nodes seen [] = ([], [])
check_triggers nodes seen (t ∷ ts) =
    let node = trim_space t.node_id in
    let skipped = check_triggers nodes seen ts in
    let checked = check_triggers nodes (node ∷ seen) ts in
    if is_absent node || mem_text node seen
    then (skipped.0, record { node = node; problem = node_not_unique } ∷ skipped.1)
    else (normalize_trigger t ∷ checked.0, trigger_problems nodes t checked.1)

unfoldable pub validate_yarn_triggers :
    List Trigger → List String → List Trigger × List TriggerDiagnostic
validate_yarn_triggers triggers nodes =
    if ltb max_yarn_triggers (length triggers)
    then ([], record { node = ""; problem = too_many_triggers } ∷ [])
    else check_triggers nodes [] triggers
