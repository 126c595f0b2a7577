-- ===== src/ScriptContent/Calls.antt =====
-- internal/scriptcontent/call_validation.go: the calls of a script against the command registry.
pub mod Valid
pub mod Arguments
pub mod Validity
pub mod Closed
pub mod Examples
use Prim.Native.String.{◌++◌ as append_text, compare}
use Prim.Native.Nat.{Ordering}
use new_yokosuka_server.Base.{
  ℕ, zero, suc, ◌+◌, Bool, true, false, not, ◌&&◌, ◌||◌, String, Option, none, some, List, [], ◌∷◌,
  ◌++◌, ltb, leb, ◌==◌, if◌then◌else◌, str_eq, map,
}
use new_yokosuka_server.Base.Lists.{length, get_elem?}
use new_yokosuka_server.Base.Text.{trim_space}
use new_yokosuka_server.ScriptContent.{
  CommandRegistry, CommandSchema, CommandParameter, CompiledCall, CompiledArgument,
  IdentifierKindSchema, IdentifierDefinition, DependencyRule, Diagnostic, Code, unknown_call,
  wrong_kind, invalid_arguments, wrong_count, not_static, wrong_type, blank_identifier,
  unknown_capability, Dependency, IdentifierUsage, Analysis,
}

-- Text keys of the source's maps: the parts with a NUL between them.
abbrev pub pair_key : String → String → String
pair_key a b = append_text a (append_text "\0" b)

-- A map filled from a list keeps the last entry of a key.
unfoldable pub find_entry : String → List CommandSchema → Option CommandSchema
find_entry name [] = none
find_entry name (e ∷ es) = elim (find_entry name es) [
  | some found ↦ some found
  | none ↦ if str_eq e.name name then some e else none
]

-- The policy of a kind that is not listed is the empty text.
unfoldable pub policy_of : String → List IdentifierKindSchema → Option String
policy_of kind [] = none
policy_of kind (k ∷ ks) = elim (policy_of kind ks) [
  | some found ↦ some found
  | none ↦ if str_eq k.kind kind then some k.policy else none
]

abbrev pub is_closed : CommandRegistry → String → Bool
is_closed registry kind = elim (policy_of kind registry.identifier_kinds) [
  | none ↦ false
  | some policy ↦ str_eq policy "closed"
]

unfoldable pub has_capability : String → String → List IdentifierDefinition → Bool
has_capability kind identifier [] = false
has_capability kind identifier (c ∷ cs) =
    str_eq (pair_key c.kind c.identifier) (pair_key kind identifier)
    || has_capability kind identifier cs

abbrev pub call_diagnostic : CompiledCall → Code → Diagnostic
call_diagnostic call code = record {
  code = code;
  file_name = call.file_name;
  node = call.node;
  line = call.start_line + 1;
  column = call.start_column + 1;
  end_line = call.end_line + 1;
  end_column = call.end_column + 1;
}

-- `for minimumArguments > 0 && entry.Parameters[minimumArguments-1].Optional`, from a count that is
-- in range.
unfoldable pub minimum_from : List CommandParameter → ℕ → ℕ
minimum_from parameters zero = zero
minimum_from parameters (suc n) = elim (get_elem? parameters n) [
  | none ↦ suc n
  | some parameter ↦
      let rest = minimum_from parameters n in if parameter.optional then rest else suc n
]

abbrev pub minimum_arguments : CommandSchema → ℕ
minimum_arguments entry = minimum_from entry.parameters (length entry.parameters)

abbrev pub is_named : CommandParameter → Bool
is_named parameter = not (str_eq parameter.identifier_kind "")

abbrev pub is_blank : Option String → Bool
is_blank none = true
is_blank (some v) = str_eq (trim_space v) ""

unfoldable pub check_argument :
    CommandRegistry → String → CommandParameter → CompiledArgument → Option Code
check_argument registry kind parameter argument =
    if str_eq kind "command" && not argument.is_static
    then some not_static
    else if not (str_eq argument.type_name parameter.type_name)
    then some wrong_type
    else if is_named parameter && (not argument.is_static || is_blank argument.value)
    then some blank_identifier
    else elim argument.value [
      | none ↦ none
      | some v ↦
          if is_named parameter
            && is_closed registry parameter.identifier_kind
            && not (has_capability parameter.identifier_kind (trim_space v) registry.capabilities)
          then some unknown_capability
          else none
    ]

abbrev pub with_code : Option Code → List Code → List Code
with_code none codes = codes
with_code (some code) codes = code ∷ codes

-- One argument after another, each with its parameter; there are no more arguments than parameters.
unfoldable pub check_arguments :
    CommandRegistry → String → List CommandParameter → List CompiledArgument → List Code
check_arguments registry kind ps [] = []
check_arguments registry kind [] (a ∷ args) = []
check_arguments registry kind (p ∷ ps) (a ∷ args) =
    with_code (check_argument registry kind p a) (check_arguments registry kind ps args)

-- The codes that a call is refused with, or the entry of a call that is accepted.
pub data Verdict : Type 0 where
  refused : Code → List Code → Verdict
  accepted : CommandSchema → Verdict

abbrev pub verdict_of : CommandSchema → List Code → Verdict
verdict_of entry [] = accepted entry
verdict_of entry (code ∷ codes) = refused code codes

unfoldable pub check_known : CommandRegistry → CompiledCall → CommandSchema → Verdict
check_known registry call entry =
    if not (str_eq entry.kind call.kind) then refused wrong_kind [] else elim call.parse_error [
      | some message ↦ refused invalid_arguments []
      | none ↦
          if ltb (length call.arguments) (minimum_arguments entry)
            || ltb (length entry.parameters) (length call.arguments)
          then refused wrong_count []
          else verdict_of entry (check_arguments registry call.kind entry.parameters call.arguments)
    ]

unfoldable pub check_call : CommandRegistry → CompiledCall → Verdict
unfolding check_known
check_call registry call = elim (find_entry call.name registry.entries) [
  | none ↦ refused unknown_call []
  | some entry ↦ check_known registry call entry
]

-- A map with text keys whose values are listed.
abbrev pub put_keyed {ℓ} : {A : Type ℓ} → String → A → List (String × A) → List (String × A)
put_keyed key v [] = (key, v) ∷ []
put_keyed key v (e ∷ es) =
    let rest = put_keyed key v es in if str_eq e.0 key then (key, v) ∷ es else e ∷ rest

-- The identifier that a static argument with a value gives.
abbrev pub identifier_of : Option CompiledArgument → Option String
identifier_of none = none
identifier_of (some argument) =
    if argument.is_static
    then (elim argument.value [ none ↦ none | some v ↦ some (trim_space v) ])
    else none

abbrev pub Usages : Type 0
Usages = List (String × IdentifierUsage)

abbrev pub add_usage : String → Option String → Usages → Usages
add_usage kind none usages = usages
add_usage kind (some identifier) usages =
    put_keyed (pair_key kind identifier) (record { kind = kind; identifier = identifier }) usages

-- The loop over the parameters of an accepted call.
unfoldable pub collect_identifiers : List CommandParameter → List CompiledArgument → Usages → Usages
collect_identifiers [] args usages = usages
collect_identifiers (p ∷ ps) [] usages = usages
collect_identifiers (p ∷ ps) (a ∷ args) usages =
    collect_identifiers ps args
      (if is_named p then add_usage p.identifier_kind (identifier_of (some a)) usages else usages)

-- The last parameter of the name, and 0 when there is none.
abbrev pub parameter_index : String → List CommandParameter → ℕ → ℕ → ℕ
parameter_index name [] i found = found
parameter_index name (p ∷ ps) i found =
    parameter_index name ps (suc i) (if str_eq p.name name then i else found)

abbrev pub Dependencies : Type 0
Dependencies = List (String × Dependency)

abbrev pub add_dependency : DependencyRule → Option String → Dependencies → Dependencies
add_dependency rule none dependencies = dependencies
add_dependency rule (some identifier) dependencies =
    put_keyed (append_text rule.access (append_text "\0" (pair_key rule.kind identifier)))
      (record { access = rule.access; kind = rule.kind; identifier = identifier }) dependencies

abbrev pub collect_dependencies :
    List CommandParameter
    → List DependencyRule
    → List CompiledArgument
    → Dependencies
    → Dependencies
collect_dependencies ps [] args dependencies = dependencies
collect_dependencies ps (rule ∷ rules) args dependencies = collect_dependencies ps rules args (
    add_dependency rule (identifier_of (get_elem? args (parameter_index rule.parameter ps 0 0)))
      dependencies)

-- The maps and the list that the loop over the calls fills.
pub record Findings : Type 0 where
  pub dependencies : Dependencies
  pub identifiers : Usages
  pub diagnostics : List Diagnostic

unfoldable pub add_verdict : CompiledCall → Verdict → Findings → Findings
add_verdict call (refused code codes) found = record found {
  diagnostics = found.diagnostics ++ map (call_diagnostic call) (code ∷ codes);
}
add_verdict call (accepted entry) found = record found {
  identifiers = collect_identifiers entry.parameters call.arguments found.identifiers;
  dependencies =
      collect_dependencies entry.parameters entry.dependencies call.arguments found.dependencies;
}

unfoldable pub analyze_from : CommandRegistry → List CompiledCall → Findings → Findings
analyze_from registry [] found = found
analyze_from registry (call ∷ calls) found =
    analyze_from registry calls (add_verdict call (check_call registry call) found)

abbrev pub text_ltb : String → String → Bool
text_ltb a b = elim (compare a b) [ Ordering.lt ↦ true | _ ↦ false ]

abbrev pub dependency_ltb : Dependency → Dependency → Bool
dependency_ltb a b =
    if not (str_eq a.kind b.kind)
    then text_ltb a.kind b.kind
    else if not (str_eq a.identifier b.identifier)
    then text_ltb a.identifier b.identifier
    else text_ltb a.access b.access

abbrev pub usage_ltb : IdentifierUsage → IdentifierUsage → Bool
usage_ltb a b =
    if not (str_eq a.kind b.kind)
    then text_ltb a.kind b.kind
    else text_ltb a.identifier b.identifier

-- sort.Slice on values that the test tells apart.
abbrev pub insert_sorted {ℓ} : {A : Type ℓ} → (A → A → Bool) → A → List A → List A
insert_sorted less x [] = x ∷ []
insert_sorted less x (y ∷ ys) =
    let rest = insert_sorted less x ys in if less y x then y ∷ rest else x ∷ y ∷ ys

abbrev pub sort_values {ℓ} : {A : Type ℓ} → (A → A → Bool) → List (String × A) → List A
sort_values less [] = []
sort_values less (e ∷ es) = insert_sorted less e.1 (sort_values less es)

-- The analysis has no triggers and no warnings.
unfoldable pub analyze_calls : List CompiledCall → CommandRegistry → Analysis × List Diagnostic
analyze_calls calls registry =
    let found =
      analyze_from registry calls
        (record { dependencies = []; identifiers = []; diagnostics = [] }) in
    (
      record {
        dependencies = sort_values dependency_ltb found.dependencies;
        identifiers = sort_values usage_ltb found.identifiers;
      },
      found.diagnostics,
    )
