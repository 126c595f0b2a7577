-- ===== src/ScriptContent/Calls/Arguments.antt =====
-- One argument against its parameter, and the count of the required parameters.
use new_yokosuka_server.Base.{
  ℕ, zero, suc, true, ◌≡◌, ◌≢◌, ◌⊎◌, refl, String, none, some, List, ◌∷◌, arith, eq_iff, str_eq,
  ◌==◌, if◌then◌else◌, inl, inr, Option-cases, Bool-cases,
}
use new_yokosuka_server.Base.Lists.{get_elem?}
use new_yokosuka_server.Base.Text.{trim_space}
use new_yokosuka_server.ScriptContent.{CommandRegistry, CommandParameter, CompiledArgument}
use new_yokosuka_server.ScriptContent.Calls.{minimum_from, check_argument}
use new_yokosuka_server.ScriptContent.Calls.Valid.{Identifies, IsValidArgument}

check_argument-Identifies :
    (registry : CommandRegistry) (kind : String) (p : CommandParameter) (a : CompiledArgument)
    → check_argument registry kind p a ≡ none
    → p.identifier_kind ≢ ""
    → Identifies registry p.identifier_kind a
unfolding check_argument
check_argument-Identifies registry kind p a h named = elim (Option-cases a.value) [
  | inl e ↦ absurd (ground (arith, e, eq_iff p.identifier_kind ""))
  | inr (v, e) ↦ record {
    text = v;
    given = e;
    static = ground (arith, e, eq_iff p.identifier_kind "");
    named = ground (arith, e, eq_iff p.identifier_kind "", eq_iff (trim_space v) "");
    known = ground (arith, e, eq_iff p.identifier_kind "");
  }
]

pub check_argument-none :
    (registry : CommandRegistry) (kind : String) (p : CommandParameter) (a : CompiledArgument)
    → check_argument registry kind p a ≡ none
    → IsValidArgument registry kind p a
unfolding check_argument
check_argument-none registry kind p a h = record {
  static = ground (arith, eq_iff kind "command");
  same_type = ground (arith, eq_iff a.type_name p.type_name);
  identifies = elim (Bool-cases (str_eq p.identifier_kind "")) [
    | inl e ↦ inl (ground (arith, e, eq_iff p.identifier_kind ""))
    | inr e ↦ inr (
        check_argument-Identifies registry kind p a h
          (ground (arith, e, eq_iff p.identifier_kind "")))
  ];
}

check_argument-named :
    (registry : CommandRegistry) (kind : String) (p : CommandParameter) (a : CompiledArgument)
    → (kind ≢ "command") ⊎ (a.is_static ≡ true)
    → a.type_name ≡ p.type_name
    → Identifies registry p.identifier_kind a
    → check_argument registry kind p a ≡ none
unfolding check_argument
check_argument-named registry kind p a static same i = ground (
  arith,
  eq_iff kind "command",
  eq_iff a.type_name p.type_name,
  i.given,
  i.static,
  i.named,
  i.known,
  eq_iff (trim_space i.text) "",
)

check_argument-plain :
    (registry : CommandRegistry) (kind : String) (p : CommandParameter) (a : CompiledArgument)
    → (kind ≢ "command") ⊎ (a.is_static ≡ true)
    → a.type_name ≡ p.type_name
    → p.identifier_kind ≡ ""
    → check_argument registry kind p a ≡ none
unfolding check_argument
check_argument-plain registry kind p a static same e =
    ground
      (arith, eq_iff kind "command", eq_iff a.type_name p.type_name, eq_iff p.identifier_kind "")

pub check_argument-valid :
    (registry : CommandRegistry) (kind : String) (p : CommandParameter) (a : CompiledArgument)
    → IsValidArgument registry kind p a
    → check_argument registry kind p a ≡ none
check_argument-valid registry kind p a h = elim h.identifies [
  | inl e ↦ check_argument-plain registry kind p a h.static h.same_type e
  | inr i ↦ check_argument-named registry kind p a h.static h.same_type i
]

minimum_from-none :
    (ps : List CommandParameter) (n : ℕ) → get_elem? ps n ≡ none → minimum_from ps (suc n) ≡ suc n
unfolding minimum_from
minimum_from-none ps n e = ground arith

minimum_from-some :
    (ps : List CommandParameter) (n : ℕ) (p : CommandParameter)
    → get_elem? ps n ≡ some p
    → minimum_from ps (suc n) ≡ (if p.optional then minimum_from ps n else suc n)
unfolding minimum_from
minimum_from-some ps n p e = ground arith

pub minimum_from-zero : (ps : List CommandParameter) → minimum_from ps 0 ≡ 0
unfolding minimum_from
minimum_from-zero ps = refl

pub minimum_from-cons :
    (p : CommandParameter) (ps : List CommandParameter) (n : ℕ)
    → minimum_from (p ∷ ps) (suc n)
      ≡ (if minimum_from ps n == 0 then (if p.optional then 0 else 1) else suc (minimum_from ps n))
minimum_from-cons p ps zero =
    ground
      (arith, minimum_from-some (p ∷ ps) 0 p refl, minimum_from-zero ps, minimum_from-zero (p ∷ ps))
minimum_from-cons p ps (suc n) =
    let ih = minimum_from-cons p ps n in
    elim (Option-cases (get_elem? ps n)) [
      | inl e ↦ ground (arith, ih, minimum_from-none ps n e, minimum_from-none (p ∷ ps) (suc n) e)
      | inr (q, e) ↦
          ground (arith, ih, minimum_from-some ps n q e, minimum_from-some (p ∷ ps) (suc n) q e)
    ]
