-- ===== src/ScriptContent/Calls/Closed.antt =====
-- The identifiers that the analysis lists are registered where their kind is closed.
use new_yokosuka_server.Base.{
  Bool, true, false, ◌≡◌, ◌≢◌, ◌⊎◌, String, Option, none, some, List, [], ◌∷◌, arith, eq_iff,
  str_eq, if◌then◌else◌, inl, inr, refl, subst, sym,
}
use new_yokosuka_server.Base.Lists.{All}
use new_yokosuka_server.Base.Text.{trim_space}
use new_yokosuka_server.ScriptContent.{
  CommandRegistry, CommandParameter, CompiledCall, CompiledArgument, IdentifierUsage,
}
use new_yokosuka_server.ScriptContent.Calls.{
  is_closed, has_capability, put_keyed, insert_sorted, sort_values, Usages, add_usage,
  identifier_of, collect_identifiers, is_named, check_call, Verdict, accepted, refused, Findings,
  add_verdict, analyze_from, analyze_calls,
}
use new_yokosuka_server.ScriptContent.Calls.Valid.{Identifies, IsValidArgument, Fits, argument}
use new_yokosuka_server.ScriptContent.Calls.Validity.{check_call-Fits}

-- The identifier is not empty, and its kind is open or it is a registered capability.
abbrev pub IsKnown : CommandRegistry → IdentifierUsage → Type 0
IsKnown registry u =
    (u.identifier ≢ "")
    × ((is_closed registry u.kind ≡ false)
        ⊎ (has_capability u.kind u.identifier registry.capabilities ≡ true))

All-if :
    {A : Type 0} (P : A → Type 0) (b : Bool) (xs ys : List A)
    → All P xs
    → All P ys
    → All P (if b then xs else ys)
All-if P true xs ys p q = p
All-if P false xs ys p q = q

All-put_keyed :
    {A : Type 0} (P : A → Type 0) (key : String) (v : A) (es : List (String × A))
    → P v
    → All (λ e. P e.1) es
    → All (λ e. P e.1) (put_keyed key v es)
All-put_keyed P key v [] p h = (p, tt)
All-put_keyed P key v (e ∷ es) p (q, h) =
    All-if (λ e. P e.1) (str_eq e.0 key) _ _ (p, h) (q, All-put_keyed P key v es p h)

All-insert_sorted :
    {A : Type 0} (P : A → Type 0) (less : A → A → Bool) (x : A) (ys : List A)
    → P x
    → All P ys
    → All P (insert_sorted less x ys)
All-insert_sorted P less x [] p h = (p, tt)
All-insert_sorted P less x (y ∷ ys) p (q, h) =
    All-if P (less y x) _ _ (q, All-insert_sorted P less x ys p h) (p, (q, h))

All-sort_values :
    {A : Type 0} (P : A → Type 0) (less : A → A → Bool) (es : List (String × A))
    → All (λ e. P e.1) es
    → All P (sort_values less es)
All-sort_values P less [] h = tt
All-sort_values P less (e ∷ es) (p, h) =
    All-insert_sorted P less e.1 (sort_values less es) p (All-sort_values P less es h)

abbrev AreKnown : CommandRegistry → Usages → Type 0
AreKnown registry usages = All (λ e. IsKnown registry e.1) usages

Identifies-identifier_of :
    (registry : CommandRegistry) (kind : String) (a : CompiledArgument)
    (i : Identifies registry kind a)
    → identifier_of (some a) ≡ some (trim_space i.text)
Identifies-identifier_of registry kind a i = ground (arith, i.given, i.static)

some_inj : {x y : String} → some x ≡ some y → x ≡ y
some_inj e = cc

add_usage-AreKnown :
    (registry : CommandRegistry) (kind : String) (found : Option String) (identifier : String)
    (usages : Usages)
    → found ≡ some identifier
    → IsKnown registry (record { kind = kind; identifier = identifier })
    → AreKnown registry usages
    → AreKnown registry (add_usage kind found usages)
add_usage-AreKnown registry kind none identifier usages e k h = absurd (cc)
add_usage-AreKnown registry kind (some i) identifier usages e k h =
    All-put_keyed (IsKnown registry) _ _ usages
      (subst (λ j. IsKnown registry (record { kind = kind; identifier = j })) (sym (some_inj e)) k)
      h

plain-is_named : (p : CommandParameter) → p.identifier_kind ≡ "" → is_named p ≡ false
plain-is_named p e = ground (arith, eq_iff p.identifier_kind "")

argument-AreKnown :
    (registry : CommandRegistry) (kind : String) (p : CommandParameter) (a : CompiledArgument)
    (usages : Usages)
    → IsValidArgument registry kind p a
    → AreKnown registry usages
    → AreKnown registry
        (if is_named p then add_usage p.identifier_kind (identifier_of (some a)) usages else usages)
argument-AreKnown registry kind p a usages v h = elim v.identifies [
  | inl plain ↦
      subst
        (λ b.
          AreKnown registry
            (if b then add_usage p.identifier_kind (identifier_of (some a)) usages else usages))
        (sym (plain-is_named p plain)) h
  | inr i ↦
      All-if (λ e. IsKnown registry e.1) (is_named p) _ _
        (add_usage-AreKnown registry p.identifier_kind (identifier_of (some a)) (trim_space i.text)
          usages (Identifies-identifier_of registry p.identifier_kind a i) (i.named, i.known) h)
        h
]

collect_identifiers-AreKnown :
    (registry : CommandRegistry) (kind : String) (ps : List CommandParameter)
    (args : List CompiledArgument) (usages : Usages)
    → Fits registry kind ps args
    → AreKnown registry usages
    → AreKnown registry (collect_identifiers ps args usages)
unfolding collect_identifiers
collect_identifiers-AreKnown registry kind [] [] usages f h = h
collect_identifiers-AreKnown registry kind [] (a ∷ args) usages f h = h
collect_identifiers-AreKnown registry kind (p ∷ ps) [] usages f h = h
collect_identifiers-AreKnown registry kind (p ∷ ps) (a ∷ args) usages (argument v f) h =
    collect_identifiers-AreKnown registry kind ps args _ f
      (argument-AreKnown registry kind p a usages v h)

add_verdict-AreKnown :
    (registry : CommandRegistry) (call : CompiledCall) (v : Verdict) (found : Findings)
    → check_call registry call ≡ v
    → AreKnown registry found.identifiers
    → AreKnown registry (add_verdict call v found).identifiers
unfolding add_verdict
add_verdict-AreKnown registry call (refused code codes) found e h = h
add_verdict-AreKnown registry call (accepted entry) found e h =
    collect_identifiers-AreKnown registry call.kind entry.parameters call.arguments
      found.identifiers (check_call-Fits registry call entry e) h

analyze_from-AreKnown :
    (registry : CommandRegistry) (calls : List CompiledCall) (found : Findings)
    → AreKnown registry found.identifiers
    → AreKnown registry (analyze_from registry calls found).identifiers
unfolding analyze_from
analyze_from-AreKnown registry [] found h = h
analyze_from-AreKnown registry (call ∷ calls) found h =
    analyze_from-AreKnown registry calls _
      (add_verdict-AreKnown registry call (check_call registry call) found refl h)

-- Every identifier that the analysis lists is not empty, and it is a registered capability if its
-- kind is closed, also where other calls of the script are refused.
pub analyze_calls-IsKnown :
    (calls : List CompiledCall) (registry : CommandRegistry)
    → All (IsKnown registry) (analyze_calls calls registry).0.identifiers
unfolding analyze_calls
analyze_calls-IsKnown calls registry =
    All-sort_values (IsKnown registry) _ _ (analyze_from-AreKnown registry calls _ tt)
