-- ===== src/ScriptContent/Calls/Validity.antt =====
-- The analysis reports nothing of a script's calls just when each of them is valid.
use new_yokosuka_server.Base.{
  ◌≤◌, ◌≡◌, ◌≢◌, ◌↔◌, refl, sym, subst, ◌∙◌, String, none, List, [], ◌∷◌, ◌++◌, arith, eq_iff, inl,
  inr, Option-cases,
}
use new_yokosuka_server.Base.Lists.{All, length}
use new_yokosuka_server.ScriptContent.{
  CommandRegistry, CommandSchema, CommandParameter, CompiledCall, CompiledArgument, Code,
}
use new_yokosuka_server.ScriptContent.Calls.{
  find_entry, minimum_from, check_arguments, check_call, check_known, verdict_of, Verdict, refused,
  accepted, Findings, add_verdict, analyze_from, analyze_calls,
}
use new_yokosuka_server.ScriptContent.Calls.Arguments.{
  check_argument-none, check_argument-valid, minimum_from-cons, minimum_from-zero,
}
use new_yokosuka_server.ScriptContent.Calls.Valid.{IsOptional, Fits, rest, argument, IsValidCall}

minimum_from-IsOptional :
    (ps : List CommandParameter) → minimum_from ps (length ps) ≡ 0 → All IsOptional ps
minimum_from-IsOptional [] h = tt
minimum_from-IsOptional (p ∷ ps) h =
    let step = minimum_from-cons p ps (length ps) in
    (ground (arith, step), minimum_from-IsOptional ps (ground (arith, step)))

minimum_from-optional :
    (ps : List CommandParameter) → All IsOptional ps → minimum_from ps (length ps) ≡ 0
minimum_from-optional [] h = minimum_from-zero []
minimum_from-optional (p ∷ ps) (o, h) =
    ground (arith, minimum_from-cons p ps (length ps), minimum_from-optional ps h)

-- The tests of a call's arguments: their number, and each of them.
record Passes (registry : CommandRegistry) (kind : String) (ps : List CommandParameter)
    (args : List CompiledArgument) : Type 0 where
  enough : minimum_from ps (length ps) ≤ length args
  in_range : length args ≤ length ps
  clean : check_arguments registry kind ps args ≡ []

Passes-Fits :
    (registry : CommandRegistry) (kind : String) (ps : List CommandParameter)
    (args : List CompiledArgument)
    → Passes registry kind ps args
    → Fits registry kind ps args
unfolding check_arguments
Passes-Fits registry kind ps [] h = rest (minimum_from-IsOptional ps (omega (arith, h.enough)))
Passes-Fits registry kind [] (a ∷ args) h = absurd (omega (arith, h.in_range))
Passes-Fits registry kind (p ∷ ps) (a ∷ args) h =
    argument (check_argument-none registry kind p a (ground (arith, h.clean))) (
      Passes-Fits registry kind ps args (record {
        enough = ground (arith, h.enough, minimum_from-cons p ps (length ps));
        in_range = omega (arith, h.in_range);
        clean = ground (arith, h.clean);
      }))

Fits-Passes :
    (registry : CommandRegistry) (kind : String) (ps : List CommandParameter)
    (args : List CompiledArgument)
    → Fits registry kind ps args
    → Passes registry kind ps args
unfolding check_arguments
Fits-Passes registry kind ps [] (rest h) = record {
  enough = omega (arith, minimum_from-optional ps h);
  in_range = omega arith;
  clean = ground arith;
}
Fits-Passes registry kind [] (a ∷ args) h = elim h [ ]
Fits-Passes registry kind (p ∷ ps) (a ∷ args) (argument v h) =
    let ih = Fits-Passes registry kind ps args h in
    record {
      enough = ground (arith, ih.enough, minimum_from-cons p ps (length ps));
      in_range = omega (arith, ih.in_range);
      clean = ground (arith, ih.clean, check_argument-valid registry kind p a v);
    }

verdict_of-accepted :
    (entry e : CommandSchema) (codes : List Code) → verdict_of entry codes ≡ accepted e → codes ≡ []
verdict_of-accepted entry e [] h = refl
verdict_of-accepted entry e (code ∷ codes) h = absurd (cc)

check_known-Passes :
    (registry : CommandRegistry) (call : CompiledCall) (entry e : CommandSchema)
    → check_known registry call entry ≡ accepted e
    → (entry.kind ≡ call.kind)
      × (call.parse_error ≡ none)
      × Passes registry call.kind entry.parameters call.arguments
unfolding check_known
check_known-Passes registry call entry e h =
    let codes = check_arguments registry call.kind entry.parameters call.arguments in
    (
      ground (arith, eq_iff entry.kind call.kind),
      ground arith,
      record {
        enough = ground arith;
        in_range = ground arith;
        clean = ground (arith, verdict_of-accepted entry e codes);
      },
    )

Passes-accepted :
    (registry : CommandRegistry) (call : CompiledCall) (entry : CommandSchema)
    → entry.kind ≡ call.kind
    → call.parse_error ≡ none
    → Passes registry call.kind entry.parameters call.arguments
    → check_known registry call entry ≡ accepted entry
unfolding check_known
Passes-accepted registry call entry same parsed passes =
    ground (arith, eq_iff entry.kind call.kind, passes.enough, passes.in_range, passes.clean)

check_call-IsValidCall :
    (registry : CommandRegistry) (call : CompiledCall) (e : CommandSchema)
    → check_call registry call ≡ accepted e
    → IsValidCall registry call
unfolding check_call
check_call-IsValidCall registry call e h =
    elim (Option-cases (find_entry call.name registry.entries)) [
      | inl missing ↦ absurd (ground (arith, missing))
      | inr (entry, found) ↦
          let (same, parsed, passes) =
            check_known-Passes registry call entry e (ground (arith, found)) in
          record {
            entry = entry;
            found = found;
            same_kind = same;
            parsed = parsed;
            fits = Passes-Fits registry call.kind entry.parameters call.arguments passes;
          }
    ]

IsValidCall-accepted :
    (registry : CommandRegistry) (call : CompiledCall) (v : IsValidCall registry call)
    → check_call registry call ≡ accepted v.entry
unfolding check_call
IsValidCall-accepted registry call v = ground (
  arith,
  v.found,
  Passes-accepted registry call v.entry v.same_kind v.parsed
      (Fits-Passes registry call.kind v.entry.parameters call.arguments v.fits),
)

accepted_inj : {a b : CommandSchema} → accepted a ≡ accepted b → a ≡ b
accepted_inj h = cc

pub check_call-Fits :
    (registry : CommandRegistry) (call : CompiledCall) (e : CommandSchema)
    → check_call registry call ≡ accepted e
    → Fits registry call.kind e.parameters call.arguments
check_call-Fits registry call e h =
    let v = check_call-IsValidCall registry call e h in
    subst (λ (entry : CommandSchema). Fits registry call.kind entry.parameters call.arguments)
      (accepted_inj (sym (IsValidCall-accepted registry call v) ∙ h)) v.fits

append-≢-nil : {A : Type 0} (xs ys : List A) (y : A) → xs ++ y ∷ ys ≢ []
append-≢-nil [] ys y h = absurd (cc)
append-≢-nil (x ∷ xs) ys y h = absurd (cc)

add_verdict-accepted :
    (call : CompiledCall) (v : Verdict) (found : Findings)
    → (add_verdict call v found).diagnostics ≡ []
    → (found.diagnostics ≡ []) × (entry : CommandSchema) × (v ≡ accepted entry)
unfolding add_verdict
add_verdict-accepted call (accepted entry) found h = (h, entry, refl)
add_verdict-accepted call (refused code codes) found h =
    absurd (append-≢-nil found.diagnostics _ _ h)

accepted-diagnostics :
    (call : CompiledCall) (v : Verdict) (entry : CommandSchema) (found : Findings)
    → v ≡ accepted entry
    → (add_verdict call v found).diagnostics ≡ found.diagnostics
unfolding add_verdict
accepted-diagnostics call (accepted entry) e found h = refl
accepted-diagnostics call (refused code codes) e found h = absurd (cc)

analyze_from-IsValidCall :
    (registry : CommandRegistry) (calls : List CompiledCall) (found : Findings)
    → (analyze_from registry calls found).diagnostics ≡ []
    → (found.diagnostics ≡ []) × All (IsValidCall registry) calls
unfolding analyze_from
analyze_from-IsValidCall registry [] found h = (h, tt)
analyze_from-IsValidCall registry (call ∷ calls) found h =
    let (later, valid) = analyze_from-IsValidCall registry calls _ h in
    let (clean, entry, e) = add_verdict-accepted call (check_call registry call) found later in
    (clean, (check_call-IsValidCall registry call entry e, valid))

IsValidCall-analyze_from :
    (registry : CommandRegistry) (calls : List CompiledCall) (found : Findings)
    → found.diagnostics ≡ []
    → All (IsValidCall registry) calls
    → (analyze_from registry calls found).diagnostics ≡ []
unfolding analyze_from
IsValidCall-analyze_from registry [] found h valid = h
IsValidCall-analyze_from registry (call ∷ calls) found h (v, valid) =
    let e = IsValidCall-accepted registry call v in
    IsValidCall-analyze_from registry calls _
      (accepted-diagnostics call (check_call registry call) v.entry found e ∙ h) valid

-- The analysis of a script's calls reports no diagnostic just when each call is valid: it names an
-- entry of its kind, its arguments could be read, they fill the entry's parameters but for optional
-- ones at the end, and each is a literal where it must be, has the parameter's type and, where the
-- parameter names an identifier, gives one that is not blank and is registered if its kind is
-- closed.
pub analyze_calls-IsValidCall :
    (calls : List CompiledCall) (registry : CommandRegistry)
    → ((analyze_calls calls registry).1 ≡ []) ↔ All (IsValidCall registry) calls
unfolding analyze_calls
analyze_calls-IsValidCall calls registry = (
  λ h. (analyze_from-IsValidCall registry calls _ h).1,
  λ v. IsValidCall-analyze_from registry calls _ refl v,
)
