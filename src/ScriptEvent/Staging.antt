-- ===== src/ScriptEvent/Staging.antt =====
-- What an event stages is what its effects do to the tables.
use new_yokosuka_server.Base.{
  ℕ, ◌≡◌, refl, sym, ap, subst, ◌∙◌, Bool, true, false, not, ◌&&◌, String, Option, none, some, List,
  arith, if◌then◌else◌, ◌≤◌, Option-cases, inl, inr,
}
use new_yokosuka_server.Base.Int.{ℤ, pos, negsuc}
use new_yokosuka_server.Base.Lists.{get_elem?}
use new_yokosuka_server.Base.Maps.{put_text}
use new_yokosuka_server.Floats.{Floats}
use new_yokosuka_server.ScriptContent.{CompiledArgument}
use new_yokosuka_server.Store.Transaction.{ok, after_bind, ◌>>=◌}
use new_yokosuka_server.Store.Effects.{
  ScriptTables, ScriptEffect, static_argument, finite_number, integer_argument, positive_argument,
  apply_flag, write_flag, delete_flag, apply_progress, write_progress, add_progress, put_row,
  require,
}
use new_yokosuka_server.Store.Effects.Finish.{CharacterScriptState}
use new_yokosuka_server.ScriptEvent.State.{
  string_argument, event_number, event_integer, positive_integer, stage_flag, stage_progress,
  put_progress, add_to_progress, get_float,
}
use new_yokosuka_server.ScriptEvent.Agreement.{required_ok, Agrees, Agrees-flag, Agrees-progress}

-- What is used of Go's float64 and of the database's `double precision`, both of IEEE 754: a sum
-- does not depend on the order, and adding zero to a positive number gives the number.
pub record AddsLikeNumbers (F : Floats) : Type 0 where
  pub commutes : (x y : F.Float) → F.add_float x y ≡ F.add_float y x
  pub keeps : (x : F.Float) → F.le_float x F.zero_float ≡ false → F.add_float x F.zero_float ≡ x

-- A static argument is an argument.
pub static_string :
    (arguments : List CompiledArgument) (i : ℕ) {t : String}
    → static_argument arguments i "string" ≡ some t
    → string_argument arguments i ≡ some t
unfolding static_argument string_argument
static_string arguments i h = elim (Option-cases (get_elem? arguments i)) [
  | inl missing ↦ absurd (ground (arith, missing, h))
  | inr (a, found) ↦ ground (arith, found, h)
]

module _ (F : Floats) where
  static_number :
      (arguments : List CompiledArgument) (i : ℕ) {t : String}
      → static_argument arguments i "number" ≡ some t
      → event_number F arguments i ≡ finite_number F t
  unfolding static_argument event_number
  static_number arguments i h = elim (Option-cases (get_elem? arguments i)) [
    | inl missing ↦ absurd (ground (arith, missing, h))
    | inr (a, found) ↦ ground (arith, found, h)
  ]

  integer_agrees :
      (arguments : List CompiledArgument) (i : ℕ) {z : ℤ}
      → integer_argument F arguments i ≡ some z
      → event_integer F arguments i ≡ some z
  unfolding integer_argument event_integer
  integer_agrees arguments i {z} h = elim (Option-cases (static_argument arguments i "number")) [
    | inl missing ↦ absurd (ground (arith, missing, h))
    | inr (t, found) ↦ elim (Option-cases (F.parse_float t)) [
      | inl bad ↦ absurd (ground (arith, found, bad, h))
      | inr (x, parsed) ↦ ground (arith, static_number arguments i found, found, parsed, h)
    ]
  ]

  pub positive_agrees :
      (arguments : List CompiledArgument) (i limit : ℕ) (st : CharacterScriptState F)
      (s : ScriptTables F) {n : ℕ} {t : ScriptTables F}
      → positive_argument F arguments i limit s ≡ ok (n, t)
      → (positive_integer F arguments i limit st ≡ ok (n, st)) × (s ≡ t) × (n ≤ limit)
  unfolding positive_argument positive_integer
  positive_agrees arguments i limit st s h = elim (Option-cases (integer_argument F arguments i)) [
    | inl bad ↦ absurd (ground (arith, bad, h))
    | inr (negsuc n, found) ↦ absurd (ground (arith, found, h))
    | inr (pos n, found) ↦ (
      ground (arith, integer_agrees arguments i found, found, h),
      ground (arith, found, h),
      ground (arith, found, h),
    )
  ]

  stage_progress_as :
      (arguments : List CompiledArgument) (adds : Bool) (key : String) (value : F.Float)
      (st : CharacterScriptState F)
      → string_argument arguments 0 ≡ some key
      → event_number F arguments 1 ≡ some value
      → stage_progress F arguments adds st
        ≡ (if adds then add_to_progress F key value else put_progress F key value) st
  unfolding stage_progress ◌>>=◌
  stage_progress_as arguments adds key value st h k = rw (h, k)

  -- What a progress effect writes: its value, or the sum.
  write_progress_writes :
      (c : ℕ) (key : String) (value : F.Float) (s t : ScriptTables F) {b : Unit {0}}
      → write_progress F c key value s ≡ ok (b, t)
      → record s { progress = put_row F s.progress c key (some value) } ≡ t
  unfolding write_progress
  write_progress_writes c key value s t h = ground (arith, h)

  put_progress_puts :
      (key : String) (value : F.Float) (st st' : CharacterScriptState F) {a : Unit {0}}
      → put_progress F key value st ≡ ok (a, st')
      → record st { progress = put_text st.progress key (some value) } ≡ st'
  unfolding put_progress
  put_progress_puts key value st st' h = ground (arith, h)

  add_to_progress_puts :
      (key : String) (value : F.Float) (st st' : CharacterScriptState F) {a : Unit {0}}
      → add_to_progress F key value st ≡ ok (a, st')
      → record st {
        progress =
            put_text st.progress key (some (F.add_float value (get_float F (st.progress key))));
      }
        ≡ st'
  unfolding add_to_progress put_progress
  add_to_progress_puts key value st st' h = ground (arith, h)

  add_progress_writes :
      (laws : AddsLikeNumbers F) (c : ℕ) (key : String) (value : F.Float) (s t : ScriptTables F)
      {b : Unit {0}}
      → F.le_float value F.zero_float ≡ false
      → add_progress F c key value s ≡ ok (b, t)
      → record s {
        progress =
            put_row F s.progress c key (some (F.add_float value (get_float F (s.progress c key))));
      }
        ≡ t
  unfolding add_progress
  add_progress_writes laws c key value s t positive h = elim (Option-cases (s.progress c key)) [
    | inl missing ↦
        ap (λ x. record s { progress = put_row F s.progress c key (some x) })
          (ap (λ o. F.add_float value (get_float F o)) missing ∙ laws.keeps value positive)
        ∙ write_progress_writes c key value s t (ground (arith, missing, h))
    | inr (held, found) ↦
        ap (λ x. record s { progress = put_row F s.progress c key (some x) })
          (ap (λ o. F.add_float value (get_float F o)) found ∙ laws.commutes value held)
        ∙ write_progress_writes c key (F.add_float held value) s t (ground (arith, found, h))
  ]

  pub require_same :
      {S : Type 0} (t : Bool) (s : S) {b : Unit {0}} {u : S}
      → require t s ≡ ok (b, u)
      → (t ≡ true) × (s ≡ u)
  require_same true s h = (refl, ground (arith, h))
  require_same false s h = absurd (cc)

  pub Agrees-as :
      {c : ℕ} {st st' : CharacterScriptState F} {s s' : ScriptTables F}
      → Agrees F c st s
      → st ≡ st'
      → s ≡ s'
      → Agrees F c st' s'
  Agrees-as {c} {st} {st'} {s} {s'} h e f =
      subst (λ t. Agrees F c st' t) f (subst (λ u. Agrees F c u s) e h)

  module _ (c : ℕ) (effect : ScriptEffect) {st st' : CharacterScriptState F} {s s' : ScriptTables F}
      {a b : Unit {0}} (agrees : Agrees F c st s) where
    pub stage_flag-Agrees :
        (sets : Bool)
        → stage_flag F effect.arguments sets st ≡ ok (a, st')
        → apply_flag F c effect sets s ≡ ok (b, s')
        → Agrees F c st' s'
    unfolding stage_flag apply_flag write_flag delete_flag
    stage_flag-Agrees true staged applied = after_bind _ _ _ applied λ key u e h.
        let (text, same) = required_ok _ s e in
        let new = Agrees-flag F c key (some true) (subst (Agrees F c st) same agrees) in
        Agrees-as new (ground (arith, static_string effect.arguments 0 text, staged))
          (ground (arith, h))
    stage_flag-Agrees false staged applied = after_bind _ _ _ applied λ key u e h.
        let (text, same) = required_ok _ s e in
        let new = Agrees-flag F c key none (subst (Agrees F c st) same agrees) in
        Agrees-as new (ground (arith, static_string effect.arguments 0 text, staged))
          (ground (arith, h))

    progress-Agrees :
        (laws : AddsLikeNumbers F) (adds : Bool) (key : String) (value : F.Float)
        → not (adds && F.le_float value F.zero_float) ≡ true
        → (if adds then add_to_progress F key value else put_progress F key value) st ≡ ok (a, st')
        → (if adds then add_progress F c key value else write_progress F c key value) s ≡ ok (b, s')
        → Agrees F c st' s'
    progress-Agrees laws false key value positive staged applied =
        Agrees-as (Agrees-progress F c key (some value) agrees)
          (put_progress_puts key value st st' staged)
          (write_progress_writes c key value s s' applied)
    progress-Agrees laws true key value positive staged applied =
        Agrees-as
          (Agrees-progress F c key (some (F.add_float value (get_float F (st.progress key))))
            agrees)
          (add_to_progress_puts key value st st' staged)
          (ap
              (λ (o : Option F.Float). record s {
                progress = put_row F s.progress c key (some (F.add_float value (get_float F o)));
              })
              (agrees.progress key)
            ∙ add_progress_writes laws c key value s s' (ground (arith, positive)) applied)

    pub stage_progress-Agrees :
        (laws : AddsLikeNumbers F) (adds : Bool)
        → stage_progress F effect.arguments adds st ≡ ok (a, st')
        → apply_progress F c effect adds s ≡ ok (b, s')
        → Agrees F c st' s'
    unfolding apply_progress
    stage_progress-Agrees laws adds staged applied = after_bind _ _ _ applied λ key u e h.
        after_bind _ _ _ h λ text v f h. after_bind _ _ _ h λ value w g h.
          after_bind _ _ _ h λ _ x i h.
            let (key_text, same) = required_ok _ s e in
            let (value_text, same2) = required_ok _ u f in
            let (number, same3) = required_ok _ v g in
            let (positive, same4) = require_same _ w i in
            progress-Agrees laws adds key value positive
              (sym (
                  stage_progress_as effect.arguments adds key value st
                    (static_string effect.arguments 0 key_text)
                    (static_number effect.arguments 1 value_text ∙ number))
                ∙ staged)
              (subst
                (λ y.
                  (if adds then add_progress F c key value else write_progress F c key value) y
                  ≡ ok (b, s'))
                (sym (same ∙ same2 ∙ same3 ∙ same4)) h)
