-- ===== src/Store/Runs/Steps.antt =====
-- What each step on the runs keeps of them.
use new_yokosuka_server.Base.{
  ℕ, ◌+◌, ◌≤◌, ◌≡◌, refl, Bool, true, false, ◌||◌, String, Option, none, some, List, [], ◌∷◌, arith,
  ◌==◌, str_eq, if◌then◌else◌, Bool-cases, inl, inr, sym, ap, subst, ◌∙◌, if_true,
}
use new_yokosuka_server.Store.Runs.{Run, Events, is_active, update_where, any_run, is_running}

-- How many active runs the character has.
unfoldable pub count_active : ℕ → List Run → ℕ
count_active c [] = 0
count_active c (run ∷ runs) = (if is_running c run then 1 else 0) + count_active c runs

unfoldable pub find_run : ℕ → List Run → Option Run
find_run id [] = none
find_run id (run ∷ runs) = let rest = find_run id runs in if run.id == id then some run else rest

-- A character with at most one active run still has at most one, and a run that has ended stays as
-- it is.
pub record Keeps (c id : ℕ) (r : Run) (s t : Events) : Type 0 where
  pub single : count_active c s.runs ≤ 1 → count_active c t.runs ≤ 1
  pub ended : find_run id s.runs ≡ some r → find_run id t.runs ≡ some r

module _ (c id : ℕ) (r : Run) (over : is_active r ≡ false) where
  pub Keeps-same : (s t : Events) → t.runs ≡ s.runs → Keeps c id r s t
  Keeps-same s t e = record {
    single = λ h. subst (λ runs. count_active c runs ≤ 1) (sym e) h;
    ended = λ h. ap (find_run id) e ∙ h;
  }

  pub Keeps-trans : {s t u : Events} → Keeps c id r s t → Keeps c id r t u → Keeps c id r s u
  Keeps-trans a b = record { single = λ h. b.single (a.single h); ended = λ h. b.ended (a.ended h) }

  pub update_where-count :
      (test : Run → Bool) (change : Run → Run) (runs : List Run)
      → ((q : Run) → is_running c (change q) ≡ true → is_running c q ≡ true)
      → count_active c (update_where test change runs) ≤ count_active c runs
  unfolding update_where count_active
  update_where-count test change [] f = omega arith
  update_where-count test change (q ∷ runs) f =
      ground (arith, update_where-count test change runs f, f q)

  pub true≢false : true ≡ false → ⊥
  true≢false h = absurd (cc)

  some_run_inj : {a b : Run} → some a ≡ some b → a ≡ b
  some_run_inj h = cc

  found_head :
      (q : Run) (runs : List Run) → (q.id == id) ≡ true → find_run id (q ∷ runs) ≡ some r → q ≡ r
  unfolding find_run
  found_head q runs same h =
      some_run_inj (sym (if_true (some q) (find_run id runs) (q.id == id) same) ∙ h)

  pub update_where-find :
      (test : Run → Bool) (change : Run → Run) (runs : List Run)
      → ((q : Run) → test q ≡ true → is_active q ≡ true)
      → ((q : Run) → (change q).id ≡ q.id)
      → find_run id runs ≡ some r
      → find_run id (update_where test change runs) ≡ some r
  unfolding update_where find_run
  update_where-find test change [] f g h = h
  update_where-find test change (q ∷ runs) f g h =
      let ih = update_where-find test change runs f g in
      elim (Bool-cases (test q)) [
        | inl hit ↦ elim (Bool-cases (q.id == id)) [
          | inl same ↦
              absurd (true≢false (sym (f q hit) ∙ ap is_active (found_head q runs same h) ∙ over))
          | inr other ↦ ground (arith, hit, other, g q, ih (ground (arith, h, other)))
        ]
        | inr miss ↦ elim (Bool-cases (q.id == id)) [
          | inl same ↦ ground (arith, miss, same, h)
          | inr other ↦ ground (arith, miss, other, ih (ground (arith, h, other)))
        ]
      ]

  pub any_run-count :
      (runs : List Run) → any_run (is_running c) runs ≡ false → count_active c runs ≡ 0
  unfolding count_active
  any_run-count [] h = refl
  any_run-count (q ∷ runs) h = ground (arith, h, any_run-count runs)

  pub find_run-any :
      (token : String) (runs : List Run)
      → find_run id runs ≡ some r
      → any_run (λ q. q.id == id || str_eq q.lease_token token) runs ≡ true
  unfolding find_run
  find_run-any token [] h = absurd (cc)
  find_run-any token (q ∷ runs) h = ground (arith, h, find_run-any token runs)
