-- ===== src/Store/Runs/Lifecycle.antt =====
-- The runs of a character over any sequence of operations.
use new_yokosuka_server.Base.{
  ℕ, ◌≤◌, ◌≡◌, refl, Bool, true, false, ◌||◌, String, Option, some, List, [], ◌∷◌, arith, ◌==◌,
  ==_iff, str_eq, Bool-cases, inl, inr, sym, subst, ◌∙◌,
}
use new_yokosuka_server.Store.Transaction.{ok, transact_lem, after_bind}
use new_yokosuka_server.Base.Text.{trim_space}
use new_yokosuka_server.Store.Tables.{Character}
use new_yokosuka_server.Store.Runs.{
  Run, Events, is_active, update_where, any_run, is_running, expire_runs, has_lapsed, end_as,
  expired, cancelled, failed, choose, TriggerCandidate, require_character, claim_revision,
  insert_run, change_run, new_run, start_tx, start_published_script_event, is_held, is_leased,
  renew_script_event, cancel_script_event, fail_tx, fail_script_event, Op, start, renew, cancel,
  fail_run, step, run_all, allowed,
}
use new_yokosuka_server.Store.Runs.Steps.{
  count_active, find_run, Keeps, Keeps-same, Keeps-trans, update_where-count, update_where-find,
  any_run-count, find_run-any, true≢false,
}

-- What a change may do to a run: it makes none active, and leaves its character and its identifier.
record IsMild (test : Run → Bool) (change : Run → Run) : Type 0 where
  live : (q : Run) → test q ≡ true → is_active q ≡ true
  same_id : (q : Run) → (change q).id ≡ q.id
  no_new : (c : ℕ) (q : Run) → is_running c (change q) ≡ true → is_running c q ≡ true

module _ (c id : ℕ) (r : Run) (over : is_active r ≡ false) where
  mild_update :
      (test : Run → Bool) (change : Run → Run) (s : Events)
      → IsMild test change
      → Keeps c id r s (record s { runs = update_where test change s.runs })
  mild_update test change s m = record {
    single = λ h. omega (arith, h, update_where-count c id r over test change s.runs (m.no_new c));
    ended = λ h. update_where-find c id r over test change s.runs m.live m.same_id h;
  }

  expire_runs-Keeps :
      (d now : ℕ) (s t : Events) {a : Unit {0}} → expire_runs d now s ≡ ok (a, t) → Keeps c id r s t
  unfolding expire_runs
  expire_runs-Keeps d now s t h =
      subst (λ u. Keeps c id r s u) (ground (arith, h))
        (mild_update (has_lapsed d now) (end_as expired) s (record {
          live = λ q e. ground (arith, e);
          same_id = λ q. refl;
          no_new = λ e q f. absurd (ground (arith, f));
        }))

  change_run-Keeps :
      (test : Run → Bool) (change : Run → Run) (s t : Events) {a : Unit {0}}
      → IsMild test change
      → change_run test change s ≡ ok (a, t)
      → Keeps c id r s t
  unfolding change_run
  change_run-Keeps test change s t m h = elim (Bool-cases (any_run test s.runs)) [
    | inl hit ↦ subst (λ u. Keeps c id r s u) (ground (arith, hit, h)) (mild_update test change s m)
    | inr miss ↦ absurd (ground (arith, miss, h))
  ]

  require_character-Keeps :
      (characters : ℕ → Option Character) (account_id d : ℕ) (s t : Events) {a : Unit {0}}
      → require_character characters account_id d s ≡ ok (a, t)
      → Keeps c id r s t
  unfolding require_character
  require_character-Keeps characters account_id d s t h =
      Keeps-same c id r over s t (ground (arith, h))

  choose-Keeps :
      (rows : List TriggerCandidate) (s t : Events) {a : TriggerCandidate}
      → choose rows s ≡ ok (a, t)
      → Keeps c id r s t
  unfolding choose
  choose-Keeps [] s t h = absurd (cc)
  choose-Keeps (x ∷ []) s t h = Keeps-same c id r over s t (ground (arith, h))
  choose-Keeps (x ∷ y ∷ rows) s t h = Keeps-same c id r over s t (ground (arith, h))

  claim_revision-Keeps :
      (d : ℕ) (s t : Events) {a : ℕ} → claim_revision d s ≡ ok (a, t) → Keeps c id r s t
  unfolding claim_revision
  claim_revision-Keeps d s t h = Keeps-same c id r over s t (ground (arith, h))

  insert-single :
      (run : Run) (runs : List Run)
      → any_run (is_running run.character_id) runs ≡ false
      → count_active c runs ≤ 1
      → count_active c (run ∷ runs) ≤ 1
  unfolding count_active
  insert-single run runs free h = elim (Bool-cases (run.character_id == c)) [
    | inl same ↦
        let none_active = any_run-count c id r over runs (
          subst (λ d. any_run (is_running d) runs ≡ false) ((==_iff run.character_id c).0 same)
            free) in
        ground (arith, same, none_active)
    | inr other ↦ ground (arith, other, h)
  ]

  insert-find :
      (run : Run) (runs : List Run)
      → any_run (λ q. q.id == run.id || str_eq q.lease_token run.lease_token) runs ≡ false
      → find_run id runs ≡ some r
      → find_run id (run ∷ runs) ≡ some r
  unfolding find_run
  insert-find run runs free h = elim (Bool-cases (run.id == id)) [
    | inl same ↦ absurd (
        true≢false c id r over (
          sym (find_run-any c id r over run.lease_token runs h)
          ∙ subst
              (λ d. any_run (λ q. q.id == d || str_eq q.lease_token run.lease_token) runs ≡ false)
              ((==_iff run.id id).0 same) free))
    | inr other ↦ ground (arith, other, h)
  ]

  inserted-Keeps :
      (run : Run) (s : Events)
      → any_run (λ q. q.id == run.id || str_eq q.lease_token run.lease_token) s.runs ≡ false
      → any_run (is_running run.character_id) s.runs ≡ false
      → Keeps c id r s (record s { runs = run ∷ s.runs })
  inserted-Keeps run s fresh free = record {
    single = λ h. insert-single run s.runs free h;
    ended = λ h. insert-find run s.runs fresh h;
  }

  insert_run-Keeps :
      (run : Run) (s t : Events) {a : Run} → insert_run run s ≡ ok (a, t) → Keeps c id r s t
  unfolding insert_run
  insert_run-Keeps run s t h =
      let taken = any_run (λ q. q.id == run.id || str_eq q.lease_token run.lease_token) s.runs in
      elim (Bool-cases taken) [
        | inl e ↦ absurd (ground (arith, e, h))
        | inr fresh ↦ elim (Bool-cases (any_run (is_running run.character_id) s.runs)) [
          | inl e ↦ absurd (ground (arith, fresh, e, h))
          | inr free ↦
              subst (λ u. Keeps c id r s u) (ground (arith, fresh, free, h))
                (inserted-Keeps run s fresh free)
        ]
      ]

  start_tx-Keeps :
      (characters : ℕ → Option Character) (account_id d : ℕ) (excluded : List ℕ)
      (rows : List TriggerCandidate) (new : ℕ) (token : String) (expires now : ℕ) (s t : Events)
      {a : Run}
      → start_tx characters account_id d excluded rows new token expires now s ≡ ok (a, t)
      → Keeps c id r s t
  unfolding start_tx
  start_tx-Keeps characters account_id d excluded rows new token expires now s t h =
      after_bind _ _ _ h λ _ u e h. after_bind _ _ _ h λ _ v f h.
        after_bind _ _ _ h λ candidate w g h. after_bind _ _ _ h λ revision x i h.
          Keeps-trans c id r over (require_character-Keeps characters account_id d s u e) (
            Keeps-trans c id r over (expire_runs-Keeps d now u v f) (
              Keeps-trans c id r over (choose-Keeps (allowed excluded rows) v w g) (
                Keeps-trans c id r over (claim_revision-Keeps d w x i) (
                  insert_run-Keeps (new_run new d candidate.version_id token expires revision) x t
                    h))))

  fail_tx-Keeps :
      (run_id : ℕ) (token code message : String) (s t : Events) {a : Unit {0}}
      → fail_tx run_id token code message s ≡ ok (a, t)
      → Keeps c id r s t
  unfolding fail_tx
  fail_tx-Keeps run_id token code message s t h =
      elim (Bool-cases (str_eq code "" || str_eq message "")) [
        | inl e ↦ absurd (ground (arith, e, h))
        | inr e ↦
            change_run-Keeps (is_held run_id token)
              (λ run. record run { status = failed; failure = some (code, message) }) s t
              (record {
                live = λ q f. ground (arith, f);
                same_id = λ q. refl;
                no_new = λ d q f. absurd (ground (arith, f));
              })
              (ground (arith, e, h))
      ]

  step-Keeps : (op : Op) (s : Events) → Keeps c id r s (step op s)
  unfolding step start_published_script_event renew_script_event cancel_script_event
      fail_script_event
  step-Keeps (start characters account_id d excluded rows new token expires now) s =
      transact_lem (λ t. Keeps c id r s t) _ s (Keeps-same c id r over s s refl)
        (λ a t h. start_tx-Keeps characters account_id d excluded rows new token expires now s t h)
  step-Keeps (renew run_id token expires now) s =
      transact_lem (λ t. Keeps c id r s t) _ s (Keeps-same c id r over s s refl)
        (λ a t h.
          change_run-Keeps (is_leased run_id token now) _ s t
            (record { live = λ q f. ground (arith, f); same_id = λ q. refl; no_new = λ d q f. f })
            h)
  step-Keeps (cancel run_id token) s =
      transact_lem (λ t. Keeps c id r s t) _ s (Keeps-same c id r over s s refl)
        (λ a t h.
          change_run-Keeps (is_held run_id token) (end_as cancelled) s t
            (record {
              live = λ q f. ground (arith, f);
              same_id = λ q. refl;
              no_new = λ d q f. absurd (ground (arith, f));
            })
            h)
  step-Keeps (fail_run run_id token code message) s =
      transact_lem (λ t. Keeps c id r s t) _ s (Keeps-same c id r over s s refl)
        (λ a t h. fail_tx-Keeps run_id token (trim_space code) (trim_space message) s t h)

  run_all-Keeps : (ops : List Op) (s : Events) → Keeps c id r s (run_all ops s)
  unfolding run_all
  run_all-Keeps [] s = Keeps-same c id r over s s refl
  run_all-Keeps (op ∷ ops) s =
      Keeps-trans c id r over (step-Keeps op s) (run_all-Keeps ops (step op s))

abbrev some_ended : Run
some_ended = record (new_run 0 0 0 "" 0 0) { status = expired }

-- A character with at most one active run has at most one after any starts, renewals, cancellations
-- and failures of script events.
pub run_all-single :
    (c : ℕ) (ops : List Op) (s : Events)
    → count_active c s.runs ≤ 1
    → count_active c (run_all ops s).runs ≤ 1
run_all-single c ops s h = (run_all-Keeps c 0 some_ended refl ops s).single h

-- A run that is no longer active stays as it is through any starts, renewals, cancellations and
-- failures of script events.
pub run_all-ended :
    (id : ℕ) (r : Run) (ops : List Op) (s : Events)
    → find_run id s.runs ≡ some r
    → is_active r ≡ false
    → find_run id (run_all ops s).runs ≡ some r
run_all-ended id r ops s found over = (run_all-Keeps 0 id r over ops s).ended found
