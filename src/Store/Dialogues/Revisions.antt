-- ===== src/Store/Dialogues/Revisions.antt =====
-- What a save of a dialogue state does to the revisions.
use new_yokosuka_server.Base.{
  ℕ, suc, ◌≡◌, refl, sym, ap, ◌∙◌, ◌⊎◌, subst, Bool, true, false, not, ◌||◌, Option, none, some,
  leb, if◌then◌else◌, if_true, if_false, arith, Bool-cases, inl, inr,
}
use new_yokosuka_server.Dialogue.{Snapshot, is_valid}
use new_yokosuka_server.Store.Transaction.{
  Result, ok, err, Error, not_found, revision_conflict, invalid, sql_error,
}
use new_yokosuka_server.Store.Dialogues.{
  Json, max_int64, is_live, Dialogues, is_expected, next_snapshot, write_row, save_encoded,
  save_dialogue_state,
}

module _ {J : Json} where
  no_ok :
      (e : Error) (saved : Snapshot) (s t : Dialogues J)
      → ◌≡◌ {A = Result Snapshot × Dialogues J} (err e, s) (ok saved, t)
      → ⊥
  no_ok e saved s t h = absurd (cc)

  saved_of : Snapshot → Result Snapshot × Dialogues J → Snapshot
  saved_of d (ok saved, s) = saved
  saved_of d (err e, s) = d

  abbrev chosen : Bool → Bool → Snapshot → Dialogues J → Dialogues J → Result Snapshot × Dialogues J
  chosen live fits next u s =
      if not live
      then (err not_found, s)
      else if fits
      then (ok next, u)
      else (err revision_conflict, s)

  taken :
      (live fits : Bool) (next saved : Snapshot) (u s t : Dialogues J)
      → ◌≡◌ {A = Result Snapshot × Dialogues J} (chosen live fits next u s) (ok saved, t)
      → (live ≡ true) × (fits ≡ true) × (saved ≡ next) × (t ≡ u)
  unfolding saved_of
  taken false fits next saved u s t h = absurd (no_ok _ _ _ _ h)
  taken true false next saved u s t h = absurd (no_ok _ _ _ _ h)
  taken true true next saved u s t h =
      (refl, refl, sym (ap (saved_of next) h), sym (ap (λ done. done.1) h))

  -- What a save that succeeds found and did.
  pub record IsSaved (account_id c : ℕ) (snapshot : Snapshot) (s : Dialogues J) (saved : Snapshot)
      (t : Dialogues J) : Type 0 where
    pub valid : is_valid snapshot ≡ true
    pub live : is_live account_id (s.characters c) ≡ true
    pub expected : is_expected J snapshot.revision (s.rows c) ≡ true
    pub stored : J.Stored
    pub encoded : J.encode (next_snapshot J snapshot) ≡ some stored
    pub same : saved ≡ next_snapshot J snapshot
    pub after : t ≡ write_row J c (suc snapshot.revision) stored s

  module _ (account_id c : ℕ) (snapshot : Snapshot) (s : Dialogues J) where
    save_encoded-IsSaved :
        (saved : Snapshot) (t : Dialogues J)
        → is_valid snapshot ≡ true
        → (o : Option J.Stored) → J.encode (next_snapshot J snapshot) ≡ o
        → save_encoded J account_id c snapshot o s ≡ (ok saved, t)
        → IsSaved account_id c snapshot s saved t
    save_encoded-IsSaved saved t valid none e h = absurd (no_ok _ _ _ _ h)
    save_encoded-IsSaved saved t valid (some stored) e h =
        let (live, expected, same, after) =
          taken (is_live account_id (s.characters c)) (is_expected J snapshot.revision (s.rows c))
            (next_snapshot J snapshot) saved (write_row J c (suc snapshot.revision) stored s) s t
            h in
        record {
          valid = valid;
          live = live;
          expected = expected;
          stored = stored;
          encoded = e;
          same = same;
          after = after;
        }

    pub save-IsSaved :
        (saved : Snapshot) (t : Dialogues J)
        → save_dialogue_state J account_id c snapshot s ≡ (ok saved, t)
        → IsSaved account_id c snapshot s saved t
    unfolding save_dialogue_state
    save-IsSaved saved t h =
        let refused = leb max_int64 snapshot.revision || not (is_valid snapshot) in
        let rest = save_encoded J account_id c snapshot (J.encode (next_snapshot J snapshot)) s in
        elim (Bool-cases refused) [
          | inl e ↦ absurd (no_ok _ _ _ _ (sym (if_true (err invalid, s) rest refused e) ∙ h))
          | inr e ↦
              save_encoded-IsSaved saved t (ground (arith, e)) (J.encode (next_snapshot J snapshot))
                refl (sym (if_false (err invalid, s) rest refused e) ∙ h)
        ]

    -- A save succeeds, or it fails and leaves the tables.
    abbrev pub Ends : Result Snapshot × Dialogues J → Type 0
    Ends done =
        ((saved : Snapshot) × (t : Dialogues J) × (done ≡ (ok saved, t)))
        ⊎ ((e : Error) × (done ≡ (err e, s)))

    chosen-Ends :
        (live fits : Bool) (next : Snapshot) (u : Dialogues J) → Ends (chosen live fits next u s)
    chosen-Ends false fits next u = inr (not_found, refl)
    chosen-Ends true false next u = inr (revision_conflict, refl)
    chosen-Ends true true next u = inl (next, u, refl)

    save_encoded-Ends : (o : Option J.Stored) → Ends (save_encoded J account_id c snapshot o s)
    save_encoded-Ends none = inr (sql_error, refl)
    save_encoded-Ends (some stored) = chosen-Ends _ _ _ _

    pub save-Ends : Ends (save_dialogue_state J account_id c snapshot s)
    unfolding save_dialogue_state
    save-Ends =
        let refused = leb max_int64 snapshot.revision || not (is_valid snapshot) in
        let rest = save_encoded J account_id c snapshot (J.encode (next_snapshot J snapshot)) s in
        elim (Bool-cases refused) [
          | inl e ↦ inr (invalid, if_true (err invalid, s) rest refused e)
          | inr e ↦
              subst Ends (sym (if_false (err invalid, s) rest refused e)) (save_encoded-Ends _)
        ]
