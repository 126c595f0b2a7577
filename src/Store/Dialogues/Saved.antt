-- ===== src/Store/Dialogues/Saved.antt =====
-- Saves and loads of the dialogue states, one after the other.
use new_yokosuka_server.Base.{
  ℕ, suc, ◌≤◌, ◌==◌, ◌≡◌, refl, sym, ap, ◌∙◌, subst, Bool, true, Option, none, some, List, [], ◌∷◌,
  if_true, arith, Bool-cases, inl, inr,
}
use new_yokosuka_server.Base.Int.{pos, leb_ℤ, eq_ℤ-refl, eq_ℤ→eq}
use new_yokosuka_server.Dialogue.{Snapshot, is_valid, default}
use new_yokosuka_server.Store.Transaction.{ok, err, Error}
use new_yokosuka_server.Store.Dialogues.{
  Json, Decodes, is_live, DialogueRow, Dialogues, snapshot_of, dialogue_state, is_expected,
  next_snapshot, write_row, save_dialogue_state, Save, save_all,
}
use new_yokosuka_server.Store.Dialogues.Revisions.{save-IsSaved, save-Ends}

next_snapshot-is_valid :
    (snapshot : Snapshot)
    → is_valid snapshot ≡ true
    → is_valid (record snapshot { revision = suc snapshot.revision }) ≡ true
unfolding is_valid
next_snapshot-is_valid snapshot h = h

default-is_valid : is_valid default ≡ true
unfolding is_valid default
default-is_valid = refl

module _ {J : Json} where
  abbrev pub reached : ℕ → Option (DialogueRow J) → Bool
  reached n none = n == 0
  reached n (some row) = leb_ℤ (pos n) row.revision

  reached_now :
      (n expected : ℕ) (o : Option (DialogueRow J))
      → is_expected J expected o ≡ true
      → reached n o ≡ true
      → n ≤ expected
  reached_now n expected none h r = ground (arith, h, r)
  reached_now n expected (some row) h r =
      let e = eq_ℤ→eq row.revision (pos expected) h in
      let r = subst (λ z. leb_ℤ (pos n) z ≡ true) e r in ground (arith, r)

  write_row-reached :
      (n j c expected : ℕ) (stored : J.Stored) (s : Dialogues J)
      → is_expected J expected (s.rows c) ≡ true
      → reached n (s.rows j) ≡ true
      → reached n ((write_row J c (suc expected) stored s).rows j) ≡ true
  write_row-reached n j c expected stored s h r = elim (Bool-cases (j == c)) [
    | inr other ↦ rw other r
    | inl same ↦
        let e : j ≡ c = ground (arith, same) in
        let r = subst (λ k. reached n (s.rows k) ≡ true) e r in
        let le = reached_now n expected (s.rows c) h r in rw same (ground (arith, le))
  ]

  save-reached :
      (n j account_id c : ℕ) (snapshot : Snapshot) (s : Dialogues J)
      → reached n (s.rows j) ≡ true
      → reached n ((save_dialogue_state J account_id c snapshot s).1.rows j) ≡ true
  save-reached n j account_id c snapshot s r = elim (save-Ends account_id c snapshot s) [
    | inr (e, failed) ↦ subst (λ done. reached n (done.1.rows j) ≡ true) (sym failed) r
    | inl (saved, t, done) ↦
        let facts = save-IsSaved account_id c snapshot s saved t done in
        subst (λ done. reached n (done.1.rows j) ≡ true) (sym done)
          (subst (λ t. reached n (t.rows j) ≡ true) (sym facts.after)
            (write_row-reached n j c snapshot.revision facts.stored s facts.expected r))
  ]

  save_all-reached :
      (n j : ℕ) (saves : List Save) (s : Dialogues J)
      → reached n (s.rows j) ≡ true
      → reached n ((save_all J saves s).rows j) ≡ true
  save_all-reached n j [] s r = r
  save_all-reached n j (save ∷ saves) s r =
      save_all-reached n j saves _
        (save-reached n j save.account_id save.character_id save.snapshot s r)

  -- After a save that succeeded and any later saves, a save of that character's state that comes with
  -- the same revision or an older one fails and changes nothing.
  pub save_once :
      (account_id c : ℕ) (snapshot saved : Snapshot) (s t : Dialogues J)
      → save_dialogue_state J account_id c snapshot s ≡ (ok saved, t)
      → (saves : List Save) (stale_account : ℕ) (stale : Snapshot)
      → stale.revision ≤ snapshot.revision
      → (e : Error) × (save_dialogue_state J stale_account c stale (save_all J saves t)
          ≡ (err e, save_all J saves t))
  save_once account_id c snapshot saved s t h saves stale_account stale le =
      elim (save-Ends stale_account c stale (save_all J saves t)) [
        | inr failed ↦ failed
        | inl (again, u, done) ↦
            let facts = save-IsSaved account_id c snapshot s saved t h in
            let later = save-IsSaved stale_account c stale (save_all J saves t) again u done in
            let now : reached (suc snapshot.revision) (t.rows c) ≡ true =
              subst (λ t. reached (suc snapshot.revision) (t.rows c) ≡ true) (sym facts.after)
                (ground arith) in
            let r = save_all-reached (suc snapshot.revision) c saves t now in
            let less = reached_now (suc snapshot.revision) stale.revision _ later.expected r in
            absurd (ground (arith, less, le))
      ]

  -- The row of a snapshot that passes the checks of a load.
  abbrev pub IsGood : Option (DialogueRow J) → Type 0
  IsGood none = Unit
  IsGood (some row) =
      (snapshot : Snapshot) × (J.decode row.snapshot ≡ some snapshot)
      × (row.revision ≡ pos snapshot.revision)
      × (is_valid snapshot ≡ true)

  save-IsGood :
      Decodes J
      → (account_id c j : ℕ) (snapshot : Snapshot) (s : Dialogues J) → IsGood (s.rows j)
      → IsGood ((save_dialogue_state J account_id c snapshot s).1.rows j)
  save-IsGood decodes account_id c j snapshot s g = elim (save-Ends account_id c snapshot s) [
    | inr (e, failed) ↦ subst (λ done. IsGood (done.1.rows j)) (sym failed) g
    | inl (saved, t, done) ↦
        let facts = save-IsSaved account_id c snapshot s saved t done in
        let next = next_snapshot J snapshot in
        let written : IsGood ((write_row J c (suc snapshot.revision) facts.stored s).rows j) =
          elim (Bool-cases (j == c)) [
            | inr other ↦ rw other g
            | inl same ↦ rw same (
              next,
              decodes next facts.stored facts.encoded,
              refl,
              next_snapshot-is_valid snapshot facts.valid,
            )
          ] in
        subst (λ done. IsGood (done.1.rows j)) (sym done)
          (subst (λ t. IsGood (t.rows j)) (sym facts.after) written)
  ]

  save_all-IsGood :
      Decodes J
      → (j : ℕ) (saves : List Save) (s : Dialogues J) → IsGood (s.rows j)
      → IsGood ((save_all J saves s).rows j)
  save_all-IsGood decodes j [] s g = g
  save_all-IsGood decodes j (save ∷ saves) s g =
      save_all-IsGood decodes j saves _
        (save-IsGood decodes save.account_id save.character_id j save.snapshot s g)

  snapshot_of-IsGood :
      (o : Option (DialogueRow J))
      → IsGood o
      → (snapshot : Snapshot) × (snapshot_of J o ≡ ok snapshot) × (is_valid snapshot ≡ true)
  snapshot_of-IsGood none g = (default, refl, default-is_valid)
  snapshot_of-IsGood (some row) (snapshot, decoded, same, valid) =
      (snapshot, rw (decoded, same, valid, eq_ℤ-refl (pos snapshot.revision)) refl, valid)

  -- If the column gives back what it took, then from tables that hold no dialogue state, after any
  -- saves by anyone, a load for a character of the account that is not deleted returns a valid
  -- snapshot.
  pub dialogue_state_loads :
      Decodes J
      → (s : Dialogues J) (c : ℕ) → s.rows c ≡ none
      → (saves : List Save) (account_id : ℕ)
      → is_live account_id ((save_all J saves s).characters c) ≡ true
      → (snapshot : Snapshot) × (dialogue_state J account_id c (save_all J saves s) ≡ ok snapshot)
        × (is_valid snapshot ≡ true)
  unfolding dialogue_state
  dialogue_state_loads decodes s c empty saves account_id live =
      let good = save_all-IsGood decodes c saves s (subst IsGood (sym empty) tt) in
      let (snapshot, found, valid) = snapshot_of-IsGood ((save_all J saves s).rows c) good in
      (snapshot, if_true _ _ _ live ∙ found, valid)

  write_row-rows :
      (c revision : ℕ) (stored : J.Stored) (s : Dialogues J)
      → (write_row J c revision stored s).rows c
        ≡ some (record { revision = pos revision; snapshot = stored })
  write_row-rows c revision stored s = ground arith

  -- If the column gives back what it took, a save that succeeds returns its snapshot with the next
  -- revision, and a load by the same account then returns that.
  pub save_loads :
      Decodes J
      → (account_id c : ℕ) (snapshot saved : Snapshot) (s t : Dialogues J)
      → save_dialogue_state J account_id c snapshot s ≡ (ok saved, t)
      → (saved ≡ record snapshot { revision = suc snapshot.revision })
        × (dialogue_state J account_id c t ≡ ok saved)
  unfolding dialogue_state
  save_loads decodes account_id c snapshot saved s t h =
      let facts = save-IsSaved account_id c snapshot s saved t h in
      let next = next_snapshot J snapshot in
      let row = write_row-rows c (suc snapshot.revision) facts.stored s in
      let found : snapshot_of J ((write_row J c (suc snapshot.revision) facts.stored s).rows c)
          ≡ ok next =
        ap (snapshot_of J) row
        ∙ rw
            (
              decodes next facts.stored facts.encoded,
              next_snapshot-is_valid snapshot facts.valid,
              eq_ℤ-refl (pos next.revision),
            )
            refl in
      (
        facts.same,
        ap (dialogue_state J account_id c) facts.after
            ∙ if_true _ _ _ facts.live
            ∙ found
            ∙ ap ok (sym facts.same),
      )
