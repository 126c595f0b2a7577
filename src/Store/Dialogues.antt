-- ===== src/Store/Dialogues.antt =====
-- internal/store/dialogue.go: the dialogue state of a character, saved under its revision.
-- encoding/json and the jsonb column are an interface.
pub mod Revisions
pub mod Saved
pub mod Examples
use new_yokosuka_server.Base.{
  ℕ, suc, Bool, true, false, not, ◌&&◌, ◌||◌, Option, none, some, List, [], ◌∷◌, leb, ◌==◌,
  if◌then◌else◌, ◌≡◌,
}
use new_yokosuka_server.Base.Int.{ℤ, pos, eq_ℤ}
use new_yokosuka_server.Base.Maps.{put}
use new_yokosuka_server.Dialogue.{Snapshot, default, is_valid}
use new_yokosuka_server.Store.Tables.{Character}
use new_yokosuka_server.Store.Transaction.{
  Result, ok, err, not_found, revision_conflict, invalid, sql_error,
}

-- What the column holds, and which snapshots it takes: jsonb refuses some texts.
pub record Json : Type 1 where
  pub Stored : Type 0
  pub encode : Snapshot → Option Stored
  pub decode : Stored → Option Snapshot

-- What was encoded is decoded as it was.
abbrev pub Decodes : Json → Type 0
Decodes J =
    (snapshot : Snapshot) (t : J.Stored) → J.encode snapshot ≡ some t → J.decode t ≡ some snapshot

-- math.MaxInt64
abbrev pub max_int64 : ℕ
max_int64 = 9223372036854775807

abbrev pub is_live : ℕ → Option Character → Bool
is_live account_id none = false
is_live account_id (some row) = row.account_id == account_id && not row.deleted

-- The arguments of a save.
pub record Save : Type 0 where
  pub account_id : ℕ
  pub character_id : ℕ
  pub snapshot : Snapshot

module _ (J : Json) where
  pub record DialogueRow : Type 0 where
    pub revision : ℤ
    pub snapshot : J.Stored

  pub record Dialogues : Type 0 where
    pub characters : ℕ → Option Character
    pub rows : ℕ → Option DialogueRow

  abbrev pub checked : ℤ → Option Snapshot → Result Snapshot
  checked revision none = err invalid
  checked revision (some snapshot) =
      if eq_ℤ revision (pos snapshot.revision) && is_valid snapshot
      then ok snapshot
      else err invalid

  abbrev pub snapshot_of : Option DialogueRow → Result Snapshot
  snapshot_of none = ok default
  snapshot_of (some row) = checked row.revision (J.decode row.snapshot)

  unfoldable pub dialogue_state : ℕ → ℕ → Dialogues → Result Snapshot
  dialogue_state account_id c s =
      if is_live account_id (s.characters c) then snapshot_of (s.rows c) else err not_found

  -- Whether the statement writes a row: the condition of the selection with that of the update.
  abbrev pub is_expected : ℕ → Option DialogueRow → Bool
  is_expected expected none = expected == 0
  is_expected expected (some row) = eq_ℤ row.revision (pos expected)

  abbrev pub next_snapshot : Snapshot → Snapshot
  next_snapshot snapshot = record snapshot { revision = suc snapshot.revision }

  abbrev pub write_row : ℕ → ℕ → J.Stored → Dialogues → Dialogues
  write_row c revision t s = record s {
    rows = put s.rows c (some (record { revision = pos revision; snapshot = t }));
  }

  -- The statement with the encoded snapshot, and the ways it fails.
  abbrev pub save_encoded :
      ℕ → ℕ → Snapshot → Option J.Stored → Dialogues → Result Snapshot × Dialogues
  save_encoded account_id c snapshot none s = (err sql_error, s)
  save_encoded account_id c snapshot (some t) s =
      if not (is_live account_id (s.characters c))
      then (err not_found, s)
      else if is_expected snapshot.revision (s.rows c)
      then (ok (next_snapshot snapshot), write_row c (suc snapshot.revision) t s)
      else (err revision_conflict, s)

  unfoldable pub save_dialogue_state : ℕ → ℕ → Snapshot → Dialogues → Result Snapshot × Dialogues
  save_dialogue_state account_id c snapshot s =
      if leb max_int64 snapshot.revision || not (is_valid snapshot)
      then (err invalid, s)
      else save_encoded account_id c snapshot (J.encode (next_snapshot snapshot)) s

  -- Saves one after the other.
  abbrev pub save_all : List Save → Dialogues → Dialogues
  save_all [] s = s
  save_all (save ∷ saves) s =
      save_all saves (save_dialogue_state save.account_id save.character_id save.snapshot s).1
