-- ===== src/Store/Runs.antt =====
-- internal/store/script_events.go: the runs of script events, each under a lease. Times are numbers;
-- `now` is the database's clock, and the clock of the server gives the new end of a lease. What
-- only passes through a run (its entry node, its script and its lines) is left out.
pub mod Steps
pub mod Lifecycle
pub mod Examples
use new_yokosuka_server.Base.{
  ℕ, suc, Bool, true, false, not, ◌&&◌, ◌||◌, String, Option, none, some, List, [], ◌∷◌, ltb, leb,
  ◌==◌, str_eq, is_some, if◌then◌else◌,
}
use new_yokosuka_server.Base.Int.{ℤ, eq_ℤ}
use new_yokosuka_server.Base.Maps.{put}
use new_yokosuka_server.Base.Text.{trim_space}
use new_yokosuka_server.Store.Tables.{Character}
use new_yokosuka_server.Store.Transaction.{
  Tx, Result, ok, err, ◌>>=◌, ◌>>◌, return, fail, transact, not_found, invalid, sql_error,
  ambiguous_trigger, script_event_active, script_event_ended,
}

pub data Status : Type 0 where
  active completed passed cancelled failed expired : Status

pub record Run : Type 0 where
  pub id : ℕ
  pub character_id : ℕ
  pub version_id : ℕ
  pub lease_token : String
  pub lease_expires_at : ℕ
  pub state_revision : ℕ
  pub status : Status
  pub failure : Option (String × String)

-- The tables `script_event_runs`, newest first, and `character_script_state`.
pub record Events : Type 0 where
  pub runs : List Run
  pub revisions : ℕ → Option ℕ

abbrev pub is_active : Run → Bool
is_active run = elim run.status [ active ↦ true | _ ↦ false ]

-- UPDATE script_event_runs SET … WHERE …
unfoldable pub update_where : (Run → Bool) → (Run → Run) → List Run → List Run
update_where test change [] = []
update_where test change (run ∷ runs) =
    let rest = update_where test change runs in if test run then change run ∷ rest else run ∷ rest

abbrev pub any_run : (Run → Bool) → List Run → Bool
any_run test [] = false
any_run test (run ∷ runs) = test run || any_run test runs

abbrev pub end_as : Status → Run → Run
end_as status run = record run { status = status }

abbrev pub has_lapsed : ℕ → ℕ → Run → Bool
has_lapsed c now run = run.character_id == c && is_active run && leb run.lease_expires_at now

-- The active runs of the character whose lease is over expire.
unfoldable pub expire_runs : ℕ → ℕ → Tx Events (Unit {0})
expire_runs c now s =
    ok (tt, record s { runs = update_where (has_lapsed c now) (end_as expired) s.runs })

-- A row of the query for the trigger, which lists the highest priority first.
pub record TriggerCandidate : Type 0 where
  pub version_id : ℕ
  pub priority : ℤ

abbrev pub mem_ℕ : ℕ → List ℕ → Bool
mem_ℕ n [] = false
mem_ℕ n (m ∷ ms) = n == m || mem_ℕ n ms

-- The candidates that are not excluded; the source reads the first two of them.
abbrev pub allowed : List ℕ → List TriggerCandidate → List TriggerCandidate
allowed excluded [] = []
allowed excluded (row ∷ rows) =
    let rest = allowed excluded rows in if mem_ℕ row.version_id excluded then rest else row ∷ rest

unfoldable pub choose : List TriggerCandidate → Tx Events TriggerCandidate
choose [] = fail not_found
choose (a ∷ []) = return a
choose (a ∷ b ∷ rest) = if eq_ℤ a.priority b.priority then fail ambiguous_trigger else return a

abbrev pub resolve_published_trigger : List ℕ → List TriggerCandidate → Tx Events TriggerCandidate
resolve_published_trigger excluded rows = choose (allowed excluded rows)

unfoldable pub require_character : (ℕ → Option Character) → ℕ → ℕ → Tx Events (Unit {0})
require_character characters account_id c s = elim (characters c) [
  | none ↦ err not_found
  | some row ↦ if row.account_id == account_id && not row.deleted then ok (tt, s) else err not_found
]

-- The revision of the character's script state, whose row is made if there is none.
unfoldable pub claim_revision : ℕ → Tx Events ℕ
claim_revision c s = elim (s.revisions c) [
  | some revision ↦ ok (revision, s)
  | none ↦ ok (0, record s { revisions = put s.revisions c (some 0) })
]

abbrev pub is_running : ℕ → Run → Bool
is_running c run = run.character_id == c && is_active run

-- INSERT INTO script_event_runs, with its primary key, its unique token and its unique index on the
-- active runs of a character; any of them is read as an active event.
unfoldable pub insert_run : Run → Tx Events Run
insert_run run s =
    if any_run (λ r. r.id == run.id || str_eq r.lease_token run.lease_token) s.runs
      || any_run (is_running run.character_id) s.runs
    then err script_event_active
    else ok (run, record s { runs = run ∷ s.runs })

abbrev pub new_run : ℕ → ℕ → ℕ → String → ℕ → ℕ → Run
new_run id c version_id token expires revision = record {
  id = id;
  character_id = c;
  version_id = version_id;
  lease_token = token;
  lease_expires_at = expires;
  state_revision = revision;
  status = active;
  failure = none;
}

-- `id` and `token` are generated.
unfoldable pub start_tx :
    (ℕ → Option Character)
    → ℕ
    → ℕ
    → List ℕ
    → List TriggerCandidate
    → ℕ
    → String
    → ℕ
    → ℕ
    → Tx Events Run
start_tx characters account_id c excluded rows id token expires now = do
  require_character characters account_id c
  expire_runs c now
  candidate ← resolve_published_trigger excluded rows
  revision ← claim_revision c
  insert_run (new_run id c candidate.version_id token expires revision)

unfoldable pub start_published_script_event :
    (ℕ → Option Character)
    → ℕ
    → ℕ
    → List ℕ
    → List TriggerCandidate
    → ℕ
    → String
    → ℕ
    → ℕ
    → Events
    → Result Run × Events
unfolding start_tx
start_published_script_event characters account_id c excluded rows id token expires now =
    transact (start_tx characters account_id c excluded rows id token expires now)

-- The run with the token, while it is active.
abbrev pub is_held : ℕ → String → Run → Bool
is_held id token run = run.id == id && str_eq run.lease_token token && is_active run

abbrev pub is_leased : ℕ → String → ℕ → Run → Bool
is_leased id token now run = is_held id token run && ltb now run.lease_expires_at

-- An update that must hit the run.
unfoldable pub change_run : (Run → Bool) → (Run → Run) → Tx Events (Unit {0})
change_run test change s =
    if any_run test s.runs
    then ok (tt, record s { runs = update_where test change s.runs })
    else err script_event_ended

unfoldable pub renew_script_event : ℕ → String → ℕ → ℕ → Events → Result (Unit {0}) × Events
unfolding change_run
renew_script_event id token expires now =
    transact
      (change_run (is_leased id token now) (λ run. record run { lease_expires_at = expires }))

unfoldable pub cancel_script_event : ℕ → String → Events → Result (Unit {0}) × Events
unfolding change_run
cancel_script_event id token = transact (change_run (is_held id token) (end_as cancelled))

unfoldable pub fail_tx : ℕ → String → String → String → Tx Events (Unit {0})
fail_tx id token code message =
    if str_eq code "" || str_eq message ""
    then fail invalid
    else change_run (is_held id token)
        (λ run. record run { status = failed; failure = some (code, message) })

unfoldable pub fail_script_event :
    ℕ → String → String → String → Events → Result (Unit {0}) × Events
unfolding fail_tx
fail_script_event id token code message =
    transact (fail_tx id token (trim_space code) (trim_space message))

pub data Op : Type 0 where
  start : (ℕ → Option Character) → ℕ → ℕ → List ℕ → List TriggerCandidate → ℕ → String → ℕ → ℕ → Op
  renew : ℕ → String → ℕ → ℕ → Op
  cancel : ℕ → String → Op
  fail_run : ℕ → String → String → String → Op

unfoldable pub step : Op → Events → Events
step (start characters account_id c excluded rows id token expires now) s =
    (start_published_script_event characters account_id c excluded rows id token expires now s).1
step (renew id token expires now) s = (renew_script_event id token expires now s).1
step (cancel id token) s = (cancel_script_event id token s).1
step (fail_run id token code message) s = (fail_script_event id token code message s).1

unfoldable pub run_all : List Op → Events → Events
run_all [] s = s
run_all (op ∷ ops) s = run_all ops (step op s)
