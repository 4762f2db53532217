-- ===== src/Database.antt =====
-- The tables of internal/store/pg (models.go, migrations/0001_init.sql) as the SQL statements of its
-- repositories read and write them. PostgreSQL decides whether a statement is carried out; one that is
-- not changes nothing. A row is kept as the repository scans it: a NULL owner is the empty text, a NULL
-- CID is 0.
pub mod Users
pub mod Sessions
pub mod Sandboxes
pub mod Snapshots
pub mod Transcripts
use sandboxed_ai_agent_orche.Prelude.{ℕ, Bool, true, false, Option, List, [], ◌∷◌, if◌then◌else◌}
use sandboxed_ai_agent_orche.Prelude.Text.{Text}
use sandboxed_ai_agent_orche.Prelude.Table.{Table}
use sandboxed_ai_agent_orche.Prelude.Int.{ℤ}

-- `other_role` is any string without a name, the empty one included.
pub data Role : Type 0 where
  admin operator viewer : Role
  other_role : Text → Role

pub record User : Type 0 where
  pub id : Text
  pub username : Text
  pub password_hash : Text
  pub role : Role
  pub disabled : Bool
  pub created_at : ℕ

pub record Session : Type 0 where
  pub id : Text
  pub user_id : Text
  pub created_at : ℕ
  pub expires_at : ℕ
  pub last_seen_at : ℕ
  pub user_agent : Text
  pub ip : Option Text

pub data SandboxStatus : Type 0 where
  running stopped archived : SandboxStatus

pub record Sandbox : Type 0 where
  pub id : Text
  pub owner_id : Text
  pub name : Text
  pub status : SandboxStatus
  pub vcpus : ℤ
  pub mem_mib : ℤ
  pub cpu_percent : ℤ
  pub pids_max : ℤ
  pub cid : ℕ
  pub created_at : ℕ
  pub stopped_at : Option ℕ
  pub last_used_at : ℕ

pub record Snapshot : Type 0 where
  pub id : Text
  pub sandbox_id : Text
  pub mem_file_path : Text
  pub state_file_path : Text
  pub disk_file_path : Text
  pub size_bytes : ℕ
  pub guest_vcpus : ℤ
  pub guest_mem_mib : ℤ
  pub label : Text
  pub created_at : ℕ

pub data TranscriptKind : Type 0 where
  input output exit hitl system : TranscriptKind

pub record TranscriptLine : Type 0 where
  pub sandbox_id : Text
  pub seq : ℕ
  pub ts : ℕ
  pub kind : TranscriptKind
  pub data_text : Text
  pub exit_code : Option ℤ

-- The detail is left out.
pub record AuditEntry : Type 0 where
  pub user_id : Text
  pub action : Text
  pub target : Text

-- Each table but the last two is keyed by its primary key.
pub record Tables : Type 0 where
  pub users : Table User
  pub sessions : Table Session
  pub sandboxes : Table Sandbox
  pub snapshots : Table Snapshot
  pub transcript_lines : List TranscriptLine
  pub audit_log : List AuditEntry

-- The statements, so that each can be answered for itself.
pub data Statement : Type 0 where
  insert_user select_username select_user count_user list_user update_disabled : Statement
  insert_session touch_session select_session_user delete_session delete_expired_sessions :
      Statement
  upsert_sandbox stop_sandbox_row touch_sandbox_row update_status update_name select_sandbox
        list_sandbox :
      Statement
  insert_snapshot select_latest list_snapshot : Statement
  delete_snapshot_row : Text → Statement
  insert_line list_line delete_lines insert_audit : Statement

-- Whether PostgreSQL carries a statement out.
abbrev pub Answers : Type 0
Answers = Statement → Bool

pub data DbError : Type 0 where
  no_rows failed : DbError

-- `ORDER BY`: `before a b` says that `a` stands in front of `b`.
abbrev pub place {ℓ} : {A : Type ℓ} → (A → A → Bool) → A → List A → List A
place before a [] = a ∷ []
place before a (b ∷ bs) = if before b a then b ∷ place before a bs else a ∷ b ∷ bs

abbrev pub order_by {ℓ} : {A : Type ℓ} → (A → A → Bool) → List A → List A
order_by before [] = []
order_by before (a ∷ rest) = place before a (order_by before rest)

-- `WHERE`, over a keyed table.
abbrev pub select {ℓ} : {A : Type ℓ} → (A → Bool) → Table A → List A
select keep [] = []
select keep ((k, a) ∷ m) = if keep a then a ∷ select keep m else select keep m
