-- ===== src/Handlers.antt =====
-- The handlers of internal/gateway/sandbox_api.go and internal/gateway/api.go over the supervisor and
-- the database. The body of a request comes decoded, `none` when it is no JSON; what the host and the
-- database answer comes with each call; filepath.Dir and strings.TrimSpace are parameters. The database
-- and the supervisor are there.
pub mod Ownership
pub mod Resume
pub mod Lifecycle
use sandboxed_ai_agent_orche.Prelude.{
  ℕ, ◌+◌, Bool, true, false, ◌&&◌, not, Option, none, some, List, [], ◌∷◌, ◌++◌, if◌then◌else◌,
  is_empty, Result, ok, err, map,
}
use sandboxed_ai_agent_orche.Prelude.Text.{Text, codes}
use sandboxed_ai_agent_orche.Prelude.Int.{ℤ, pos}
use sandboxed_ai_agent_orche.Database.{
  running, Sandbox, Snapshot, TranscriptLine, Tables, Answers, DbError, no_rows, failed,
}
use sandboxed_ai_agent_orche.Database.Users.{log_audit}
use sandboxed_ai_agent_orche.Database.Sandboxes.{
  upsert, mark_stopped, rename, archive, sandbox_by_id, list_by_owner,
}
use sandboxed_ai_agent_orche.Database.Snapshots.{
  create_snapshot_row, latest, list_by_sandbox, delete_snapshot,
}
use sandboxed_ai_agent_orche.Database.Transcripts.{list_lines}
use sandboxed_ai_agent_orche.Access.{
  Access, is_admin, principal_of, Lookup, Verdict, allowed, refused, authorize_sandbox,
}
use sandboxed_ai_agent_orche.Access
use sandboxed_ai_agent_orche.Supervisor.Restore.{EngineSnapshot, RestoreConfig, load_snapshot}
use sandboxed_ai_agent_orche.Supervisor.{
  LaunchSpec, Instance, Config, World, put, LaunchError, admission_denied, HostAnswers, launch,
  terminate, get, instances, CaptureOutcome, stop_with_snapshot,
}

-- The supervisor with its host, the database, and the snapshot directories on disk.
pub record Platform : Type 0 where
  pub world : World
  pub tables : Tables
  pub snapshot_dirs : Text → Bool

pub record VmView : Type 0 where
  pub id : Text
  pub cid : ℕ
  pub pid : ℕ
  pub vcpus : ℤ
  pub mem_mib : ℤ
  pub created_at : ℕ

unfoldable pub instance_to_view : Instance → VmView
instance_to_view i = record {
  id = i.id;
  cid = i.cid;
  pid = i.pid;
  vcpus = i.spec.vcpus;
  mem_mib = i.spec.mem_mib;
  created_at = i.created_at;
}

unfoldable pub list_vms : World → List VmView
list_vms w = map instance_to_view (instances w.inst)

-- How `authorizeSandbox` reads the answer of `ByID`.
abbrev pub lookup_of : Result DbError Sandbox → Lookup
lookup_of (ok sb) = Access.found sb
lookup_of (err no_rows) = Access.missing
lookup_of (err failed) = Access.failed

unfoldable pub authorized : Answers → Access → Text → Tables → Verdict
authorized answers access id t =
    authorize_sandbox (principal_of access) (lookup_of (sandbox_by_id answers id t))

-- `listSandboxes`: the status and the rows.
unfoldable pub list_sandboxes : Answers → Access → Tables → ℕ × List Sandbox
list_sandboxes answers access t =
    let p = principal_of access in
    let owner = if is_admin p then [] else p.user_id in
    elim (list_by_owner answers owner t) [ err e ↦ (500, []) | ok rows ↦ (200, rows) ]

unfoldable pub rename_sandbox :
    (Text → Text) → Answers → Access → Text → Option Text → Tables → ℕ × Tables
rename_sandbox trim answers access id body t = elim (authorized answers access id t) [
  | refused status ↦ (status, t)
  | allowed sb ↦ elim body [
    | none ↦ (400, t)
    | some name ↦
        if is_empty (trim name)
        then (400, t)
        else (let (e, t') = rename answers id (trim name) t in
            elim e [ some x ↦ (500, t') | none ↦ (204, t') ])
  ]
]

-- `getTranscript`; `after` is the query parameter as ParseInt reads it, 0 when it does not.
unfoldable pub get_transcript : Answers → Access → Text → ℤ → Tables → ℕ × List TranscriptLine
get_transcript answers access id after t = elim (authorized answers access id t) [
  | refused status ↦ (status, [])
  | allowed sb ↦ elim (list_lines answers id after 5000 t) [
    | err e ↦ (500, [])
    | ok lines ↦ (200, lines)
  ]
]

-- What the snapshot engine and the host answer while a sandbox is stopped: the directory that the
-- engine makes, the sizes of its files together, and how the capture ends.
pub record Capture : Type 0 where
  pub dir : Text
  pub size : ℕ
  pub outcome : CaptureOutcome
  pub row_id : Text
  pub now : ℕ

-- The row that `stopSandbox` hands to the repository.
unfoldable pub snapshot_row : Instance → Text → Capture → Snapshot
snapshot_row i id c = record {
  id = [];
  sandbox_id = id;
  mem_file_path = c.dir ++ codes "/mem.img";
  state_file_path = c.dir ++ codes "/state.img";
  disk_file_path = c.dir ++ codes "/disk.img";
  size_bytes = c.size;
  guest_vcpus = i.spec.vcpus;
  guest_mem_mib = i.spec.mem_mib;
  label = [];
  created_at = 0;
}

-- The rows that `stopSandbox` writes; errors are only logged.
unfoldable pub record_stop : Answers → Access → Text → Instance → Capture → Tables → Tables
unfolding snapshot_row
record_stop answers access id i c t =
    let t1 = (create_snapshot_row answers c.row_id c.now (snapshot_row i id c) t).1 in
    let t2 = (mark_stopped answers c.now id t1).1 in
    log_audit answers (principal_of access).user_id (codes "sandbox.stop") id t2

unfoldable pub stop_sandbox : Config → Answers → Access → Text → Capture → Platform → ℕ × Platform
unfolding record_stop
stop_sandbox cfg answers access id c pf = elim (authorized answers access id pf.tables) [
  | refused status ↦ (status, pf)
  | allowed sb ↦ elim (get pf.world id) [
    | none ↦ (409, pf)
    | some i ↦
        let (fine, w) = stop_with_snapshot cfg pf.world id c.outcome in
        if fine
        then (
          200,
          record {
            world = w;
            tables = record_stop answers access id i c pf.tables;
            snapshot_dirs = put pf.snapshot_dirs c.dir true;
          },
        )
        else (500, record pf { world = w })
  ]
]

-- The specification with which `resumeSandbox` restores: the limits of the row.
unfoldable pub resume_spec : Text → Sandbox → LaunchSpec
resume_spec id sb = record {
  id = id;
  vcpus = sb.vcpus;
  mem_mib = sb.mem_mib;
  cpu_percent = sb.cpu_percent;
  pids_max = sb.pids_max;
}

-- The row that `resumeSandbox` hands to the repository.
unfoldable pub resumed_row : Text → Sandbox → Instance → Sandbox
resumed_row id sb i = record sb { id = id; status = running; cid = i.cid }

-- The snapshot that `resumeSandbox` makes of the newest row.
unfoldable pub orch_snapshot : Text → Snapshot → EngineSnapshot
orch_snapshot id snap = record {
  id = snap.id;
  sandbox_id = id;
  paths = record {
    mem_file = snap.mem_file_path;
    state_file = snap.state_file_path;
    disk_file = snap.disk_file_path;
  };
  guest_mem_mib = snap.guest_mem_mib;
  guest_vcpus = snap.guest_vcpus;
}

-- `resumeSandbox`, with what the machine was restored from.
unfoldable pub resume_sandbox :
    Config
    → Answers
    → Access
    → Text
    → HostAnswers
    → ℕ
    → Platform
    → (ℕ × Option RestoreConfig) × Platform
unfolding resume_spec resumed_row orch_snapshot
resume_sandbox cfg answers access id h now pf = elim (authorized answers access id pf.tables) [
  | refused status ↦ ((status, none), pf)
  | allowed sb ↦ elim (get pf.world id) [
    | some i ↦ ((409, none), pf)
    | none ↦ elim (latest answers id pf.tables) [
      | err no_rows ↦ ((409, none), pf)
      | err failed ↦ ((500, none), pf)
      | ok snap ↦
          let (r, w) = load_snapshot cfg pf.world (orch_snapshot id snap) (resume_spec id sb) h in
          elim r [
            | err e ↦ ((500, none), record pf { world = w })
            | ok (i, restored) ↦
                let t1 = (upsert answers now (resumed_row id sb i) pf.tables).1 in
                let t2 =
                  log_audit answers (principal_of access).user_id (codes "sandbox.resume") id t1 in
                ((200, some restored), record pf { world = w; tables = t2 })
          ]
    ]
  ]
]

-- The loop of `deleteSandbox` over the snapshots, each with its directory and its row; `removes` says of
-- which directories os.RemoveAll returns no error, which is ignored: the row is deleted all the same.
unfoldable pub delete_snapshots :
    (Text → Text) → (Text → Bool) → Answers → List Snapshot → Platform → Platform
delete_snapshots dir_of removes answers [] pf = pf
delete_snapshots dir_of removes answers (s ∷ ss) pf =
    let d = dir_of s.mem_file_path in
    delete_snapshots dir_of removes answers ss (record pf {
      tables = (delete_snapshot answers s.id pf.tables).1;
      snapshot_dirs = if removes d then put pf.snapshot_dirs d false else pf.snapshot_dirs;
    })

-- A machine that is live is terminated.
unfoldable pub take_down : Config → Text → Platform → Platform
take_down cfg id pf = elim (get pf.world id) [
  | none ↦ pf
  | some i ↦ record pf { world = (terminate cfg pf.world id).1 }
]

unfoldable pub clear_snapshots :
    (Text → Text) → (Text → Bool) → Answers → Text → Platform → Platform
clear_snapshots dir_of removes answers id pf = elim (list_by_sandbox answers id pf.tables) [
  | err e ↦ pf
  | ok snaps ↦ delete_snapshots dir_of removes answers snaps pf
]

unfoldable pub delete_sandbox :
    (Text → Text) → (Text → Bool) → Config → Answers → Access → Text → ℕ → Platform → ℕ × Platform
delete_sandbox dir_of removes cfg answers access id now pf =
    elim (authorized answers access id pf.tables) [
      | refused status ↦ (status, pf)
      | allowed sb ↦
          let pf' = clear_snapshots dir_of removes answers id (take_down cfg id pf) in
          let (e, t) = archive answers now id pf'.tables in
          elim e [
            | some x ↦ (500, record pf' { tables = t })
            | none ↦ (
              204,
              record pf' {
                tables =
                    log_audit answers (principal_of access).user_id (codes "sandbox.delete") id t;
              },
            )
          ]
    ]

abbrev pub launch_status : LaunchError → ℕ
launch_status admission_denied = 429
launch_status _ = 500

-- The row that `launchVM` hands to the repository.
unfoldable pub launched_row : Text → Instance → Sandbox
launched_row user_id i = record {
  id = i.id;
  owner_id = user_id;
  name = [];
  status = running;
  vcpus = i.spec.vcpus;
  mem_mib = i.spec.mem_mib;
  cpu_percent = i.spec.cpu_percent;
  pids_max = i.spec.pids_max;
  cid = i.cid;
  created_at = 0;
  stopped_at = none;
  last_used_at = 0;
}

-- `launchVM`, with the sandbox that it shows.
unfoldable pub launch_vm :
    Config
    → Answers
    → Access
    → Option LaunchSpec
    → HostAnswers
    → Platform
    → (ℕ × Option Instance) × Platform
unfolding launched_row
launch_vm cfg answers access none h pf = ((400, none), pf)
launch_vm cfg answers access (some spec) h pf =
    let (r, w) = launch cfg pf.world spec h in
    let user_id = (principal_of access).user_id in
    elim r [
      | err e ↦ ((launch_status e, none), record pf { world = w })
      | ok i ↦
          let t1 = (upsert answers h.now (launched_row user_id i) pf.tables).1 in
          (
            (201, some i),
            record pf {
              world = w;
              tables = log_audit answers user_id (codes "sandbox.launch") i.id t1;
            },
          )
    ]

-- `terminateVM`.
unfoldable pub terminate_vm : Config → Answers → Text → ℕ → Platform → ℕ × Platform
terminate_vm cfg answers id now pf =
    if is_empty id
    then (400, pf)
    else (let (fine, w) = terminate cfg pf.world id in
        if fine
        then (204, record pf { world = w; tables = (mark_stopped answers now id pf.tables).1 })
        else (404, record pf { world = w }))
