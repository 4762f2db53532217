-- ===== src/Examples/Sandboxes.antt =====
-- The handlers of sandboxes and the records of the store at concrete inputs.
use sandboxed_ai_agent_orche.Supervisor.Restore.{load_snapshot}
use sandboxed_ai_agent_orche.Prelude.{
  Bool, true, ◌==◌, if◌then◌else◌, ◌≡◌, ◌⊎◌, refl, false, none, some, [], ◌∷◌,
}
use sandboxed_ai_agent_orche.Prelude.Text.{Text, codes, text_eq}
use sandboxed_ai_agent_orche.Prelude.Int.{pos, ◌+ℤ◌, wrap64}
use sandboxed_ai_agent_orche.Prelude.Table.{lookup, insert, erase}
use sandboxed_ai_agent_orche.Database.{
  admin, operator, archived, Sandbox, Snapshot, Tables, Answers,
}
use sandboxed_ai_agent_orche.Database
use sandboxed_ai_agent_orche.Database.Users.{log_audit}
use sandboxed_ai_agent_orche.Database.Sandboxes.{
  sandbox_by_id, upsert, merged, mark_stopped, set_status, archive, update_row,
}
use sandboxed_ai_agent_orche.Database.Snapshots.{
  create_snapshot_row, newest_first, latest, list_by_sandbox, delete_snapshot,
}
use sandboxed_ai_agent_orche.Access.{is_admin, Access, granted, authorize_sandbox}
use sandboxed_ai_agent_orche.Cid.{new_cid_allocator, advance, alloc_loop, alloc, free}
use sandboxed_ai_agent_orche.Supervisor.{
  apply_spec_defaults, used_mem, admit, launch_check, boot_vm, cgroup_and_boot, launch_boot,
  restore_boot, launch_commit, named, launch_with, launch, restore_instance, terminate, get,
  captured, create_paused_with_disk, stop_with_snapshot,
}
use sandboxed_ai_agent_orche.Handlers.{
  Platform, authorized, Capture, snapshot_row, record_stop, stop_sandbox, resume_spec, resumed_row,
  delete_snapshots, take_down, clear_snapshots, delete_sandbox, launch_vm, launched_row,
}
use sandboxed_ai_agent_orche.Handlers.Ownership.{launch_vm_owner}
use sandboxed_ai_agent_orche.Handlers.Lifecycle.{delete_sandbox_gone}
use sandboxed_ai_agent_orche.Examples.Host.{cfg, host, spec, empty, running, full}
use sandboxed_ai_agent_orche.Examples.Accounts.{all_fine, no_tables}

abbrev pub box : Sandbox
box = record {
  id = codes "a";
  owner_id = codes "u1";
  name = codes "lab";
  status = Database.running;
  vcpus = pos 1;
  mem_mib = pos 512;
  cpu_percent = pos 50;
  pids_max = pos 128;
  cid = 3;
  created_at = 5;
  stopped_at = none;
  last_used_at = 5;
}

-- The sandbox "a" of the user "u1" is running.
abbrev pub platform : Platform
platform = record {
  world = full;
  tables = record no_tables { sandboxes = (codes "a", box) ∷ [] };
  snapshot_dirs = λ d. false;
}

abbrev owner : Access
owner =
    granted
      (record { user_id = codes "u1"; username = codes "bob"; role = operator; service = false })

abbrev stranger : Access
stranger =
    granted
      (record { user_id = codes "u2"; username = codes "eve"; role = operator; service = false })

abbrev capture : Capture
capture = record {
  dir = codes "/snap-1";
  size = 9;
  outcome = captured;
  row_id = codes "r1";
  now = 20;
}

abbrev pub same : Text → Text
same s = s

-- The path up to its last slash, as filepath.Dir finds it for a clean path below the root.
abbrev has_slash : Text → Bool
has_slash [] = false
has_slash (b ∷ s) = let rest = has_slash s in if b == 47 then true else rest

abbrev dir_of : Text → Text
dir_of [] = []
dir_of (b ∷ s) = let rest = dir_of s in if has_slash s then b ∷ rest else []

abbrev removes_all : Text → Bool
removes_all d = true

abbrev halted : Platform
halted = (stop_sandbox cfg all_fine owner (codes "a") capture platform).1

-- What the stop has written.
abbrev saved : Snapshot
saved = record {
  id = codes "r1";
  sandbox_id = codes "a";
  mem_file_path = codes "/snap-1/mem.img";
  state_file_path = codes "/snap-1/state.img";
  disk_file_path = codes "/snap-1/disk.img";
  size_bytes = 9;
  guest_vcpus = pos 1;
  guest_mem_mib = pos 512;
  label = [];
  created_at = 20;
}

abbrev with_snapshot : Platform
with_snapshot = record platform {
  tables = record no_tables {
    sandboxes = (codes "a", box) ∷ [];
    snapshots = (codes "r1", saved) ∷ [];
  };
  snapshot_dirs = λ d. text_eq d (codes "/snap-1");
}

delete_fine :
    (delete_sandbox dir_of removes_all cfg all_fine owner (codes "a") 40 with_snapshot).0 ≡ 204
unfolding authorized authorize_sandbox is_admin sandbox_by_id lookup insert erase text_eq get
    stop_with_snapshot create_paused_with_disk terminate full stop_sandbox record_stop snapshot_row
    create_snapshot_row mark_stopped update_row log_audit latest newest_first load_snapshot
    restore_instance launch_with launch_check admit used_mem apply_spec_defaults named restore_boot
    cgroup_and_boot boot_vm alloc alloc_loop advance free new_cid_allocator resume_spec resumed_row
    upsert merged wrap64 ◌+ℤ◌ launch_commit launch launch_boot delete_sandbox take_down
    clear_snapshots list_by_sandbox delete_snapshots delete_snapshot archive set_status
delete_fine = refl

saved_there : lookup (codes "r1") with_snapshot.tables.snapshots ≡ some saved
unfolding lookup text_eq
saved_there = refl

delete_sandbox_gone_example :
    let pf' =
      (delete_sandbox dir_of removes_all cfg all_fine owner (codes "a") 40 with_snapshot).1 in
    (get pf'.world (codes "a") ≡ none)
    × ((sb : Sandbox) × (lookup (codes "a") pf'.tables.sandboxes ≡ some sb)
        × (sb.status ≡ archived))
    × (lookup (codes "r1") pf'.tables.snapshots ≡ none)
    × (pf'.snapshot_dirs (codes "/snap-1") ≡ false)
delete_sandbox_gone_example =
    delete_sandbox_gone dir_of removes_all cfg all_fine owner (codes "a") 40 with_snapshot saved
      delete_fine refl saved_there refl refl refl

-- Nothing runs any more, but the history still has the sandbox of "u1".
abbrev idle : Platform
idle = record platform { world = empty }

taken_over : (launch_vm cfg all_fine stranger (some spec) host idle).0.1 ≡ some running
unfolding authorized authorize_sandbox is_admin sandbox_by_id lookup insert erase text_eq get
    stop_with_snapshot create_paused_with_disk terminate full stop_sandbox record_stop snapshot_row
    create_snapshot_row mark_stopped update_row log_audit latest newest_first load_snapshot
    restore_instance launch_with launch_check admit used_mem apply_spec_defaults named restore_boot
    cgroup_and_boot boot_vm alloc alloc_loop advance free new_cid_allocator resume_spec resumed_row
    upsert merged wrap64 ◌+ℤ◌ launch_commit launch launch_boot launch_vm launched_row
taken_over = refl

launch_vm_owner_example :
    (sb : Sandbox) × (lookup running.id
        (launch_vm cfg all_fine stranger (some spec) host idle).1.tables.sandboxes
      ≡ some sb)
    × (sb.status ≡ Database.running)
    × (sb.cid ≡ running.cid)
    × (((lookup running.id idle.tables.sandboxes ≡ none) × (sb.owner_id ≡ codes "u2"))
        ⊎ ((old : Sandbox) × (lookup running.id idle.tables.sandboxes ≡ some old)
            × (sb.owner_id ≡ old.owner_id)))
launch_vm_owner_example =
    launch_vm_owner cfg all_fine stranger spec host idle running taken_over refl
