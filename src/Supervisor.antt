-- ===== src/Supervisor.antt =====
-- internal/orchestrator/orchestrator.go, the `Supervisor`, and its `LoadSnapshot` and
-- `StopWithSnapshot` of internal/orchestrator/snapshot.go. What the host answers (files, cgroups,
-- the Firecracker SDK) comes as an argument of each call; what the calls leave on the host is part
-- of the state, under the sandbox id from which every path is built. Removing a file, a directory or a
-- record is taken to succeed: the source ignores how it ends.
pub mod Launched
pub mod Admission
pub mod Rollback
pub mod Ownership
pub mod Lifecycle
pub mod Engine
pub mod Restore
pub mod Interleaving
use sandboxed_ai_agent_orche.Prelude.{
  ℕ, ◌+◌, ◌*◌, ◌^◌, ◌≡◌, Bool, true, false, ◌&&◌, not, Option, none, some, List, [], ◌∷◌, ◌++◌,
  if◌then◌else◌, leb, length, is_empty, Result, ok, err,
}
use sandboxed_ai_agent_orche.Prelude.Text.{Text, text_eq}
use sandboxed_ai_agent_orche.Prelude.Table.{Table, lookup, insert, erase}
use sandboxed_ai_agent_orche.Prelude.Int.{ℤ, pos, negsuc, ltb_ℤ, ◌+ℤ◌, ◌*ℤ◌, wrap64}
use sandboxed_ai_agent_orche.Cid.{CidAllocator, alloc, free}

-- int64 fields.
pub record LaunchSpec : Type 0 where
  pub id : Text
  pub vcpus : ℤ
  pub mem_mib : ℤ
  pub cpu_percent : ℤ
  pub pids_max : ℤ

-- The path fields are left out: each is a function of the configuration and the id.
pub record Instance : Type 0 where
  pub id : Text
  pub cid : ℕ
  pub pid : ℕ
  pub spec : LaunchSpec
  pub created_at : ℕ

-- `has_recorder` says that a recorder was given.
pub record Config : Type 0 where
  pub use_jailer : Bool
  pub max_concurrent : ℤ
  pub memory_budget_mib : ℤ
  pub has_recorder : Bool

-- The supervisor, the sandbox ids that have a state directory, a cgroup leaf, a chroot or a running
-- VMM on the host, or a paused one, and the records kept by the recorder. The paths are made of the ids:
-- for ids that are plain names of files Host/Paths shows that one id's places are no other's.
pub record World : Type 0 where
  pub inst : Table Instance
  pub cids : CidAllocator
  pub state_dirs : Text → Bool
  pub leaves : Text → Bool
  pub chroots : Text → Bool
  pub vms : Text → Bool
  pub paused : Text → Bool
  pub records : Table Instance

abbrev pub put : (Text → Bool) → Text → Bool → Text → Bool
put f id b j = if text_eq id j then b else f j

pub data LaunchError : Type 0 where
  already_exists admission_denied cid_exhausted build_failed disk_failed cgroup_failed : LaunchError
  context_done new_machine_failed start_failed pid_failed place_failed identity_failed : LaunchError

abbrev pub at_least_one : ℤ → ℤ → ℤ
at_least_one v d = if ltb_ℤ (pos 0) v then v else d

unfoldable pub apply_spec_defaults : LaunchSpec → LaunchSpec
apply_spec_defaults s = record {
  id = s.id;
  vcpus = at_least_one s.vcpus (pos 1);
  mem_mib = at_least_one s.mem_mib (pos 256);
  cpu_percent = at_least_one s.cpu_percent (pos 100);
  pids_max = at_least_one s.pids_max (pos 128);
}

-- `used += in.Spec.MemMiB`, in int64.
unfoldable pub used_mem : ℤ → Table Instance → ℤ
used_mem used [] = used
used_mem used ((id, i) ∷ m) = used_mem (wrap64 (used +ℤ i.spec.mem_mib)) m

-- `admitLocked`; `true` is no error.
unfoldable pub admit : Config → Table Instance → LaunchSpec → Bool
admit cfg inst spec =
    let full =
      ltb_ℤ (pos 0) cfg.max_concurrent && not (ltb_ℤ (pos (length inst)) cfg.max_concurrent) in
    let over =
      ltb_ℤ (pos 0) cfg.memory_budget_mib
      && ltb_ℤ cfg.memory_budget_mib (wrap64 (used_mem (pos 0) inst +ℤ spec.mem_mib)) in
    if full then false else not over

-- The first critical section of `Launch` and `LoadSnapshot`.
unfoldable pub launch_check : Config → Table Instance → LaunchSpec → Option LaunchError
launch_check cfg inst spec = elim (lookup spec.id inst) [
  | some i ↦ some already_exists
  | none ↦ if admit cfg inst spec then none else some admission_denied
]

-- How `buildFirecrackerConfig` ends: it may fail before or after the state directory is there.
pub data BuildOutcome : Type 0 where
  mkdir_failed rootfs_failed built : BuildOutcome

-- How `prepareCgroup` ends: it may fail before or after the leaf is there.
pub data CgroupOutcome : Type 0 where
  parent_failed write_failed prepared : CgroupOutcome

-- How the rest of the boot ends. The first failure is of `Launch` alone, the last of `LoadSnapshot`.
pub data BootOutcome : Type 0 where
  ctx_done machine_refused machine_not_started no_pid not_placed no_entropy : BootOutcome
  booted : ℕ → BootOutcome

-- What the host answers during one launch. `fresh_id` is "sb-" with random digits.
pub record HostAnswers : Type 0 where
  pub fresh_id : Text
  pub build : BuildOutcome
  pub cgroup : CgroupOutcome
  pub boot : BootOutcome
  pub save_ok : Bool
  pub now : ℕ

abbrev pub free_cid : World → ℕ → World
free_cid w cid = record w { cids = free w.cids cid }

-- The closure `cleanup`: the context is cancelled, which stops the VMM, and the rest is removed.
unfoldable pub cleanup : Config → World → Text → ℕ → World
cleanup cfg w id cid = record w {
  cids = free w.cids cid;
  state_dirs = put w.state_dirs id false;
  leaves = put w.leaves id false;
  chroots = if cfg.use_jailer then put w.chroots id false else w.chroots;
  vms = put w.vms id false;
  paused = put w.paused id false;
}

-- A machine that is being started: the jailer builds its chroot.
abbrev pub starting : Config → World → Text → World
starting cfg w id = record w {
  chroots = if cfg.use_jailer then put w.chroots id true else w.chroots;
  vms = put w.vms id true;
}

abbrev pub boot_error : BootOutcome → LaunchError
boot_error ctx_done = context_done
boot_error machine_refused = new_machine_failed
boot_error machine_not_started = start_failed
boot_error no_pid = pid_failed
boot_error not_placed = place_failed
boot_error no_entropy = identity_failed
boot_error (booted pid) = start_failed

-- From the cleanup closure to the instance: everything after the cgroup leaf is ready.
unfoldable pub boot_vm :
    Config → World → LaunchSpec → ℕ → BootOutcome → ℕ → Result LaunchError Instance × World
unfolding cleanup
boot_vm cfg w spec cid (booted pid) now = (
  ok (record { id = spec.id; cid = cid; pid = pid; spec = spec; created_at = now }),
  starting cfg w spec.id,
)
boot_vm cfg w spec cid ctx_done now = (err context_done, cleanup cfg w spec.id cid)
boot_vm cfg w spec cid machine_refused now = (err new_machine_failed, cleanup cfg w spec.id cid)
boot_vm cfg w spec cid other now =
    (err (boot_error other), cleanup cfg (starting cfg w spec.id) spec.id cid)

-- `prepareCgroup` and what follows it.
unfoldable pub cgroup_and_boot :
    Config → World → LaunchSpec → ℕ → HostAnswers → Result LaunchError Instance × World
unfolding boot_vm
cgroup_and_boot cfg w spec cid h = elim h.cgroup [
  | parent_failed ↦
      (err cgroup_failed, free_cid (record w { state_dirs = put w.state_dirs spec.id false }) cid)
  | write_failed ↦ (
    err cgroup_failed,
    free_cid
        (record w {
          state_dirs = put w.state_dirs spec.id false;
          leaves = put w.leaves spec.id true;
        })
        cid,
  )
  | prepared ↦ boot_vm cfg (record w { leaves = put w.leaves spec.id true }) spec cid h.boot h.now
]

-- `Launch` from the allocated CID on, up to the second critical section.
unfoldable pub launch_boot :
    Config → World → LaunchSpec → ℕ → HostAnswers → Result LaunchError Instance × World
unfolding cgroup_and_boot
launch_boot cfg w spec cid h = elim h.build [
  | mkdir_failed ↦ (err build_failed, free_cid w cid)
  | rootfs_failed ↦
      (err build_failed, free_cid (record w { state_dirs = put w.state_dirs spec.id true }) cid)
  | built ↦ cgroup_and_boot cfg (record w { state_dirs = put w.state_dirs spec.id true }) spec cid h
]

-- `LoadSnapshot` at the same place: a disk that cannot be restored takes its directory with it.
unfoldable pub restore_boot :
    Config → World → LaunchSpec → ℕ → HostAnswers → Result LaunchError Instance × World
unfolding cgroup_and_boot
restore_boot cfg w spec cid h = elim h.build [
  | mkdir_failed ↦ (err build_failed, free_cid w cid)
  | rootfs_failed ↦
      (err disk_failed, free_cid (record w { state_dirs = put w.state_dirs spec.id false }) cid)
  | built ↦ cgroup_and_boot cfg (record w { state_dirs = put w.state_dirs spec.id true }) spec cid h
]

-- The second critical section and the recorder, whose errors are only logged.
unfoldable pub launch_commit : Config → World → Instance → Bool → World
launch_commit cfg w i save_ok = record w {
  inst = insert i.id i w.inst;
  records = if cfg.has_recorder && save_ok then insert i.id i w.records else w.records;
}

unfoldable pub named : LaunchSpec → Text → LaunchSpec
named spec fresh =
    let s = apply_spec_defaults spec in record s { id = if is_empty s.id then fresh else s.id }

-- The two entry points, given how they boot.
unfoldable pub launch_with :
    (Config → World → LaunchSpec → ℕ → HostAnswers → Result LaunchError Instance × World)
    → Config
    → World
    → LaunchSpec
    → HostAnswers
    → Result LaunchError Instance × World
launch_with boot cfg w spec h = elim (launch_check cfg w.inst spec) [
  | some e ↦ (err e, w)
  | none ↦ elim (alloc w.cids).0 [
    | none ↦ (err cid_exhausted, record w { cids = (alloc w.cids).1 })
    | some cid ↦
        let (r, w') = boot cfg (record w { cids = (alloc w.cids).1 }) spec cid h in
        elim r [ err e ↦ (err e, w') | ok i ↦ (ok i, launch_commit cfg w' i h.save_ok) ]
  ]
]

unfoldable pub launch :
    Config → World → LaunchSpec → HostAnswers → Result LaunchError Instance × World
unfolding launch_with
launch cfg w spec h = launch_with launch_boot cfg w (named spec h.fresh_id) h

-- `LoadSnapshot` but for the snapshot's files, which Supervisor/Restore adds.
unfoldable pub restore_instance :
    Config → World → LaunchSpec → HostAnswers → Result LaunchError Instance × World
unfolding launch_with
restore_instance cfg w spec h = launch_with restore_boot cfg w (named spec h.fresh_id) h

-- `Terminate`; `false` is the error "not found".
unfoldable pub terminate : Config → World → Text → Bool × World
terminate cfg w id = elim (lookup id w.inst) [
  | none ↦ (false, w)
  | some i ↦ (
    true,
    record w {
      inst = erase id w.inst;
      cids = free w.cids i.cid;
      leaves = put w.leaves i.id false;
      state_dirs = put w.state_dirs i.id false;
      chroots = if cfg.use_jailer then put w.chroots i.id false else w.chroots;
      vms = put w.vms i.id false;
      paused = put w.paused i.id false;
      records = if cfg.has_recorder then erase i.id w.records else w.records;
    },
  )
]

-- `Get`, `List` and `Count`.
unfoldable pub get : World → Text → Option Instance
get w id = lookup id w.inst

abbrev pub instances : Table Instance → List Instance
instances [] = []
instances ((id, i) ∷ m) = i ∷ instances m

unfoldable pub count : World → ℕ
count w = length w.inst

-- The loop of `ReapDead` over the list taken at its start; `alive` is processAlive.
unfoldable pub reap_loop : Config → (ℕ → Bool) → List Instance → World → List Text × World
reap_loop cfg alive [] w = ([], w)
reap_loop cfg alive (i ∷ is) w =
    let w' = if alive i.pid then w else (terminate cfg w i.id).1 in
    let (dead, w'') = reap_loop cfg alive is w' in (if alive i.pid then dead else i.id ∷ dead, w'')

unfoldable pub reap_dead : Config → (ℕ → Bool) → World → List Text × World
unfolding reap_loop
reap_dead cfg alive w = reap_loop cfg alive (instances w.inst) w

-- `killPID` and `gcRecord`: what a record of a previous run still holds on the host.
unfoldable pub gc_record : Config → World → Instance → World
gc_record cfg w i = record w {
  leaves = put w.leaves i.id false;
  chroots = if cfg.use_jailer then put w.chroots i.id false else w.chroots;
  state_dirs = put w.state_dirs i.id false;
  vms = put w.vms i.id false;
  paused = put w.paused i.id false;
  records = erase i.id w.records;
}

-- The loop of `Reconcile` over what `All` returned.
unfoldable pub reconcile_loop : Config → List Instance → World → World
unfolding gc_record
reconcile_loop cfg [] w = w
reconcile_loop cfg (i ∷ is) w =
    reconcile_loop cfg is (elim (lookup i.id w.inst) [ some j ↦ w | none ↦ gc_record cfg w i ])

unfoldable pub reconcile : Config → World → World
unfolding reconcile_loop
reconcile cfg w = if cfg.has_recorder then reconcile_loop cfg (instances w.records) w else w

-- How `CreatePausedWithDisk` ends: the pause may fail, or what follows it (the snapshot, the copy of
-- the disk).
pub data CaptureOutcome : Type 0 where
  pause_failed capture_failed captured : CaptureOutcome

-- `CreatePausedWithDisk`, as far as the machine goes; no branch resumes it.
unfoldable pub create_paused_with_disk : World → Text → CaptureOutcome → Bool × World
create_paused_with_disk w id pause_failed = (false, w)
create_paused_with_disk w id capture_failed = (false, record w { paused = put w.paused id true })
create_paused_with_disk w id captured = (true, record w { paused = put w.paused id true })

-- `StopWithSnapshot`; `false` is an error.
unfoldable pub stop_with_snapshot : Config → World → Text → CaptureOutcome → Bool × World
unfolding create_paused_with_disk
stop_with_snapshot cfg w id o = elim (lookup id w.inst) [
  | none ↦ (false, w)
  | some i ↦
      let (fine, w') = create_paused_with_disk w id o in
      if fine then (true, (terminate cfg w' id).1) else (false, w')
]
