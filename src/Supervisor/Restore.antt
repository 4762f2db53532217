-- ===== src/Supervisor/Restore.antt =====
-- `LoadSnapshot` of internal/orchestrator/snapshot.go with the snapshot that it is given: which disk it
-- copies and what it hands to Firecracker.
use sandboxed_ai_agent_orche.Prelude.{ℕ, ◌≡◌, refl, Result, ok, err}
use sandboxed_ai_agent_orche.Prelude.Text.{Text}
use sandboxed_ai_agent_orche.Prelude.Int.{ℤ}
use sandboxed_ai_agent_orche.Supervisor.{
  LaunchSpec, Instance, Config, World, LaunchError, HostAnswers, restore_instance,
}

pub record SnapshotPaths : Type 0 where
  pub mem_file : Text
  pub state_file : Text
  pub disk_file : Text

-- `Snapshot` but for the time of its creation.
pub record EngineSnapshot : Type 0 where
  pub id : Text
  pub sandbox_id : Text
  pub paths : SnapshotPaths
  pub guest_mem_mib : ℤ
  pub guest_vcpus : ℤ

-- The source of the copy of the disk, and the fields of the Firecracker configuration that come from the
-- snapshot and the new identity.
pub record RestoreConfig : Type 0 where
  pub disk_copied_from : Text
  pub mem_file_path : Text
  pub snapshot_path : Text
  pub vcpu_count : ℤ
  pub mem_size_mib : ℤ
  pub vsock_cid : ℕ
  pub vmid : Text

unfoldable pub restore_config : EngineSnapshot → ℕ → Text → RestoreConfig
restore_config snap cid id = record {
  disk_copied_from = snap.paths.disk_file;
  mem_file_path = snap.paths.mem_file;
  snapshot_path = snap.paths.state_file;
  vcpu_count = snap.guest_vcpus;
  mem_size_mib = snap.guest_mem_mib;
  vsock_cid = cid;
  vmid = id;
}

-- The instance, with what its machine was restored from.
unfoldable pub load_snapshot :
    Config
    → World
    → EngineSnapshot
    → LaunchSpec
    → HostAnswers
    → Result LaunchError (Instance × RestoreConfig) × World
unfolding restore_config
load_snapshot cfg w snap spec h =
    let (r, w') = restore_instance cfg w spec h in
    elim r [ err e ↦ (err e, w') | ok i ↦ (ok (i, restore_config snap i.cid i.id), w') ]

pub load_snapshot_ok :
    (cfg : Config) (w : World) (snap : EngineSnapshot) (spec : LaunchSpec) (h : HostAnswers)
    (i : Instance)
    → (restore_instance cfg w spec h).0 ≡ ok i
    → load_snapshot cfg w snap spec h
      ≡ (ok (i, restore_config snap i.cid i.id), (restore_instance cfg w spec h).1)
unfolding load_snapshot
load_snapshot_ok cfg w snap spec h i k = rw (k, load_snapshot) refl

pub load_snapshot_err :
    (cfg : Config) (w : World) (snap : EngineSnapshot) (spec : LaunchSpec) (h : HostAnswers)
    (e : LaunchError)
    → (restore_instance cfg w spec h).0 ≡ err e
    → load_snapshot cfg w snap spec h ≡ (err e, (restore_instance cfg w spec h).1)
unfolding load_snapshot
load_snapshot_err cfg w snap spec h e k = rw (k, load_snapshot) refl
