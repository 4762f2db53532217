-- ===== src/Host/Rollback.antt =====
-- A `Launch` that fails or is undone, and the paths that it removes: internal/orchestrator/orchestrator.go.
use sandboxed_ai_agent_orche.Prelude.{◌≡◌, false, Bool}
use sandboxed_ai_agent_orche.Prelude.Text.{Text}
use sandboxed_ai_agent_orche.Supervisor.{put}
use sandboxed_ai_agent_orche.Host.{Location, dir, HostConfig, state_dir_of, chroot_root_of, leaf_of}
use sandboxed_ai_agent_orche.Host.Paths.{IsPlain, remove_all}

-- What the model enters under an id is what a removal does to the paths: for any set of directories and
-- any plain id, the removal of the state directory, of the chroot directory or of the cgroup of `id`
-- takes that of `id` and leaves every other id's as it was.
abbrev pub RemovesOwn : HostConfig → Text → (Location → Bool) → Type 0
RemovesOwn c id there =
    (j : Text)
    → IsPlain j
    → (remove_all (state_dir_of c id) there (state_dir_of c j)
        ≡ put (λ k. there (state_dir_of c k)) id false j)
      × (remove_all (dir (chroot_root_of c id)) there (dir (chroot_root_of c j))
          ≡ put (λ k. there (dir (chroot_root_of c k))) id false j)
      × (remove_all (leaf_of c id) there (leaf_of c j) ≡ put (λ k. there (leaf_of c k)) id false j)
