-- ===== src/Handlers/Resume.antt =====
-- A sandbox that is stopped and resumed: internal/gateway/sandbox_api.go, `stopSandbox` and
-- `resumeSandbox`, with the supervisor and the database behind them.
use sandboxed_ai_agent_orche.Prelude.{
  ℕ, ◌≡◌, ◌≢◌, ◌⊎◌, ◌&&◌, not, inl, inr, none, some, ◌++◌, arith, is_empty, Option-cases,
  Bool-cases,
}
use sandboxed_ai_agent_orche.Prelude.Text.{Text, text_eq, codes}
use sandboxed_ai_agent_orche.Prelude.Table.{lookup}
use sandboxed_ai_agent_orche.Database.{Sandbox, Snapshot, Tables, Answers, running, select_sandbox}
use sandboxed_ai_agent_orche.Database.Sandboxes.{sandbox_by_id}
use sandboxed_ai_agent_orche.Access.{
  Access, principal_of, is_admin, authorize_sandbox, allowed, refused,
}
use sandboxed_ai_agent_orche.Supervisor.Restore.{RestoreConfig}
use sandboxed_ai_agent_orche.Supervisor.{Instance, get, apply_spec_defaults}
use sandboxed_ai_agent_orche.Handlers.{Platform, authorized, Capture, snapshot_row, resume_spec}

pub authorized_row :
    (answers : Answers) (access : Access) (id : Text) (t : Tables)
    → ((n : ℕ) × (authorized answers access id t ≡ refused n) × (n ≢ 200) × (n ≢ 204))
      ⊎ ((sb : Sandbox) × (authorized answers access id t ≡ allowed sb)
          × (lookup id t.sandboxes ≡ some sb))
unfolding authorized authorize_sandbox sandbox_by_id
authorized_row answers access id t = elim (Bool-cases (answers select_sandbox)) [
  | inr f ↦ inl (500, ground (arith, f), λ z. omega (arith, z), λ z. omega (arith, z))
  | inl f ↦ elim (Option-cases (lookup id t.sandboxes)) [
    | inl q ↦ inl (404, ground (arith, f, q), λ z. omega (arith, z), λ z. omega (arith, z))
    | inr (sb, q) ↦
        let p = principal_of access in
        elim (Bool-cases (
          not (is_admin p)
          && (not (is_empty sb.owner_id) && not (text_eq sb.owner_id p.user_id)))) [
            | inl d ↦
                inl (403, ground (arith, f, q, d), λ z. omega (arith, z), λ z. omega (arith, z))
            | inr d ↦ inr (sb, ground (arith, f, q, d), q)
          ]
  ]
]

-- The row of the snapshot that a stop takes.
abbrev taken : Instance → Text → Capture → Snapshot
taken i id c = record (snapshot_row i id c) { id = c.row_id; created_at = c.now }

-- What a resumed sandbox has in common with the one that was stopped.
pub record Resumed (id : Text) (c : Capture) (sb : Sandbox) (j : Instance) (f : RestoreConfig)
    (i : Instance) (sb' : Sandbox) (pf' : Platform) : Type 0 where
  pub memory : f.mem_file_path ≡ c.dir ++ codes "/mem.img"
  pub state : f.snapshot_path ≡ c.dir ++ codes "/state.img"
  pub disk : f.disk_copied_from ≡ c.dir ++ codes "/disk.img"
  pub same_vcpus : f.vcpu_count ≡ j.spec.vcpus
  pub same_mem : f.mem_size_mib ≡ j.spec.mem_mib
  pub own_cid : f.vsock_cid ≡ i.cid
  pub own_id : f.vmid ≡ id
  pub tracked : get pf'.world id ≡ some i
  pub limits : i.spec ≡ apply_spec_defaults (resume_spec id sb)
  pub row : lookup id pf'.tables.sandboxes ≡ some sb'
  pub same_owner : sb'.owner_id ≡ sb.owner_id
  pub same_name : sb'.name ≡ sb.name
  pub is_running : sb'.status ≡ running
  pub new_cid : sb'.cid ≡ i.cid
  pub not_stopped : sb'.stopped_at ≡ none
