-- ===== src/Supervisor/Launched.antt =====
-- What a `Launch` or a `LoadSnapshot` that succeeds has done.
use sandboxed_ai_agent_orche.Prelude.{
  ℕ, ◌≡◌, refl, ap, sym, ◌∙◌, subst, inl, inr, Bool, true, false, none, some, arith, Option-cases,
  Result, ok, Result-cases,
}
use sandboxed_ai_agent_orche.Prelude.Text.{Text, text_eq_refl}
use sandboxed_ai_agent_orche.Prelude.Table.{lookup, insert}
use sandboxed_ai_agent_orche.Cid.{alloc}
use sandboxed_ai_agent_orche.Supervisor.{
  LaunchSpec, Instance, Config, World, put, LaunchError, BuildOutcome, mkdir_failed, rootfs_failed,
  built, CgroupOutcome, parent_failed, write_failed, prepared, BootOutcome, ctx_done,
  machine_refused, machine_not_started, no_pid, not_placed, no_entropy, booted, HostAnswers,
  boot_vm, cgroup_and_boot, launch_boot, restore_boot, launch_check, launch_commit, admit, named,
  launch_with, launch, restore_instance,
}

abbrev pub Elsewhere : Text → (Text → Bool) → (Text → Bool) → Type 0
Elsewhere id f g = (j : Text) → put g id false j ≡ put f id false j

put-Elsewhere :
    (id : Text) (f g : Text → Bool) (b : Bool) → Elsewhere id f g → Elsewhere id f (put g id b)
put-Elsewhere id f g b h j = ground (arith, h j)

-- A boot that has come to its end.
pub record Booted (w : World) (spec : LaunchSpec) (c : ℕ) (i : Instance) (w' : World) : Type 0 where
  pub id_kept : i.id ≡ spec.id
  pub cid_kept : i.cid ≡ c
  pub spec_kept : i.spec ≡ spec
  pub inst_kept : w'.inst ≡ w.inst
  pub cids_kept : w'.cids ≡ w.cids
  pub records_kept : w'.records ≡ w.records
  pub has_dir : w'.state_dirs spec.id ≡ true
  pub has_leaf : w'.leaves spec.id ≡ true
  pub has_vm : w'.vms spec.id ≡ true
  pub dirs_else : Elsewhere spec.id w.state_dirs w'.state_dirs
  pub leaves_else : Elsewhere spec.id w.leaves w'.leaves
  pub vms_else : Elsewhere spec.id w.vms w'.vms

boot_vm-Booted :
    (cfg : Config) (w w' : World) (spec : LaunchSpec) (c : ℕ) (o : BootOutcome) (now : ℕ)
    (i : Instance)
    → w'.inst ≡ w.inst
    → w'.cids ≡ w.cids
    → w'.records ≡ w.records
    → w'.state_dirs spec.id ≡ true
    → w'.leaves spec.id ≡ true
    → Elsewhere spec.id w.state_dirs w'.state_dirs
    → Elsewhere spec.id w.leaves w'.leaves
    → Elsewhere spec.id w.vms w'.vms
    → (boot_vm cfg w' spec c o now).0 ≡ ok i
    → Booted w spec c i (boot_vm cfg w' spec c o now).1
unfolding boot_vm
boot_vm-Booted cfg w w' spec c (booted pid) now i e e' e'' d l x y z q = record {
  id_kept = ground arith;
  cid_kept = ground arith;
  spec_kept = ground arith;
  inst_kept = e;
  cids_kept = e';
  records_kept = e'';
  has_dir = d;
  has_leaf = l;
  has_vm = ground (arith, text_eq_refl spec.id);
  dirs_else = x;
  leaves_else = y;
  vms_else = put-Elsewhere spec.id w.vms w'.vms true z;
}
boot_vm-Booted cfg w w' spec c ctx_done now i e e' e'' d l x y z q = absurd (cc)
boot_vm-Booted cfg w w' spec c machine_refused now i e e' e'' d l x y z q = absurd (cc)
boot_vm-Booted cfg w w' spec c machine_not_started now i e e' e'' d l x y z q = absurd (cc)
boot_vm-Booted cfg w w' spec c no_pid now i e e' e'' d l x y z q = absurd (cc)
boot_vm-Booted cfg w w' spec c not_placed now i e e' e'' d l x y z q = absurd (cc)
boot_vm-Booted cfg w w' spec c no_entropy now i e e' e'' d l x y z q = absurd (cc)

cgroup_and_boot-Booted :
    (cfg : Config) (w w' : World) (spec : LaunchSpec) (c : ℕ) (h : HostAnswers) (i : Instance)
    → w'.inst ≡ w.inst
    → w'.cids ≡ w.cids
    → w'.records ≡ w.records
    → w'.state_dirs spec.id ≡ true
    → Elsewhere spec.id w.state_dirs w'.state_dirs
    → Elsewhere spec.id w.leaves w'.leaves
    → Elsewhere spec.id w.vms w'.vms
    → (cgroup_and_boot cfg w' spec c h).0 ≡ ok i
    → Booted w spec c i (cgroup_and_boot cfg w' spec c h).1
unfolding cgroup_and_boot
cgroup_and_boot-Booted cfg w w' spec c h i e e' e'' d x y z q = cgroup h.cgroup refl
  where
    cgroup :
        (o : CgroupOutcome) → h.cgroup ≡ o → Booted w spec c i (cgroup_and_boot cfg w' spec c h).1
    cgroup parent_failed p = absurd (cc (rw (p, cgroup_and_boot) at q))
    cgroup write_failed p = absurd (cc (rw (p, cgroup_and_boot) at q))
    cgroup prepared p =
        rw (p, cgroup_and_boot)
          (boot_vm-Booted cfg w _ spec c h.boot h.now i e e' e'' d
            (ground (arith, text_eq_refl spec.id)) x
            (put-Elsewhere spec.id w.leaves w'.leaves true y) z (rw (p, cgroup_and_boot) at q))

launch_boot-Booted :
    (cfg : Config) (w : World) (spec : LaunchSpec) (c : ℕ) (h : HostAnswers) (i : Instance)
    → (launch_boot cfg w spec c h).0 ≡ ok i
    → Booted w spec c i (launch_boot cfg w spec c h).1
unfolding launch_boot
launch_boot-Booted cfg w spec c h i q = build h.build refl
  where
    build : (o : BuildOutcome) → h.build ≡ o → Booted w spec c i (launch_boot cfg w spec c h).1
    build mkdir_failed p = absurd (cc (rw (p, launch_boot) at q))
    build rootfs_failed p = absurd (cc (rw (p, launch_boot) at q))
    build built p =
        rw (p, launch_boot)
          (cgroup_and_boot-Booted cfg w _ spec c h i refl refl refl
            (ground (arith, text_eq_refl spec.id))
            (put-Elsewhere spec.id w.state_dirs w.state_dirs true (λ j. refl)) (λ j. refl)
            (λ j. refl) (rw (p, launch_boot) at q))

restore_boot-Booted :
    (cfg : Config) (w : World) (spec : LaunchSpec) (c : ℕ) (h : HostAnswers) (i : Instance)
    → (restore_boot cfg w spec c h).0 ≡ ok i
    → Booted w spec c i (restore_boot cfg w spec c h).1
unfolding restore_boot
restore_boot-Booted cfg w spec c h i q = build h.build refl
  where
    build : (o : BuildOutcome) → h.build ≡ o → Booted w spec c i (restore_boot cfg w spec c h).1
    build mkdir_failed p = absurd (cc (rw (p, restore_boot) at q))
    build rootfs_failed p = absurd (cc (rw (p, restore_boot) at q))
    build built p =
        rw (p, restore_boot)
          (cgroup_and_boot-Booted cfg w _ spec c h i refl refl refl
            (ground (arith, text_eq_refl spec.id))
            (put-Elsewhere spec.id w.state_dirs w.state_dirs true (λ j. refl)) (λ j. refl)
            (λ j. refl) (rw (p, restore_boot) at q))

-- An instance that has been launched: its id was free and its spec admitted, its CID is the one that
-- the allocator gave, it is tracked, and its directory, cgroup and machine are on the host.
pub record Launched (cfg : Config) (w : World) (spec : LaunchSpec) (i : Instance) (w' : World)
    : Type 0 where
  pub was_new : lookup spec.id w.inst ≡ none
  pub admitted : admit cfg w.inst spec ≡ true
  pub granted : (alloc w.cids).0 ≡ some i.cid
  pub id_kept : i.id ≡ spec.id
  pub spec_kept : i.spec ≡ spec
  pub tracked : w'.inst ≡ insert i.id i w.inst
  pub cids_moved : w'.cids ≡ (alloc w.cids).1
  pub has_dir : w'.state_dirs spec.id ≡ true
  pub has_leaf : w'.leaves spec.id ≡ true
  pub has_vm : w'.vms spec.id ≡ true
  pub dirs_else : Elsewhere spec.id w.state_dirs w'.state_dirs
  pub leaves_else : Elsewhere spec.id w.leaves w'.leaves
  pub vms_else : Elsewhere spec.id w.vms w'.vms

launch_check-none :
    (cfg : Config) (w : World) (spec : LaunchSpec)
    → launch_check cfg w.inst spec ≡ none
    → (lookup spec.id w.inst ≡ none) × (admit cfg w.inst spec ≡ true)
unfolding launch_check
launch_check-none cfg w spec q = elim (Option-cases (lookup spec.id w.inst)) [
  | inl e ↦ (e, ground arith)
  | inr (j, e) ↦ absurd (ground arith)
]

commit-Launched :
    (cfg : Config) (w w' : World) (spec : LaunchSpec) (c : ℕ) (i : Instance) (save_ok : Bool)
    → launch_check cfg w.inst spec ≡ none
    → (alloc w.cids).0 ≡ some c
    → Booted (record w { cids = (alloc w.cids).1 }) spec c i w'
    → Launched cfg w spec i (launch_commit cfg w' i save_ok)
unfolding launch_commit
commit-Launched cfg w w' spec c i save_ok checked got b =
    let (new, adm) = launch_check-none cfg w spec checked in
    record {
      was_new = new;
      admitted = adm;
      granted = got ∙ ap some (sym b.cid_kept);
      id_kept = b.id_kept;
      spec_kept = b.spec_kept;
      tracked = ap (insert i.id i) b.inst_kept;
      cids_moved = b.cids_kept;
      has_dir = b.has_dir;
      has_leaf = b.has_leaf;
      has_vm = b.has_vm;
      dirs_else = b.dirs_else;
      leaves_else = b.leaves_else;
      vms_else = b.vms_else;
    }

launch_with-Launched :
    (boot : Config → World → LaunchSpec → ℕ → HostAnswers → Result LaunchError Instance × World)
    (cfg : Config) (w : World) (spec : LaunchSpec) (h : HostAnswers) (i : Instance)
    → ((v : World) (c : ℕ) (j : Instance)
        → (boot cfg v spec c h).0 ≡ ok j
        → Booted v spec c j (boot cfg v spec c h).1)
    → (launch_with boot cfg w spec h).0 ≡ ok i
    → Launched cfg w spec i (launch_with boot cfg w spec h).1
unfolding launch_with
launch_with-Launched boot cfg w spec h i boots q =
    elim (Option-cases (launch_check cfg w.inst spec)) [
      | inr (x, refused) ↦ absurd (cc (rw (refused, launch_with) at q))
      | inl checked ↦ elim (Option-cases (alloc w.cids).0) [
        | inl full ↦ absurd (cc (rw (checked, launch_with, full) at q))
        | inr (c, got) ↦
            elim (Result-cases (boot cfg (record w { cids = (alloc w.cids).1 }) spec c h).0) [
              | inr (x, down) ↦ absurd (cc (rw (checked, launch_with, got, down) at q))
              | inl (j, up) ↦
                  let same : j ≡ i = ground (arith, rw (checked, launch_with, got, up) at q) in
                  rw (checked, launch_with, got, up)
                    (subst
                      (λ (k : Instance). Launched cfg w spec k (
                        launch_commit cfg
                          (boot cfg (record w { cids = (alloc w.cids).1 }) spec c h).1 j h.save_ok))
                      same
                      (commit-Launched cfg w _ spec c j h.save_ok checked got (boots _ c j up)))
            ]
      ]
    ]

-- A `Launch` that succeeds found its id free and its limits kept, and leaves the sandbox tracked
-- under the id and the CID that it got, with its directory, its cgroup and its machine.
pub launch-Launched :
    (cfg : Config) (w : World) (spec : LaunchSpec) (h : HostAnswers) (i : Instance)
    → (launch cfg w spec h).0 ≡ ok i
    → Launched cfg w (named spec h.fresh_id) i (launch cfg w spec h).1
unfolding launch
launch-Launched cfg w spec h i q =
    launch_with-Launched launch_boot cfg w _ h i (λ v c j. launch_boot-Booted cfg v _ c h j) q

-- So does a `LoadSnapshot`.
pub restore_instance-Launched :
    (cfg : Config) (w : World) (spec : LaunchSpec) (h : HostAnswers) (i : Instance)
    → (restore_instance cfg w spec h).0 ≡ ok i
    → Launched cfg w (named spec h.fresh_id) i (restore_instance cfg w spec h).1
unfolding restore_instance
restore_instance-Launched cfg w spec h i q =
    launch_with-Launched restore_boot cfg w _ h i (λ v c j. restore_boot-Booted cfg v _ c h j) q
