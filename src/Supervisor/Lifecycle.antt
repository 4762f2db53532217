-- ===== src/Supervisor/Lifecycle.antt =====
-- The end of a sandbox: `Terminate` and `StopWithSnapshot`.
use sandboxed_ai_agent_orche.Prelude.{
  inl, inr, Bool, false, ◌&&◌, Option-cases, Result-cases, ℕ, ◌≡◌, refl, ap, ◌∙◌, true, false, none,
  some, arith, if◌then◌else◌, ok,
}
use sandboxed_ai_agent_orche.Prelude.Text.{Text, text_eq, text_eq_refl, text_eq_iff}
use sandboxed_ai_agent_orche.Prelude.Table.{
  Table, erase, lookup, insert, lookup-insert, lookup-erase,
}
use sandboxed_ai_agent_orche.Cid.{alloc, free}
use sandboxed_ai_agent_orche.Cid.Alloc.{IsValid, free-alloc_used}
use sandboxed_ai_agent_orche.Supervisor.{
  LaunchSpec, Instance, Config, World, HostAnswers, named, launch, terminate, get, capture_failed,
  put, launch_check, launch_boot, launch_with, launch_commit, cgroup_and_boot, boot_vm, BootOutcome,
  booted, ctx_done, machine_refused, machine_not_started, no_pid, not_placed, no_entropy,
  BuildOutcome, mkdir_failed, rootfs_failed, built, CgroupOutcome, parent_failed, write_failed,
  prepared, create_paused_with_disk, stop_with_snapshot,
}
use sandboxed_ai_agent_orche.Supervisor.Launched.{launch-Launched}
use sandboxed_ai_agent_orche.Supervisor.Rollback.{IsAbsent, put_back, put_twice}

-- `Terminate` on a tracked sandbox succeeds: it alone is no longer tracked, its CID is free, and its
-- directory, its cgroup and its machine are gone.
pub terminate_gone :
    (cfg : Config) (w : World) (id : Text) (i : Instance)
    → get w id ≡ some i
    → i.id ≡ id
    → let (fine, w') = terminate cfg w id in
      (fine ≡ true)
      × ((j : Text) → get w' j ≡ (if text_eq id j then none else get w j))
      × (w'.cids ≡ free w.cids i.cid)
      × (w'.state_dirs id ≡ false)
      × (w'.leaves id ≡ false)
      × (w'.vms id ≡ false)
unfolding get terminate
terminate_gone cfg w id i here key =
    rw (here, terminate, key)
      (
        refl,
        (λ j. lookup-erase id j w.inst),
        refl,
        ground (arith, text_eq_refl id),
        ground (arith, text_eq_refl id),
        ground (arith, text_eq_refl id),
      )

-- The rest of the host after a boot: the chroot directory when there is a jailer.
abbrev Rest : Config → World → Text → World → Type 0
Rest cfg w id w' =
    (w'.paused ≡ w.paused)
    × (w'.chroots ≡ (if cfg.use_jailer then put w.chroots id true else w.chroots))
    × (w'.records ≡ w.records)

boot_vm-Rest :
    (cfg : Config) (w : World) (spec : LaunchSpec) (c : ℕ) (o : BootOutcome) (now : ℕ)
    (i : Instance)
    → (boot_vm cfg w spec c o now).0 ≡ ok i
    → Rest cfg w spec.id (boot_vm cfg w spec c o now).1
unfolding boot_vm
boot_vm-Rest cfg w spec c (booted pid) now i q = (refl, refl, refl)
boot_vm-Rest cfg w spec c ctx_done now i q = absurd (cc)
boot_vm-Rest cfg w spec c machine_refused now i q = absurd (cc)
boot_vm-Rest cfg w spec c machine_not_started now i q = absurd (cc)
boot_vm-Rest cfg w spec c no_pid now i q = absurd (cc)
boot_vm-Rest cfg w spec c not_placed now i q = absurd (cc)
boot_vm-Rest cfg w spec c no_entropy now i q = absurd (cc)

launch_boot-Rest :
    (cfg : Config) (w : World) (spec : LaunchSpec) (c : ℕ) (h : HostAnswers) (i : Instance)
    → (launch_boot cfg w spec c h).0 ≡ ok i
    → Rest cfg w spec.id (launch_boot cfg w spec c h).1
unfolding launch_boot cgroup_and_boot
launch_boot-Rest cfg w spec c h i q = build h.build refl h.cgroup refl
  where
    build :
        (o : BuildOutcome)
        → h.build ≡ o
        → (k : CgroupOutcome) → h.cgroup ≡ k
        → Rest cfg w spec.id (launch_boot cfg w spec c h).1
    build mkdir_failed p k e = absurd (cc (rw (p, launch_boot) at q))
    build rootfs_failed p k e = absurd (cc (rw (p, launch_boot) at q))
    build built p parent_failed e = absurd (cc (rw (p, launch_boot, e, cgroup_and_boot) at q))
    build built p write_failed e = absurd (cc (rw (p, launch_boot, e, cgroup_and_boot) at q))
    build built p prepared e =
        rw (p, launch_boot, e, cgroup_and_boot)
          (boot_vm-Rest cfg _ spec c h.boot h.now i (rw (p, launch_boot, e, cgroup_and_boot) at q))

launch-Rest :
    (cfg : Config) (w : World) (spec : LaunchSpec) (h : HostAnswers) (i : Instance)
    → (launch cfg w spec h).0 ≡ ok i
    → let id = (named spec h.fresh_id).id in
      let w' = (launch cfg w spec h).1 in
      (w'.paused ≡ w.paused)
      × (w'.chroots ≡ (if cfg.use_jailer then put w.chroots id true else w.chroots))
      × (w'.records
          ≡ (if cfg.has_recorder && h.save_ok then insert i.id i w.records else w.records))
unfolding launch launch_with launch_commit launch_boot
launch-Rest cfg w spec h i q =
    let s = named spec h.fresh_id in
    elim (Option-cases (launch_check cfg w.inst s)) [
      | inr (x, e) ↦ absurd (ground (arith, q, e))
      | inl e ↦ elim (Option-cases (alloc w.cids).0) [
        | inl f ↦ absurd (ground (arith, q, e, f))
        | inr (c, f) ↦
            let v : World = record w { cids = (alloc w.cids).1 } in
            elim (Result-cases (launch_boot cfg v s c h).0) [
              | inr (x, g) ↦ absurd (cc (rw (e, launch_with, f, g) at q))
              | inl (k, g) ↦
                  let same : k ≡ i = ground (arith, rw (e, launch_with, f, g) at q) in
                  let (paused, chroots, records) = launch_boot-Rest cfg v s c h k g in
                  rw (e, launch_with, f, g, launch_commit)
                    (paused, chroots, rw (same, records) refl)
            ]
      ]
    ]

put_chroot :
    (jailed : Bool) (f : Text → Bool) (id j : Text)
    → f id ≡ false
    → let f' = if jailed then put f id true else f in
      (if jailed then put f' id false else f') j ≡ f j
put_chroot true f id j h = put_twice f id j true h
put_chroot false f id j h = refl

put_record :
    (recorder saved : Bool) (i : Instance) (j : Text) (m : Table Instance)
    → lookup i.id m ≡ none
    → let m' = if recorder && saved then insert i.id i m else m in
      lookup j (if recorder then erase i.id m' else m') ≡ lookup j m
put_record false saved i j m new = refl
put_record true true i j m new = ground (
  arith,
  lookup-erase i.id j (insert i.id i m),
  lookup-insert i.id j i m,
  text_eq_iff i.id j,
  new,
)
put_record true false i j m new = ground (arith, lookup-erase i.id j m, text_eq_iff i.id j, new)

-- A `Launch` that succeeds where nothing of the sandbox was there, and then `Terminate` on what it
-- returned, leave the sandboxes, the CIDs in use, the state directories, the chroot directories, the
-- cgroups, the machines, the paused ones and the records as they were; removals are taken to succeed.
pub terminate-launch :
    (cfg : Config) (w : World) (spec : LaunchSpec) (h : HostAnswers) (i : Instance)
    → IsValid w.cids
    → IsAbsent w (named spec h.fresh_id).id
    → lookup (named spec h.fresh_id).id w.records ≡ none
    → (launch cfg w spec h).0 ≡ ok i
    → let (fine, w') = terminate cfg (launch cfg w spec h).1 i.id in
      (fine ≡ true)
      × ((j : Text) → get w' j ≡ get w j)
      × ((c : ℕ) → w'.cids.used c ≡ w.cids.used c)
      × ((j : Text) → w'.state_dirs j ≡ w.state_dirs j)
      × ((j : Text) → w'.leaves j ≡ w.leaves j)
      × ((j : Text) → w'.vms j ≡ w.vms j)
      × ((j : Text) → w'.chroots j ≡ w.chroots j)
      × ((j : Text) → w'.paused j ≡ w.paused j)
      × ((j : Text) → lookup j w'.records ≡ lookup j w.records)
unfolding get terminate
terminate-launch cfg w spec h i v a unrecorded q =
    let l = launch-Launched cfg w spec h i q in
    let id = (named spec h.fresh_id).id in
    let (paused, chroots, records) = launch-Rest cfg w spec h i q in
    let unsaved : lookup i.id w.records ≡ none =
      ap (λ (k : Text). lookup k w.records) l.id_kept ∙ unrecorded in
    let here : lookup i.id (launch cfg w spec h).1.inst ≡ some i =
      rw l.tracked (ground (arith, lookup-insert i.id i.id i w.inst, text_eq_refl i.id)) in
    let new : lookup i.id w.inst ≡ none =
      ap (λ (k : Text). lookup k w.inst) l.id_kept ∙ l.was_new in
    rw (here, terminate)
      (
        refl,
        (λ j. rw l.tracked (
            ground (
              arith,
              lookup-erase i.id j (insert i.id i w.inst),
              lookup-insert i.id j i w.inst,
              text_eq_iff i.id j,
            ))),
        (λ c. rw l.cids_moved (free-alloc_used w.cids i.cid c v l.granted)),
        (λ j. rw l.id_kept (l.dirs_else j ∙ put_back w.state_dirs id j a.no_dir)),
        (λ j. rw l.id_kept (l.leaves_else j ∙ put_back w.leaves id j a.no_leaf)),
        (λ j. rw l.id_kept (l.vms_else j ∙ put_back w.vms id j a.no_vm)),
        (λ j. rw (l.id_kept, chroots) (put_chroot cfg.use_jailer w.chroots id j a.no_chroot)),
        (λ j. rw (l.id_kept, paused) (put_back w.paused id j a.not_paused)),
        (λ j. rw records (put_record cfg.has_recorder h.save_ok i j w.records unsaved)),
      )

-- When `StopWithSnapshot` has paused a tracked sandbox and then fails, the sandbox stays tracked and
-- stays paused.
pub stop_with_snapshot_stuck :
    (cfg : Config) (w : World) (id : Text) (i : Instance)
    → get w id ≡ some i
    → let (fine, w') = stop_with_snapshot cfg w id capture_failed in
      (fine ≡ false) × (get w' id ≡ some i) × (w'.paused id ≡ true)
unfolding get stop_with_snapshot create_paused_with_disk
stop_with_snapshot_stuck cfg w id i here =
    rw (here, stop_with_snapshot) (refl, here, ground (arith, text_eq_refl id))
