-- ===== src/Supervisor/Rollback.antt =====
-- What a failed `Launch` or `LoadSnapshot` leaves behind.
use sandboxed_ai_agent_orche.Prelude.{
  ℕ, ◌≡◌, refl, ap, ◌∙◌, ◌≢◌, inl, inr, Bool, true, false, none, some, arith, if◌then◌else◌,
  Bool-cases, Option-cases, Result, err, Result-cases,
}
use sandboxed_ai_agent_orche.Prelude.Text.{Text, text_eq, text_eq_iff, text_eq_refl}
use sandboxed_ai_agent_orche.Cid.{CidAllocator, alloc, free}
use sandboxed_ai_agent_orche.Cid.Alloc.{IsValid, free-alloc_used, alloc-none_used}
use sandboxed_ai_agent_orche.Supervisor.{
  LaunchSpec, Instance, Config, World, put, LaunchError, build_failed, BuildOutcome, mkdir_failed,
  rootfs_failed, built, CgroupOutcome, parent_failed, write_failed, prepared, BootOutcome, ctx_done,
  machine_refused, machine_not_started, no_pid, not_placed, no_entropy, booted, HostAnswers,
  free_cid, cleanup, starting, boot_vm, cgroup_and_boot, launch_boot, restore_boot, launch_check,
  named, launch_with, launch, restore_instance,
}

-- Nothing of the sandbox is on the host.
pub record IsAbsent (w : World) (id : Text) : Type 0 where
  pub no_dir : w.state_dirs id ≡ false
  pub no_leaf : w.leaves id ≡ false
  pub no_chroot : w.chroots id ≡ false
  pub no_vm : w.vms id ≡ false
  pub not_paused : w.paused id ≡ false

-- The same supervisor and the same host, but for the next CID to be tried.
pub record Restored (w w' : World) : Type 0 where
  pub same_inst : w'.inst ≡ w.inst
  pub same_records : w'.records ≡ w.records
  pub same_cids : (c : ℕ) → w'.cids.used c ≡ w.cids.used c
  pub same_dirs : (j : Text) → w'.state_dirs j ≡ w.state_dirs j
  pub same_leaves : (j : Text) → w'.leaves j ≡ w.leaves j
  pub same_chroots : (j : Text) → w'.chroots j ≡ w.chroots j
  pub same_vms : (j : Text) → w'.vms j ≡ w.vms j
  pub same_paused : (j : Text) → w'.paused j ≡ w.paused j

pub put_back : (f : Text → Bool) (id j : Text) → f id ≡ false → put f id false j ≡ f j
put_back f id j h = elim (Bool-cases (text_eq id j)) [
  | inl e ↦ rw (e, ← (text_eq_iff id j).0 e) (cc)
  | inr e ↦ rw e
]

pub put_twice :
    (f : Text → Bool) (id j : Text) (b : Bool) → f id ≡ false → put (put f id b) id false j ≡ f j
put_twice f id j b h = elim (Bool-cases (text_eq id j)) [
  | inl e ↦ rw (e, ← (text_eq_iff id j).0 e) (cc)
  | inr e ↦ rw e
]

-- A world in which the CID `c` was taken for `id`, and its boot has come this far.
record Booting (w w' : World) (id : Text) (c : ℕ) : Type 0 where
  kept_inst : w'.inst ≡ w.inst
  kept_records : w'.records ≡ w.records
  back : (d : ℕ) → (free w'.cids c).used d ≡ w.cids.used d
  dirs : (j : Text) → put w'.state_dirs id false j ≡ w.state_dirs j
  leaf : (j : Text) → put w'.leaves id false j ≡ w.leaves j
  kept_chroots : (j : Text) → w'.chroots j ≡ w.chroots j
  kept_vms : (j : Text) → w'.vms j ≡ w.vms j
  kept_paused : (j : Text) → w'.paused j ≡ w.paused j

chroots_back :
    (j : Bool) (f g : Text → Bool) (id k : Text)
    → f id ≡ false
    → ((l : Text) → g l ≡ f l)
    → ((if j then put g id false else g) k ≡ f k)
      × ((if j
              then put (if j then put g id true else g) id false
              else (if j then put g id true else g))
            k
          ≡ f k)
chroots_back true f g id k h e =
    (put_back g id k (e id ∙ h) ∙ e k, put_twice g id k true (e id ∙ h) ∙ e k)
chroots_back false f g id k h e = (e k, e k)

cleanup-Restored :
    (cfg : Config) (w w' : World) (id : Text) (c : ℕ)
    → IsAbsent w id
    → Booting w w' id c
    → Restored w (cleanup cfg w' id c) × Restored w (cleanup cfg (starting cfg w' id) id c)
unfolding cleanup
cleanup-Restored cfg w w' id c a b =
    let no_vm' = b.kept_vms id ∙ a.no_vm in
    let not_paused' = b.kept_paused id ∙ a.not_paused in
    (
      record {
        same_inst = b.kept_inst;
        same_records = b.kept_records;
        same_cids = b.back;
        same_dirs = b.dirs;
        same_leaves = b.leaf;
        same_chroots = λ j.
            (chroots_back cfg.use_jailer w.chroots w'.chroots id j a.no_chroot b.kept_chroots).0;
        same_vms = λ j. put_back w'.vms id j no_vm' ∙ b.kept_vms j;
        same_paused = λ j. put_back w'.paused id j not_paused' ∙ b.kept_paused j;
      },
      record {
        same_inst = b.kept_inst;
        same_records = b.kept_records;
        same_cids = b.back;
        same_dirs = b.dirs;
        same_leaves = b.leaf;
        same_chroots = λ j.
            (chroots_back cfg.use_jailer w.chroots w'.chroots id j a.no_chroot b.kept_chroots).1;
        same_vms = λ j. put_twice w'.vms id j true no_vm' ∙ b.kept_vms j;
        same_paused = λ j. put_back w'.paused id j not_paused' ∙ b.kept_paused j;
      },
    )

boot_vm-Restored :
    (cfg : Config) (w w' : World) (spec : LaunchSpec) (c : ℕ) (o : BootOutcome) (now : ℕ)
    (e : LaunchError)
    → IsAbsent w spec.id
    → Booting w w' spec.id c
    → (boot_vm cfg w' spec c o now).0 ≡ err e
    → Restored w (boot_vm cfg w' spec c o now).1
unfolding boot_vm
boot_vm-Restored cfg w w' spec c (booted pid) now e a b q = absurd (cc (q))
boot_vm-Restored cfg w w' spec c ctx_done now e a b q = (cleanup-Restored cfg w w' spec.id c a b).0
boot_vm-Restored cfg w w' spec c machine_refused now e a b q =
    (cleanup-Restored cfg w w' spec.id c a b).0
boot_vm-Restored cfg w w' spec c machine_not_started now e a b q =
    (cleanup-Restored cfg w w' spec.id c a b).1
boot_vm-Restored cfg w w' spec c no_pid now e a b q = (cleanup-Restored cfg w w' spec.id c a b).1
boot_vm-Restored cfg w w' spec c not_placed now e a b q =
    (cleanup-Restored cfg w w' spec.id c a b).1
boot_vm-Restored cfg w w' spec c no_entropy now e a b q =
    (cleanup-Restored cfg w w' spec.id c a b).1

-- A host whose answers hide no failure that is not rolled back.
pub record Cooperative (h : HostAnswers) : Type 0 where
  pub rootfs : h.build ≢ rootfs_failed
  pub leaf_written : h.cgroup ≢ write_failed

-- The world of `launch_boot` with its state directory made.
abbrev with_dir : World → Text → CidAllocator → World
with_dir w id cids = record w { cids = cids; state_dirs = put w.state_dirs id true }

module _ (cfg : Config) (w : World) (spec : LaunchSpec) (c : ℕ) (cids : CidAllocator)
    (a : IsAbsent w spec.id) (back : (d : ℕ) → (free cids c).used d ≡ w.cids.used d) where
  with_leaf-Booting :
      Booting w (record (with_dir w spec.id cids) { leaves = put w.leaves spec.id true }) spec.id c
  with_leaf-Booting = record {
    kept_inst = refl;
    kept_records = refl;
    back = back;
    dirs = λ j. put_twice w.state_dirs spec.id j true a.no_dir;
    leaf = λ j. put_twice w.leaves spec.id j true a.no_leaf;
    kept_chroots = λ j. refl;
    kept_vms = λ j. refl;
    kept_paused = λ j. refl;
  }

  cgroup_and_boot-Restored :
      (h : HostAnswers) (e : LaunchError)
      → h.cgroup ≢ write_failed
      → (cgroup_and_boot cfg (with_dir w spec.id cids) spec c h).0 ≡ err e
      → Restored w (cgroup_and_boot cfg (with_dir w spec.id cids) spec c h).1
  unfolding cgroup_and_boot
  cgroup_and_boot-Restored h e n q = cgroup h.cgroup refl
    where
      cgroup :
          (o : CgroupOutcome)
          → h.cgroup ≡ o
          → Restored w (cgroup_and_boot cfg (with_dir w spec.id cids) spec c h).1
      cgroup parent_failed p =
          rw (p, cgroup_and_boot)
            (record {
              same_inst = refl;
              same_records = refl;
              same_cids = back;
              same_dirs = λ j. put_twice w.state_dirs spec.id j true a.no_dir;
              same_leaves = λ j. refl;
              same_chroots = λ j. refl;
              same_vms = λ j. refl;
              same_paused = λ j. refl;
            })
      cgroup write_failed p = absurd (n p)
      cgroup prepared p =
          rw (p, cgroup_and_boot)
            (boot_vm-Restored cfg w _ spec c h.boot h.now e a with_leaf-Booting
              (rw (p, cgroup_and_boot) at q))

  unbuilt-Restored : Restored w (free_cid (record w { cids = cids }) c)
  unbuilt-Restored = record {
    same_inst = refl;
    same_records = refl;
    same_cids = back;
    same_dirs = λ j. refl;
    same_leaves = λ j. refl;
    same_chroots = λ j. refl;
    same_vms = λ j. refl;
    same_paused = λ j. refl;
  }

  launch_boot-Restored :
      (h : HostAnswers) (e : LaunchError)
      → Cooperative h
      → (launch_boot cfg (record w { cids = cids }) spec c h).0 ≡ err e
      → Restored w (launch_boot cfg (record w { cids = cids }) spec c h).1
  unfolding launch_boot
  launch_boot-Restored h e n q = build h.build refl
    where
      build :
          (o : BuildOutcome)
          → h.build ≡ o
          → Restored w (launch_boot cfg (record w { cids = cids }) spec c h).1
      build mkdir_failed p = rw (p, launch_boot) unbuilt-Restored
      build rootfs_failed p = absurd (n.rootfs p)
      build built p =
          rw (p, launch_boot)
            (cgroup_and_boot-Restored h e n.leaf_written (rw (p, launch_boot) at q))

  restore_boot-Restored :
      (h : HostAnswers) (e : LaunchError)
      → h.cgroup ≢ write_failed
      → (restore_boot cfg (record w { cids = cids }) spec c h).0 ≡ err e
      → Restored w (restore_boot cfg (record w { cids = cids }) spec c h).1
  unfolding restore_boot
  restore_boot-Restored h e n q = build h.build refl
    where
      build :
          (o : BuildOutcome)
          → h.build ≡ o
          → Restored w (restore_boot cfg (record w { cids = cids }) spec c h).1
      build mkdir_failed p = rw (p, restore_boot) unbuilt-Restored
      build rootfs_failed p =
          rw (p, restore_boot)
            (record {
              same_inst = refl;
              same_records = refl;
              same_cids = back;
              same_dirs = λ j. put_back w.state_dirs spec.id j a.no_dir;
              same_leaves = λ j. refl;
              same_chroots = λ j. refl;
              same_vms = λ j. refl;
              same_paused = λ j. refl;
            })
      build built p =
          rw (p, restore_boot) (cgroup_and_boot-Restored h e n (rw (p, restore_boot) at q))

-- The boots of `Launch` and `LoadSnapshot`: what a failed one leaves is what was there before.
Restores :
    (Config → World → LaunchSpec → ℕ → HostAnswers → Result LaunchError Instance × World)
    → Config
    → World
    → LaunchSpec
    → HostAnswers
    → Type 0
Restores boot cfg w spec h =
    (c : ℕ) (cids : CidAllocator) (e : LaunchError)
    → ((d : ℕ) → (free cids c).used d ≡ w.cids.used d)
    → (boot cfg (record w { cids = cids }) spec c h).0 ≡ err e
    → Restored w (boot cfg (record w { cids = cids }) spec c h).1

moved-Restored :
    (w : World) (cids : CidAllocator)
    → cids.used ≡ w.cids.used
    → Restored w (record w { cids = cids })
moved-Restored w cids e = record {
  same_inst = refl;
  same_records = refl;
  same_cids = λ d. ap (λ (f : ℕ → Bool). f d) e;
  same_dirs = λ j. refl;
  same_leaves = λ j. refl;
  same_chroots = λ j. refl;
  same_vms = λ j. refl;
  same_paused = λ j. refl;
}

launch_with-Restored :
    (boot : Config → World → LaunchSpec → ℕ → HostAnswers → Result LaunchError Instance × World)
    (cfg : Config) (w : World) (spec : LaunchSpec) (h : HostAnswers) (e : LaunchError)
    → IsValid w.cids
    → Restores boot cfg w spec h
    → (launch_with boot cfg w spec h).0 ≡ err e
    → Restored w (launch_with boot cfg w spec h).1
unfolding launch_with Restores
launch_with-Restored boot cfg w spec h e v restores q =
    elim (Option-cases (launch_check cfg w.inst spec)) [
      | inr (x, refused) ↦ rw (refused, launch_with) (moved-Restored w w.cids refl)
      | inl checked ↦ elim (Option-cases (alloc w.cids).0) [
        | inl full ↦
            rw (checked, launch_with, full) (moved-Restored w _ (alloc-none_used w.cids full))
        | inr (c, got) ↦
            elim (Result-cases (boot cfg (record w { cids = (alloc w.cids).1 }) spec c h).0) [
              | inl (i, up) ↦ absurd (cc (rw (checked, launch_with, got, up) at q))
              | inr (x, down) ↦
                  rw (checked, launch_with, got, down)
                    (restores c (alloc w.cids).1 x (λ d. free-alloc_used w.cids c d v got) down)
            ]
      ]
    ]

-- A `Launch` that fails, on any of its error paths, leaves the supervisor, its records and the host
-- as they were but for the next CID to be tried, if nothing of the sandbox was there and the failure
-- was none of the two that are not undone (the root file system, the cgroup's files).
pub launch-Restored :
    (cfg : Config) (w : World) (spec : LaunchSpec) (h : HostAnswers) (e : LaunchError)
    → IsValid w.cids
    → IsAbsent w (named spec h.fresh_id).id
    → Cooperative h
    → (launch cfg w spec h).0 ≡ err e
    → Restored w (launch cfg w spec h).1
unfolding launch Restores
launch-Restored cfg w spec h e v a n q =
    launch_with-Restored launch_boot cfg w (named spec h.fresh_id) h e v
      (λ c cids x back. launch_boot-Restored cfg w _ c cids a back h x n) q

-- A `LoadSnapshot` that fails leaves all of it as it was too; a disk that cannot be restored is among
-- the failures that it undoes.
pub restore_instance-Restored :
    (cfg : Config) (w : World) (spec : LaunchSpec) (h : HostAnswers) (e : LaunchError)
    → IsValid w.cids
    → IsAbsent w (named spec h.fresh_id).id
    → h.cgroup ≢ write_failed
    → (restore_instance cfg w spec h).0 ≡ err e
    → Restored w (restore_instance cfg w spec h).1
unfolding restore_instance Restores
restore_instance-Restored cfg w spec h e v a n q =
    launch_with-Restored restore_boot cfg w (named spec h.fresh_id) h e v
      (λ c cids x back. restore_boot-Restored cfg w _ c cids a back h x n) q

-- When the root file system of an admitted sandbox cannot be prepared, `Launch` fails and its state
-- directory stays on the host.
pub launch_leak :
    (cfg : Config) (w : World) (spec : LaunchSpec) (h : HostAnswers) (c : ℕ)
    → launch_check cfg w.inst (named spec h.fresh_id) ≡ none
    → (alloc w.cids).0 ≡ some c
    → h.build ≡ rootfs_failed
    → ((launch cfg w spec h).0 ≡ err build_failed)
      × ((launch cfg w spec h).1.state_dirs (named spec h.fresh_id).id ≡ true)
unfolding launch launch_with launch_boot
launch_leak cfg w spec h c checked got b =
    rw (checked, launch_with, got, b, launch_boot)
      (refl, ground (arith, text_eq_refl (named spec h.fresh_id).id))
