-- ===== src/Supervisor/Ownership/Steps.antt =====
-- The calls of the `Supervisor` that change it, and sequences of them.
use sandboxed_ai_agent_orche.Prelude.{
  ℕ, ◌≡◌, refl, ap, ◌∙◌, inl, inr, Bool, some, List, [], ◌∷◌, Bool-cases, Option-cases, Result, err,
  Result-cases,
}
use sandboxed_ai_agent_orche.Prelude.Text.{Text}
use sandboxed_ai_agent_orche.Prelude.Table.{lookup}
use sandboxed_ai_agent_orche.Cid.{alloc, free}
use sandboxed_ai_agent_orche.Cid.Alloc.{
  alloc-IsValid, free-IsValid, free-alloc_used, alloc-none_used,
}
use sandboxed_ai_agent_orche.Supervisor.{
  LaunchSpec, Instance, Config, World, LaunchError, BuildOutcome, mkdir_failed, rootfs_failed,
  built, CgroupOutcome, parent_failed, write_failed, prepared, BootOutcome, ctx_done,
  machine_refused, machine_not_started, no_pid, not_placed, no_entropy, booted, HostAnswers,
  boot_vm, cgroup_and_boot, launch_boot, restore_boot, launch_check, launch_with, launch,
  restore_instance, terminate, instances, reap_loop, reap_dead, gc_record, reconcile_loop,
  reconcile, CaptureOutcome, pause_failed, capture_failed, captured, create_paused_with_disk,
  stop_with_snapshot,
}
use sandboxed_ai_agent_orche.Supervisor.Launched.{
  Launched, launch-Launched, restore_instance-Launched,
}
use sandboxed_ai_agent_orche.Supervisor.Ownership.{Owned, Owned-same, Owned-insert, Owned-erase}

-- A failed boot gives the CID back, and tracks nothing.
Freed : World → ℕ → World → Type 0
Freed w c w' = (w'.inst ≡ w.inst) × (w'.cids ≡ free w.cids c)

boot_vm-Freed :
    (cfg : Config) (w : World) (spec : LaunchSpec) (c : ℕ) (o : BootOutcome) (now : ℕ)
    (e : LaunchError)
    → (boot_vm cfg w spec c o now).0 ≡ err e
    → Freed w c (boot_vm cfg w spec c o now).1
unfolding boot_vm Freed
boot_vm-Freed cfg w spec c (booted pid) now e q = absurd (cc)
boot_vm-Freed cfg w spec c ctx_done now e q = (refl, refl)
boot_vm-Freed cfg w spec c machine_refused now e q = (refl, refl)
boot_vm-Freed cfg w spec c machine_not_started now e q = (refl, refl)
boot_vm-Freed cfg w spec c no_pid now e q = (refl, refl)
boot_vm-Freed cfg w spec c not_placed now e q = (refl, refl)
boot_vm-Freed cfg w spec c no_entropy now e q = (refl, refl)

cgroup_and_boot-Freed :
    (cfg : Config) (w : World) (spec : LaunchSpec) (c : ℕ) (h : HostAnswers) (e : LaunchError)
    → (cgroup_and_boot cfg w spec c h).0 ≡ err e
    → Freed w c (cgroup_and_boot cfg w spec c h).1
unfolding cgroup_and_boot Freed
cgroup_and_boot-Freed cfg w spec c h e q = cgroup h.cgroup refl
  where
    cgroup : (o : CgroupOutcome) → h.cgroup ≡ o → Freed w c (cgroup_and_boot cfg w spec c h).1
    cgroup parent_failed p = rw (p, cgroup_and_boot) (refl, refl)
    cgroup write_failed p = rw (p, cgroup_and_boot) (refl, refl)
    cgroup prepared p =
        rw (p, cgroup_and_boot)
          (boot_vm-Freed cfg _ spec c h.boot h.now e (rw (p, cgroup_and_boot) at q))

launch_boot-Freed :
    (cfg : Config) (w : World) (spec : LaunchSpec) (c : ℕ) (h : HostAnswers) (e : LaunchError)
    → (launch_boot cfg w spec c h).0 ≡ err e
    → Freed w c (launch_boot cfg w spec c h).1
unfolding launch_boot Freed
launch_boot-Freed cfg w spec c h e q = build h.build refl
  where
    build : (o : BuildOutcome) → h.build ≡ o → Freed w c (launch_boot cfg w spec c h).1
    build mkdir_failed p = rw (p, launch_boot) (refl, refl)
    build rootfs_failed p = rw (p, launch_boot) (refl, refl)
    build built p =
        rw (p, launch_boot) (cgroup_and_boot-Freed cfg _ spec c h e (rw (p, launch_boot) at q))

restore_boot-Freed :
    (cfg : Config) (w : World) (spec : LaunchSpec) (c : ℕ) (h : HostAnswers) (e : LaunchError)
    → (restore_boot cfg w spec c h).0 ≡ err e
    → Freed w c (restore_boot cfg w spec c h).1
unfolding restore_boot Freed
restore_boot-Freed cfg w spec c h e q = build h.build refl
  where
    build : (o : BuildOutcome) → h.build ≡ o → Freed w c (restore_boot cfg w spec c h).1
    build mkdir_failed p = rw (p, restore_boot) (refl, refl)
    build rootfs_failed p = rw (p, restore_boot) (refl, refl)
    build built p =
        rw (p, restore_boot) (cgroup_and_boot-Freed cfg _ spec c h e (rw (p, restore_boot) at q))

-- The invariant of a world.
abbrev pub OwnedWorld : World → Type 0
OwnedWorld w = Owned w.inst w.cids

Freed-Owned :
    (w w' : World) (c : ℕ)
    → (alloc w.cids).0 ≡ some c
    → Freed (record w { cids = (alloc w.cids).1 }) c w'
    → OwnedWorld w
    → OwnedWorld w'
unfolding Freed
Freed-Owned w w' c got (e, f) o =
    rw (e, f)
      (Owned-same w.inst w.cids _ (free-IsValid _ c (alloc-IsValid w.cids o.valid))
        (λ d. free-alloc_used w.cids c d o.valid got) o)

Frees :
    (Config → World → LaunchSpec → ℕ → HostAnswers → Result LaunchError Instance × World)
    → Config
    → LaunchSpec
    → HostAnswers
    → Type 0
Frees boot cfg spec h =
    (w : World) (c : ℕ) (e : LaunchError)
    → (boot cfg w spec c h).0 ≡ err e
    → Freed w c (boot cfg w spec c h).1

launch_with_err-Owned :
    (boot : Config → World → LaunchSpec → ℕ → HostAnswers → Result LaunchError Instance × World)
    (cfg : Config) (w : World) (spec : LaunchSpec) (h : HostAnswers) (e : LaunchError)
    → Frees boot cfg spec h
    → (launch_with boot cfg w spec h).0 ≡ err e
    → OwnedWorld w
    → OwnedWorld (launch_with boot cfg w spec h).1
unfolding launch_with Frees
launch_with_err-Owned boot cfg w spec h e frees q o =
    elim (Option-cases (launch_check cfg w.inst spec)) [
      | inr (x, refused) ↦ rw (refused, launch_with) o
      | inl checked ↦ elim (Option-cases (alloc w.cids).0) [
        | inl full ↦
            rw (checked, launch_with, full)
              (Owned-same w.inst w.cids _ (alloc-IsValid w.cids o.valid)
                (λ c. ap (λ (f : ℕ → Bool). f c) (alloc-none_used w.cids full)) o)
        | inr (c, got) ↦
            elim (Result-cases (boot cfg (record w { cids = (alloc w.cids).1 }) spec c h).0) [
              | inl (i, up) ↦ absurd (cc (rw (checked, launch_with, got, up) at q))
              | inr (x, down) ↦
                  rw (checked, launch_with, got, down) (Freed-Owned w _ c got (frees _ c x down) o)
            ]
      ]
    ]

Launched-Owned :
    (cfg : Config) (w w' : World) (spec : LaunchSpec) (i : Instance)
    → Launched cfg w spec i w'
    → OwnedWorld w
    → OwnedWorld w'
Launched-Owned cfg w w' spec i l o =
    rw (l.tracked, l.cids_moved)
      (Owned-insert w.inst w.cids i (ap (λ (k : Text). lookup k w.inst) l.id_kept ∙ l.was_new)
        l.granted o)

launch-Owned :
    (cfg : Config) (w : World) (spec : LaunchSpec) (h : HostAnswers)
    → OwnedWorld w
    → OwnedWorld (launch cfg w spec h).1
unfolding launch Frees
launch-Owned cfg w spec h o = elim (Result-cases (launch cfg w spec h).0) [
  | inl (i, q) ↦ Launched-Owned cfg w _ _ i (launch-Launched cfg w spec h i q) o
  | inr (e, q) ↦
      launch_with_err-Owned launch_boot cfg w _ h e (λ v c x. launch_boot-Freed cfg v _ c h x) q o
]

restore_instance-Owned :
    (cfg : Config) (w : World) (spec : LaunchSpec) (h : HostAnswers)
    → OwnedWorld w
    → OwnedWorld (restore_instance cfg w spec h).1
unfolding restore_instance Frees
restore_instance-Owned cfg w spec h o = elim (Result-cases (restore_instance cfg w spec h).0) [
  | inl (i, q) ↦ Launched-Owned cfg w _ _ i (restore_instance-Launched cfg w spec h i q) o
  | inr (e, q) ↦
      launch_with_err-Owned restore_boot cfg w _ h e (λ v c x. restore_boot-Freed cfg v _ c h x) q o
]

terminate-Owned :
    (cfg : Config) (w : World) (id : Text) → OwnedWorld w → OwnedWorld (terminate cfg w id).1
unfolding terminate
terminate-Owned cfg w id o = elim (Option-cases (lookup id w.inst)) [
  | inl e ↦ rw (e, terminate) o
  | inr (i, e) ↦ rw (e, terminate) (Owned-erase w.inst w.cids id i e o)
]

pub reap_loop-Owned :
    (cfg : Config) (alive : ℕ → Bool) (is : List Instance) (w : World)
    → OwnedWorld w
    → OwnedWorld (reap_loop cfg alive is w).1
unfolding reap_loop
reap_loop-Owned cfg alive [] w o = o
reap_loop-Owned cfg alive (i ∷ is) w o = elim (Bool-cases (alive i.pid)) [
  | inl e ↦ rw e (reap_loop-Owned cfg alive is w o)
  | inr e ↦ rw e (reap_loop-Owned cfg alive is _ (terminate-Owned cfg w i.id o))
]

reconcile_loop-Owned :
    (cfg : Config) (is : List Instance) (w : World)
    → OwnedWorld w
    → OwnedWorld (reconcile_loop cfg is w)
unfolding reconcile_loop gc_record
reconcile_loop-Owned cfg [] w o = o
reconcile_loop-Owned cfg (i ∷ is) w o = elim (Option-cases (lookup i.id w.inst)) [
  | inl e ↦ rw (e, reconcile_loop) (reconcile_loop-Owned cfg is _ o)
  | inr (j, e) ↦ rw (e, reconcile_loop) (reconcile_loop-Owned cfg is w o)
]

stop_with_snapshot-Owned :
    (cfg : Config) (w : World) (id : Text) (o : CaptureOutcome)
    → OwnedWorld w
    → OwnedWorld (stop_with_snapshot cfg w id o).1
unfolding stop_with_snapshot create_paused_with_disk
stop_with_snapshot-Owned cfg w id o own = elim (Option-cases (lookup id w.inst)) [
  | inl e ↦ rw (e, stop_with_snapshot) own
  | inr (i, e) ↦ found i e o
]
  where
    found :
        (i : Instance)
        → lookup id w.inst ≡ some i
        → (x : CaptureOutcome) → OwnedWorld (stop_with_snapshot cfg w id x).1
    found i e pause_failed = rw (e, stop_with_snapshot) own
    found i e capture_failed = rw (e, stop_with_snapshot) own
    found i e captured = rw (e, stop_with_snapshot) (terminate-Owned cfg _ id own)

-- One complete call, with what the host answers to it.
pub data Call : Type 0 where
  launching loading : LaunchSpec → HostAnswers → Call
  terminating : Text → Call
  reaping : (ℕ → Bool) → Call
  reconciling : Call
  stopping : Text → CaptureOutcome → Call

unfoldable pub after : Config → Call → World → World
after cfg (launching spec h) w = (launch cfg w spec h).1
after cfg (loading spec h) w = (restore_instance cfg w spec h).1
after cfg (terminating id) w = (terminate cfg w id).1
after cfg (reaping alive) w = (reap_dead cfg alive w).1
after cfg reconciling w = reconcile cfg w
after cfg (stopping id o) w = (stop_with_snapshot cfg w id o).1

unfoldable pub after_all : Config → List Call → World → World
unfolding after
after_all cfg [] w = w
after_all cfg (call ∷ calls) w = after_all cfg calls (after cfg call w)

after-Owned :
    (cfg : Config) (call : Call) (w : World) → OwnedWorld w → OwnedWorld (after cfg call w)
unfolding after reap_dead reconcile
after-Owned cfg (launching spec h) w o = launch-Owned cfg w spec h o
after-Owned cfg (loading spec h) w o = restore_instance-Owned cfg w spec h o
after-Owned cfg (terminating id) w o = terminate-Owned cfg w id o
after-Owned cfg (reaping alive) w o = reap_loop-Owned cfg alive (instances w.inst) w o
after-Owned cfg reconciling w o = elim (Bool-cases cfg.has_recorder) [
  | inl e ↦ rw (e, reconcile_loop) (reconcile_loop-Owned cfg (instances w.records) w o)
  | inr e ↦ rw e o
]
after-Owned cfg (stopping id x) w o = stop_with_snapshot-Owned cfg w id x o

-- After any sequence of launches, restores, terminations, reaps, reconciliations and stops, failed
-- ones included, each tracked sandbox holds its own CID, no two hold the same one, and no other CID
-- is in use: none is lost, whatever the host answers.
pub after_all-Owned :
    (cfg : Config) (calls : List Call) (w : World)
    → OwnedWorld w
    → OwnedWorld (after_all cfg calls w)
unfolding after_all
after_all-Owned cfg [] w o = o
after_all-Owned cfg (call ∷ calls) w o = after_all-Owned cfg calls _ (after-Owned cfg call w o)
