-- ===== src/Examples/Host.antt =====
-- The supervisor, the CID allocator, the pool and the rate limiter at concrete inputs.
use sandboxed_ai_agent_orche.Prelude.{
  ℕ, ◌+◌, ◌-◌, ◌*◌, ◌^◌, ◌≤◌, ◌<◌, ◌≡◌, refl, true, false, none, some, List, [], ◌∷◌, arith, ok,
  err,
}
use sandboxed_ai_agent_orche.Prelude.Text.{Text, codes, text_eq}
use sandboxed_ai_agent_orche.Prelude.Table.{lookup, insert}
use sandboxed_ai_agent_orche.Prelude.Int.{pos, ◌+ℤ◌, wrap64}
use sandboxed_ai_agent_orche.Cid.{CidAllocator, new_cid_allocator, advance, alloc_loop, alloc}
use sandboxed_ai_agent_orche.Cid.Alloc.{IsValid, new-IsValid}
use sandboxed_ai_agent_orche.Supervisor.{
  LaunchSpec, Instance, Config, World, disk_failed, apply_spec_defaults, used_mem, admit,
  launch_check, rootfs_failed, built, prepared, machine_not_started, booted, HostAnswers, boot_vm,
  cgroup_and_boot, launch_boot, restore_boot, launch_commit, named, launch_with, launch,
  restore_instance, get,
}
use sandboxed_ai_agent_orche.Supervisor.Launched.{Launched, launch-Launched}
use sandboxed_ai_agent_orche.Supervisor.Admission.{size, total, Sized, Within, launch-Within}
use sandboxed_ai_agent_orche.Supervisor.Ownership.Steps.{
  OwnedWorld, Call, launching, loading, terminating, reconciling, after_all, after_all-Owned,
}
use sandboxed_ai_agent_orche.Health.{shut_down}
use sandboxed_ai_agent_orche.Health.Round.{Tracked}
use sandboxed_ai_agent_orche.Health.Shutdown.{shut_down-Clear}
use sandboxed_ai_agent_orche.Pool.{
  PoolConfig, new_pool, acquiring, releasing, signalled, refilling, pool_run,
}
use sandboxed_ai_agent_orche.Pool.Depth.{Bounded, new_pool_lem, pool_run-Bounded}
use sandboxed_ai_agent_orche.RateLimit.{Limit, Bucket, serve}
use sandboxed_ai_agent_orche.RateLimit.Window.{serve_window}

abbrev pub cids : CidAllocator
unfolding new_cid_allocator
cids = new_cid_allocator 3 5

cids-IsValid : IsValid cids
unfolding cids
cids-IsValid = new-IsValid 3 5 (omega arith) (omega arith) (omega arith)

abbrev pub spec : LaunchSpec
spec = record {
  id = codes "a";
  vcpus = pos 0;
  mem_mib = pos 512;
  cpu_percent = pos 50;
  pids_max = pos 0;
}

abbrev pub cfg : Config
cfg = record {
  use_jailer = true;
  max_concurrent = pos 2;
  memory_budget_mib = pos 1024;
  has_recorder = true;
}

abbrev pub host : HostAnswers
host = record {
  fresh_id = codes "sb-1";
  build = built;
  cgroup = prepared;
  boot = booted 77;
  save_ok = true;
  now = 9;
}

abbrev failing : HostAnswers
failing = record {
  fresh_id = codes "sb-1";
  build = built;
  cgroup = prepared;
  boot = machine_not_started;
  save_ok = true;
  now = 9;
}

abbrev no_rootfs : HostAnswers
no_rootfs = record {
  fresh_id = codes "sb-1";
  build = rootfs_failed;
  cgroup = prepared;
  boot = booted 77;
  save_ok = true;
  now = 9;
}

abbrev pub empty : World
unfolding cids
empty = record {
  inst = [];
  cids = cids;
  state_dirs = λ j. false;
  leaves = λ j. false;
  chroots = λ j. false;
  vms = λ j. false;
  paused = λ j. false;
  records = [];
}

abbrev pub running : Instance
unfolding apply_spec_defaults
running = record {
  id = codes "a";
  cid = 3;
  pid = 77;
  spec = apply_spec_defaults spec;
  created_at = 9;
}

first_cid : (alloc cids).0 ≡ some 3
unfolding alloc alloc_loop advance cids new_cid_allocator
first_cid = refl

empty-OwnedWorld : OwnedWorld empty
unfolding empty lookup cids new_cid_allocator
empty-OwnedWorld = record {
  valid = cids-IsValid;
  keyed = λ id i e. cc e;
  taken = λ id i e. cc e;
  apart = λ id j i k e f q. cc e;
  held = λ c e. cc e;
}

launch_up : (launch cfg empty spec host).0 ≡ ok running
unfolding launch launch_with launch_boot cgroup_and_boot boot_vm launch_check admit lookup used_mem
    named apply_spec_defaults alloc alloc_loop advance cids new_cid_allocator empty running ◌+ℤ◌
    wrap64
launch_up = refl

load_down : (restore_instance cfg empty spec no_rootfs).0 ≡ err disk_failed
unfolding restore_instance launch_with restore_boot cgroup_and_boot boot_vm launch_check admit
    lookup used_mem named apply_spec_defaults alloc alloc_loop advance cids new_cid_allocator empty
    running ◌+ℤ◌ wrap64
load_down = refl

checked : launch_check cfg empty.inst (named spec no_rootfs.fresh_id) ≡ none
unfolding launch_check admit lookup used_mem named apply_spec_defaults empty ◌+ℤ◌ wrap64
checked = refl

first_empty_cid : (alloc empty.cids).0 ≡ some 3
unfolding empty
first_empty_cid = first_cid

launch-Launched_example :
    Launched cfg empty (named spec host.fresh_id) running (launch cfg empty spec host).1
launch-Launched_example = launch-Launched cfg empty spec host running launch_up

empty-Within : Within cfg empty.inst
unfolding empty total Sized
empty-Within = record { sized = tt; few = λ e. omega arith; small = λ e. omega arith }

launch_small : total empty.inst + size (named spec host.fresh_id).mem_mib < 2 ^ 63
unfolding empty total named apply_spec_defaults
launch_small = omega arith

launch-Within_example : Within cfg (launch cfg empty spec host).1.inst
launch-Within_example =
    launch-Within cfg empty spec host running empty-Within launch_small launch_up

abbrev pub full : World
full = (launch cfg empty spec host).1

pub full_get : get full (codes "a") ≡ some running
unfolding get launch_commit full insert text_eq launch launch_with launch_boot cgroup_and_boot
    boot_vm launch_check admit lookup used_mem named apply_spec_defaults alloc alloc_loop advance
    cids new_cid_allocator empty running ◌+ℤ◌ wrap64
full_get = refl

running_id : running.id ≡ codes "a"
unfolding running
running_id = refl

full-Tracked : Tracked full.inst
unfolding get launch_commit insert lookup text_eq launch launch_with launch_boot cgroup_and_boot
    boot_vm launch_check admit used_mem named apply_spec_defaults alloc alloc_loop advance cids
    new_cid_allocator empty running ◌+ℤ◌ wrap64
full-Tracked = ((refl, tt), (refl, tt))

full-OwnedWorld : OwnedWorld full
unfolding after_all
full-OwnedWorld = after_all-Owned cfg (launching spec host ∷ []) empty empty-OwnedWorld

shut_down-Clear_example :
    ((id : Text) → get (shut_down true cfg full) id ≡ none)
    × ((c : ℕ) → (shut_down true cfg full).cids.used c ≡ false)
shut_down-Clear_example = shut_down-Clear cfg full full-Tracked full-OwnedWorld

abbrev history : List Call
history =
    launching spec host
    ∷ launching spec failing
    ∷ loading spec host
    ∷ terminating (codes "a")
    ∷ reconciling
    ∷ []

after_all-Owned_example : OwnedWorld (after_all cfg history empty)
after_all-Owned_example = after_all-Owned cfg history empty empty-OwnedWorld

abbrev pool_config : PoolConfig
pool_config = record { spec = spec; depth = pos 1; refill_timeout = 10; max_wait_time = 30 }

pool_run-Bounded_example :
    Bounded
      (pool_run cfg
        (signalled ∷ refilling false host ∷ acquiring host ∷ releasing running ∷ [])
        (new_pool pool_config, empty)).0
pool_run-Bounded_example =
    pool_run-Bounded cfg
      (signalled ∷ refilling false host ∷ acquiring host ∷ releasing running ∷ [])
      (new_pool pool_config) empty (new_pool_lem pool_config).0

abbrev limit : Limit
limit = record { capacity = 60000; refill = 1 }

abbrev bucket : Bucket
bucket = record { tokens = 500; ts = 7 }

abbrev calls : List (ℕ × ℕ)
calls = (900, 1000) ∷ (900, 1000) ∷ []

serve_window_example :
    (serve limit bucket ((7, 1000) ∷ calls)).0
    ≤ limit.capacity + ((serve limit bucket ((7, 1000) ∷ calls)).1.ts - 7) * limit.refill
serve_window_example =
    serve_window limit bucket 7 1000 calls (omega arith) (omega arith, (omega arith, tt))
