-- ===== src/Examples/Threads.antt =====
-- Interleaved launches, the host's files and the records of the store at concrete inputs.
use sandboxed_ai_agent_orche.Prelude.{
  ◌+◌, ◌≤◌, ◌<◌, ◌≡◌, ◌↔◌, refl, Bool, true, false, none, some, List, [], ◌∷◌, arith, ok, length,
  Holds,
}
use sandboxed_ai_agent_orche.Prelude.Text.{Text, codes, text_eq}
use sandboxed_ai_agent_orche.Prelude.Int.{pos}
use sandboxed_ai_agent_orche.Prelude.Table.{lookup}
use sandboxed_ai_agent_orche.Protocol.{Codec}
use sandboxed_ai_agent_orche.Cid.{new_cid_allocator, advance, alloc_loop, alloc}
use sandboxed_ai_agent_orche.Supervisor.{LaunchSpec, Config, admit, launch_check}
use sandboxed_ai_agent_orche.Supervisor.Interleaving.{
  Shared, begin, grant, Reach, start, later, holding,
}
use sandboxed_ai_agent_orche.Supervisor.Interleaving.Cids.{holders, Exclusive, Reach-Exclusive}
use sandboxed_ai_agent_orche.Supervisor.Interleaving.Limit.{occupancy, Reach-occupancy, overcommit}
use sandboxed_ai_agent_orche.Host.{Location, HostConfig, new_supervisor, with_defaults}
use sandboxed_ai_agent_orche.Host.Paths.{IsPlain}
use sandboxed_ai_agent_orche.Host.Start.{new-Exclusive, started-Exclusive}
use sandboxed_ai_agent_orche.Records.{
  Record, running, record_key, save, collect, all, remove, heartbeat, beat_key,
}
use sandboxed_ai_agent_orche.Records.Refinement.{Represents}
use sandboxed_ai_agent_orche.Records.Calls.{
  save_record, remove_record, beat, Call, replay_calls, calls, AllFine, all-calls,
}
use sandboxed_ai_agent_orche.Examples.Memory.{Memory, redis}

-- At most one sandbox.
abbrev cfg : Config
cfg = record {
  use_jailer = true;
  max_concurrent = pos 1;
  memory_budget_mib = pos 0;
  has_recorder = false;
}

abbrev spec_of : Text → LaunchSpec
spec_of id = record {
  id = id;
  vcpus = pos 1;
  mem_mib = pos 256;
  cpu_percent = pos 100;
  pids_max = pos 128;
}

abbrev fresh : Shared
unfolding new_cid_allocator
fresh = record { inst = []; cids = new_cid_allocator 3 5; flights = [] }

passes : launch_check cfg [] (spec_of (codes "a")) ≡ none
unfolding launch_check admit lookup
passes = refl

passes_too : launch_check cfg [] (spec_of (codes "b")) ≡ none
unfolding launch_check admit lookup
passes_too = refl

first_cid : (alloc fresh.cids).0 ≡ some 3
unfolding alloc alloc_loop advance fresh
first_cid = refl

second_cid : (alloc (alloc fresh.cids).1).0 ≡ some 4
unfolding alloc alloc_loop advance fresh
second_cid = refl

overcommit_example : (t : Shared) × Reach cfg 2 fresh t × (length t.inst ≡ 0 + 2)
unfolding fresh
overcommit_example =
    overcommit cfg (spec_of (codes "a")) (spec_of (codes "b")) fresh 3 4 refl passes passes_too
      (λ e. absurd (ground (arith, e))) first_cid second_cid

abbrev under_way : Shared
under_way = record fresh {
  cids = (alloc fresh.cids).1;
  flights = holding (spec_of (codes "a")) 3 ∷ [];
}

two_steps : Reach cfg 1 fresh under_way
unfolding fresh
two_steps =
    later (later start (begin (spec_of (codes "a")) (omega arith) passes))
      (grant [] [] (spec_of (codes "a")) 3 refl first_cid)

Reach-Exclusive_example : Exclusive under_way
unfolding fresh
Reach-Exclusive_example =
    Reach-Exclusive cfg 1 fresh under_way two_steps
      (new-Exclusive 3 5 (omega arith) (omega arith) (omega arith))

Reach-occupancy_example : occupancy under_way < 1 + 1
unfolding fresh
Reach-occupancy_example =
    Reach-occupancy cfg 1 1 refl (omega arith) fresh under_way two_steps (omega arith)

abbrev pub host_config : HostConfig
host_config = record {
  firecracker_bin = [];
  jailer_bin = [];
  kernel_image_path = codes "/k";
  rootfs_path = codes "/r";
  use_jailer = true;
  chroot_base_dir = [];
  jailer_uid = pos 0;
  jailer_gid = pos 0;
  state_dir = [];
  cgroup_root = [];
  cgroup_base = [];
  kernel_args = [];
  cid_min = 3;
  cid_max = 5;
}

abbrev pub there : Location → Bool
there at = true

accepted : new_supervisor there host_config ≡ ok (with_defaults host_config, new_cid_allocator 3 5)
unfolding new_supervisor with_defaults
accepted = refl

started-Exclusive_example : holders 3 under_way ≤ 1
unfolding fresh
started-Exclusive_example =
    started-Exclusive there host_config (with_defaults host_config) (new_cid_allocator 3 5) cfg 1
      under_way 3 accepted (omega arith) (omega arith) two_steps

pub a-IsPlain : IsPlain (codes "a")
unfolding text_eq
a-IsPlain = record { some_byte = refl; no_slash = (refl, tt); not_dot = refl; not_dots = refl }

-- A record by its id alone.
record_of : Text → Record
record_of id = record {
  id = id;
  cid = 3;
  pid = pos 77;
  vsock_uds_path = [];
  socket_path = [];
  chroot_dir = [];
  cgroup_path = [];
  status = running;
  created_at = 9;
  spec = record { vcpus = pos 1; mem_mib = pos 256; cpu_percent = pos 100; pids_max = pos 128 };
}

abbrev json : Codec Record
unfolding record_of
json = record {
  marshal = λ rec. some rec.id;
  unmarshal = λ id. some (record_of id);
  IsPlain = λ rec. record_of rec.id ≡ rec;
  unmarshal-marshal = λ rec plain. (rec.id, refl, rw plain refl);
}

abbrev blank : Memory
blank = (λ k. none, λ s. [])

blank-Represents : Represents redis json blank (λ id. none)
blank-Represents = record {
  active = λ id. refl;
  shown = λ id. refl;
  keyed = λ id rec e. absurd (cc e);
}

abbrev written : List Call
written =
    save_record (record_of (codes "a"))
    ∷ beat (codes "a") (codes "1700") 15
    ∷ save_record (record_of (codes "b"))
    ∷ remove_record (codes "a")
    ∷ []

written_fine : AllFine redis json written blank
unfolding save remove heartbeat json record_of
written_fine = (refl, (refl, (refl, (refl, tt))))

all_listed : (all redis json (calls redis json written blank)).0 ≡ ok (record_of (codes "b") ∷ [])
unfolding all collect save remove heartbeat text_eq record_key beat_key json record_of
all_listed = refl

all-calls_example :
    ((rec : Record)
      → Holds rec (record_of (codes "b") ∷ [])
        ↔ (replay_calls written (λ id. none) rec.id ≡ some rec))
    × ((all redis json (calls redis json written blank)).1 ≡ calls redis json written blank)
unfolding json record_of
all-calls_example =
    all-calls redis json written blank (λ id. none) (record_of (codes "b") ∷ [])
      (refl, (tt, (refl, (tt, tt)))) written_fine blank-Represents all_listed
