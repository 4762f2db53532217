-- ===== src/Supervisor/Interleaving.antt =====
-- Concurrent `Launch` and `Terminate` of internal/orchestrator/orchestrator.go: each call is split
-- where it takes and leaves a mutex, and the pieces of all calls interleave in any order. A thread in
-- between two pieces stands in `flights`.
pub mod Cids
pub mod Limit
use sandboxed_ai_agent_orche.Prelude.{
  ℕ, ◌+◌, ◌<◌, ◌≡◌, Bool, true, false, Option, none, some, List, [], ◌∷◌, ◌++◌, if◌then◌else◌, ◌==◌,
}
use sandboxed_ai_agent_orche.Prelude.Text.{Text}
use sandboxed_ai_agent_orche.Prelude.Table.{Table, lookup, insert, erase}
use sandboxed_ai_agent_orche.Cid.{CidAllocator, alloc, free}
use sandboxed_ai_agent_orche.Supervisor.{LaunchSpec, Instance, Config, launch_check}

-- A launch that has passed the first critical section, a launch that has its CID, and a termination
-- that has taken its sandbox off the map and still holds the CID.
pub data Flight : Type 0 where
  checked : LaunchSpec → Flight
  holding : LaunchSpec → ℕ → Flight
  leaving : ℕ → Flight

pub record Shared : Type 0 where
  pub inst : Table Instance
  pub cids : CidAllocator
  pub flights : List Flight

abbrev pub new_instance : LaunchSpec → ℕ → ℕ → ℕ → Instance
new_instance spec c pid now = record {
  id = spec.id;
  cid = c;
  pid = pid;
  spec = spec;
  created_at = now;
}

-- The launches under way.
abbrev pub launching : List Flight → ℕ
launching [] = 0
launching (leaving c ∷ fs) = launching fs
launching (f ∷ fs) = 1 + launching fs

-- One piece of a call, with at most `k` launches under way at once.
pub data Step (cfg : Config) (k : ℕ) (s : Shared) : Shared → Type 0 where
  -- `Launch`, the duplicate check and the admission
  begin :
      (spec : LaunchSpec)
      → launching s.flights < k
      → launch_check cfg s.inst spec ≡ none
      → Step cfg k s (record s { flights = checked spec ∷ s.flights })
  -- `Launch`, the allocation
  grant :
      (pre post : List Flight) (spec : LaunchSpec) (c : ℕ)
      → s.flights ≡ pre ++ (checked spec ∷ post)
      → (alloc s.cids).0 ≡ some c
      → Step cfg k s
          (record s { cids = (alloc s.cids).1; flights = pre ++ (holding spec c ∷ post) })
  -- `Launch`, no CID left
  exhaust :
      (pre post : List Flight) (spec : LaunchSpec)
      → s.flights ≡ pre ++ (checked spec ∷ post)
      → (alloc s.cids).0 ≡ none
      → Step cfg k s (record s { cids = (alloc s.cids).1; flights = pre ++ post })
  -- `Launch`, a failure that frees the CID
  fail :
      (pre post : List Flight) (spec : LaunchSpec) (c : ℕ)
      → s.flights ≡ pre ++ (holding spec c ∷ post)
      → Step cfg k s (record s { cids = free s.cids c; flights = pre ++ post })
  -- `Launch`, the second critical section
  commit :
      (pre post : List Flight) (spec : LaunchSpec) (c pid now : ℕ)
      → s.flights ≡ pre ++ (holding spec c ∷ post)
      → Step cfg k s (record s {
        inst = insert spec.id (new_instance spec c pid now) s.inst;
        flights = pre ++ post;
      })
  -- `Terminate`, its critical section
  detach :
      (id : Text) (i : Instance)
      → lookup id s.inst ≡ some i
      → Step cfg k s (record s { inst = erase id s.inst; flights = leaving i.cid ∷ s.flights })
  -- `Terminate`, the CID
  give_back :
      (pre post : List Flight) (c : ℕ)
      → s.flights ≡ pre ++ (leaving c ∷ post)
      → Step cfg k s (record s { cids = free s.cids c; flights = pre ++ post })

pub data Reach (cfg : Config) (k : ℕ) (s : Shared) : Shared → Type 0 where
  start : Reach cfg k s s
  later : {t u : Shared} → Reach cfg k s t → Step cfg k t u → Reach cfg k s u
