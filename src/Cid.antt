-- ===== src/Cid.antt =====
-- The vsock context ids of internal/orchestrator/orchestrator.go, `cidAllocator`. The mutex makes each
-- method one step; uint32 arithmetic wraps around.
pub mod Alloc
use sandboxed_ai_agent_orche.Prelude.{
  ℕ, zero, suc, ◌+◌, ◌-◌, ◌%◌, ◌^◌, Bool, true, false, Option, none, some, ◌==◌, if◌then◌else◌,
}

abbrev pub u32 : ℕ → ℕ
u32 n = n % 2 ^ 32

-- The map `used` holds `true` at the ids that are out, and reads `false` elsewhere.
pub record CidAllocator : Type 0 where
  pub min : ℕ
  pub max : ℕ
  pub next : ℕ
  pub used : ℕ → Bool

abbrev pub update : (ℕ → Bool) → ℕ → Bool → ℕ → Bool
update used c b d = if d == c then b else used d

unfoldable pub new_cid_allocator : ℕ → ℕ → CidAllocator
new_cid_allocator min max = record { min = min; max = max; next = min; used = λ _. false }

-- `a.next` after one round of the loop.
unfoldable pub advance : CidAllocator → CidAllocator
advance a = record a { next = if a.next == a.max then a.min else u32 (a.next + 1) }

-- The rounds that are left. `none` is the error "CID pool exhausted".
unfoldable pub alloc_loop : ℕ → CidAllocator → Option ℕ × CidAllocator
unfolding advance
alloc_loop zero a = (none, a)
alloc_loop (suc n) a =
    let rest = alloc_loop n (advance a) in
    if a.used a.next
    then rest
    else (some a.next, record (advance a) { used = update a.used a.next true })

unfoldable pub alloc : CidAllocator → Option ℕ × CidAllocator
alloc a = alloc_loop (u32 (a.max + 2 ^ 32 - a.min + 1)) a

unfoldable pub free : CidAllocator → ℕ → CidAllocator
free a cid = record a { used = update a.used cid false }
