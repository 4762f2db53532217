-- ===== src/Cid/Alloc.antt =====
-- What `alloc` and `free` of internal/orchestrator/orchestrator.go promise.
use sandboxed_ai_agent_orche.Prelude.{
  ℕ, zero, suc, ◌+◌, ◌-◌, ◌^◌, ◌≤◌, ◌<◌, ◌≡◌, refl, ◌≢◌, ◌↔◌, ◌⊎◌, inl, inr, true, false, none,
  some, arith, leb, if◌then◌else◌, Bool-cases,
}
use sandboxed_ai_agent_orche.Cid.{
  CidAllocator, update, new_cid_allocator, advance, alloc_loop, alloc, free,
}

-- The range is not empty, is not the whole of uint32, and holds the next candidate.
pub record IsValid (a : CidAllocator) : Type 0 where
  pub above : a.min ≤ a.next
  pub below : a.next ≤ a.max
  pub narrow : a.max < a.min + 2 ^ 32 - 1
  pub fits : a.max < 2 ^ 32

pub new-IsValid :
    (min max : ℕ)
    → min ≤ max
    → max < min + 2 ^ 32 - 1
    → max < 2 ^ 32
    → IsValid (new_cid_allocator min max)
unfolding new_cid_allocator
new-IsValid min max h n f = omega arith

advance-IsValid : (a : CidAllocator) → IsValid a → IsValid (advance a)
unfolding advance
advance-IsValid a v = ground arith

alloc_loop-IsValid : (n : ℕ) (a : CidAllocator) → IsValid a → IsValid (alloc_loop n a).1
unfolding alloc_loop
alloc_loop-IsValid zero a v = v
alloc_loop-IsValid (suc n) a v =
    ground (arith, advance-IsValid a v, alloc_loop-IsValid n (advance a) (advance-IsValid a v))

-- `alloc` keeps the allocator valid, whether it succeeds or not.
pub alloc-IsValid : (a : CidAllocator) → IsValid a → IsValid (alloc a).1
unfolding alloc
alloc-IsValid a v = alloc_loop-IsValid _ a v

pub free-IsValid : (a : CidAllocator) (c : ℕ) → IsValid a → IsValid (free a c)
unfolding free
free-IsValid a c v = ground arith

-- What a successful allocation of `c` has done.
pub record Granted (a : CidAllocator) (c : ℕ) (b : CidAllocator) : Type 0 where
  pub at_least : a.min ≤ c
  pub at_most : c ≤ a.max
  pub was_free : a.used c ≡ false
  pub taken : b.used c ≡ true
  pub others : (d : ℕ) → d ≢ c → b.used d ≡ a.used d

Granted-advance : (a b : CidAllocator) (c : ℕ) → Granted (advance a) c b → Granted a c b
unfolding advance
Granted-advance a b c g = record {
  at_least = g.at_least;
  at_most = g.at_most;
  was_free = g.was_free;
  taken = g.taken;
  others = g.others;
}

grant_next :
    (a : CidAllocator) (c : ℕ)
    → IsValid a
    → a.used a.next ≡ false
    → a.next ≡ c
    → Granted a c (record (advance a) { used = update a.used a.next true })
unfolding advance
grant_next a c v f e = record {
  at_least = omega arith;
  at_most = omega arith;
  was_free = rw e at f;
  taken = ground arith;
  others = λ d n. ground arith;
}

alloc_loop-Granted :
    (n : ℕ) (a : CidAllocator) (c : ℕ)
    → IsValid a
    → (alloc_loop n a).0 ≡ some c
    → Granted a c (alloc_loop n a).1
unfolding alloc_loop
alloc_loop-Granted zero a c v e = cc
alloc_loop-Granted (suc n) a c v e = elim (Bool-cases (a.used a.next)) [
  | inl used ↦ rw used (
      Granted-advance a _ c
        (alloc_loop-Granted n (advance a) c (advance-IsValid a v) (rw used at e)))
  | inr fresh ↦ rw fresh (grant_next a c v fresh (ground arith))
]

-- A successful `alloc` returns an id of the range that was not in use, marks it, and marks nothing
-- else.
pub alloc-Granted :
    (a : CidAllocator) (c : ℕ) → IsValid a → (alloc a).0 ≡ some c → Granted a c (alloc a).1
unfolding alloc
alloc-Granted a c v e = alloc_loop-Granted _ a c v e

-- How many rounds pass before the loop tries `c`.
abbrev distance : CidAllocator → ℕ → ℕ
distance a c = if leb a.next c then c - a.next else c + (a.max - a.min + 1) - a.next

distance-advance :
    (a : CidAllocator) (n c : ℕ)
    → IsValid a
    → a.min ≤ c
    → c ≤ a.max
    → distance a c < suc n
    → (a.next ≡ c) ⊎ (distance (advance a) c < n)
unfolding advance
distance-advance a n c v lo hi d = ground arith

alloc_loop-none :
    (n : ℕ) (a : CidAllocator) (c : ℕ)
    → IsValid a
    → (alloc_loop n a).0 ≡ none
    → a.min ≤ c
    → c ≤ a.max
    → distance a c < n
    → a.used c ≡ true
unfolding alloc_loop
alloc_loop-none zero a c v e lo hi d = absurd (omega arith)
alloc_loop-none (suc n) a c v e lo hi d = elim (Bool-cases (a.used a.next)) [
  | inl used ↦ elim (distance-advance a n c v lo hi d) [
    | inl here ↦ rw here at used
    | inr later ↦
        unfold advance in
        alloc_loop-none n (advance a) c (advance-IsValid a v) (rw used at e) lo hi later
  ]
  | inr fresh ↦ ground arith
]

alloc_loop_full :
    (n : ℕ) (a : CidAllocator)
    → IsValid a
    → ((c : ℕ) → a.min ≤ c → c ≤ a.max → a.used c ≡ true)
    → (alloc_loop n a).0 ≡ none
unfolding alloc_loop
alloc_loop_full zero a v full = refl
alloc_loop_full (suc n) a v full =
    rw (full a.next v.above v.below)
      (alloc_loop_full n (advance a) (advance-IsValid a v) (unfold advance in full))

-- `alloc` answers "CID pool exhausted" exactly when every id of the range is in use.
pub alloc-none_iff :
    (a : CidAllocator)
    → IsValid a
    → ((alloc a).0 ≡ none) ↔ ((c : ℕ) → a.min ≤ c → c ≤ a.max → a.used c ≡ true)
unfolding alloc
alloc-none_iff a v =
    (λ e c lo hi. alloc_loop-none _ a c v e lo hi (ground arith), alloc_loop_full _ a v)

-- An id of the range that is freed can be had again: the next `alloc` does not fail.
pub alloc-free :
    (a : CidAllocator) (c : ℕ) → IsValid a → a.min ≤ c → c ≤ a.max → (alloc (free a c)).0 ≢ none
unfolding free
alloc-free a c v lo hi e = cc (freed, (alloc-none_iff (free a c) (free-IsValid a c v)).0 e c lo hi)
  where
    freed : (free a c).used c ≡ false
    freed = ground arith

-- Giving back what was just allocated leaves the same ids in use.
pub free-alloc_used :
    (a : CidAllocator) (c d : ℕ)
    → IsValid a
    → (alloc a).0 ≡ some c
    → (free (alloc a).1 c).used d ≡ a.used d
unfolding free
free-alloc_used a c d v e = let g = alloc-Granted a c v e in ground (arith, g.was_free, g.others d)

alloc_loop-none_used :
    (n : ℕ) (a : CidAllocator) → (alloc_loop n a).0 ≡ none → (alloc_loop n a).1.used ≡ a.used
unfolding alloc_loop advance
alloc_loop-none_used zero a e = refl
alloc_loop-none_used (suc n) a e = elim (Bool-cases (a.used a.next)) [
  | inl used ↦ rw used (alloc_loop-none_used n (advance a) (rw used at e))
  | inr fresh ↦ absurd (ground arith)
]

pub alloc-none_used : (a : CidAllocator) → (alloc a).0 ≡ none → (alloc a).1.used ≡ a.used
unfolding alloc
alloc-none_used a e = alloc_loop-none_used _ a e
