-- ===== src/RateLimit/Window.antt =====
-- What the token bucket of internal/state/redis.go guarantees over time.
use native.Mathlib.Nat.{div-add-mod, mod-lt}
use sandboxed_ai_agent_orche.Prelude.{
  ℕ, ◌+◌, ◌-◌, ◌*◌, ◌/◌, ◌≤◌, ◌<◌, ◌≡◌, sym, subst, ap, inl, inr, some, List, [], ◌∷◌, arith,
  if◌then◌else◌, Bool-cases,
}
use sandboxed_ai_agent_orche.RateLimit.{Limit, Bucket, token_bucket, ttl, live, serve}

-- A key that has expired had been refilled to its capacity by then.
expired_full :
    (l : Limit) (now : ℕ) (b : Bucket)
    → 0 < l.refill
    → b.ts + ttl l * 1000 ≤ now
    → l.capacity ≤ (now - b.ts) * l.refill
unfolding ttl
expired_full l now b pos h =
    let m = l.refill * 1000 in
    let q = l.capacity / m in
    let spare = now - b.ts - (q + 2) * 1000 in
    let split : now - b.ts ≡ (q + 2) * 1000 + spare = omega arith in
    omega (
      arith,
      div-add-mod l.capacity m,
      mod-lt l.capacity {m = m} (omega arith),
      ap (λ (t : ℕ). t * l.refill) split,
    )

-- A call never leaves more tokens than the capacity, and it takes from the bucket what it lets
-- through and no more than the bucket holds and has gained.
step_pays :
    (l : Limit) (now needed : ℕ) (b : Bucket)
    → b.tokens ≤ l.capacity
    → let (allowed, b') = token_bucket l now needed (some b) in
      (b'.tokens ≤ l.capacity)
      × (b'.ts ≡ now)
      × ((if allowed then needed else 0) + b'.tokens ≤ b.tokens + (now - b.ts) * l.refill)
unfolding token_bucket
step_pays l now needed b h = ground arith

-- That Redis forgets a bucket after its time to live changes no verdict and no later state: the
-- bucket would have been full again.
pub expiry_harmless :
    (l : Limit) (now needed : ℕ) (b : Bucket)
    → 0 < l.refill
    → token_bucket l now needed (live l now b) ≡ token_bucket l now needed (some b)
unfolding token_bucket live
expiry_harmless l now needed b pos = ground (arith, expired_full l now b pos)

-- Times that never go back, from `t` on.
abbrev pub Ascending : ℕ → List (ℕ × ℕ) → Type 0
Ascending t [] = Unit {0}
Ascending t ((now, needed) ∷ calls) = (t ≤ now) × Ascending now calls

serve_pays :
    (l : Limit) (b : Bucket) (calls : List (ℕ × ℕ))
    → 0 < l.refill
    → b.tokens ≤ l.capacity
    → Ascending b.ts calls
    → let (total, b') = serve l b calls in
      (b.ts ≤ b'.ts) × (total + b'.tokens ≤ b.tokens + (b'.ts - b.ts) * l.refill)
unfolding serve
serve_pays l b [] pos h up = (omega arith, omega arith)
serve_pays l b ((now, needed) ∷ calls) pos h (le, up) =
    let b' = (token_bucket l now needed (some b)).1 in
    let (cap, at, paid) = step_pays l now needed b h in
    let (grows, rest) =
      serve_pays l b' calls pos cap (subst (λ t. Ascending t calls) (sym at) up) in
    let end = (serve l b' calls).1.ts in
    let later : now ≤ end = rw at at grows in
    let split : end - b.ts ≡ (now - b.ts) + (end - now) = omega arith in
    let shared = ap (λ (t : ℕ). t * l.refill) split in
    let rest' = rw at at rest in
    rw (expiry_harmless l now needed b pos)
      (elim (Bool-cases (token_bucket l now needed (some b)).0) [
        | inl y ↦ rw y (omega arith, omega (arith, rw y at paid, rest', shared))
        | inr n ↦ rw n (omega arith, omega (arith, rw n at paid, rest', shared))
      ])

-- What the cap is for: however full the bucket was and however long it was idle, a call lets through
-- no more than the capacity, and what it leaves counts towards it.
step_capped :
    (l : Limit) (now needed : ℕ) (b : Bucket)
    → let (allowed, b') = token_bucket l now needed (some b) in
      ((if allowed then needed else 0) + b'.tokens ≤ l.capacity) × (b'.ts ≡ now)
unfolding token_bucket
step_capped l now needed b = ground arith

-- While the clock does not go back, the cost that is let through from one call on to the last is at most
-- the capacity and what is refilled between the two, whatever the bucket held and however long it had
-- not been used before, expired keys included.
pub serve_window :
    (l : Limit) (b : Bucket) (now needed : ℕ) (calls : List (ℕ × ℕ))
    → 0 < l.refill
    → Ascending now calls
    → let (total, last) = serve l b ((now, needed) ∷ calls) in
      total ≤ l.capacity + (last.ts - now) * l.refill
unfolding serve
serve_window l b now needed calls pos up =
    let b' = (token_bucket l now needed (some b)).1 in
    let (cap, at) = step_capped l now needed b in
    let (grows, rest) =
      serve_pays l b' calls pos (omega (arith, cap)) (subst (λ t. Ascending t calls) (sym at) up) in
    let rest' = rw at at rest in
    rw (expiry_harmless l now needed b pos)
      (elim (Bool-cases (token_bucket l now needed (some b)).0) [
        | inl y ↦ rw y (omega (arith, rw y at cap, rest'))
        | inr n ↦ rw n (omega (arith, rw n at cap, rest'))
      ])
