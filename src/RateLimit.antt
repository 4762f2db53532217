-- ===== src/RateLimit.antt =====
-- The token bucket of internal/state/redis.go: the Lua script and `Allow`. The numbers of the script
-- are floats; the model counts in a unit of which a whole number is refilled each millisecond (a
-- thousandth of a token for 60 commands with 1.0 token/s, a ten-thousandth for 5 logins with 0.1
-- token/s), in which every value of these two limits is exact.
pub mod Window
use sandboxed_ai_agent_orche.Prelude.{
  ℕ, ◌+◌, ◌-◌, ◌*◌, ◌/◌, ◌≡◌, Bool, true, false, Option, none, some, List, [], ◌∷◌, leb, ltb,
  if◌then◌else◌,
}

-- Units per token bucket, units per millisecond.
pub record Limit : Type 0 where
  pub capacity : ℕ
  pub refill : ℕ

-- The hash under the bucket's key; no bucket is `none`.
pub record Bucket : Type 0 where
  pub tokens : ℕ
  pub ts : ℕ

-- `tokens` and `ts` as the script reads them.
unfoldable pub load : Limit → ℕ → Option Bucket → Bucket
load l now none = record { tokens = l.capacity; ts = now }
load l now (some b) = b

-- `if elapsed < 0 then elapsed = 0`, the refill, and the cap.
unfoldable pub refilled : Limit → ℕ → Bucket → ℕ
refilled l now b =
    let tokens = b.tokens + (now - b.ts) * l.refill in
    if ltb l.capacity tokens then l.capacity else tokens

-- One run of the script: `allowed`, and the hash that it writes.
unfoldable pub token_bucket : Limit → ℕ → ℕ → Option Bucket → Bool × Bucket
unfolding load refilled
token_bucket l now needed hash =
    let tokens = refilled l now (load l now hash) in
    if leb needed tokens
    then (true, record { tokens = tokens - needed; ts = now })
    else (false, record { tokens = tokens; ts = now })

-- Seconds until the key expires: `int64(capacity/refillPerSec) + 2`.
unfoldable pub ttl : Limit → ℕ
ttl l = l.capacity / (l.refill * 1000) + 2

-- What a read finds at the time `now`, if the key was last written at `b.ts`.
unfoldable pub live : Limit → ℕ → Bucket → Option Bucket
live l now b = if ltb now (b.ts + ttl l * 1000) then some b else none

-- `Allow`: none is the error for a rate that is not positive; otherwise the verdict and the hash.
unfoldable pub allow : Limit → ℕ → ℕ → Option Bucket → Option (Bool × Bucket)
allow l now needed hash = if leb l.refill 0 then none else some (token_bucket l now needed hash)

-- A history of calls on one key, each at a time and a cost: the cost that was let through, and the
-- bucket at the end.
unfoldable pub serve : Limit → Bucket → List (ℕ × ℕ) → ℕ × Bucket
serve l b [] = (0, b)
serve l b ((now, needed) ∷ calls) =
    let (allowed, b') = token_bucket l now needed (live l now b) in
    let (total, b'') = serve l b' calls in (if allowed then needed + total else total, b'')
