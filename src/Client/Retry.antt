-- ===== src/Client/Retry.antt =====
-- `dialWithRetry` of internal/gateway/vsockclient.go.
use native.Mathlib.Nat.{add-zero}
use sandboxed_ai_agent_orche.Prelude.{
  ℕ, zero, suc, ◌+◌, ◌≤◌, ◌<◌, ◌≡◌, refl, ap, inl, inr, false, List, [], ◌∷◌, arith, Bool-cases,
  length, All, ok, err, Result-cases,
}
use sandboxed_ai_agent_orche.Prelude.Text.{Text}
use sandboxed_ai_agent_orche.Prelude.Int.{ℤ, pos, negsuc, pos_part, ◌≤ℤ◌}
use sandboxed_ai_agent_orche.Client.{
  Config, Attempts, ConnectError, connect, next_backoff, retry_loop, retries, dial_with_retry,
}

next_backoff-le : (c : Config) (b : ℤ) → next_backoff c b ≤ℤ c.retry_cap
unfolding next_backoff
next_backoff-le c b = ground arith

-- Sleeps begin with `first`, and the later ones are within the cap.
abbrev pub Paced : Config → ℤ → List ℤ → Type 0
Paced c first [] = Unit {0}
Paced c first (b ∷ slept) = (b ≡ first) × All (λ d. d ≤ℤ c.retry_cap) slept

Paced-within :
    (c : Config) (first : ℤ) (slept : List ℤ)
    → first ≤ℤ c.retry_cap
    → Paced c first slept
    → All (λ d. d ≤ℤ c.retry_cap) slept
Paced-within c first [] h p = tt
Paced-within c first (b ∷ slept) h p = (rw p.0 h, p.1)

retry_loop-Paced :
    (c : Config) (w : Attempts) (n attempt : ℕ) (b : ℤ) (last : ConnectError)
    → Paced c b (retry_loop c w n attempt b last).0
      × (length (retry_loop c w n attempt b last).0 ≤ n)
unfolding retry_loop
retry_loop-Paced c w zero attempt b last = (tt, omega arith)
retry_loop-Paced c w (suc n) attempt b last = elim (Bool-cases (w.done attempt)) [
  | inl d ↦ rw d ((refl, tt), omega arith)
  | inr d ↦ elim (Result-cases (connect (w.dial attempt))) [
    | inl (conn, e) ↦ rw (d, e) ((refl, tt), omega arith)
    | inr (x, e) ↦
        let (p, l) = retry_loop-Paced c w n (attempt + 1) (next_backoff c b) x in
        rw (d, e) ((refl, Paced-within c _ _ (next_backoff-le c b) p), omega arith)
  ]
]

retries-Paced :
    (c : Config) (w : Attempts) (max : ℤ)
    → Paced c c.retry_base (retries c w max).0 × (length (retries c w max).0 ≤ pos_part max)
unfolding retries
retries-Paced c w (negsuc m) = (tt, omega arith)
retries-Paced c w (pos n) = elim (Result-cases (connect (w.dial 0))) [
  | inl (conn, e) ↦ rw (e, retries) (tt, omega arith)
  | inr (x, e) ↦ rw (e, retries) (retry_loop-Paced c w n 1 c.retry_base x)
]

-- A client makes at most `RetryMax` retries. It sleeps `RetryBase` before the first, and never longer
-- than `RetryCap` before any other, whatever the doubling wraps around to.
pub dial_with_retry-Paced :
    (c : Config) (w : Attempts)
    → Paced c c.retry_base (dial_with_retry c w).0
      × (length (dial_with_retry c w).0 ≤ pos_part c.retry_max)
unfolding dial_with_retry
dial_with_retry-Paced c w = retries-Paced c w c.retry_max

retry_loop-success :
    (c : Config) (w : Attempts) (k n attempt : ℕ) (b : ℤ) (last : ConnectError) (conn : Text)
    → k < n
    → ((i : ℕ) → i ≤ k → w.done (attempt + i) ≡ false)
    → ((i : ℕ) → i < k → (e : ConnectError) × (connect (w.dial (attempt + i)) ≡ err e))
    → connect (w.dial (attempt + k)) ≡ ok conn
    → ((retry_loop c w n attempt b last).1 ≡ ok conn)
      × (length (retry_loop c w n attempt b last).0 ≡ suc k)
unfolding retry_loop
retry_loop-success c w k zero attempt b last conn lt calm fails good = absurd (omega arith)
retry_loop-success c w zero (suc n) attempt b last conn lt calm fails good =
    rw ((rw add-zero at (calm 0 (omega arith))), (rw add-zero at good)) (refl, refl)
retry_loop-success c w (suc k) (suc n) attempt b last conn lt calm fails good =
    let (x, e) = fails 0 (omega arith) in
    let (r, l) =
      retry_loop-success c w k n (attempt + 1) (next_backoff c b) x conn (omega arith)
        (λ i h. rw (shift i) (calm (suc i) (omega arith)))
        (λ i h. rw (shift i) (fails (suc i) (omega arith))) (rw (shift k) good) in
    rw ((rw add-zero at (calm 0 (omega arith))), (rw add-zero at e)) (r, ap suc l)
  where
    shift : (i : ℕ) → attempt + 1 + i ≡ attempt + suc i
    shift i = omega arith

-- The client connects at the first attempt that succeeds, within the retries allowed and unless the
-- context ends before it; it has slept once for each attempt that failed.
pub dial_with_retry_first_success :
    (c : Config) (w : Attempts) (max k : ℕ) (conn : Text)
    → c.retry_max ≡ pos max
    → k ≤ max
    → ((i : ℕ) → i ≤ k → w.done i ≡ false)
    → ((i : ℕ) → i < k → (e : ConnectError) × (connect (w.dial i) ≡ err e))
    → connect (w.dial k) ≡ ok conn
    → ((dial_with_retry c w).1 ≡ ok conn) × (length (dial_with_retry c w).0 ≡ k)
unfolding dial_with_retry
dial_with_retry_first_success c w max zero conn m le calm fails good =
    rw (m, retries, good) (refl, refl)
dial_with_retry_first_success c w max (suc k) conn m le calm fails good =
    let (x, e) = fails 0 (omega arith) in
    rw (m, retries, e)
      (retry_loop-success c w k max 1 c.retry_base x conn (omega arith)
        (λ i h. rw (one_plus i) (calm (suc i) (omega arith)))
        (λ i h. rw (one_plus i) (fails (suc i) (omega arith))) (rw (one_plus k) good))
  where
    one_plus : (i : ℕ) → 1 + i ≡ suc i
    one_plus i = omega arith
