-- ===== src/Host/Start.antt =====
-- What internal/orchestrator/orchestrator.go, `NewSupervisor`, hands to the rest, and `killPID`.
use sandboxed_ai_agent_orche.Prelude.{
  ℕ, zero, suc, ◌+◌, ◌-◌, ◌^◌, ◌≤◌, ◌<◌, ◌≡◌, ◌↔◌, refl, ap, ◌∙◌, sym, inl, inr, Bool, true, [],
  arith, ◌==◌, Bool-cases, Holds, ok, subst, ==_iff,
}
use sandboxed_ai_agent_orche.Prelude.Int.{ℤ, pos, ltb_ℤ}
use sandboxed_ai_agent_orche.Cid.{CidAllocator, new_cid_allocator}
use sandboxed_ai_agent_orche.Cid.Alloc.{new-IsValid}
use sandboxed_ai_agent_orche.Supervisor.{Config}
use sandboxed_ai_agent_orche.Supervisor.Interleaving.{Shared, Reach}
use sandboxed_ai_agent_orche.Supervisor.Interleaving.Cids.{
  holders, holders-le, Exclusive, Reach-Exclusive,
}
use sandboxed_ai_agent_orche.Host.{
  Location, HostConfig, or_nat, with_defaults, new_supervisor, sigkill, kill_loop, kill_pid,
}

started :
    (exists : Location → Bool) (cfg c : HostConfig) (cids : CidAllocator)
    → new_supervisor exists cfg ≡ ok (c, cids)
    → cids ≡ new_cid_allocator (or_nat cfg.cid_min 3) (or_nat cfg.cid_max (2 ^ 31 - 1))
unfolding new_supervisor with_defaults
started exists cfg c cids e = ground (arith, e)

pub new-Exclusive :
    (min max : ℕ)
    → 0 < min
    → min ≤ max
    → max < 2 ^ 32
    → Exclusive (record { inst = []; cids = new_cid_allocator min max; flights = [] })
unfolding new_cid_allocator
new-Exclusive min max p h f = record {
  valid = new-IsValid min max h (omega arith) f;
  single = λ c. omega arith;
}

-- From the start of the control plane on, no two sandboxes have the same CID: for a configuration that
-- `NewSupervisor` accepts and whose CID range is not empty, every interleaving of pieces of `Launch` and
-- `Terminate` from the fresh supervisor leaves each CID with at most one holder.
pub started-Exclusive :
    (exists : Location → Bool) (cfg c : HostConfig) (cids : CidAllocator) (sup : Config) (k : ℕ)
    (t : Shared) (d : ℕ)
    → new_supervisor exists cfg ≡ ok (c, cids)
    → or_nat cfg.cid_min 3 ≤ or_nat cfg.cid_max (2 ^ 31 - 1)
    → cfg.cid_max < 2 ^ 32
    → Reach sup k (record { inst = []; cids = cids; flights = [] }) t
    → holders d t ≤ 1
started-Exclusive exists cfg c cids sup k t d e range fits r =
    let min = or_nat cfg.cid_min 3 in
    let max = or_nat cfg.cid_max (2 ^ 31 - 1) in
    let fresh : cids ≡ new_cid_allocator min max = started exists cfg c cids e in
    let positive : 0 < min = ground arith in
    let narrow : max < 2 ^ 32 = ground arith in
    let begins = new-Exclusive min max positive range narrow in
    holders-le d t (
      Reach-Exclusive sup k (record { inst = []; cids = cids; flights = [] }) t r
        (subst (λ (a : CidAllocator). Exclusive (record { inst = []; cids = a; flights = [] }))
          (sym fresh) begins))

kill_loop_iff :
    (alive : ℕ → Bool) (k n : ℕ)
    → Holds sigkill (kill_loop alive k n) ↔ ((i : ℕ) → n ≤ i → i < n + k → alive i ≡ true)
unfolding kill_loop
kill_loop_iff alive zero n = (λ h i lo hi. absurd (omega arith), λ h. inl refl)
kill_loop_iff alive (suc k) n = elim (Bool-cases (alive n)) [
  | inr q ↦ rw q (λ h. absurd h, λ h. absurd (cc (h n (omega arith) (omega arith), q)))
  | inl q ↦
      let rest = kill_loop_iff alive k (n + 1) in
      rw q (
        λ h i lo hi. elim (Bool-cases (i == n)) [
          | inl z ↦ ap alive ((==_iff i n).0 z) ∙ q
          | inr z ↦ rest.0 h i (ground (arith, z)) (omega arith)
        ],
        λ h. rest.1 λ i lo hi. h i (omega arith) (omega arith),
      )
]

-- `killPID` signals SIGKILL exactly to a process that is still alive at each of the 30 looks that follow
-- its SIGTERM, and it signals nothing to an id that is not positive.
pub kill_pid_iff :
    (alive : ℕ → Bool) (pid : ℤ)
    → Holds sigkill (kill_pid alive pid)
      ↔ ((ltb_ℤ (pos 0) pid ≡ true) × ((i : ℕ) → i < 30 → alive i ≡ true))
unfolding kill_pid
kill_pid_iff alive pid = elim (Bool-cases (ltb_ℤ (pos 0) pid)) [
  | inr q ↦ rw q (λ h. absurd h, λ (h, all). absurd (cc h))
  | inl q ↦
      let rest = kill_loop_iff alive 30 0 in
      rw q (
        λ h. elim h [
          | inl z ↦ absurd (cc z)
          | inr z ↦ (refl, λ i hi. rest.0 z i (omega arith) (omega arith))
        ],
        λ (h, all). inr (rest.1 λ i lo hi. all i (omega arith)),
      )
]
