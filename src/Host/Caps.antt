-- ===== src/Host/Caps.antt =====
-- The caps that internal/orchestrator/orchestrator.go, `prepareCgroup`, writes.
use sandboxed_ai_agent_orche.Prelude.{
  ℕ, zero, suc, ◌+◌, ◌-◌, ◌*◌, ◌/◌, ◌%◌, ◌^◌, ◌≤◌, ◌<◌, ◌≡◌, ◌↔◌, refl, ap, ◌∙◌, inl, inr, Bool,
  true, ◌&&◌, some, [], ◌∷◌, ◌++◌, arith, ltb, Bool-cases,
}
use sandboxed_ai_agent_orche.Prelude.Text.{Text, codes}
use sandboxed_ai_agent_orche.Prelude.Int.{ℤ, pos, ◌*ℤ◌, ◌+ℤ◌, wrap64_fits}
use sandboxed_ai_agent_orche.Supervisor.{LaunchSpec}
use sandboxed_ai_agent_orche.Host.{
  digits, decimal, cpu_quota, mem_max_bytes, cpu_max_string, CgroupFile, cpu_max, memory_max,
  memory_swap_max, pids_max, caps_of, write_caps, prepare_cgroup,
}

-- The number that decimal digits stand for, behind one that has been read.
abbrev pub read_digits : ℕ → Text → ℕ
read_digits n [] = n
read_digits n (d ∷ s) = read_digits (n * 10 + (d - 48)) s

digits_value :
    (fuel n : ℕ) (tail : Text) → n < fuel → read_digits 0 (digits fuel n tail) ≡ read_digits n tail
unfolding digits
digits_value zero n tail h = absurd (omega arith)
digits_value (suc fuel) n tail h = elim (Bool-cases (ltb n 10)) [
  | inl q ↦ ground (arith, q)
  | inr q ↦
      let big : 10 ≤ n = ground (arith, q) in
      let shorter : n / 10 < fuel = omega arith in
      let whole : n / 10 * 10 + (48 + n % 10 - 48) ≡ n = omega arith in
      rw q (
        digits_value fuel (n / 10) ((48 + n % 10) ∷ tail) shorter
        ∙ ap (λ (k : ℕ). read_digits k tail) whole)
]

decimal_value : (n : ℕ) → read_digits 0 (decimal (pos n)) ≡ n
decimal_value n = digits_value (suc n) n [] (omega arith)

abbrev writes_all : (CgroupFile → Bool) → Bool
writes_all writable =
    writable cpu_max && (writable memory_max && (writable memory_swap_max && writable pids_max))

-- `prepareCgroup` fails closed: it returns no error exactly when both directories are there and all
-- four caps are written, and the leaf then holds the four, the swap cap 0 among them.
pub prepare_cgroup_iff :
    (parent_ok leaf_ok : Bool) (writable : CgroupFile → Bool) (spec : LaunchSpec)
    → let (fine, leaf) = prepare_cgroup parent_ok leaf_ok writable spec in
      ((fine ≡ true) ↔ ((parent_ok && (leaf_ok && writes_all writable)) ≡ true))
      × (fine ≡ true → leaf ≡ some (caps_of spec))
unfolding prepare_cgroup write_caps caps_of
prepare_cgroup_iff parent_ok leaf_ok writable spec = ground arith

mul_pos : (a b : ℕ) → pos a *ℤ pos b ≡ pos (a * b)
unfolding ◌*ℤ◌
mul_pos a b = ground arith

add_pos : (a b : ℕ) → pos a +ℤ pos b ≡ pos (a + b)
unfolding ◌+ℤ◌
add_pos a b = ground arith

cpu_quota-pos : (n : ℕ) → n * 100000 < 2 ^ 63 → cpu_quota (pos n) ≡ pos (n * 1000)
unfolding cpu_quota
cpu_quota-pos n h =
    let whole : n * 100000 / 100 ≡ n * 1000 = omega arith in
    rw (mul_pos n 100000, wrap64_fits (n * 100000) h) (ap pos whole)

mem_max_bytes-pos :
    (n : ℕ) → n * 1048576 + 67108864 < 2 ^ 63 → mem_max_bytes (pos n) ≡ pos (n * 1048576 + 67108864)
unfolding mem_max_bytes
mem_max_bytes-pos n h =
    rw (mul_pos n 1048576, wrap64_fits (n * 1048576) (omega arith), add_pos (n * 1048576) 67108864)
      (wrap64_fits (n * 1048576 + 67108864) h)

-- The caps that are written stand for the limits of the specification: when nothing overflows an
-- int64, reading the digits back gives a quota of 1000 microseconds in 100000 for each percent, the
-- guest's memory in bytes with 64 MiB on top, and the number of processes.
pub caps_of_value :
    (spec : LaunchSpec) (percent mib pids : ℕ)
    → spec.cpu_percent ≡ pos percent
    → spec.mem_mib ≡ pos mib
    → spec.pids_max ≡ pos pids
    → percent * 100000 < 2 ^ 63
    → mib * 1048576 + 67108864 < 2 ^ 63
    → (cpu : Text) × (mem : Text) × (procs : Text) × (caps_of spec
        ≡ (cpu_max, cpu ++ codes " " ++ codes "100000")
          ∷ (memory_max, mem)
          ∷ (memory_swap_max, codes "0")
          ∷ (pids_max, procs)
          ∷ [])
      × (read_digits 0 cpu ≡ percent * 1000)
      × (read_digits 0 mem ≡ (mib + 64) * 1048576)
      × (read_digits 0 procs ≡ pids)
unfolding caps_of cpu_max_string digits
caps_of_value spec percent mib pids c m p small fits = (
  decimal (cpu_quota spec.cpu_percent),
  decimal (mem_max_bytes spec.mem_mib),
  decimal spec.pids_max,
  refl,
  ap (λ (z : ℤ). read_digits 0 (decimal (cpu_quota z))) c
      ∙ ap (λ (z : ℤ). read_digits 0 (decimal z)) (cpu_quota-pos percent small)
      ∙ decimal_value (percent * 1000),
  ap (λ (z : ℤ). read_digits 0 (decimal (mem_max_bytes z))) m
      ∙ ap (λ (z : ℤ). read_digits 0 (decimal z)) (mem_max_bytes-pos mib fits)
      ∙ decimal_value (mib * 1048576 + 67108864)
      ∙ omega arith,
  ap (λ (z : ℤ). read_digits 0 (decimal z)) p ∙ decimal_value pids,
)
