-- ===== src/Supervisor/Admission.antt =====
-- `admitLocked` of internal/orchestrator/orchestrator.go and the limits that it keeps.
use sandboxed_ai_agent_orche.Prelude.{
  ℕ, ◌+◌, ◌^◌, ◌≤◌, ◌<◌, ◌≡◌, ap, sym, ◌∙◌, ◌↔◌, inl, inr, true, none, [], ◌∷◌, arith, Bool-cases,
  length, ok,
}
use sandboxed_ai_agent_orche.Prelude.Text.{Text, text_eq}
use sandboxed_ai_agent_orche.Prelude.Table.{Table, lookup, insert, length-insert_new}
use sandboxed_ai_agent_orche.Prelude.Int.{ℤ, pos, negsuc, ltb_ℤ, ◌+ℤ◌, ◌≤ℤ◌, wrap64, wrap64_fits}
use sandboxed_ai_agent_orche.Supervisor.{
  LaunchSpec, Instance, Config, World, HostAnswers, apply_spec_defaults, used_mem, admit, named,
  launch,
}
use sandboxed_ai_agent_orche.Supervisor.Launched.{launch-Launched}

abbrev pub size : ℤ → ℕ
size (pos n) = n
size (negsuc n) = 0

-- The memory of a table of instances, without wrap-around.
unfoldable pub total : Table Instance → ℕ
total [] = 0
total ((id, i) ∷ m) = size i.spec.mem_mib + total m

-- Every instance has a memory of zero or more, as the defaults see to.
unfoldable pub Sized : Table Instance → Type 0
Sized [] = Unit
Sized ((id, i) ∷ m) = (pos (size i.spec.mem_mib) ≡ i.spec.mem_mib) × Sized m

add_pos : (a b : ℕ) → pos a +ℤ pos b ≡ pos (a + b)
unfolding ◌+ℤ◌
add_pos a b = ground arith

wrap_sum : (a b : ℕ) (z : ℤ) → z ≡ pos b → a + b < 2 ^ 63 → wrap64 (pos a +ℤ z) ≡ pos (a + b)
wrap_sum a b z e h = rw (e, add_pos a b) (wrap64_fits (a + b) h)

used_mem-total :
    (n : ℕ) (m : Table Instance)
    → Sized m
    → n + total m < 2 ^ 63
    → used_mem (pos n) m ≡ pos (n + total m)
unfolding used_mem total Sized
used_mem-total n [] s h = ap pos (omega arith)
used_mem-total n ((id, i) ∷ m) (p, s) h =
    rw (wrap_sum n (size i.spec.mem_mib) i.spec.mem_mib (sym p) (omega arith))
      (used_mem-total (n + size i.spec.mem_mib) m s (omega arith) ∙ ap pos (omega arith))

-- Below 2^63 MiB in all, a launch is admitted exactly when the limits that are set leave room for it:
-- one more instance, and the memory that it asks for.
pub admit_iff :
    (cfg : Config) (m : Table Instance) (spec : LaunchSpec) (n : ℕ)
    → Sized m
    → spec.mem_mib ≡ pos n
    → total m + n < 2 ^ 63
    → (admit cfg m spec ≡ true) ↔ (
        ((ltb_ℤ (pos 0) cfg.max_concurrent ≡ true) → pos (length m + 1) ≤ℤ cfg.max_concurrent)
        × ((ltb_ℤ (pos 0) cfg.memory_budget_mib ≡ true)
            → pos (total m + n) ≤ℤ cfg.memory_budget_mib))
unfolding admit
admit_iff cfg m spec n s e h =
    let used : used_mem (pos 0) m ≡ pos (total m) =
      used_mem-total 0 m s (omega arith) ∙ ap pos (omega arith) in
    let all : wrap64 (used_mem (pos 0) m +ℤ spec.mem_mib) ≡ pos (total m + n) =
      ap (λ (z : ℤ). wrap64 (z +ℤ spec.mem_mib)) used ∙ wrap_sum (total m) n spec.mem_mib e h in
    rw all (λ q. (λ k. ground arith, λ k. ground arith), λ (a, b). ground arith)

total-insert_new :
    (k : Text) (i : Instance) (m : Table Instance)
    → lookup k m ≡ none
    → total (insert k i m) ≡ total m + size i.spec.mem_mib
unfolding total lookup insert
total-insert_new k i [] h = omega arith
total-insert_new k i ((id, j) ∷ m) h = ground (arith, total-insert_new k i m)

Sized-insert :
    (k : Text) (i : Instance) (m : Table Instance)
    → Sized m
    → pos (size i.spec.mem_mib) ≡ i.spec.mem_mib
    → Sized (insert k i m)
unfolding Sized insert
Sized-insert k i [] s p = (p, tt)
Sized-insert k i ((id, j) ∷ m) (q, s) p = elim (Bool-cases (text_eq id k)) [
  | inl e ↦ rw e (p, s)
  | inr e ↦ rw e (q, Sized-insert k i m s p)
]

-- The limits of the configuration that are set are kept.
pub record Within (cfg : Config) (m : Table Instance) : Type 0 where
  pub sized : Sized m
  pub few : (ltb_ℤ (pos 0) cfg.max_concurrent ≡ true) → pos (length m) ≤ℤ cfg.max_concurrent
  pub small : (ltb_ℤ (pos 0) cfg.memory_budget_mib ≡ true) → pos (total m) ≤ℤ cfg.memory_budget_mib

named-sized :
    (spec : LaunchSpec) (fresh : Text)
    → (named spec fresh).mem_mib ≡ pos (size (named spec fresh).mem_mib)
unfolding named apply_spec_defaults
named-sized spec fresh = ground arith

-- A `Launch` that succeeds keeps the number of sandboxes and their memory within the limits, as long
-- as the memory in use and the memory asked for stay below 2^63 MiB.
pub launch-Within :
    (cfg : Config) (w : World) (spec : LaunchSpec) (h : HostAnswers) (i : Instance)
    → Within cfg w.inst
    → total w.inst + size (named spec h.fresh_id).mem_mib < 2 ^ 63
    → (launch cfg w spec h).0 ≡ ok i
    → Within cfg (launch cfg w spec h).1.inst
launch-Within cfg w spec h i v fits q =
    let l = launch-Launched cfg w spec h i q in
    let new : lookup i.id w.inst ≡ none = rw l.id_kept l.was_new in
    let is_size = named-sized spec h.fresh_id in
    let (few, small) = (admit_iff cfg w.inst _ _ v.sized is_size fits).0 l.admitted in
    let same = ap size (ap LaunchSpec.mem_mib l.spec_kept) in
    let len = length-insert_new i.id i w.inst new in
    let tot = total-insert_new i.id i w.inst new ∙ ap (λ (n : ℕ). total w.inst + n) same in
    rw l.tracked (record {
      sized = Sized-insert i.id i w.inst v.sized (rw l.spec_kept (sym is_size));
      few = λ k. rw len (few k);
      small = λ k. rw tot (small k);
    })

-- Where the sum passes 2^63 it wraps to a negative number, and a launch is admitted whatever the
-- budget: one sandbox is enough for it.
pub admit_overflow :
    (cfg : Config) (id : Text) (i : Instance) (spec : LaunchSpec) (a b budget : ℕ)
    → cfg.max_concurrent ≡ pos 0
    → cfg.memory_budget_mib ≡ pos budget
    → i.spec.mem_mib ≡ pos a
    → spec.mem_mib ≡ pos b
    → a < 2 ^ 63
    → b < 2 ^ 63
    → 2 ^ 63 ≤ a + b
    → admit cfg ((id, i) ∷ []) spec ≡ true
unfolding admit used_mem wrap64 ◌+ℤ◌
admit_overflow cfg id i spec a b budget c m e e' ha hb hab = rw (c, m, e, e') (ground arith)
