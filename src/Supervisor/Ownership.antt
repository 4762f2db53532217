-- ===== src/Supervisor/Ownership.antt =====
-- Who holds the CIDs of internal/orchestrator/orchestrator.go: over any sequence of complete calls,
-- the ids in use are those of the tracked sandboxes.
pub mod Steps
use sandboxed_ai_agent_orche.Prelude.{
  ℕ, ◌≡◌, refl, ap, sym, ◌∙◌, ◌≢◌, ◌⊎◌, inl, inr, Bool, true, false, Option, none, some, arith,
  if◌then◌else◌, Bool-cases, Option-cases, ◌==◌,
}
use sandboxed_ai_agent_orche.Prelude.Text.{Text, text_eq, text_eq_iff}
use sandboxed_ai_agent_orche.Prelude.Table.{
  Table, lookup, insert, erase, lookup-insert, lookup-erase,
}
use sandboxed_ai_agent_orche.Cid.{CidAllocator, update, alloc, free}
use sandboxed_ai_agent_orche.Cid.Alloc.{
  IsValid, alloc-IsValid, free-IsValid, Granted, alloc-Granted,
}
use sandboxed_ai_agent_orche.Supervisor.{Instance}

-- Every sandbox is tracked under its own id and holds a CID in use, no two hold the same one, and
-- every CID in use is held.
pub record Owned (m : Table Instance) (a : CidAllocator) : Type 0 where
  pub valid : IsValid a
  pub keyed : (id : Text) (i : Instance) → lookup id m ≡ some i → i.id ≡ id
  pub taken : (id : Text) (i : Instance) → lookup id m ≡ some i → a.used i.cid ≡ true
  pub apart :
      (id j : Text) (i k : Instance)
      → lookup id m ≡ some i
      → lookup j m ≡ some k
      → i.cid ≡ k.cid
      → id ≡ j
  pub held :
      (c : ℕ)
      → a.used c ≡ true
      → (id : Text) × (i : Instance) × (lookup id m ≡ some i) × (i.cid ≡ c)

-- Only what is in use matters.
pub Owned-same :
    (m : Table Instance) (a b : CidAllocator)
    → IsValid b
    → ((c : ℕ) → b.used c ≡ a.used c)
    → Owned m a
    → Owned m b
Owned-same m a b v same o = record {
  valid = v;
  keyed = o.keyed;
  taken = λ id i e. same i.cid ∙ o.taken id i e;
  apart = o.apart;
  held = λ c e. o.held c (sym (same c) ∙ e);
}

lookup-insert_cases :
    (k j : Text) (v w : Instance) (m : Table Instance)
    → lookup j (insert k v m) ≡ some w
    → ((j ≡ k) × (w ≡ v)) ⊎ ((text_eq k j ≡ false) × (lookup j m ≡ some w))
lookup-insert_cases k j v w m e = ground (arith, lookup-insert k j v m, text_eq_iff k j)

lookup-erase_cases :
    (k j : Text) (w : Instance) (m : Table Instance)
    → lookup j (erase k m) ≡ some w
    → (text_eq k j ≡ false) × (lookup j m ≡ some w)
lookup-erase_cases k j w m e = ground (arith, lookup-erase k j m)

-- A new sandbox with a CID that was just granted.
pub Owned-insert :
    (m : Table Instance) (a : CidAllocator) (i : Instance)
    → lookup i.id m ≡ none
    → (alloc a).0 ≡ some i.cid
    → Owned m a
    → Owned (insert i.id i m) (alloc a).1
Owned-insert m a i new got o = record {
  valid = alloc-IsValid a o.valid;
  keyed = λ id j e. elim (lookup-insert_cases i.id id i j m e) [
    | inl (x, y) ↦ rw (x, y) refl
    | inr (x, y) ↦ o.keyed id j y
  ];
  taken = λ id j e. elim (lookup-insert_cases i.id id i j m e) [
    | inl (x, y) ↦ rw y g.taken
    | inr (x, y) ↦ g.others j.cid (λ q. other id j y q) ∙ o.taken id j y
  ];
  apart = λ id l j k e f q. elim (lookup-insert_cases i.id id i j m e) [
    | inl (x, y) ↦ elim (lookup-insert_cases i.id l i k m f) [
      | inl (x', y') ↦ x ∙ sym x'
      | inr (x', y') ↦ absurd (other l k y' (sym q ∙ ap Instance.cid y))
    ]
    | inr (x, y) ↦ elim (lookup-insert_cases i.id l i k m f) [
      | inl (x', y') ↦ absurd (other id j y (q ∙ ap Instance.cid y'))
      | inr (x', y') ↦ o.apart id l j k y y' q
    ]
  ];
  held = λ c e. elim (Bool-cases (c == i.cid)) [
    | inl x ↦
        (i.id, i, ground (arith, lookup-insert i.id i.id i m, text_eq_iff i.id i.id), ground arith)
    | inr x ↦
        let (id, j, l, q) = o.held c (sym (g.others c (ground arith)) ∙ e) in
        (id, j, ground (arith, lookup-insert i.id id i m, text_eq_iff i.id id), q)
  ];
}
  where
    g : Granted a i.cid (alloc a).1
    g = alloc-Granted a i.cid o.valid got

    other : (id : Text) (j : Instance) → lookup id m ≡ some j → j.cid ≢ i.cid
    other id j e q = cc (o.taken id j e, ap a.used q, g.was_free)

-- A sandbox that goes, and gives its CID back.
pub Owned-erase :
    (m : Table Instance) (a : CidAllocator) (id : Text) (i : Instance)
    → lookup id m ≡ some i
    → Owned m a
    → Owned (erase id m) (free a i.cid)
unfolding free
Owned-erase m a id i here o = record {
  valid = free-IsValid a i.cid o.valid;
  keyed = λ j k e. o.keyed j k (lookup-erase_cases id j k m e).1;
  taken = λ j k e.
      let (x, y) = lookup-erase_cases id j k m e in
      let n : k.cid ≢ i.cid = λ q. ground (arith, text_eq_iff id j, o.apart j id k i y here q) in
      ground (arith, o.taken j k y);
  apart = λ j l k k' e f q.
      o.apart j l k k' (lookup-erase_cases id j k m e).1 (lookup-erase_cases id l k' m f).1 q;
  held = λ c e.
      let n : c ≢ i.cid = ground arith in
      let (j, k, l, q) = o.held c (ground arith) in
      (j, k, ground (arith, lookup-erase id j m, text_eq_iff id j), q);
}
