-- ===== src/Supervisor/Interleaving/Cids.antt =====
-- No two sandboxes share a CID, however the calls interleave.
use sandboxed_ai_agent_orche.Prelude.{
  ℕ, ◌+◌, ◌≤◌, ◌≡◌, refl, ap, ◌∙◌, sym, inl, inr, Bool, true, false, some, List, [], ◌∷◌, ◌++◌,
  arith, ◌==◌, ==_iff, Bool-cases,
}
use sandboxed_ai_agent_orche.Prelude.Text.{Text, text_eq}
use sandboxed_ai_agent_orche.Prelude.Table.{Table, lookup, insert, erase}
use sandboxed_ai_agent_orche.Cid.{CidAllocator, alloc, free}
use sandboxed_ai_agent_orche.Cid.Alloc.{
  IsValid, alloc-IsValid, free-IsValid, Granted, alloc-Granted, alloc-none_used,
}
use sandboxed_ai_agent_orche.Supervisor.{Instance, Config}
use sandboxed_ai_agent_orche.Supervisor.Interleaving.{
  Flight, checked, holding, leaving, Shared, new_instance, Step, begin, grant, exhaust, fail,
  commit, detach, give_back, Reach, start, later,
}

abbrev one_if : Bool → ℕ
one_if true = 1
one_if false = 0

-- How many of the tracked sandboxes have the CID.
abbrev pub tracked_with : ℕ → Table Instance → ℕ
tracked_with c [] = 0
tracked_with c ((id, i) ∷ m) = one_if (i.cid == c) + tracked_with c m

abbrev pub flight_with : ℕ → Flight → ℕ
flight_with c (checked spec) = 0
flight_with c (holding spec d) = one_if (d == c)
flight_with c (leaving d) = one_if (d == c)

-- How many of the calls under way hold the CID.
abbrev pub flights_with : ℕ → List Flight → ℕ
flights_with c [] = 0
flights_with c (f ∷ fs) = flight_with c f + flights_with c fs

-- Everything that holds the CID.
abbrev pub holders : ℕ → Shared → ℕ
holders c s = tracked_with c s.inst + flights_with c s.flights

-- A CID has at most one holder, and one only if it is marked.
pub record Exclusive (s : Shared) : Type 0 where
  pub valid : IsValid s.cids
  pub single : (c : ℕ) → holders c s ≤ one_if (s.cids.used c)

pub holders-le : (c : ℕ) (s : Shared) → Exclusive s → holders c s ≤ 1
holders-le c s x = elim (Bool-cases (s.cids.used c)) [
  | inl q ↦ omega (arith, x.single c, ap one_if q)
  | inr q ↦ omega (arith, x.single c, ap one_if q)
]

flights_with-append :
    (c : ℕ) (fs gs : List Flight)
    → flights_with c (fs ++ gs) ≡ flights_with c fs + flights_with c gs
flights_with-append c [] gs = omega arith
flights_with-append c (f ∷ fs) gs = omega (arith, flights_with-append c fs gs)

flights_with-split :
    (c : ℕ) (pre post fs : List Flight) (f : Flight)
    → fs ≡ pre ++ (f ∷ post)
    → flights_with c fs ≡ flights_with c (pre ++ post) + flight_with c f
flights_with-split c pre post fs f e =
    ap (flights_with c) e
    ∙ omega (arith, flights_with-append c pre (f ∷ post), flights_with-append c pre post)

tracked_with-insert :
    (c : ℕ) (id : Text) (i : Instance) (m : Table Instance)
    → tracked_with c (insert id i m) ≤ tracked_with c m + one_if (i.cid == c)
unfolding insert
tracked_with-insert c id i [] = omega arith
tracked_with-insert c id i ((j, x) ∷ m) = ground (arith, tracked_with-insert c id i m)

tracked_with-erase_le :
    (c : ℕ) (id : Text) (m : Table Instance) → tracked_with c (erase id m) ≤ tracked_with c m
unfolding erase
tracked_with-erase_le c id [] = omega arith
tracked_with-erase_le c id ((j, x) ∷ m) = ground (arith, tracked_with-erase_le c id m)

tracked_with-erase :
    (c : ℕ) (id : Text) (i : Instance) (m : Table Instance)
    → lookup id m ≡ some i
    → tracked_with c (erase id m) + one_if (i.cid == c) ≤ tracked_with c m
unfolding lookup erase
tracked_with-erase c id i [] e = absurd (cc e)
tracked_with-erase c id i ((j, x) ∷ m) e = elim (Bool-cases (text_eq j id)) [
  | inr q ↦ ground (arith, q, tracked_with-erase c id i m)
  | inl q ↦
      let same : x ≡ i = ground (arith, e, q) in
      let cid = ap (λ (y : Instance). one_if (y.cid == c)) same in
      ground (arith, q, cid, tracked_with-erase_le c id m)
]

free-single :
    (c d n k : ℕ) (a : CidAllocator)
    → n ≡ k + one_if (c == d)
    → n ≤ one_if (a.used d)
    → k ≤ one_if ((free a c).used d)
unfolding free
free-single c d n k a e h = elim (Bool-cases (a.used d)) [
  | inl q ↦ ground (arith, q)
  | inr q ↦ ground (arith, q)
]

grant-single :
    (c d n k : ℕ) (a b : CidAllocator)
    → Granted a c b
    → k ≡ n + one_if (c == d)
    → n ≤ one_if (a.used d)
    → k ≤ one_if (b.used d)
grant-single c d n k a b g e h = elim (Bool-cases (c == d)) [
  | inl q ↦
      let same : c ≡ d = (==_iff c d).0 q in
      let free_before : a.used d ≡ false = ap a.used (sym same) ∙ g.was_free in
      let taken_now : b.used d ≡ true = ap b.used (sym same) ∙ g.taken in
      ground (arith, q, free_before, taken_now)
  | inr q ↦
      let others = g.others d (λ z. cc ((==_iff c d).1 (sym z), q)) in ground (arith, q, others)
]

Step-Exclusive : (cfg : Config) (k : ℕ) (s t : Shared) → Step cfg k s t → Exclusive s → Exclusive t
Step-Exclusive cfg k s t (begin spec few ok) x = record {
  valid = x.valid;
  single = λ d. omega (arith, x.single d);
}
Step-Exclusive cfg k s t (grant pre post spec c e got) x =
    let g = alloc-Granted s.cids c x.valid got in
    record {
      valid = alloc-IsValid s.cids x.valid;
      single = λ d.
          grant-single c d (holders d s) _ s.cids (alloc s.cids).1 g
            (omega (
              arith,
              flights_with-split d pre post s.flights (checked spec) e,
              flights_with-split d pre post (pre ++ (holding spec c ∷ post)) (holding spec c) refl,
            ))
            (x.single d);
    }
Step-Exclusive cfg k s t (exhaust pre post spec e full) x = record {
  valid = alloc-IsValid s.cids x.valid;
  single = λ d.
      rw (alloc-none_used s.cids full)
        (omega (arith, x.single d, flights_with-split d pre post s.flights (checked spec) e));
}
Step-Exclusive cfg k s t (fail pre post spec c e) x = record {
  valid = free-IsValid s.cids c x.valid;
  single = λ d.
      free-single c d (holders d s) _ s.cids
        (omega (arith, flights_with-split d pre post s.flights (holding spec c) e)) (x.single d);
}
Step-Exclusive cfg k s t (commit pre post spec c pid now e) x = record {
  valid = x.valid;
  single = λ d. omega (
    arith,
    x.single d,
    flights_with-split d pre post s.flights (holding spec c) e,
    tracked_with-insert d spec.id (new_instance spec c pid now) s.inst,
  );
}
Step-Exclusive cfg k s t (detach id i e) x = record {
  valid = x.valid;
  single = λ d. omega (arith, x.single d, tracked_with-erase d id i s.inst e);
}
Step-Exclusive cfg k s t (give_back pre post c e) x = record {
  valid = free-IsValid s.cids c x.valid;
  single = λ d.
      free-single c d (holders d s) _ s.cids
        (omega (arith, flights_with-split d pre post s.flights (leaving c) e)) (x.single d);
}

-- From a state in which every CID has at most one holder, tracked sandboxes, launches under way and
-- terminations under way counted, and no holder unless it is marked as used, every interleaving of
-- pieces of `Launch` and `Terminate` leads to such a state again: no two sandboxes ever have the same
-- CID, whatever the order.
pub Reach-Exclusive :
    (cfg : Config) (k : ℕ) (s t : Shared) → Reach cfg k s t → Exclusive s → Exclusive t
Reach-Exclusive cfg k s t start x = x
Reach-Exclusive cfg k s u (later {t} r step) x =
    Step-Exclusive cfg k t u step (Reach-Exclusive cfg k s t r x)
