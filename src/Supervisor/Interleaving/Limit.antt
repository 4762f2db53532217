-- ===== src/Supervisor/Interleaving/Limit.antt =====
-- How far `MaxConcurrent` holds when launches run at the same time.
use sandboxed_ai_agent_orche.Prelude.{
  ℕ, ◌+◌, ◌≤◌, ◌<◌, ◌≡◌, ◌≢◌, refl, ap, ◌∙◌, sym, inl, inr, false, none, some, List, [], ◌∷◌, ◌++◌,
  arith, length, Option-cases, Bool-cases,
}
use sandboxed_ai_agent_orche.Prelude.Text.{Text, text_eq, text_eq_iff}
use sandboxed_ai_agent_orche.Prelude.Int.{pos}
use sandboxed_ai_agent_orche.Prelude.Table.{
  Table, lookup, insert, lookup-insert, length-insert_new, length-erase-le,
}
use sandboxed_ai_agent_orche.Cid.{alloc}
use sandboxed_ai_agent_orche.Supervisor.{Instance, LaunchSpec, Config, launch_check, admit}
use sandboxed_ai_agent_orche.Supervisor.Interleaving.{
  Flight, checked, holding, leaving, Shared, new_instance, launching, Step, begin, grant, exhaust,
  fail, commit, detach, give_back, Reach, start, later,
}

launching-append : (fs gs : List Flight) → launching (fs ++ gs) ≡ launching fs + launching gs
launching-append [] gs = omega arith
launching-append (leaving c ∷ fs) gs = launching-append fs gs
launching-append (checked s ∷ fs) gs = omega (arith, launching-append fs gs)
launching-append (holding s c ∷ fs) gs = omega (arith, launching-append fs gs)

launching-split :
    (pre post fs : List Flight) (f : Flight)
    → fs ≡ pre ++ (f ∷ post)
    → launching fs ≡ launching (pre ++ post) + launching (f ∷ [])
launching-split pre post fs (leaving c) e =
    ap launching e
    ∙ omega (arith, launching-append pre (leaving c ∷ post), launching-append pre post)
launching-split pre post fs (checked s) e =
    ap launching e
    ∙ omega (arith, launching-append pre (checked s ∷ post), launching-append pre post)
launching-split pre post fs (holding s c) e =
    ap launching e
    ∙ omega (arith, launching-append pre (holding s c ∷ post), launching-append pre post)

length-insert-le :
    (k : Text) (i : Instance) (m : Table Instance) → length (insert k i m) ≤ length m + 1
unfolding insert
length-insert-le k i [] = omega arith
length-insert-le k i ((j, x) ∷ m) = ground (arith, length-insert-le k i m)

room :
    (cfg : Config) (n : ℕ) (inst : Table Instance) (spec : LaunchSpec)
    → cfg.max_concurrent ≡ pos n
    → 0 < n
    → launch_check cfg inst spec ≡ none
    → length inst < n
unfolding launch_check admit
room cfg n inst spec e p q = ground arith

is_new :
    (cfg : Config) (inst : Table Instance) (spec : LaunchSpec)
    → launch_check cfg inst spec ≡ none
    → lookup spec.id inst ≡ none
unfolding launch_check
is_new cfg inst spec q = elim (Option-cases (lookup spec.id inst)) [
  | inl e ↦ e
  | inr (i, e) ↦ absurd (ground (arith, e))
]

two_more :
    (m : Table Instance) (a b : Text) (i j : Instance)
    → lookup a m ≡ none
    → lookup b m ≡ none
    → a ≢ b
    → length (insert a i (insert b j m)) ≡ length m + 2
two_more m a b i j x y apart =
    let other : text_eq b a ≡ false = elim (Bool-cases (text_eq b a)) [
      | inr e ↦ e
      | inl e ↦ absurd (apart (sym ((text_eq_iff b a).0 e)))
    ] in
    let still : lookup a (insert b j m) ≡ none = lookup-insert b a j m ∙ rw other x in
    omega (arith, length-insert_new a i (insert b j m) still, length-insert_new b j m y)

-- The tracked sandboxes and the launches under way.
abbrev pub occupancy : Shared → ℕ
occupancy s = length s.inst + launching s.flights

module _ (cfg : Config) (n k : ℕ) (limit : cfg.max_concurrent ≡ pos n) (positive : 0 < n) where
  Step-occupancy : (s t : Shared) → Step cfg k s t → occupancy s < n + k → occupancy t < n + k
  Step-occupancy s t (begin spec few ok) h = omega (arith, room cfg n s.inst spec limit positive ok)
  Step-occupancy s t (grant pre post spec c e got) h = omega (
    arith,
    launching-split pre post s.flights (checked spec) e,
    launching-split pre post (pre ++ (holding spec c ∷ post)) (holding spec c) refl,
  )
  Step-occupancy s t (exhaust pre post spec e full) h =
      omega (arith, launching-split pre post s.flights (checked spec) e)
  Step-occupancy s t (fail pre post spec c e) h =
      omega (arith, launching-split pre post s.flights (holding spec c) e)
  Step-occupancy s t (commit pre post spec c pid now e) h = omega (
    arith,
    launching-split pre post s.flights (holding spec c) e,
    length-insert-le spec.id (new_instance spec c pid now) s.inst,
  )
  Step-occupancy s t (detach id i e) h = omega (arith, length-erase-le id s.inst)
  Step-occupancy s t (give_back pre post c e) h =
      omega (arith, launching-split pre post s.flights (leaving c) e)

  -- What `MaxConcurrent = n` guarantees when at most `k` launches run at once: the tracked sandboxes
  -- and the launches under way stay together below `n + k`, in every interleaving with terminations.
  -- One launch at a time keeps to the limit; more may go past it by `k - 1`.
  pub Reach-occupancy : (s t : Shared) → Reach cfg k s t → occupancy s < n + k → occupancy t < n + k
  Reach-occupancy s t start h = h
  Reach-occupancy s u (later {t} r step) h = Step-occupancy t u step (Reach-occupancy s t r h)

-- Two launches at once can go past the limit: whenever the check lets each of two specifications with
-- different ids pass on its own and two CIDs can be had, an interleaving of the two launches tracks
-- two more sandboxes, also if the limit leaves room for one.
pub overcommit :
    (cfg : Config) (a b : LaunchSpec) (s : Shared) (c d : ℕ)
    → s.flights ≡ []
    → launch_check cfg s.inst a ≡ none
    → launch_check cfg s.inst b ≡ none
    → a.id ≢ b.id
    → (alloc s.cids).0 ≡ some c
    → (alloc (alloc s.cids).1).0 ≡ some d
    → (t : Shared) × Reach cfg 2 s t × (length t.inst ≡ length s.inst + 2)
overcommit cfg a b s c d e x y apart first second =
    let s1 : Shared = record s { flights = checked a ∷ s.flights } in
    let s2 : Shared = record s1 { flights = checked b ∷ s1.flights } in
    let s3 : Shared = record s2 { cids = (alloc s2.cids).1; flights = holding b c ∷ s1.flights } in
    let s4 : Shared = record s3 {
      cids = (alloc s3.cids).1;
      flights = holding b c ∷ holding a d ∷ s.flights;
    } in
    let s5 : Shared = record s4 {
      inst = insert b.id (new_instance b c 0 0) s4.inst;
      flights = holding a d ∷ s.flights;
    } in
    let s6 : Shared = record s5 {
      inst = insert a.id (new_instance a d 0 0) s5.inst;
      flights = s.flights;
    } in
    (
      s6,
      later
          (later
            (later
              (later
                (later (later start (begin a (rw e (omega arith)) x))
                  (begin b (rw e (omega arith)) y))
                (grant [] s1.flights b c refl first))
              (grant (holding b c ∷ []) s.flights a d refl second))
            (commit [] (holding a d ∷ s.flights) b c 0 0 refl))
          (commit [] s.flights a d 0 0 refl),
      two_more s.inst a.id b.id (new_instance a d 0 0) (new_instance b c 0 0)
          (is_new cfg s.inst a x) (is_new cfg s.inst b y) apart,
    )
