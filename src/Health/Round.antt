-- ===== src/Health/Round.antt =====
-- What a round of `healthLoop` and the end of `main` in cmd/controlplane/main.go leave.
use sandboxed_ai_agent_orche.Prelude.{
  ℕ, ◌≡◌, refl, ap, ◌∙◌, sym, subst, inl, inr, Bool, true, false, Option, none, some, List, [], ◌∷◌,
  arith, if◌then◌else◌, ok, ◌⊎◌, Result-cases, Option-cases, Bool-cases, Holds,
}
use sandboxed_ai_agent_orche.Prelude.Text.{Text, text_eq, text_eq_iff, text_eq_refl}
use sandboxed_ai_agent_orche.Prelude.Table.{Table, lookup, lookup-erase, NoRepeat, Entries}
use sandboxed_ai_agent_orche.Redis.{Redis, is_some, set}
use sandboxed_ai_agent_orche.Records.{beat_key, heartbeat, alive}
use sandboxed_ai_agent_orche.Records.Keys.{beat_key_eq}
use sandboxed_ai_agent_orche.Supervisor.{
  Instance, Config, World, get, instances, terminate, reap_loop, reap_dead,
}
use sandboxed_ai_agent_orche.Health.{beat_all, health_round}

-- Every sandbox is tracked once, under its own id.
abbrev pub Tracked : Table Instance → Type 0
Tracked m = NoRepeat m × Entries (λ k i. i.id ≡ k) m

lookup-terminate :
    (cfg : Config) (w : World) (id j : Text)
    → lookup j (terminate cfg w id).1.inst ≡ (if text_eq id j then none else lookup j w.inst)
unfolding terminate
lookup-terminate cfg w id j = elim (Option-cases (lookup id w.inst)) [
  | inr (i, e) ↦ rw (e, terminate) (lookup-erase id j w.inst)
  | inl e ↦
      rw (e, terminate)
        (elim (Bool-cases (text_eq id j)) [
          | inr q ↦ rw q refl
          | inl q ↦ rw q (subst (λ (k : Text). lookup k w.inst ≡ none) ((text_eq_iff id j).0 q) e)
        ])
]

-- Some sandbox of the list has the id and a dead process.
abbrev pub dead_in : (ℕ → Bool) → Text → List Instance → Bool
dead_in lives id [] = false
dead_in lives id (i ∷ is) =
    if text_eq i.id id
    then (if lives i.pid then dead_in lives id is else true)
    else dead_in lives id is

pub reap_loop_lem :
    (cfg : Config) (lives : ℕ → Bool) (is : List Instance) (w : World) (id : Text)
    → lookup id (reap_loop cfg lives is w).1.inst
      ≡ (if dead_in lives id is then none else lookup id w.inst)
unfolding reap_loop
reap_loop_lem cfg lives [] w id = refl
reap_loop_lem cfg lives (i ∷ is) w id = elim (Bool-cases (lives i.pid)) [
  | inl e ↦ ground (arith, e, reap_loop_lem cfg lives is w id)
  | inr e ↦ ground (
    arith,
    e,
    reap_loop_lem cfg lives is (terminate cfg w i.id).1 id,
    lookup-terminate cfg w i.id id,
  )
]

-- What is left of a sandbox.
abbrev pub survivor : (ℕ → Bool) → Option Instance → Option Instance
survivor lives none = none
survivor lives (some i) = if lives i.pid then some i else none

not_dead :
    (lives : ℕ → Bool) (id : Text) (m : Table Instance)
    → lookup id m ≡ none
    → Entries (λ k i. i.id ≡ k) m
    → dead_in lives id (instances m) ≡ false
unfolding lookup
not_dead lives id [] e h = refl
not_dead lives id ((k, i) ∷ m) e h =
    let same = ap (λ (x : Text). text_eq x id) h.0 in ground (arith, e, same, not_dead lives id m)

pub dead_in-Tracked :
    (lives : ℕ → Bool) (id : Text) (m : Table Instance)
    → Tracked m
    → (if dead_in lives id (instances m) then none else lookup id m) ≡ survivor lives (lookup id m)
unfolding lookup
dead_in-Tracked lives id [] h = refl
dead_in-Tracked lives id ((k, i) ∷ m) ((new, rest), (key, keys)) =
    let same = ap (λ (x : Text). text_eq x id) key in
    elim (Bool-cases (text_eq k id)) [
      | inr q ↦ ground (arith, q, same, dead_in-Tracked lives id m (rest, keys))
      | inl q ↦
          let none_left : lookup id m ≡ none =
            subst (λ (j : Text). lookup j m ≡ none) ((text_eq_iff k id).0 q) new in
          ground (arith, q, same, not_dead lives id m none_left keys)
    ]

entry_id :
    (id : Text) (i : Instance) (m : Table Instance)
    → Entries (λ k i. i.id ≡ k) m
    → lookup id m ≡ some i
    → i.id ≡ id
unfolding lookup
entry_id id i [] h e = absurd (cc e)
entry_id id i ((k, x) ∷ m) h e = elim (Bool-cases (text_eq k id)) [
  | inl q ↦
      let same : x ≡ i = ground (arith, e, q) in
      ap (λ (y : Instance). y.id) (sym same) ∙ h.0 ∙ (text_eq_iff k id).0 q
  | inr q ↦ entry_id id i m h.1 (ground (arith, e, q))
]

own_id :
    (lives : ℕ → Bool) (id : Text) (i : Instance) (m : Table Instance)
    → Entries (λ k i. i.id ≡ k) m
    → survivor lives (lookup id m) ≡ some i
    → i.id ≡ id
own_id lives id i m h e = elim (Option-cases (lookup id m)) [
  | inl q ↦ absurd (ground (arith, e, q))
  | inr (x, q) ↦
      let same : x ≡ i = ground (arith, e, q) in
      ap (λ (y : Instance). y.id) (sym same) ∙ entry_id id x m h q
]

reap_dead_lem :
    (cfg : Config) (lives : ℕ → Bool) (w : World) (id : Text)
    → Tracked w.inst
    → get (reap_dead cfg lives w).1 id ≡ survivor lives (get w id)
unfolding get reap_dead
reap_dead_lem cfg lives w id h =
    reap_loop_lem cfg lives (instances w.inst) w id ∙ dead_in-Tracked lives id w.inst h

module _ (r : Redis) (stamp : Text) (ttl : ℕ) where
  -- Every heartbeat of the list is written.
  abbrev pub AllBeat : List Instance → r.Db → Type 0
  AllBeat [] db = Unit
  AllBeat (i ∷ is) db =
      ((heartbeat r i.id stamp ttl db).0 ≡ none) × AllBeat is (heartbeat r i.id stamp ttl db).1

  beat_value :
      (id j : Text) (db : r.Db)
      → (heartbeat r id stamp ttl db).0 ≡ none
      → r.value (heartbeat r id stamp ttl db).1 (beat_key j)
        ≡ (if text_eq id j then some stamp else r.value db (beat_key j))
  unfolding heartbeat
  beat_value id j db e =
      let fine : (r.exec (set (beat_key id) stamp ttl ∷ []) db).0 ≡ true = ground arith in
      r.exec-value (set (beat_key id) stamp ttl ∷ []) db (beat_key j) fine
      ∙ rw (beat_key_eq id j) refl

  beat_all_keeps :
      (is : List Instance) (id : Text) (db : r.Db)
      → AllBeat is db
      → is_some (r.value db (beat_key id)) ≡ true
      → is_some (r.value (beat_all r stamp ttl is db) (beat_key id)) ≡ true
  unfolding beat_all
  beat_all_keeps [] id db h e = e
  beat_all_keeps (i ∷ is) id db h e = beat_all_keeps is id (heartbeat r i.id stamp ttl db).1 h.1 (
      ap is_some (beat_value i.id id db h.0)
      ∙ (elim (Bool-cases (text_eq i.id id)) [ inl q ↦ rw q refl | inr q ↦ rw q e ]))

  beat_all_covers :
      (is : List Instance) (i : Instance) (db : r.Db)
      → Holds i is
      → AllBeat is db
      → is_some (r.value (beat_all r stamp ttl is db) (beat_key i.id)) ≡ true
  unfolding beat_all
  beat_all_covers [] i db k h = absurd k
  beat_all_covers (x ∷ is) i db (inr k) h =
      beat_all_covers is i (heartbeat r x.id stamp ttl db).1 k h.1
  beat_all_covers (x ∷ is) i db (inl e) h =
      beat_all_keeps is i.id (heartbeat r x.id stamp ttl db).1 h.1
        (ap is_some (beat_value x.id i.id db h.0) ∙ rw e (rw (text_eq_refl x.id) refl))

  Holds-instances :
      (id : Text) (i : Instance) (m : Table Instance) → lookup id m ≡ some i → Holds i (instances m)
  unfolding lookup
  Holds-instances id i [] e = absurd (cc e)
  Holds-instances id i ((k, x) ∷ m) e = elim (Bool-cases (text_eq k id)) [
    | inl q ↦ inl (ground (arith, e, q))
    | inr q ↦ inr (Holds-instances id i m (ground (arith, e, q)))
  ]

  -- A round of the health loop, for sandboxes that are tracked once and under their own ids: just
  -- those whose process is alive are still tracked, unchanged, and when the heartbeats are written
  -- and the look at it returns no error, each of them counts as alive in the store.
  pub health_round_lem :
      (cfg : Config) (lives : ℕ → Bool) (w : World) (db : r.Db) (id : Text) (b : Bool)
      → Tracked w.inst
      → let (dead, w', db') = health_round r cfg lives stamp ttl (w, db) in
        AllBeat (instances w'.inst) db
        → alive r id db' ≡ ok b
        → (get w' id ≡ survivor lives (get w id)) × ((get w' id ≡ none) ⊎ (b ≡ true))
  unfolding health_round alive get
  health_round_lem cfg lives w db id b tracked beats look =
      let left = reap_dead_lem cfg lives w id tracked in
      let w' = (reap_dead cfg lives w).1 in
      let db' = beat_all r stamp ttl (instances w'.inst) db in
      (
        left,
        elim (Option-cases (get w' id)) [
          | inl q ↦ inl q
          | inr (i, q) ↦
              let key = own_id lives id i w.inst tracked.1 (sym left ∙ q) in
              let here = Holds-instances id i w'.inst q in
              let beaten = beat_all_covers (instances w'.inst) i db here beats in
              elim (Result-cases (r.exists (beat_key id) db')) [
                | inr (x, k) ↦ absurd (ground (arith, k))
                | inl (seen, k) ↦
                    let same : seen ≡ b = ground (arith, k) in
                    inr (
                      sym same
                      ∙ r.exists-value (beat_key id) db' seen k
                      ∙ subst (λ (j : Text). is_some (r.value db' (beat_key j)) ≡ true) key beaten)
              ]
        ],
      )
