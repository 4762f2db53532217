-- ===== src/Gate/Wait.antt =====
-- `WaitForDecision` of internal/hitl/gate.go.
use sandboxed_ai_agent_orche.Prelude.{
  ℕ, ◌≡◌, ◌≢◌, ◌⊎◌, inl, inr, ◌∙◌, Option, none, some, List, [], ◌∷◌, ◌++◌, arith, ok, err, All,
  refl, Result-cases,
}
use sandboxed_ai_agent_orche.Prelude.Text.{Text}
use sandboxed_ai_agent_orche.Protocol.{Codec}
use sandboxed_ai_agent_orche.Redis.{Redis}
use sandboxed_ai_agent_orche.Gate.{
  State, pending, approved, rejected, other_state, Decision, approve, reject, unknown, decided,
  decide, decide_read, approval_key, GateError, not_found, ApprovalRecord, Gate, get_record, Poll,
  ticked, done, returned, wait_for_decision,
}
use sandboxed_ai_agent_orche.Gate.Decide.{Stored, decide-Stored}

module _ (r : Redis) (json : Codec ApprovalRecord) (g : Gate) where
  -- Some poll saw the record of `id` in the state `s`.
  pub data Saw (id : Text) (s : State) : List (Poll r.Db) → Type 0 where
    here :
        (db : r.Db) (rec : ApprovalRecord) (polls : List (Poll r.Db))
        → get_record r json g id db ≡ ok rec
        → rec.state ≡ s
        → Saw id s (ticked db ∷ polls)
    later : (p : Poll r.Db) (polls : List (Poll r.Db)) → Saw id s polls → Saw id s (p ∷ polls)

  state_cases : (s : State) → (s ≡ pending) ⊎ (s ≢ pending)
  state_cases pending = inl refl
  state_cases approved = inr (λ e. cc e)
  state_cases rejected = inr (λ e. cc e)
  state_cases (other_state t) = inr (λ e. cc e)

  tick_cases :
      (id : Text) (db : r.Db) (polls : List (Poll r.Db))
      → (wait_for_decision r json g id (ticked db ∷ polls) ≡ returned rejected)
        ⊎ ((rec : ApprovalRecord) × (wait_for_decision r json g id (ticked db ∷ polls)
              ≡ returned rec.state)
            × (get_record r json g id db ≡ ok rec)
            × (rec.state ≢ pending))
        ⊎ (wait_for_decision r json g id (ticked db ∷ polls) ≡ wait_for_decision r json g id polls)
  unfolding wait_for_decision
  tick_cases id db polls = elim (Result-cases (get_record r json g id db)) [
    | inr (not_found, e) ↦ inl (ground (arith, e))
    | inr (x, e) ↦ ground (arith, e)
    | inl (rec, e) ↦ elim (state_cases rec.state) [
      | inl p ↦ inr (inr (ground (arith, e, p)))
      | inr n ↦ inr (inl (rec, ground (arith, e, n), e, n))
    ]
  ]

  -- Waiting ends with `rejected`, or with a state other than `pending` that a poll has read in the record
  -- of the id: a record that has expired, an unreadable one and a cancelled context approve nothing. The
  -- state need not be `approved` or `rejected`: one that is neither is returned as it was read.
  pub wait_for_decision-Saw :
      (id : Text) (polls : List (Poll r.Db)) (s : State)
      → wait_for_decision r json g id polls ≡ returned s
      → (s ≡ rejected) ⊎ ((s ≢ pending) × Saw id s polls)
  unfolding wait_for_decision
  wait_for_decision-Saw id [] s e = absurd (cc)
  wait_for_decision-Saw id (done ∷ polls) s e = absurd (cc)
  wait_for_decision-Saw id (ticked db ∷ polls) s e = elim (tick_cases id db polls) [
    | inl p ↦ inl (ground arith)
    | inr (inl (rec, p, q, n)) ↦
        let same : rec.state ≡ s = ground (arith, e, p) in
        inr (λ z. n (same ∙ z), here db rec polls q same)
    | inr (inr p) ↦ elim (wait_for_decision-Saw id polls s (cc)) [
      | inl x ↦ inl x
      | inr (x, saw) ↦ inr (x, later (ticked db) polls saw)
    ]
  ]

  -- A poll that settles nothing: the read failed other than by a missing record, or the record is still
  -- pending.
  abbrev pub Idle : Text → Poll r.Db → Type 0
  Idle id done = ⊥
  Idle id (ticked db) =
      ((x : GateError) × (x ≢ not_found) × (get_record r json g id db ≡ err x))
      ⊎ ((rec : ApprovalRecord) × (rec.state ≡ pending) × (get_record r json g id db ≡ ok rec))

  Idle-tick :
      (id : Text) (db : r.Db) (polls : List (Poll r.Db))
      → Idle id (ticked db)
      → wait_for_decision r json g id (ticked db ∷ polls) ≡ wait_for_decision r json g id polls
  unfolding wait_for_decision
  Idle-tick id db polls (inl (x, n, e)) = ground (arith, e, n)
  Idle-tick id db polls (inr (rec, p, e)) = ground (arith, e, p)

  settled_tick :
      (id : Text) (db : r.Db) (rec : ApprovalRecord) (polls : List (Poll r.Db))
      → rec.state ≢ pending
      → get_record r json g id db ≡ ok rec
      → wait_for_decision r json g id (ticked db ∷ polls) ≡ returned rec.state
  unfolding wait_for_decision
  settled_tick id db rec polls n e = ground (arith, e)

  wait_settled :
      (id : Text) (before after : List (Poll r.Db)) (db : r.Db) (rec : ApprovalRecord)
      → All (Idle id) before
      → rec.state ≢ pending
      → get_record r json g id db ≡ ok rec
      → wait_for_decision r json g id (before ++ (ticked db ∷ after)) ≡ returned rec.state
  wait_settled id [] after db rec h n e = settled_tick id db rec after n e
  wait_settled id (done ∷ before) after db rec h n e = absurd h.0
  wait_settled id (ticked x ∷ before) after db rec h n e =
      Idle-tick id x (before ++ (ticked db ∷ after)) h.0
      ∙ wait_settled id before after db rec h.1 n e

  decided_settled : (dec : Decision) (s : State) → decided dec ≡ some s → s ≢ pending
  unfolding decided
  decided_settled approve s e z = absurd (cc (e, z))
  decided_settled reject s e z = absurd (cc (e, z))
  decided_settled (unknown t) s e z = absurd (cc e)

  read-Stored :
      (id : Text) (db : r.Db) (rec : ApprovalRecord) (o : Option Text)
      → Stored r json g db (approval_key id) rec
      → r.get (approval_key id) db ≡ ok o
      → get_record r json g id db ≡ ok rec
  unfolding get_record
  read-Stored id db rec o (raw, v, u) e =
      ground (arith, e, u, r.get-value (approval_key id) db o e, v)

  -- A decision that is accepted ends the wait for it: when polls that settle nothing are followed by one
  -- that reads, without an error, the database that an accepted decision of a plain record has left,
  -- `WaitForDecision` returns what was decided, whatever comes after.
  pub wait_for_decision-decide :
      (id : Text) (dec : Decision) (by : Text) (now : ℕ) (db : r.Db)
      (before after : List (Poll r.Db)) (o : Option Text)
      → ((rec : ApprovalRecord) → decide_read r json g id dec by now db ≡ ok rec → json.IsPlain rec)
      → (decide r json g id dec by now db).0 ≡ none
      → All (Idle id) before
      → r.get (approval_key id) (decide r json g id dec by now db).1 ≡ ok o
      → (s : State) × (decided dec ≡ some s)
        × (wait_for_decision r json g id
              (before ++ (ticked (decide r json g id dec by now db).1 ∷ after))
            ≡ returned s)
  wait_for_decision-decide id dec by now db before after o plain fine idle reads =
      let db' = (decide r json g id dec by now db).1 in
      let (rec, verdict, stored, audited, left) =
        decide-Stored r json g id dec by now db plain fine in
      (
        rec.state,
        verdict,
        wait_settled id before after db' rec idle (decided_settled dec rec.state verdict)
            (read-Stored id db' rec o stored reads),
      )
