-- ===== src/Gate/Decide.antt =====
-- Submitting and deciding approvals, internal/hitl/gate.go.
use sandboxed_ai_agent_orche.Prelude.{
  ℕ, ◌*◌, ◌≡◌, refl, ◌∙◌, ◌≢◌, ◌⊎◌, inl, inr, true, false, Option, none, some, List, [], ◌∷◌, arith,
  ok, err, Result-cases,
}
use sandboxed_ai_agent_orche.Prelude.Text.{Text, text_eq, text_eq_refl}
use sandboxed_ai_agent_orche.Protocol.{Codec}
use sandboxed_ai_agent_orche.Redis.{Redis, RedisCommand, set, sadd, srem, expire}
use sandboxed_ai_agent_orche.Gate.{
  Decision, approve, reject, unknown, pending, already_decided, get_failed, ApprovalRecord, Gate,
  hour, approval_key, audit_key, pending_set_key, bytes_or_empty, decided, submit, get_record,
  decide_read, decide_write, decide,
}

keys_differ : (id j : Text) → text_eq (audit_key id) (approval_key j) ≡ false
unfolding audit_key approval_key text_eq
keys_differ id j = refl

module _ (r : Redis) (json : Codec ApprovalRecord) (g : Gate) where
  -- The record under a key is `rec`.
  abbrev pub Stored : r.Db → Text → ApprovalRecord → Type 0
  Stored db key rec = (raw : Text) × (r.value db key ≡ some raw) × (json.unmarshal raw ≡ some rec)

  get_record-Stored :
      (id : Text) (db : r.Db) (rec : ApprovalRecord)
      → Stored db (approval_key id) rec
      → (get_record r json g id db ≡ ok rec) ⊎ (get_record r json g id db ≡ err get_failed)
  unfolding get_record
  get_record-Stored id db rec (raw, v, u) = elim (Result-cases (r.get (approval_key id) db)) [
    | inl (o, e) ↦ inl (ground (arith, r.get-value (approval_key id) db o e))
    | inr (x, e) ↦ inr (ground arith)
  ]

  decide_write-Stored :
      (id : Text) (rec : ApprovalRecord) (db : r.Db)
      → json.IsPlain rec
      → (decide_write r json g id rec db).0 ≡ none
      → Stored (decide_write r json g id rec db).1 (approval_key id) rec
        × Stored (decide_write r json g id rec db).1 (audit_key id) rec
        × (r.member (decide_write r json g id rec db).1 pending_set_key id ≡ false)
  unfolding decide_write
  decide_write-Stored id rec db plain e =
      let (raw, m, u) = json.unmarshal-marshal rec plain in
      let b = bytes_or_empty (json.marshal rec) in
      let cmds =
        set (approval_key id) b g.ttl
        ∷ srem pending_set_key id
        ∷ set (audit_key id) b (365 * 24 * hour)
        ∷ [] in
      let fine : (r.exec cmds db).0 ≡ true = ground arith in
      let same = text_eq_refl (approval_key id) in
      let same' = text_eq_refl (audit_key id) in
      (
        (
          raw,
          r.exec-value cmds db (approval_key id) fine ∙ ground (arith, keys_differ id id, same, m),
          u,
        ),
        (raw, r.exec-value cmds db (audit_key id) fine ∙ ground (arith, same', m), u),
        r.exec-member cmds db pending_set_key id fine
            ∙ ground (arith, text_eq_refl pending_set_key, text_eq_refl id),
      )

  decide_read-state :
      (id : Text) (dec : Decision) (by : Text) (now : ℕ) (db : r.Db) (rec : ApprovalRecord)
      → decide_read r json g id dec by now db ≡ ok rec
      → (decided dec ≡ some rec.state) × (rec.state ≢ pending)
  unfolding decide_read decided
  decide_read-state id approve by now db rec e = ground arith
  decide_read-state id reject by now db rec e = ground arith
  decide_read-state id (unknown s) by now db rec e = ground arith

  decide_read-decided :
      (id : Text) (dec : Decision) (by : Text) (now : ℕ) (db : r.Db) (rec : ApprovalRecord)
      → Stored db (approval_key id) rec
      → rec.state ≢ pending
      → (decide_read r json g id dec by now db ≡ err already_decided)
        ⊎ (decide_read r json g id dec by now db ≡ err get_failed)
  unfolding decide_read
  decide_read-decided id dec by now db rec s n = ground (arith, get_record-Stored id db rec s)

  decide-cases :
      (id : Text) (dec : Decision) (by : Text) (now : ℕ) (db : r.Db)
      → (decide r json g id dec by now db).0 ≡ none
      → (rec : ApprovalRecord) × (decide_read r json g id dec by now db ≡ ok rec)
        × (decide r json g id dec by now db ≡ decide_write r json g id rec db)
  unfolding decide
  decide-cases id dec by now db e = elim (Result-cases (decide_read r json g id dec by now db)) [
    | inl (rec, q) ↦ (rec, q, rw (q, decide))
    | inr (x, q) ↦ absurd (ground arith)
  ]

  refused :
      (id : Text) (dec : Decision) (by : Text) (now : ℕ) (db : r.Db) (rec : ApprovalRecord)
      → Stored db (approval_key id) rec
      → rec.state ≢ pending
      → (decide r json g id dec by now db ≡ (some already_decided, db))
        ⊎ (decide r json g id dec by now db ≡ (some get_failed, db))
  unfolding decide
  refused id dec by now db rec s n = ground (arith, decide_read-decided id dec by now db rec s n)

  decide_write-none :
      (id : Text) (rec : ApprovalRecord) (db : r.Db)
      → ((cs : List RedisCommand) (d : r.Db) → (r.exec cs d).0 ≡ true)
      → (decide_write r json g id rec db).0 ≡ none
  unfolding decide_write
  decide_write-none id rec db steady = rw steady

  -- A decision that was accepted is what the approval record and the audit entry both hold, and the
  -- id has left the pending set.
  pub decide-Stored :
      (id : Text) (dec : Decision) (by : Text) (now : ℕ) (db : r.Db)
      → ((rec : ApprovalRecord) → decide_read r json g id dec by now db ≡ ok rec → json.IsPlain rec)
      → (decide r json g id dec by now db).0 ≡ none
      → let db' = (decide r json g id dec by now db).1 in
        (rec : ApprovalRecord) × (decided dec ≡ some rec.state)
        × Stored db' (approval_key id) rec
        × Stored db' (audit_key id) rec
        × (r.member db' pending_set_key id ≡ false)
  decide-Stored id dec by now db plain e =
      let (rec, q, w) = decide-cases id dec by now db e in
      let (a, b, c) = decide_write-Stored id rec db (plain rec q) (rw w at e) in
      (rec, (decide_read-state id dec by now db rec q).0, rw w a, rw w b, rw w c)

  -- One decision after another: once a decision was accepted, every later one is refused, whatever
  -- it says, and changes nothing. The answer is `ErrAlreadyDecided` unless the read itself fails.
  pub decide_twice :
      (id : Text) (dec dec' : Decision) (by by' : Text) (now now' : ℕ) (db : r.Db)
      → ((rec : ApprovalRecord) → decide_read r json g id dec by now db ≡ ok rec → json.IsPlain rec)
      → (decide r json g id dec by now db).0 ≡ none
      → let db' = (decide r json g id dec by now db).1 in
        (decide r json g id dec' by' now' db' ≡ (some already_decided, db'))
        ⊎ (decide r json g id dec' by' now' db' ≡ (some get_failed, db'))
  decide_twice id dec dec' by by' now now' db plain e =
      let (rec, q, w) = decide-cases id dec by now db e in
      let (a, _, _) = decide_write-Stored id rec db (plain rec q) (rw w at e) in
      let n = (decide_read-state id dec by now db rec q).1 in
      rw w (refused id dec' by' now' (decide_write r json g id rec db).1 rec a n)

  -- Two decisions at the same time: if both have read the record before either writes, both are
  -- accepted when their pipelines succeed, and what is left in the record and in the audit entry is
  -- the later write alone. The first decision is lost, although its caller got no error.
  pub decide_race :
      (id : Text) (dec dec' : Decision) (by by' : Text) (now now' : ℕ) (db : r.Db)
      (rec rec' : ApprovalRecord)
      → decide_read r json g id dec by now db ≡ ok rec
      → decide_read r json g id dec' by' now' db ≡ ok rec'
      → json.IsPlain rec'
      → ((cs : List RedisCommand) (d : r.Db) → (r.exec cs d).0 ≡ true)
      → let first = decide_write r json g id rec db in
        let second = decide_write r json g id rec' first.1 in
        (first.0 ≡ none)
        × (second.0 ≡ none)
        × (decided dec' ≡ some rec'.state)
        × Stored second.1 (approval_key id) rec'
        × Stored second.1 (audit_key id) rec'
  decide_race id dec dec' by by' now now' db rec rec' q q' plain steady =
      let first = decide_write-none id rec db steady in
      let second = decide_write-none id rec' (decide_write r json g id rec db).1 steady in
      let (a, b, _) =
        decide_write-Stored id rec' (decide_write r json g id rec db).1 plain second in
      (first, second, (decide_read-state id dec' by' now' db rec' q').0, a, b)

  -- A submission that was accepted has left a pending record of the script under its id, and the id
  -- in the pending set, from where an operator finds it.
  pub submit-Stored :
      (new_id : Option Text) (now : ℕ) (sandbox script reason id : Text) (db : r.Db)
      → ((rec : ApprovalRecord) → json.IsPlain rec)
      → (submit r json g new_id now sandbox script reason db).0 ≡ ok id
      → let db' = (submit r json g new_id now sandbox script reason db).1 in
        (rec : ApprovalRecord) × (rec.state ≡ pending)
        × (rec.script ≡ script)
        × (rec.sandbox_id ≡ sandbox)
        × Stored db' (approval_key id) rec
        × (r.member db' pending_set_key id ≡ true)
  unfolding submit
  submit-Stored none now sandbox script reason id db plain e = absurd (cc)
  submit-Stored (some new) now sandbox script reason id db plain e =
      let rec : ApprovalRecord = record {
        id = new;
        sandbox_id = sandbox;
        script = script;
        reason = reason;
        state = pending;
        submitted_at = now;
        decided_by = [];
        decided_at = none;
      } in
      let (raw, m, u) = json.unmarshal-marshal rec (plain rec) in
      let cmds =
        set (approval_key new) (bytes_or_empty (json.marshal rec)) g.ttl
        ∷ sadd pending_set_key new
        ∷ expire pending_set_key g.ttl
        ∷ [] in
      let fine : (r.exec cmds db).0 ≡ true = ground arith in
      let same : new ≡ id = ground arith in
      (
        rec,
        refl,
        refl,
        refl,
        rw (← same) (
          raw,
          r.exec-value cmds db (approval_key new) fine
              ∙ ground (arith, text_eq_refl (approval_key new), m),
          u,
        ),
        rw (← same) (
            r.exec-member cmds db pending_set_key new fine
            ∙ ground (arith, text_eq_refl pending_set_key, text_eq_refl new)),
      )
