-- ===== src/Gate.antt =====
-- internal/hitl/gate.go: the approval gate. Redis and encoding/json are parameters, and so is what
-- package regexp compiles a pattern to.
pub mod Classify
pub mod Decide
pub mod Wait
use Prim.Native.String.{String}
use sandboxed_ai_agent_orche.Prelude.{
  ℕ, ◌*◌, ◌≡◌, Bool, true, false, Option, none, some, List, [], ◌∷◌, ◌++◌, ◌==◌, if◌then◌else◌,
  Result, ok, err,
}
use sandboxed_ai_agent_orche.Prelude.Text.{Text, codes}
use sandboxed_ai_agent_orche.Protocol.{Codec}
use sandboxed_ai_agent_orche.Redis.{Redis, RedisError, set, sadd, srem, expire}

pub data Classification : Type 0 where
  benign sensitive : Classification

-- `Decision` is a string in the source; `unknown` is any other than the two.
pub data Decision : Type 0 where
  approve reject : Decision
  unknown : Text → Decision

-- `State` is a string in the source too: a record that is read may hold any, also none at all (the empty
-- text). `other_state` is any other than the three.
pub data State : Type 0 where
  pending approved rejected : State
  other_state : Text → State

pub data GateError : Type 0 where
  not_found already_decided id_failed submit_failed get_failed unmarshal_failed : GateError
  unknown_decision set_failed list_failed : GateError

pub record ApprovalRecord : Type 0 where
  pub id : Text
  pub sandbox_id : Text
  pub script : Text
  pub reason : Text
  pub state : State
  pub submitted_at : ℕ
  pub decided_by : Text
  pub decided_at : Option ℕ

-- MatchString of the compiled patterns.
pub record ClassifierRule : Type 0 where
  pub re : Text → Bool
  pub exclude : Option (Text → Bool)
  pub reason : Text

-- Durations are seconds here; both constants of the source are whole ones.
pub record Gate : Type 0 where
  pub ttl : ℕ
  pub rules : List ClassifierRule

abbrev pub hour : ℕ
hour = 60 * 60

abbrev pub excluded : Option (Text → Bool) → Text → Bool
excluded none s = false
excluded (some ex) s = ex s

-- The loop over the rules, on the lower-cased script.
unfoldable pub first_match : List ClassifierRule → Text → Classification × Text
first_match [] lower = (benign, [])
first_match (r ∷ rules) lower =
    let rest = first_match rules lower in
    if r.re lower then (if excluded r.exclude lower then rest else (sensitive, r.reason)) else rest

-- `to_lower` is strings.ToLower.
unfoldable pub classify : (Text → Text) → Gate → Text → Classification × Text
classify to_lower g script = first_match g.rules (to_lower script)

-- The strings of `defaultRules`: a pattern, the pattern of what it leaves alone, and the reason.
pub record RuleSpec : Type 0 where
  pub pattern_text : Text
  pub exclude_text : Text
  pub why : Text

spec : String → String → String → RuleSpec
spec p x w = record { pattern_text = codes p; exclude_text = codes x; why = codes w }

abbrev pub specs : List RuleSpec
unfolding spec
specs =
    spec "(>|tee)\\s+/" "(>|tee)\\s+/workspace" "write to system path"
    ∷ spec "\\b(cp|mv)\\s+\\S+\\s+/" "\\b(cp|mv)\\s+\\S+\\s+/workspace" "write to system path"
    ∷ spec "\\bapt(-get)?\\s+(install|remove|purge)\\b" "" "package manager (apt)"
    ∷ spec "\\bapk\\s+(add|del)\\b" "" "package manager (apk)"
    ∷ spec "\\bpip[23]?\\s+install\\b" "" "package manager (pip)"
    ∷ spec "\\bnpm\\s+install\\b" "" "package manager (npm)"
    ∷ spec "\\byum\\s+(install|remove)\\b" "" "package manager (yum)"
    ∷ spec "\\bdnf\\s+(install|remove)\\b" "" "package manager (dnf)"
    ∷ spec "\\b(curl|wget|nc|ncat|netcat|ssh|scp|rsync|ftp|sftp|telnet)\\b" "" "network tool"
    ∷ spec "\\brm\\s+-[a-z]*[rf][a-z]*\\s+/" "\\brm\\s+-[a-z]*[rf][a-z]*\\s+/workspace"
        "destructive rm on system path"
    ∷ spec "\\b(mkfs|fdisk|parted|wipefs)\\b" "" "disk operation"
    ∷ spec "\\bdd\\s+.*\\bif=\\b" "" "dd disk operation"
    ∷ spec "\\b(sudo|doas)\\b" "" "privilege escalation"
    ∷ spec "\\bsu\\s+(-\\s+)?[a-z]" "" "switch user"
    ∷ spec "\\bchmod\\s+[0-9]+\\s+/" "\\bchmod\\s+[0-9]+\\s+/workspace" "broad chmod on system path"
    ∷ spec "\\bchown\\s+(root|0)\\b" "" "chown to root"
    ∷ spec "\\b(docker|podman|nerdctl|kubectl|k3s|ctr)\\b" "" "container tool"
    ∷ spec "\\b(gcc|g\\+\\+|cc|clang|make)\\s" "" "native compilation"
    ∷ []

compile_exclude : (Text → Text → Bool) → Text → Option (Text → Bool)
compile_exclude compile [] = none
compile_exclude compile (b ∷ s) = some (compile (b ∷ s))

compile_specs : (Text → Text → Bool) → List RuleSpec → List ClassifierRule
unfolding compile_exclude
compile_specs compile [] = []
compile_specs compile (s ∷ ss) =
    record {
      re = compile s.pattern_text;
      exclude = compile_exclude compile s.exclude_text;
      reason = s.why;
    }
    ∷ compile_specs compile ss

-- `compile p s` is regexp.MustCompile(p).MatchString(s).
unfoldable pub default_rules : (Text → Text → Bool) → List ClassifierRule
unfolding compile_specs spec
default_rules compile = compile_specs compile specs

unfoldable pub new_gate : (Text → Text → Bool) → ℕ → Gate
new_gate compile ttl = record {
  ttl = if ttl == 0 then hour else ttl;
  rules = default_rules compile;
}

abbrev pub pending_set_key : Text
pending_set_key = codes "hitl:pending"

unfoldable pub approval_key : Text → Text
approval_key id = codes "hitl:approval:" ++ id

unfoldable pub audit_key : Text → Text
audit_key id = codes "hitl:audit:" ++ id

-- A marshalling error is dropped, and leaves no bytes.
abbrev pub bytes_or_empty : Option Text → Text
bytes_or_empty none = []
bytes_or_empty (some b) = b

unfoldable pub decided : Decision → Option State
decided approve = some approved
decided reject = some rejected
decided (unknown s) = none

module _ (r : Redis) (json : Codec ApprovalRecord) (g : Gate) where
  -- `new_id` is the result of `newID`, which fails if the system has no randomness.
  unfoldable pub submit : Option Text → ℕ → Text → Text → Text → r.Db → Result GateError Text × r.Db
  submit new_id now sandbox_id script reason db = elim new_id [
    | none ↦ (err id_failed, db)
    | some id ↦
        let rec : ApprovalRecord = record {
          id = id;
          sandbox_id = sandbox_id;
          script = script;
          reason = reason;
          state = pending;
          submitted_at = now;
          decided_by = [];
          decided_at = none;
        } in
        let b = bytes_or_empty (json.marshal rec) in
        let (fine, db') =
          r.exec
            (set (approval_key id) b g.ttl
              ∷ sadd pending_set_key id
              ∷ expire pending_set_key g.ttl
              ∷ [])
            db in
        (if fine then ok id else err submit_failed, db')
  ]

  unfoldable pub get_record : Text → r.Db → Result GateError ApprovalRecord
  get_record id db = elim (r.get (approval_key id) db) [
    | err e ↦ err get_failed
    | ok none ↦ err not_found
    | ok (some raw) ↦ elim (json.unmarshal raw) [ none ↦ err unmarshal_failed | some rec ↦ ok rec ]
  ]

  -- `Decide` up to its pipeline: the record that it is about to write.
  unfoldable pub decide_read : Text → Decision → Text → ℕ → r.Db → Result GateError ApprovalRecord
  decide_read id decision by now db = elim (get_record id db) [
    | err e ↦ err e
    | ok rec ↦ elim rec.state [
      | pending ↦ elim (decided decision) [
        | none ↦ err unknown_decision
        | some s ↦ ok (record rec { state = s; decided_by = by; decided_at = some now })
      ]
      | _ ↦ err already_decided
    ]
  ]

  -- The pipeline of `Decide`.
  unfoldable pub decide_write : Text → ApprovalRecord → r.Db → Option GateError × r.Db
  decide_write id rec db =
      let b = bytes_or_empty (json.marshal rec) in
      let (fine, db') =
        r.exec
          (set (approval_key id) b g.ttl
            ∷ srem pending_set_key id
            ∷ set (audit_key id) b (365 * 24 * hour)
            ∷ [])
          db in
      (if fine then none else some set_failed, db')

  unfoldable pub decide : Text → Decision → Text → ℕ → r.Db → Option GateError × r.Db
  decide id decision by now db = elim (decide_read id decision by now db) [
    | err e ↦ (some e, db)
    | ok rec ↦ decide_write id rec db
  ]

  -- The loop of `Pending`; it forgets an id whose record has expired.
  unfoldable pub collect_pending : List Text → r.Db → List ApprovalRecord × r.Db
  collect_pending [] db = ([], db)
  collect_pending (id ∷ ids) db = elim (get_record id db) [
    | err not_found ↦ collect_pending ids (r.exec (srem pending_set_key id ∷ []) db).1
    | err e ↦ collect_pending ids db
    | ok rec ↦
        let (recs, db') = collect_pending ids db in
        elim rec.state [ pending ↦ (rec ∷ recs, db') | _ ↦ (recs, db') ]
  ]

  unfoldable pub pending_records : r.Db → Result GateError (List ApprovalRecord) × r.Db
  pending_records db = elim (r.smembers pending_set_key db) [
    | err e ↦ (err list_failed, db)
    | ok ids ↦ let (recs, db') = collect_pending ids db in (ok recs, db')
  ]

-- What the `select` of `WaitForDecision` meets next: the ticker, with the database at that moment,
-- or the end of the context.
pub data Poll (Db : Type 0) : Type 0 where
  ticked : Db → Poll Db
  done : Poll Db

pub data WaitResult : Type 0 where
  waiting cancelled : WaitResult
  returned : State → WaitResult

module _ (r : Redis) (json : Codec ApprovalRecord) (g : Gate) where
  -- `waiting` means that the events given are used up and the loop still runs.
  unfoldable pub wait_for_decision : Text → List (Poll r.Db) → WaitResult
  wait_for_decision id [] = waiting
  wait_for_decision id (done ∷ polls) = cancelled
  wait_for_decision id (ticked db ∷ polls) =
      let rest = wait_for_decision id polls in
      elim (get_record r json g id db) [
        | err not_found ↦ returned rejected
        | err e ↦ rest
        | ok rec ↦ elim rec.state [ pending ↦ rest | s ↦ returned s ]
      ]
