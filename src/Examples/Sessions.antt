-- ===== src/Examples/Sessions.antt =====
-- The approval gate, the terminal session and the access checks at concrete inputs.
use sandboxed_ai_agent_orche.Prelude.{
  ℕ, ◌≡◌, refl, subst, ◌⊎◌, ◌≢◌, true, false, Option, none, some, List, [], ◌∷◌, ◌++◌, inr,
  if◌then◌else◌, ◌==◌, All, ok,
}
use sandboxed_ai_agent_orche.Prelude.Text.{Text, codes, text_eq, starts_with}
use sandboxed_ai_agent_orche.Prelude.Int.{pos}
use sandboxed_ai_agent_orche.Protocol.{Codec, ResponseFrame}
use sandboxed_ai_agent_orche.Examples.Memory.{Memory, redis}
use sandboxed_ai_agent_orche.Gate.{
  benign, sensitive, approve, reject, State, pending, approved, rejected, other_state,
  already_decided, get_failed, ApprovalRecord, Gate, classify, approval_key, audit_key, decided,
  get_record, decide_read, decide_write, decide, Poll, ticked, returned, wait_for_decision,
}
use sandboxed_ai_agent_orche.Gate.Classify.{Silent, FirstFiring, classify_cases}
use sandboxed_ai_agent_orche.Gate.Decide.{Stored, decide_twice, decide_race}
use sandboxed_ai_agent_orche.Gate.Wait.{Saw, wait_for_decision-Saw, wait_for_decision-decide}
use sandboxed_ai_agent_orche.Client.{Config, refused}
use sandboxed_ai_agent_orche.Proxy.{WsRequest, Message, answered, serve_session}
use sandboxed_ai_agent_orche.Proxy.Session.{executions, Origin, serve_session-Origin}
use sandboxed_ai_agent_orche.Database.{operator}
use sandboxed_ai_agent_orche.Access.{
  Principal, Request, granted, service_principal, presented, require_auth,
}
use sandboxed_ai_agent_orche.Access.Rules.{require_auth-granted}

-- A record by its state alone.
code_of : State → ℕ
code_of pending = 0
code_of approved = 1
code_of rejected = 2
code_of (other_state t) = 3

rest_of : State → Text
rest_of (other_state t) = t
rest_of _ = []

state_of : ℕ → Text → State
state_of n t =
    if n == 0
    then pending
    else (if n == 1 then approved else (if n == 2 then rejected else other_state t))

record_in : State → ApprovalRecord
record_in s = record {
  id = codes "ap-1";
  sandbox_id = codes "a";
  script = codes "sudo";
  reason = codes "privilege escalation";
  state = s;
  submitted_at = 5;
  decided_by = [];
  decided_at = if code_of s == 0 then none else some 6;
}

encode_record : ApprovalRecord → Text
unfolding code_of rest_of
encode_record a = code_of a.state ∷ rest_of a.state

decode_record : Text → Option ApprovalRecord
unfolding record_in state_of rest_of code_of
decode_record [] = none
decode_record (n ∷ t) = some (record_in (state_of n t))

abbrev pub json : Codec ApprovalRecord
unfolding encode_record decode_record
json = record {
  marshal = λ a. some (encode_record a);
  unmarshal = decode_record;
  IsPlain = λ a. decode_record (encode_record a) ≡ some a;
  unmarshal-marshal = λ a plain. (encode_record a, refl, plain);
}

abbrev pub gate : Gate
gate = record {
  ttl = 3600;
  rules =
      record {
        re = λ s. starts_with s (codes "sudo");
        exclude = none;
        reason = codes "privilege escalation";
      }
      ∷ [];
}

-- The request "ap-1" is there and in the given state.
pub stored : State → Memory
unfolding code_of approval_key
stored s = (
  λ k. if text_eq k (approval_key (codes "ap-1")) then some (code_of s ∷ []) else none,
  λ k. codes "ap-1" ∷ [],
)

read_approved :
    decide_read redis json gate (codes "ap-1") approve [] 6 (stored pending)
    ≡ ok (record_in approved)
unfolding decide_read decided get_record stored record_in json encode_record decode_record state_of
    rest_of code_of approval_key text_eq
read_approved = refl

read_rejected :
    decide_read redis json gate (codes "ap-1") reject [] 6 (stored pending)
    ≡ ok (record_in rejected)
unfolding decide_read decided get_record stored record_in json encode_record decode_record state_of
    rest_of code_of approval_key text_eq
read_rejected = refl

plain : (s : State) → json.IsPlain (record_in s)
unfolding json encode_record decode_record record_in state_of rest_of code_of
plain pending = refl
plain approved = refl
plain rejected = refl
plain (other_state t) = refl

read_plain :
    (rec : ApprovalRecord)
    → decide_read redis json gate (codes "ap-1") approve [] 6 (stored pending) ≡ ok rec
    → json.IsPlain rec
read_plain rec e =
    let same : record_in approved ≡ rec = cc (read_approved, e) in
    subst json.IsPlain same (plain approved)

approve_fine : (decide redis json gate (codes "ap-1") approve [] 6 (stored pending)).0 ≡ none
unfolding decide decide_write
approve_fine = rw (read_approved, decide) refl

decide_twice_example :
    let db' = (decide redis json gate (codes "ap-1") approve [] 6 (stored pending)).1 in
    (decide redis json gate (codes "ap-1") reject [] 8 db' ≡ (some already_decided, db'))
    ⊎ (decide redis json gate (codes "ap-1") reject [] 8 db' ≡ (some get_failed, db'))
decide_twice_example =
    decide_twice redis json gate (codes "ap-1") approve reject [] [] 6 8 (stored pending) read_plain
      approve_fine

decide_race_example :
    let first = decide_write redis json gate (codes "ap-1") (record_in approved) (stored pending) in
    let second = decide_write redis json gate (codes "ap-1") (record_in rejected) first.1 in
    (first.0 ≡ none)
    × (second.0 ≡ none)
    × (decided reject ≡ some (record_in rejected).state)
    × Stored redis json gate second.1 (approval_key (codes "ap-1")) (record_in rejected)
    × Stored redis json gate second.1 (audit_key (codes "ap-1")) (record_in rejected)
decide_race_example =
    decide_race redis json gate (codes "ap-1") approve reject [] [] 6 6 (stored pending)
      (record_in approved) (record_in rejected) read_approved read_rejected (plain rejected)
      (λ cs d. refl)

classify_cases_example :
    ((classify (λ s. s) gate (codes "sudo ls") ≡ (benign, []))
      × All (Silent (codes "sudo ls")) gate.rules)
    ⊎ (((classify (λ s. s) gate (codes "sudo ls")).0 ≡ sensitive)
        × FirstFiring gate.rules (codes "sudo ls") (classify (λ s. s) gate (codes "sudo ls")).1)
classify_cases_example = classify_cases (λ s. s) gate (codes "sudo ls")

abbrev polls : List (Poll Memory)
polls = ticked (stored pending) ∷ ticked (stored approved) ∷ []

still_pending : get_record redis json gate (codes "ap-1") (stored pending) ≡ ok (record_in pending)
unfolding get_record stored record_in json decode_record state_of rest_of code_of approval_key
    text_eq
still_pending = refl

seen : wait_for_decision redis json gate (codes "ap-1") polls ≡ returned approved
unfolding wait_for_decision get_record stored record_in json decode_record state_of rest_of code_of
    approval_key text_eq
seen = refl

wait_for_decision-decide_example :
    let db' = (decide redis json gate (codes "ap-1") approve [] 6 (stored pending)).1 in
    (s : State) × (decided approve ≡ some s)
    × (wait_for_decision redis json gate
          (codes "ap-1")
          ((ticked (stored pending) ∷ []) ++ (ticked db' ∷ []))
        ≡ returned s)
unfolding record_in
wait_for_decision-decide_example =
    let db' = (decide redis json gate (codes "ap-1") approve [] 6 (stored pending)).1 in
    wait_for_decision-decide redis json gate (codes "ap-1") approve [] 6 (stored pending)
      (ticked (stored pending) ∷ []) [] (db'.0 (approval_key (codes "ap-1"))) read_plain
      approve_fine (inr (record_in pending, refl, still_pending), tt) refl

wait_for_decision-Saw_example :
    (approved ≡ rejected)
    ⊎ ((approved ≢ pending) × Saw redis json gate (codes "ap-1") approved polls)
wait_for_decision-Saw_example =
    wait_for_decision-Saw redis json gate (codes "ap-1") polls approved seen

-- A frame codec that reads nothing: the session's guest answers no byte.
abbrev pub silent_codec : Codec ResponseFrame
silent_codec = record {
  marshal = λ f. none;
  unmarshal = λ t. none;
  IsPlain = λ f. ⊥;
  unmarshal-marshal = λ f e. absurd e;
}

abbrev pub client : Config
client = record {
  port = 5005;
  dial_timeout = pos 5;
  retry_max = pos 0;
  retry_base = pos 100;
  retry_cap = pos 2000;
  ping_deadline = pos 5;
}

abbrev asking : WsRequest
asking = record { script = codes "sudo ls"; timeout_sec = pos 0; env = [] }

abbrev pub message : Message Memory
message = record {
  request = some asking;
  rate = answered true;
  new_id = some (codes "ap-1");
  now = 5;
  polls = polls;
  exec_id = codes "ex-1";
  attempts = record { dial = λ n. refused; done = λ n. false };
  send_ok = true;
  ctx_done = false;
  describe = λ e. codes "vsock";
}

serve_session-Origin_example :
    All
      (λ e.
        Origin redis json silent_codec (λ s. s) gate client (codes "a") e (message ∷ message ∷ []))
      (executions
        (serve_session redis json silent_codec
          (λ s. s)
          gate
          client
          (message ∷ message ∷ [])
          (codes "a")
          (stored pending)).0)
serve_session-Origin_example =
    serve_session-Origin redis json silent_codec (λ s. s) gate client (message ∷ message ∷ [])
      (codes "a") (stored pending)

abbrev alice : Principal
alice = record { user_id = codes "u1"; username = codes "alice"; role = operator; service = false }

abbrev resolved_by : Text → Option Principal
resolved_by s = if text_eq s (codes "s1") then some alice else none

abbrev from_alice : Request
from_alice = record { cookie = codes "s1"; authorization = []; token_param = [] }

alice_passes : require_auth (codes "k") (some resolved_by) from_alice ≡ granted alice
unfolding require_auth text_eq
alice_passes = refl

require_auth-granted_example :
    ((f : Text → Option Principal) × (some resolved_by ≡ some f)
      × (from_alice.cookie ≢ [])
      × (f from_alice.cookie ≡ some alice))
    ⊎ ((codes "k" ≢ []) × (presented from_alice ≡ codes "k") × (alice ≡ service_principal))
require_auth-granted_example =
    require_auth-granted (codes "k") (some resolved_by) from_alice alice alice_passes

abbrev no_token : Text
no_token = []

abbrev no_sessions : Option (Text → Option Principal)
no_sessions = none
