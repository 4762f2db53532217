-- ===== src/Access.antt =====
-- Who may do what over HTTP: the principal of internal/auth/auth.go, `requireAuth` and
-- `decideApproval` of internal/gateway/api.go, and `authorizeSandbox` of
-- internal/gateway/sandbox_api.go. The database's answers are arguments.
pub mod Rules
use sandboxed_ai_agent_orche.Prelude.{
  ℕ, ◌≡◌, Bool, true, false, ◌&&◌, ◌||◌, not, Option, none, some, List, [], ◌∷◌, ◌++◌,
  if◌then◌else◌, is_empty, length, drop, Result, ok, err,
}
use sandboxed_ai_agent_orche.Prelude.Text.{Text, codes, text_eq, starts_with}
use sandboxed_ai_agent_orche.Protocol.{Codec}
use sandboxed_ai_agent_orche.Redis.{Redis}
use sandboxed_ai_agent_orche.Database.{Role, admin, other_role, Sandbox}
use sandboxed_ai_agent_orche.Gate.{
  Decision, approve, reject, unknown, GateError, not_found, already_decided, ApprovalRecord, Gate,
  decide,
}

pub record Principal : Type 0 where
  pub user_id : Text
  pub username : Text
  pub role : Role
  pub service : Bool

unfoldable pub is_admin : Principal → Bool
is_admin p = p.service || (elim p.role [ admin ↦ true | _ ↦ false ])

-- strings.TrimPrefix
unfoldable pub trim_prefix : Text → Text → Text
trim_prefix s p = if starts_with s p then drop (length p) s else s

-- What a request brings. The empty text stands for a header, a cookie or a parameter that is missing.
pub record Request : Type 0 where
  pub cookie : Text
  pub authorization : Text
  pub token_param : Text

-- How a request passes: on with a principal, on without one, or 401.
pub data Access : Type 0 where
  granted : Principal → Access
  open_mode unauthorized : Access

abbrev pub service_principal : Principal
service_principal = record {
  user_id = [];
  username = codes "service";
  role = admin;
  service = true;
}

-- The bearer header, or else the query parameter.
unfoldable pub presented : Request → Text
presented r =
    let tok = trim_prefix r.authorization (codes "Bearer ") in
    if is_empty tok then r.token_param else tok

unfoldable pub token_access : Text → Request → Access
unfolding presented
token_access token r =
    if not (is_empty token) && (not (is_empty (presented r)) && text_eq (presented r) token)
    then granted service_principal
    else unauthorized

-- `requireAuth` with the API token and, when there is a session store, its `Resolve`.
unfoldable pub require_auth : Text → Option (Text → Option Principal) → Request → Access
unfolding token_access
require_auth token none r = if is_empty token then open_mode else token_access token r
require_auth token (some resolve) r =
    if is_empty r.cookie
    then token_access token r
    else (elim (resolve r.cookie) [ some p ↦ granted p | none ↦ token_access token r ])

pub data Lookup : Type 0 where
  missing failed : Lookup
  found : Sandbox → Lookup

pub data Verdict : Type 0 where
  allowed : Sandbox → Verdict
  refused : ℕ → Verdict

-- `auth.FromContext`, with the zero principal when there is none.
abbrev pub principal_of : Access → Principal
principal_of (granted p) = p
principal_of _ = record { user_id = []; username = []; role = other_role []; service = false }

-- `authorizeSandbox`: the sandbox, or the status of the answer.
unfoldable pub authorize_sandbox : Principal → Lookup → Verdict
unfolding is_admin
authorize_sandbox p missing = refused 404
authorize_sandbox p failed = refused 500
authorize_sandbox p (found sb) =
    if not (is_admin p) && (not (is_empty sb.owner_id) && not (text_eq sb.owner_id p.user_id))
    then refused 403
    else allowed sb

-- The name under which a decision is recorded.
unfoldable pub decided_by : Access → Text
decided_by (granted p) = if is_empty p.username then codes "anonymous" else p.username
decided_by _ = codes "anonymous"

abbrev pub status_of : Option GateError → ℕ
status_of none = 204
status_of (some not_found) = 404
status_of (some already_decided) = 409
status_of (some e) = 500

abbrev pub is_known : Decision → Bool
is_known (unknown s) = false
is_known _ = true

module _ (r : Redis) (json : Codec ApprovalRecord) (g : Gate) where
  -- `decideApproval`: the status and the database. `body` is `none` when the body is no JSON.
  unfoldable pub decide_approval : Access → Text → Option Decision → ℕ → r.Db → ℕ × r.Db
  unfolding decided_by
  decide_approval access id body now db = if is_empty id then (400, db) else (elim body [
    | none ↦ (400, db)
    | some d ↦
        if is_known d
        then (let (e, db') = decide r json g id d (decided_by access) now db in (status_of e, db'))
        else (400, db)
  ])
