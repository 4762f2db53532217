-- ===== src/Access/Rules.antt =====
-- What the access checks of internal/gateway let through.
use sandboxed_ai_agent_orche.Prelude.{
  ℕ, ◌≡◌, refl, ap, sym, ◌∙◌, subst, ◌≢◌, ◌↔◌, ◌⊎◌, inl, inr, Bool, true, not, ◌&&◌, Option, none,
  some, [], ◌∷◌, arith, if◌then◌else◌, is_empty, Bool-cases, Option-cases,
}
use sandboxed_ai_agent_orche.Prelude.Text.{Text, text_eq, text_eq_iff}
use sandboxed_ai_agent_orche.Database.{Sandbox}
use sandboxed_ai_agent_orche.Access.{
  Principal, is_admin, Request, Access, granted, open_mode, service_principal, presented,
  token_access, require_auth, Lookup, missing, failed, found, Verdict, allowed, refused,
  authorize_sandbox, decided_by, status_of, is_known, decide_approval,
}
use sandboxed_ai_agent_orche.Protocol.{Codec}
use sandboxed_ai_agent_orche.Redis.{Redis}
use sandboxed_ai_agent_orche.Gate.{Decision, ApprovalRecord, Gate, decide}

token_access_cases :
    (token : Text) (r : Request) (p : Principal)
    → token_access token r ≡ granted p
    → (token ≢ []) × (presented r ≡ token) × (p ≡ service_principal)
unfolding token_access
token_access_cases token r p e = ground (arith, text_eq_iff (presented r) token)

-- A request passes as `p` only on a session that resolves to `p`, or with the API token, which is set
-- and which it presents exactly; then it passes as the service.
pub require_auth-granted :
    (token : Text) (sessions : Option (Text → Option Principal)) (r : Request) (p : Principal)
    → require_auth token sessions r ≡ granted p
    → ((resolve : Text → Option Principal) × (sessions ≡ some resolve)
        × (r.cookie ≢ [])
        × (resolve r.cookie ≡ some p))
      ⊎ ((token ≢ []) × (presented r ≡ token) × (p ≡ service_principal))
unfolding require_auth
require_auth-granted token none r p e = inr (token_access_cases token r p (ground arith))
require_auth-granted token (some resolve) r p e = elim (Bool-cases (is_empty r.cookie)) [
  | inl b ↦ inr (token_access_cases token r p (rw (b, require_auth) at e))
  | inr b ↦ elim (Option-cases (resolve r.cookie)) [
    | inl n ↦ inr (token_access_cases token r p (rw (b, require_auth, n) at e))
    | inr (q, s) ↦ inl (resolve, refl, (λ z. ground arith), s ∙ ground arith)
  ]
]

-- Requests pass without a principal exactly when neither a token nor a session store is set.
pub require_auth-open_iff :
    (token : Text) (sessions : Option (Text → Option Principal)) (r : Request)
    → (require_auth token sessions r ≡ open_mode) ↔ ((token ≡ []) × (sessions ≡ none))
unfolding require_auth token_access
require_auth-open_iff token none r = (λ e. (ground arith, refl), λ (t, n). rw t refl)
require_auth-open_iff token (some resolve) r = (λ e. absurd (ground arith), λ (t, n). absurd (cc n))

verdict : Bool → Sandbox → Text → Verdict
verdict b s u =
    if not b && (not (is_empty s.owner_id) && not (text_eq s.owner_id u))
    then refused 403
    else allowed s

verdict-allowed :
    (b : Bool) (s sb : Sandbox) (u : Text)
    → verdict b s u ≡ allowed sb
    → (s ≡ sb) × ((b ≡ true) ⊎ (s.owner_id ≡ []) ⊎ (s.owner_id ≡ u))
unfolding verdict
verdict-allowed b s sb u e = (ground arith, ground (arith, text_eq_iff s.owner_id u))

allowed-verdict :
    (b : Bool) (s : Sandbox) (u : Text)
    → (b ≡ true) ⊎ (s.owner_id ≡ []) ⊎ (s.owner_id ≡ u)
    → verdict b s u ≡ allowed s
unfolding verdict
allowed-verdict b s u e = ground (arith, text_eq_iff s.owner_id u)

-- A sandbox is handed to a handler exactly when the database has it and the principal is an admin, or
-- owns it, or nobody does.
pub authorize_sandbox_iff :
    (p : Principal) (l : Lookup) (sb : Sandbox)
    → (authorize_sandbox p l ≡ allowed sb)
      ↔ ((l ≡ found sb) × ((is_admin p ≡ true) ⊎ (sb.owner_id ≡ []) ⊎ (sb.owner_id ≡ p.user_id)))
unfolding authorize_sandbox
authorize_sandbox_iff p missing sb = (λ e. absurd (cc e), λ (a, b). absurd (cc a))
authorize_sandbox_iff p failed sb = (λ e. absurd (cc e), λ (a, b). absurd (cc a))
authorize_sandbox_iff p (found s) sb = (
  λ e.
      let (same, may) = verdict-allowed (is_admin p) s sb p.user_id (unfold verdict in e) in
      (
        ap found same,
        subst (λ (x : Sandbox). (is_admin p ≡ true) ⊎ (x.owner_id ≡ []) ⊎ (x.owner_id ≡ p.user_id))
            same may,
      ),
  λ (same, may).
      let back : s ≡ sb = ground arith in
      subst (λ (x : Sandbox). authorize_sandbox p (found x) ≡ allowed sb) (sym back)
        (unfold verdict in allowed-verdict (is_admin p) sb p.user_id may),
)

module _ (r : Redis) (json : Codec ApprovalRecord) (g : Gate) where
  -- An approval request over HTTP is answered 204 exactly when it names an id and one of the two
  -- decisions, and the gate accepts the decision under the name of the principal.
  pub decide_approval_iff :
      (access : Access) (id : Text) (body : Option Decision) (now : ℕ) (db : r.Db)
      → ((decide_approval r json g access id body now db).0 ≡ 204) ↔ (
          (d : Decision) × (id ≢ [])
          × (body ≡ some d)
          × (is_known d ≡ true)
          × ((decide r json g id d (decided_by access) now db).0 ≡ none))
  unfolding decide_approval
  decide_approval_iff access [] body now db =
      (λ e. absurd (ground arith), λ (d, n, q, k, a). absurd (n refl))
  decide_approval_iff access (b ∷ id) none now db =
      (λ e. absurd (ground arith), λ (d, n, q, k, a). absurd (cc q))
  decide_approval_iff access (b ∷ id) (some d) now db = elim (Bool-cases (is_known d)) [
    | inl k ↦ (
      λ e. (d, (λ z. absurd (cc z)), refl, k, accepted d (rw k at e)),
      λ (d', n, q, k', a). rw k (status d d' q a),
    )
    | inr k ↦ (λ e. absurd (ground arith), λ (d', n, q, k', a). absurd (ground arith))
  ]
    where
      accepted :
          (d : Decision)
          → status_of (decide r json g (b ∷ id) d (decided_by access) now db).0 ≡ 204
          → (decide r json g (b ∷ id) d (decided_by access) now db).0 ≡ none
      accepted d e = ground arith

      status :
          (d d' : Decision)
          → some d ≡ some d'
          → (decide r json g (b ∷ id) d' (decided_by access) now db).0 ≡ none
          → status_of (decide r json g (b ∷ id) d (decided_by access) now db).0 ≡ 204
      status d d' q a = ground arith
