-- ===== src/Api/Closed.antt =====
-- What a request without credentials can do: internal/gateway/api.go, `Register` and `requireAuth`.
use sandboxed_ai_agent_orche.Prelude.{
  ℕ, ◌≡◌, refl, inl, inr, Option, none, some, arith, is_empty, Option-cases, Bool-cases, ltb, subst,
}
use sandboxed_ai_agent_orche.Prelude.Text.{Text, text_eq, text_eq_iff}
use sandboxed_ai_agent_orche.Prelude.Table.{lookup, lookup-insert}
use sandboxed_ai_agent_orche.Protocol.{Codec, ResponseFrame}
use sandboxed_ai_agent_orche.Redis.{Redis}
use sandboxed_ai_agent_orche.Database.{Session, Tables, Answers, touch_session}
use sandboxed_ai_agent_orche.Database.Sessions.{resolve}
use sandboxed_ai_agent_orche.Gate.{ApprovalRecord, Gate}
use sandboxed_ai_agent_orche.Client
use sandboxed_ai_agent_orche.Access.{unauthorized, Request, require_auth}
use sandboxed_ai_agent_orche.Accounts.{Passwords, resolver}
use sandboxed_ai_agent_orche.Supervisor.{Config}
use sandboxed_ai_agent_orche.Handlers.{Platform}
use sandboxed_ai_agent_orche.Api.{Route, protected, looked_up, guarded, api}

-- What a session is worth: whose it is and until when.
abbrev pub worth : Option Session → Option (Text × ℕ)
worth none = none
worth (some s) = some (s.user_id, s.expires_at)

-- The same but for the times at which sessions were last seen.
pub record Unmoved (t t' : Tables) : Type 0 where
  pub users : t'.users ≡ t.users
  pub sandboxes : t'.sandboxes ≡ t.sandboxes
  pub snapshots : t'.snapshots ≡ t.snapshots
  pub transcript_lines : t'.transcript_lines ≡ t.transcript_lines
  pub audit_log : t'.audit_log ≡ t.audit_log
  pub sessions : (sid : Text) → worth (lookup sid t'.sessions) ≡ worth (lookup sid t.sessions)

resolve_sessions :
    (answers : Answers) (now : ℕ) (key sid : Text) (t : Tables)
    → worth (lookup sid (resolve answers now key t).1.sessions) ≡ worth (lookup sid t.sessions)
unfolding resolve
resolve_sessions answers now key sid t = elim (Bool-cases (answers touch_session)) [
  | inr f ↦ ground (arith, f)
  | inl f ↦ elim (Option-cases (lookup key t.sessions)) [
    | inl q ↦ ground (arith, f, q)
    | inr (s, q) ↦ elim (Bool-cases (ltb now s.expires_at)) [
      | inr x ↦ ground (arith, f, q, x)
      | inl x ↦
          let seen : Session = record s { last_seen_at = now } in
          let after = lookup-insert key sid seen t.sessions in
          elim (Bool-cases (text_eq key sid)) [
            | inr z ↦ ground (arith, f, q, x, z, after)
            | inl z ↦
                let here =
                  subst (λ (j : Text). lookup j t.sessions ≡ some s) ((text_eq_iff key sid).0 z)
                    q in
                ground (arith, f, q, x, z, after, here)
          ]
    ]
  ]
]

resolve_rest :
    (answers : Answers) (now : ℕ) (key : Text) (t : Tables)
    → let t' = (resolve answers now key t).1 in
      (t'.users ≡ t.users)
      × (t'.sandboxes ≡ t.sandboxes)
      × (t'.snapshots ≡ t.snapshots)
      × (t'.transcript_lines ≡ t.transcript_lines)
      × (t'.audit_log ≡ t.audit_log)
unfolding resolve
resolve_rest answers now key t = ground arith

looked_up-Unmoved :
    (answers : Answers) (now : ℕ) (req : Request) (t : Tables)
    → Unmoved t (looked_up answers now req t)
unfolding looked_up
looked_up-Unmoved answers now req t = elim (Bool-cases (is_empty req.cookie)) [
  | inl e ↦
      rw (e, looked_up)
        (record {
          users = refl;
          sandboxes = refl;
          snapshots = refl;
          transcript_lines = refl;
          audit_log = refl;
          sessions = λ sid. refl;
        })
  | inr e ↦
      let (u, b, n, l, a) = resolve_rest answers now req.cookie t in
      rw (e, looked_up)
        (record {
          users = u;
          sandboxes = b;
          snapshots = n;
          transcript_lines = l;
          audit_log = a;
          sessions = λ sid. resolve_sessions answers now req.cookie sid t;
        })
]

module _ (r : Redis) (json : Codec ApprovalRecord) (wire : Codec ResponseFrame)
    (to_lower trim dir_of : Text → Text) (pw : Passwords) (g : Gate) (client : Client.Config)
    (cfg : Config) (ttl : ℕ) where
  -- The API is closed: when the credentials of a request to any route but the login do not pass
  -- `requireAuth`, it is answered 401 and nothing happens: no sandbox, file, account, history,
  -- approval or audit entry is touched, and every session belongs to whom it did and ends when it did.
  pub api-unauthorized :
      (token : Text) (answers : Answers) (now : ℕ) (req : Request) (route : Route r.Db)
      (pf : Platform) (db : r.Db)
      → require_auth token (some (resolver answers now pf.tables)) req ≡ unauthorized
      → let out =
          api r json wire to_lower trim dir_of pw g client cfg ttl token answers now
            (protected req route)
            (pf, db) in
        (out.0 ≡ 401)
        × (out.1.0.world ≡ pf.world)
        × (out.1.0.snapshot_dirs ≡ pf.snapshot_dirs)
        × (out.1.1 ≡ db)
        × Unmoved pf.tables out.1.0.tables
  unfolding api guarded
  api-unauthorized token answers now req route pf db e =
      rw (e, guarded) (refl, refl, refl, refl, looked_up-Unmoved answers now req pf.tables)
