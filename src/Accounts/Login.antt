-- ===== src/Accounts/Login.antt =====
-- What a login gives: internal/gateway/auth_api.go, `login`, then internal/gateway/api.go,
-- `requireAuth`, with internal/store/pg/users.go and sessions.go behind them.
use sandboxed_ai_agent_orche.Prelude.{
  ℕ, ◌+◌, ◌<◌, ◌≡◌, ◌≢◌, refl, inl, inr, true, false, none, some, [], ◌∷◌, ◌∙◌, ap, arith,
  if◌then◌else◌, is_empty, Bool-cases, Option-cases, subst, sym, lt→ltb,
}
use sandboxed_ai_agent_orche.Prelude.Text.{Text, text_eq_refl}
use sandboxed_ai_agent_orche.Prelude.Table.{Table, lookup, lookup-insert}
use sandboxed_ai_agent_orche.Database.{
  User, Session, Tables, Answers, insert_session, touch_session, select_session_user,
}
use sandboxed_ai_agent_orche.Database.Users.{find_username, by_username, log_audit}
use sandboxed_ai_agent_orche.Database.Sessions.{create_session, resolve, enabled_user}
use sandboxed_ai_agent_orche.Access.{Principal, granted, Request, require_auth}
use sandboxed_ai_agent_orche.Accounts.{
  Passwords, issued, LoginCall, checked_user, open_session, login, resolver,
}

-- The users' names lead to the rows that their ids lead to.
abbrev pub NamesFit : Table User → Type 0
NamesFit m = (name : Text) (u : User) → find_username name m ≡ some u → lookup u.id m ≡ some u

abbrev pub as_principal : User → Principal
as_principal u = record { user_id = u.id; username = u.username; role = u.role; service = false }

-- The check of the credentials lets a user through.
abbrev pub Checked : (Text → Text) → Passwords → LoginCall → Tables → User → Type 0
Checked trim pw c t u =
    (body : Text × Text) × (c.body ≡ some body)
    × (find_username (trim body.0) t.users ≡ some u)
    × (u.disabled ≡ false)
    × (pw.verify_password u.password_hash body.1 ≡ true)

module _ (trim : Text → Text) (pw : Passwords) where
  checked_user_lem :
      (answers : Answers) (name password : Text) (t : Tables) (u : User)
      → checked_user trim pw answers name password t ≡ some u
      → (find_username name t.users ≡ some u)
        × (u.disabled ≡ false)
        × (pw.verify_password u.password_hash password ≡ true)
  unfolding checked_user by_username
  checked_user_lem answers name password t u e = ground arith

  -- A reply that issues a cookie comes from a session that was opened.
  login_issued :
      (ttl : ℕ) (answers : Answers) (c : LoginCall) (t : Tables) (sid : Text) (exp : ℕ)
      → (login trim pw (some ttl) answers c t).0.cookie ≡ issued sid exp
      → (body : Text × Text) × (u : User) × (c.body ≡ some body)
        × (checked_user trim pw answers (trim body.0) body.1 t ≡ some u)
        × (login trim pw (some ttl) answers c t ≡ open_session trim pw answers ttl c u t)
  unfolding login
  login_issued ttl answers c t sid exp e = elim (Option-cases c.body) [
    | inl q ↦ absurd (cc (rw (q, login) at e))
    | inr (body, q) ↦ elim (Option-cases (checked_user trim pw answers (trim body.0) body.1 t)) [
      | inl k ↦ absurd (ground (arith, q, k))
      | inr (u, k) ↦ (body, u, q, k, ground (arith, q, k))
    ]
  ]

  -- The tables after a session has been opened.
  record Opened (c : LoginCall) (u : User) (t : Tables) (sid : Text) (exp : ℕ) (t' : Tables)
      : Type 0 where
    same_users : t'.users ≡ t.users
    row :
        (s : Session) × (lookup sid t'.sessions ≡ some s)
        × (s.user_id ≡ u.id)
        × (s.expires_at ≡ exp)

  open_session-Opened :
      (answers : Answers) (ttl : ℕ) (c : LoginCall) (u : User) (t : Tables) (sid : Text) (exp : ℕ)
      → (open_session trim pw answers ttl c u t).0.cookie ≡ issued sid exp
      → Opened c u t sid exp (open_session trim pw answers ttl c u t).1
  unfolding open_session create_session log_audit
  open_session-Opened answers ttl c u t sid exp e = elim (Option-cases (lookup c.sid t.sessions)) [
    | inr (s, q) ↦ absurd (ground (arith, q))
    | inl q ↦ elim (Option-cases (lookup u.id t.users)) [
      | inl k ↦ absurd (ground (arith, q, k))
      | inr (v, k) ↦ elim (Bool-cases (answers insert_session)) [
        | inr f ↦ absurd (ground (arith, q, k, f))
        | inl f ↦
            let s : Session = record {
              id = c.sid;
              user_id = u.id;
              created_at = c.now;
              expires_at = c.now + ttl;
              last_seen_at = c.now;
              user_agent = c.user_agent;
              ip = if is_empty c.client_ip then none else some c.client_ip;
            } in
            let key : c.sid ≡ sid = ground (arith, q, k, f) in
            let expires : c.now + ttl ≡ exp = ground (arith, q, k, f) in
            record {
              same_users = ground (arith, q, k, f);
              row = (
                s,
                ground
                    (arith, q, k, f, key, lookup-insert c.sid sid s t.sessions, text_eq_refl sid),
                refl,
                expires,
              );
            }
      ]
    ]
  ]

  -- A session that is kept for an account that is kept.
  resolver-Kept :
      (answers : Answers) (u : User) (s : Session) (t : Tables) (sid : Text) (exp now : ℕ)
      → lookup sid t.sessions ≡ some s
      → s.user_id ≡ u.id
      → s.expires_at ≡ exp
      → lookup u.id t.users ≡ some u
      → u.disabled ≡ false
      → answers touch_session ≡ true
      → answers select_session_user ≡ true
      → now < exp
      → resolver answers now t sid ≡ some (as_principal u)
  unfolding resolver resolve enabled_user
  resolver-Kept answers u s t sid exp now q owner expires k d touch found before =
      let test = lt→ltb now s.expires_at (subst (λ (n : ℕ). now < n) (sym expires) before) in
      let user : lookup s.user_id t.users ≡ some u = rw owner k in
      ground (arith, q, user, test, touch, found, d)

  -- Later tables in which a session is still there, with its owner and its end, and in which no account
  -- of the earlier ones has changed.
  pub record KeepsSession (sid : Text) (t t' : Tables) : Type 0 where
    pub session :
        (s : Session)
        → lookup sid t.sessions ≡ some s
        → (s' : Session) × (lookup sid t'.sessions ≡ some s')
          × (s'.user_id ≡ s.user_id)
          × (s'.expires_at ≡ s.expires_at)
    pub accounts : (k : Text) (u : User) → lookup k t.users ≡ some u → lookup k t'.users ≡ some u

  -- A login that issues a cookie has checked the password of an enabled account, and from then on, for
  -- as long as the cookie has not expired, the session has been neither revoked nor purged and no account
  -- has changed, whatever else has happened to the tables, a request with the cookie passes as that
  -- account, whatever API token it brings: for users whose names lead to the rows of their ids, a cookie
  -- that is not empty, and a database that carries out the two statements of `Resolve`.
  pub login-require_auth :
      (ttl : ℕ) (answers later : Answers) (c : LoginCall) (t t' : Tables) (sid token : Text)
      (exp now : ℕ) (r : Request)
      → NamesFit t.users
      → (login trim pw (some ttl) answers c t).0.cookie ≡ issued sid exp
      → KeepsSession sid (login trim pw (some ttl) answers c t).1 t'
      → sid ≢ []
      → now < exp
      → r.cookie ≡ sid
      → later touch_session ≡ true
      → later select_session_user ≡ true
      → (u : User) × Checked trim pw c t u
        × (require_auth token (some (resolver later now t')) r ≡ granted (as_principal u))
  unfolding require_auth
  login-require_auth ttl answers later c t t' [] token exp now r fit e keeps given before same touch
        found =
      absurd (given refl)
  login-require_auth ttl answers later c t t' (b ∷ s) token exp now r fit e keeps given before same
        touch found =
      let (body, u, q, k, path) = login_issued ttl answers c t (b ∷ s) exp e in
      let (name, enabled, password) = checked_user_lem answers (trim body.0) body.1 t u k in
      let opened =
        open_session-Opened answers ttl c u t (b ∷ s) exp (ap (λ p. p.0.cookie) (sym path) ∙ e) in
      let (row, here, owner, expires) = opened.row in
      let (row', here', owner', expires') =
        keeps.session row (ap (λ p. lookup (b ∷ s) p.1.sessions) path ∙ here) in
      let account = keeps.accounts u.id u (
        ap (λ p. lookup u.id p.1.users) path
        ∙ ap (lookup u.id) opened.same_users
        ∙ fit (trim body.0) u name) in
      let known =
        resolver-Kept later u row' t' (b ∷ s) exp now here' (owner' ∙ owner) (expires' ∙ expires)
          account enabled touch found before in
      (
        u,
        (body, q, name, enabled, password),
        rw (same, require_auth) (rw (known, require_auth) refl),
      )
