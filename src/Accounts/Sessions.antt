-- ===== src/Accounts/Sessions.antt =====
-- What ends a login session: internal/gateway/auth_api.go, `logout`, and internal/store/pg/sessions.go.
use sandboxed_ai_agent_orche.Prelude.{
  ℕ, ◌≤◌, ◌≡◌, ◌≢◌, ◌⊎◌, inl, inr, subst, refl, true, Option, none, some, [], ◌∷◌, ◌∙◌, ap, arith,
  if◌then◌else◌, leb, Bool-cases, Option-cases,
}
use sandboxed_ai_agent_orche.Prelude.Text.{Text, text_eq, text_eq_iff, text_eq_refl}
use sandboxed_ai_agent_orche.Prelude.Table.{Table, lookup, lookup-erase, NoRepeat}
use sandboxed_ai_agent_orche.Database.{
  Session, Tables, Answers, delete_session, delete_expired_sessions,
}
use sandboxed_ai_agent_orche.Database.Sessions.{
  resolve, revoke, unexpired, delete_expired, enabled_user,
}
use sandboxed_ai_agent_orche.Database.Transcripts.{prune_older_than_days}
use sandboxed_ai_agent_orche.Access.{Request, token_access, require_auth}
use sandboxed_ai_agent_orche.Accounts.{logout, resolver, maintenance}

lookup-revoke :
    (answers : Answers) (sid : Text) (t : Tables)
    → answers delete_session ≡ true
    → lookup sid (revoke answers sid t).1.sessions ≡ none
unfolding revoke
lookup-revoke answers sid t fine =
    rw (fine, revoke) (lookup-erase sid sid t.sessions ∙ rw (text_eq_refl sid) refl)

-- A session without a row resolves to nobody.
resolver-none :
    (answers : Answers) (now : ℕ) (sid : Text) (t : Tables)
    → lookup sid t.sessions ≡ none
    → resolver answers now t sid ≡ none
unfolding resolver resolve
resolver-none answers now sid t gone = ground (arith, gone)

-- After a logout whose delete was carried out, the cookie of that session no longer passes anyone:
-- whatever the later answers of the database and the time, a request with it fares as its API token
-- alone does.
pub logout-require_auth :
    (answers later : Answers) (sid token : Text) (now : ℕ) (r : Request) (t : Tables)
    → answers delete_session ≡ true
    → sid ≢ []
    → r.cookie ≡ sid
    → require_auth token (some (resolver later now (logout true answers sid t).1)) r
      ≡ token_access token r
unfolding require_auth logout
logout-require_auth answers later [] token now r t fine given same = absurd (given refl)
logout-require_auth answers later (b ∷ s) token now r t fine given same =
    let gone =
      resolver-none later now (b ∷ s) (revoke answers (b ∷ s) t).1
        (lookup-revoke answers (b ∷ s) t fine) in
    rw (same, require_auth) (rw (gone, require_auth) refl)

abbrev live_at : ℕ → Option Session → Option Session
live_at now none = none
live_at now (some s) = if leb s.expires_at now then none else some s

lookup-unexpired :
    (sid : Text) (now : ℕ) (m : Table Session)
    → NoRepeat m
    → lookup sid (unexpired now m) ≡ live_at now (lookup sid m)
unfolding lookup unexpired
lookup-unexpired sid now [] h = refl
lookup-unexpired sid now ((k, s) ∷ m) h =
    let rest = lookup-unexpired sid now m h.1 in
    elim (Bool-cases (text_eq k sid)) [
      | inr e ↦ ground (arith, rest, e)
      | inl e ↦
          let none_left : lookup sid m ≡ none =
            subst (λ (j : Text). lookup j m ≡ none) ((text_eq_iff k sid).0 e) h.0 in
          let gone : lookup sid (unexpired now m) ≡ none = rest ∙ ap (live_at now) none_left in
          ground (arith, gone, e)
    ]

sessions-maintenance :
    (answers : Answers) (sid : Text) (now days : ℕ) (t : Tables)
    → NoRepeat t.sessions
    → (lookup sid (maintenance answers now days t).sessions ≡ lookup sid t.sessions)
      ⊎ (lookup sid (maintenance answers now days t).sessions ≡ live_at now (lookup sid t.sessions))
unfolding maintenance delete_expired prune_older_than_days
sessions-maintenance answers sid now days t h =
    elim (Bool-cases (answers delete_expired_sessions)) [
      | inl e ↦ inr (ground (arith, e, lookup-unexpired sid now t.sessions h))
      | inr e ↦ inl (ground (arith, e))
    ]

resolver-live_at :
    (answers : Answers) (sid : Text) (now later : ℕ) (t t' : Tables)
    → now ≤ later
    → t'.users ≡ t.users
    → lookup sid t'.sessions ≡ live_at now (lookup sid t.sessions)
    → resolver answers later t' sid ≡ resolver answers later t sid
unfolding resolver resolve enabled_user
resolver-live_at answers sid now later t t' h u e = elim (Option-cases (lookup sid t.sessions)) [
  | inl q ↦ ground (arith, q, e)
  | inr (s, q) ↦ elim (Bool-cases (leb s.expires_at now)) [
    | inl x ↦ ground (arith, q, e, x)
    | inr x ↦
        let same : lookup sid t'.sessions ≡ some s = ground (arith, q, e, x) in
        ground (arith, q, same, u)
  ]
]

resolver-same :
    (answers : Answers) (sid : Text) (later : ℕ) (t t' : Tables)
    → t'.users ≡ t.users
    → lookup sid t'.sessions ≡ lookup sid t.sessions
    → resolver answers later t' sid ≡ resolver answers later t sid
unfolding resolver resolve enabled_user
resolver-same answers sid later t t' u e = ground (arith, e, u)

users-maintenance :
    (answers : Answers) (now days : ℕ) (t : Tables)
    → (maintenance answers now days t).users ≡ t.users
unfolding maintenance delete_expired prune_older_than_days
users-maintenance answers now days t = ground arith

-- `requireAuth` does not see the purge of expired sessions and old transcripts: when the sessions' ids are
-- all different, it lets a request that comes at or after the time of the purge pass, or turns it away,
-- exactly as it would have without it.
pub maintenance-require_auth :
    (answers later_answers : Answers) (token : Text) (now later days : ℕ) (r : Request) (t : Tables)
    → NoRepeat t.sessions
    → now ≤ later
    → require_auth token (some (resolver later_answers later (maintenance answers now days t))) r
      ≡ require_auth token (some (resolver later_answers later t)) r
unfolding require_auth
maintenance-require_auth answers later_answers token now later days r t h le =
    let t' = maintenance answers now days t in
    let same : resolver later_answers later t' r.cookie ≡ resolver later_answers later t r.cookie =
      elim (sessions-maintenance answers r.cookie now days t h) [
        | inl e ↦
            resolver-same later_answers r.cookie later t t' (users-maintenance answers now days t) e
        | inr e ↦
            resolver-live_at later_answers r.cookie now later t t' le
              (users-maintenance answers now days t) e
      ] in
    rw (same, require_auth) refl
