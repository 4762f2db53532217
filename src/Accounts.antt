-- ===== src/Accounts.antt =====
-- The handlers of internal/gateway/auth_api.go, and `bootstrapAdmin` and the purge of sessions of
-- cmd/controlplane/main.go. bcrypt, strings.TrimSpace and the parsers of package net are parameters.
pub mod Login
pub mod Sessions
pub mod Users
use sandboxed_ai_agent_orche.Prelude.{
  ℕ, ◌≡◌, Bool, true, false, ◌&&◌, ◌||◌, not, Option, none, some, List, [], ◌∷◌, ◌++◌,
  if◌then◌else◌, is_empty, length, ltb, Result, ok, err, map, ◌==◌,
}
use sandboxed_ai_agent_orche.Prelude.Text.{Text, codes}
use sandboxed_ai_agent_orche.Database.{Role, admin, User, Tables, Answers}
use sandboxed_ai_agent_orche.Database.Users.{
  create_user_row, by_username, count_users, all_users, or_operator, log_audit,
}
use sandboxed_ai_agent_orche.Database.Sessions.{create_session, resolve, revoke, delete_expired}
use sandboxed_ai_agent_orche.Database.Transcripts.{prune_older_than_days}
use sandboxed_ai_agent_orche.Access.{Principal, is_admin, Access, granted, principal_of}

-- `HashPassword` and `VerifyPassword` of internal/auth/auth.go call bcrypt: a hash verifies the
-- password that it was made from.
pub record Passwords : Type 0 where
  pub hash_password : Text → Option Text
  pub verify_password : Text → Text → Bool
  pub verify-hash : (plain h : Text) → hash_password plain ≡ some h → verify_password h plain ≡ true

pub record UserView : Type 0 where
  pub id : Text
  pub username : Text
  pub role : Role

abbrev pub view_of : User → UserView
view_of u = record { id = u.id; username = u.username; role = u.role }

-- What a reply does to the browser's session cookie.
pub data CookieChange : Type 0 where
  kept cleared : CookieChange
  issued : Text → ℕ → CookieChange

pub record Reply : Type 0 where
  pub status : ℕ
  pub cookie : CookieChange
  pub users : List UserView

abbrev pub answer : ℕ → Reply
answer status = record { status = status; cookie = kept; users = [] }

-- One request to log in. `body` is `none` when the body is no JSON; `limiter` is `none` without Redis, and
-- its answer `none` when the check fails.
pub record LoginCall : Type 0 where
  pub body : Option (Text × Text)
  pub limiter : Option (Text → Option Bool)
  pub client_ip : Text
  pub user_agent : Text
  pub sid : Text
  pub now : ℕ

abbrev pub too_many : Option (Text → Option Bool) → Text → Bool
too_many none key = false
too_many (some allow) key = elim (allow key) [ none ↦ false | some fine ↦ not fine ]

-- `IndexByte(s, ',')`, and what stands before it.
unfoldable pub before_comma : Text → Option Text
before_comma [] = none
before_comma (b ∷ s) =
    let rest = before_comma s in
    if b == 44 then some [] else (elim rest [ none ↦ none | some t ↦ some (b ∷ t) ])

-- A comma at the very front is not taken as a separator.
abbrev pub first_hop : Text → Option Text → Text
first_hop xff none = xff
first_hop xff (some []) = xff
first_hop xff (some (b ∷ t)) = b ∷ t

-- `clientIP`, given the header and the remote address.
unfoldable pub client_ip : (Text → Text) → (Text → Option Text) → (Text → Bool) → Text → Text → Text
unfolding before_comma
client_ip trim split_host is_ip xff remote =
    let cand =
      if not (is_empty xff)
      then trim (first_hop xff (before_comma xff))
      else (elim (split_host remote) [ none ↦ remote | some host ↦ host ]) in
    if is_ip cand then cand else []

module _ (trim : Text → Text) (pw : Passwords) where
  -- The credentials' check: the user, or nothing.
  unfoldable pub checked_user : Answers → Text → Text → Tables → Option User
  checked_user answers name password t = elim (by_username answers name t) [
    | err e ↦ none
    | ok u ↦
        if u.disabled || not (pw.verify_password u.password_hash password) then none else some u
  ]

  -- From the session on.
  unfoldable pub open_session : Answers → ℕ → LoginCall → User → Tables → Reply × Tables
  open_session answers ttl c u t =
      let (made, t') = create_session answers ttl c.sid c.now u.id c.user_agent c.client_ip t in
      elim made [
        | err e ↦ (answer 500, t')
        | ok session ↦ (
          record { status = 200; cookie = issued session.0 session.1; users = view_of u ∷ [] },
          log_audit answers u.id (codes "login.success") u.username t',
        )
      ]

  -- `login`. The lifetime of a session is given when accounts are enabled.
  unfoldable pub login : Option ℕ → Answers → LoginCall → Tables → Reply × Tables
  unfolding checked_user open_session
  login none answers c t = (answer 501, t)
  login (some ttl) answers c t = elim c.body [
    | none ↦ (answer 400, t)
    | some body ↦
        let name = trim body.0 in
        let key = codes "login:" ++ name ++ codes ":" ++ c.client_ip in
        if is_empty name || is_empty body.1
        then (answer 400, t)
        else (if too_many c.limiter key
            then (answer 429, t)
            else (elim (checked_user answers name body.1 t) [
              | none ↦ (answer 401, log_audit answers [] (codes "login.failure") name t)
              | some u ↦ open_session answers ttl c u t
            ]))
  ]

  -- `createUser`. The id and the time are the database's.
  unfoldable pub create_user :
      Bool → Answers → Access → Option (Text × Text × Role) → Text → ℕ → Tables → Reply × Tables
  create_user false answers access body fresh now t = (answer 501, t)
  create_user true answers (granted p) body fresh now t =
      if is_admin p
      then (elim body [
        | none ↦ (answer 400, t)
        | some req ↦
            let name = trim req.0 in
            if ltb (length name) 3 || ltb (length req.1) 8
            then (answer 400, t)
            else (elim (pw.hash_password req.1) [
              | none ↦ (answer 500, t)
              | some h ↦
                  let (made, t') = create_user_row answers fresh now name h (or_operator req.2) t in
                  elim made [
                    | err e ↦ (answer 409, t')
                    | ok u ↦ (
                      record { status = 201; cookie = kept; users = view_of u ∷ [] },
                      log_audit answers p.user_id (codes "user.create") u.username t',
                    )
                  ]
            ])
      ])
      else (answer 403, t)
  create_user true answers _ body fresh now t = (answer 403, t)

  -- `bootstrapAdmin`; `false` is an error.
  unfoldable pub bootstrap_admin : Answers → Text → Text → Text → ℕ → Tables → Bool × Tables
  bootstrap_admin answers user pass fresh now t = elim (count_users answers t) [
    | err e ↦ (false, t)
    | ok n ↦
        if not (n == 0) || (is_empty user || is_empty pass)
        then (true, t)
        else (elim (pw.hash_password pass) [
          | none ↦ (false, t)
          | some h ↦
              let (made, t') = create_user_row answers fresh now user h admin t in
              elim made [ err e ↦ (false, t') | ok u ↦ (true, t') ]
        ])
  ]

-- `logout`; the first argument says whether there are sessions, the second is the cookie.
unfoldable pub logout : Bool → Answers → Text → Tables → Reply × Tables
logout sessions answers sid t =
    let gone : Reply = record { status = 204; cookie = cleared; users = [] } in
    if sessions && not (is_empty sid) then (gone, (revoke answers sid t).1) else (gone, t)

unfoldable pub me : Access → Reply
me (granted p) = record {
  status = 200;
  cookie = kept;
  users = record { id = p.user_id; username = p.username; role = p.role } ∷ [];
}
me _ = answer 401

abbrev pub reject_non_admin : Access → Bool
reject_non_admin (granted p) = not (is_admin p)
reject_non_admin _ = true

unfoldable pub list_users : Bool → Answers → Access → Tables → Reply
list_users enabled answers access t =
    if not enabled
    then answer 501
    else (if reject_non_admin access then answer 403 else (elim (all_users answers t) [
      | err e ↦ answer 500
      | ok us ↦ record { status = 200; cookie = kept; users = map view_of us }
    ]))

-- How `requireAuth` resolves a cookie, and what that does to the sessions.
unfoldable pub resolver : Answers → ℕ → Tables → Text → Option Principal
resolver answers now t sid = elim (resolve answers now sid t).0 [
  | err e ↦ none
  | ok u ↦ some (record { user_id = u.id; username = u.username; role = u.role; service = false })
]

-- One round of `maintenanceLoop`.
unfoldable pub maintenance : Answers → ℕ → ℕ → Tables → Tables
maintenance answers now retention_days t =
    let t' = (delete_expired answers now t).1 in
    if ltb 0 retention_days then (prune_older_than_days answers now retention_days t').1 else t'
