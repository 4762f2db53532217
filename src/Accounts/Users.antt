-- ===== src/Accounts/Users.antt =====
-- The accounts that internal/gateway/auth_api.go, `createUser`, makes.
use sandboxed_ai_agent_orche.Prelude.{
  ℕ, ◌+◌, ◌≤◌, ◌≡◌, ◌≢◌, ◌↔◌, ◌==◌, ==_iff, refl, inl, inr, true, false, Option, none, some, [],
  ◌∷◌, ◌++◌, ◌∙◌, arith, if◌then◌else◌, is_empty, length, Bool-cases, Option-cases, subst, sym,
}
use sandboxed_ai_agent_orche.Prelude.Text.{Text, text_eq, text_eq_iff, text_eq_refl, codes}
use sandboxed_ai_agent_orche.Prelude.Table.{Table, lookup, insert, lookup-insert}
use sandboxed_ai_agent_orche.Database.{
  Role, User, Tables, Answers, insert_user, select_username, insert_session,
}
use sandboxed_ai_agent_orche.Database.Users.{
  find_username, create_user_row, by_username, or_operator, log_audit,
}
use sandboxed_ai_agent_orche.Database.Sessions.{create_session}
use sandboxed_ai_agent_orche.Access.{Principal, is_admin, Access, granted, open_mode, unauthorized}
use sandboxed_ai_agent_orche.Accounts.{
  Passwords, issued, view_of, LoginCall, too_many, checked_user, open_session, login, create_user,
}
use sandboxed_ai_agent_orche.Accounts.Login.{NamesFit}

abbrev or_else : Option User → Option User → Option User
or_else none o = o
or_else (some u) o = some u

find_username-insert :
    (name id : Text) (v : User) (m : Table User)
    → lookup id m ≡ none
    → find_username name (insert id v m)
      ≡ or_else (find_username name m) (if text_eq v.username name then some v else none)
unfolding find_username lookup insert
find_username-insert name id v [] h = refl
find_username-insert name id v ((j, u) ∷ m) h = ground (arith, find_username-insert name id v m)

-- What `createUser` answers 201 to.
abbrev pub Accepted :
    (Text → Text)
    → Passwords
    → Answers
    → Access
    → Option (Text × Text × Role)
    → Text
    → Tables
    → Type 0
Accepted trim pw answers access body fresh t =
    (p : Principal) × (req : Text × Text × Role) × (h : Text) × (access ≡ granted p)
    × (is_admin p ≡ true)
    × (body ≡ some req)
    × (3 ≤ length (trim req.0))
    × (8 ≤ length req.1)
    × (pw.hash_password req.1 ≡ some h)
    × (find_username (trim req.0) t.users ≡ none)
    × (lookup fresh t.users ≡ none)
    × (answers insert_user ≡ true)

empty_none : (s : Text) → 1 ≤ length s → is_empty s ≡ false
empty_none [] h = absurd (omega (arith, h))
empty_none (b ∷ s) h = refl

module _ (trim : Text → Text) (pw : Passwords) where
  created :
      (answers : Answers) (p : Principal) (name password : Text) (role : Role) (h fresh : Text)
      (now : ℕ) (t : Tables)
      → is_admin p ≡ true
      → 3 ≤ length (trim name)
      → 8 ≤ length password
      → pw.hash_password password ≡ some h
      → find_username (trim name) t.users ≡ none
      → lookup fresh t.users ≡ none
      → answers insert_user ≡ true
      → (create_user trim pw true answers
          (granted p)
          (some (name, password, role))
          fresh
          now
          t).0.status
        ≡ 201
  unfolding create_user create_user_row log_audit
  created answers p name password role h fresh now t a n l q k f w = ground arith

  accepted :
      (answers : Answers) (access : Access) (body : Option (Text × Text × Role)) (fresh : Text)
      (now : ℕ) (t : Tables)
      → (create_user trim pw true answers access body fresh now t).0.status ≡ 201
      → Accepted trim pw answers access body fresh t
  unfolding create_user create_user_row log_audit
  accepted answers open_mode body fresh now t e = absurd (omega (arith, e))
  accepted answers unauthorized body fresh now t e = absurd (omega (arith, e))
  accepted answers (granted p) none fresh now t e = absurd (ground arith)
  accepted answers (granted p) (some (name, password, role)) fresh now t e =
      elim (Option-cases (pw.hash_password password)) [
        | inl q ↦ absurd (ground (arith, q))
        | inr (h, q) ↦ (
          p,
          (name, password, role),
          h,
          refl,
          ground arith,
          refl,
          ground (arith, q),
          ground (arith, q),
          q,
          ground (arith, q),
          ground (arith, q),
          ground (arith, q),
        )
      ]

  unchanged :
      (answers : Answers) (access : Access) (body : Option (Text × Text × Role)) (fresh : Text)
      (now : ℕ) (t : Tables)
      → (create_user trim pw true answers access body fresh now t).0.status ≢ 201
      → (create_user trim pw true answers access body fresh now t).1 ≡ t
  unfolding create_user create_user_row log_audit
  unchanged answers open_mode body fresh now t e = refl
  unchanged answers unauthorized body fresh now t e = refl
  unchanged answers (granted p) none fresh now t e = ground arith
  unchanged answers (granted p) (some (name, password, role)) fresh now t e =
      elim (Option-cases (pw.hash_password password)) [
        | inl q ↦ ground (arith, q)
        | inr (h, q) ↦ ground (arith, q)
      ]

  -- `createUser` answers 201 exactly when an administrator asks, with a JSON body whose trimmed name has
  -- at least 3 bytes and whose password at least 8 and can be hashed, the name and the new id are not
  -- taken, and the database inserts the row; and whenever it answers otherwise, nothing has changed.
  pub create_user_iff :
      (answers : Answers) (access : Access) (body : Option (Text × Text × Role)) (fresh : Text)
      (now : ℕ) (t : Tables)
      → (((create_user trim pw true answers access body fresh now t).0.status ≡ 201)
          ↔ Accepted trim pw answers access body fresh t)
        × ((create_user trim pw true answers access body fresh now t).0.status ≢ 201
            → (create_user trim pw true answers access body fresh now t).1 ≡ t)
  create_user_iff answers access body fresh now t = (
    (
      accepted answers access body fresh now t,
      λ (p, req, h, g, a, b, n, l, q, k, f, w).
          rw (g, b) (created answers p req.0 req.1 req.2 h fresh now t a n l q k f w),
    ),
    unchanged answers access body fresh now t,
  )

  -- The row that `createUser` writes.
  abbrev new_user : Text → Text → Text → Role → ℕ → User
  new_user fresh name h role now = record {
    id = fresh;
    username = trim name;
    password_hash = h;
    role = or_operator (or_operator role);
    disabled = false;
    created_at = now;
  }

  created_tables :
      (answers : Answers) (p : Principal) (name password : Text) (role : Role) (h fresh : Text)
      (now : ℕ) (t : Tables)
      → is_admin p ≡ true
      → 3 ≤ length (trim name)
      → 8 ≤ length password
      → pw.hash_password password ≡ some h
      → find_username (trim name) t.users ≡ none
      → lookup fresh t.users ≡ none
      → answers insert_user ≡ true
      → let t' =
          (create_user trim pw true answers
            (granted p)
            (some (name, password, role))
            fresh
            now
            t).1 in
        (t'.users ≡ insert fresh (new_user fresh name h role now) t.users)
        × (t'.sessions ≡ t.sessions)
  unfolding create_user create_user_row log_audit
  created_tables answers p name password role h fresh now t a n l q k f w =
      (ground arith, ground arith)

  NamesFit-insert :
      (fresh : Text) (v : User) (m : Table User)
      → v.id ≡ fresh
      → lookup fresh m ≡ none
      → NamesFit m
      → NamesFit (insert fresh v m)
  NamesFit-insert fresh v m key free fit name u e = elim (Option-cases (find_username name m)) [
    | inr (x, q) ↦
        let same : x ≡ u = ground (arith, q, find_username-insert name fresh v m free) in
        let old = fit name x q in
        let other : text_eq fresh x.id ≡ false = elim (Bool-cases (text_eq fresh x.id)) [
          | inr z ↦ z
          | inl z ↦
              absurd (cc (subst (λ j. lookup j m ≡ none) ((text_eq_iff fresh x.id).0 z) free, old))
        ] in
        subst (λ (y : User). lookup y.id (insert fresh v m) ≡ some y) same
          (lookup-insert fresh x.id v m ∙ ground (arith, other, old))
    | inl q ↦
        let same : v ≡ u = ground (arith, q, find_username-insert name fresh v m free) in
        subst (λ (y : User). lookup y.id (insert fresh v m) ≡ some y) same
          (lookup-insert fresh v.id v m ∙ rw (key, text_eq_refl fresh) refl)
  ]

  -- `createUser` keeps the names of the users leading to the rows of their ids, whatever it answers.
  pub create_user-NamesFit :
      (answers : Answers) (access : Access) (body : Option (Text × Text × Role)) (fresh : Text)
      (now : ℕ) (t : Tables)
      → NamesFit t.users
      → NamesFit (create_user trim pw true answers access body fresh now t).1.users
  create_user-NamesFit answers access body fresh now t fit =
      let out = create_user trim pw true answers access body fresh now t in
      elim (Bool-cases (out.0.status == 201)) [
        | inr e ↦
            subst (λ (x : Tables). NamesFit x.users)
              (sym (
                unchanged answers access body fresh now t
                  (λ z. cc ((==_iff out.0.status 201).1 z, e))))
              fit
        | inl e ↦
            let (p, req, h, g, a, b, n, l, q, k, f, w) =
              accepted answers access body fresh now t ((==_iff out.0.status 201).0 e) in
            rw (g, b)
              (subst NamesFit
                (sym (created_tables answers p req.0 req.1 req.2 h fresh now t a n l q k f w).0)
                (NamesFit-insert fresh (new_user fresh req.0 h req.2 now) t.users refl f fit))
      ]

  login_new :
      (answers : Answers) (ttl : ℕ) (c : LoginCall) (name password h : Text) (u : User) (t : Tables)
      → c.body ≡ some (name, password)
      → too_many c.limiter (codes "login:" ++ trim name ++ codes ":" ++ c.client_ip) ≡ false
      → is_empty (trim name) ≡ false
      → is_empty password ≡ false
      → find_username (trim name) t.users ≡ some u
      → lookup u.id t.users ≡ some u
      → u.disabled ≡ false
      → pw.verify_password u.password_hash password ≡ true
      → lookup c.sid t.sessions ≡ none
      → answers select_username ≡ true
      → answers insert_session ≡ true
      → (login trim pw (some ttl) answers c t).0
        ≡ record { status = 200; cookie = issued c.sid (c.now + ttl); users = view_of u ∷ [] }
  unfolding login checked_user open_session by_username create_session
  login_new answers ttl c name password h u t body rate n l q k d v s f w = ground arith

  -- Whoever is given an account can log in: after `createUser` has answered 201 to a name and a
  -- password, a login with the two, not denied by the limiter, with a new session id and a database
  -- that carries out its statements, answers 200 with the account's view and a session cookie.
  pub login-create_user :
      (answers later : Answers) (access : Access) (name password : Text) (role : Role)
      (fresh : Text) (now ttl : ℕ) (c : LoginCall) (t : Tables)
      → let made =
          create_user trim pw true answers access (some (name, password, role)) fresh now t in
        made.0.status ≡ 201
        → c.body ≡ some (name, password)
        → too_many c.limiter (codes "login:" ++ trim name ++ codes ":" ++ c.client_ip) ≡ false
        → lookup c.sid t.sessions ≡ none
        → later select_username ≡ true
        → later insert_session ≡ true
        → (login trim pw (some ttl) later c made.1).0 ≡ record {
          status = 200;
          cookie = issued c.sid (c.now + ttl);
          users =
              record { id = fresh; username = trim name; role = or_operator (or_operator role) }
              ∷ [];
        }
  login-create_user answers later access name password role fresh now ttl c t e body rate s x y =
      let made =
        create_user trim pw true answers access (some (name, password, role)) fresh now t in
      let (p, req, h, g, a, b, n, l, q, k, f, w) =
        accepted answers access (some (name, password, role)) fresh now t e in
      let same : req ≡ (name, password, role) = ground arith in
      let (n', l', q', k') =
        subst
          (λ (z : Text × Text × Role).
            (3 ≤ length (trim z.0))
            × (8 ≤ length z.1)
            × (pw.hash_password z.1 ≡ some h)
            × (find_username (trim z.0) t.users ≡ none))
          same (n, l, q, k) in
      let v = new_user fresh name h role now in
      let (users, sessions) =
        created_tables answers p name password role h fresh now t a n' l' q' k' f w in
      let named : find_username (trim name) (insert fresh v t.users) ≡ some v =
        find_username-insert (trim name) fresh v t.users f
        ∙ ground (arith, k', text_eq_refl (trim name)) in
      let keyed : lookup fresh (insert fresh v t.users) ≡ some v =
        lookup-insert fresh fresh v t.users ∙ rw (text_eq_refl fresh) refl in
      rw g (
        login_new later ttl c name password h v
          (create_user trim pw true answers (granted p) (some (name, password, role)) fresh now t).1
          body rate (empty_none (trim name) (omega (arith, n')))
          (empty_none password (omega (arith, l'))) (rw users named) (rw users keyed) refl
          (pw.verify-hash password h q') (rw sessions s) x y)
