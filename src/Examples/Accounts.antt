-- ===== src/Examples/Accounts.antt =====
-- Accounts and login sessions at concrete inputs.
use sandboxed_ai_agent_orche.Prelude.{
  ◌≡◌, ◌≢◌, ◌↔◌, refl, true, false, Option, none, some, [], ◌∷◌, arith, ap,
}
use sandboxed_ai_agent_orche.Prelude.Text.{Text, codes, text_eq, text_eq_refl}
use sandboxed_ai_agent_orche.Prelude.Table.{lookup, insert, NoRepeat}
use sandboxed_ai_agent_orche.Database.{Role, admin, operator, User, Tables, Answers}
use sandboxed_ai_agent_orche.Database.Users.{find_username, create_user_row, by_username, log_audit}
use sandboxed_ai_agent_orche.Database.Sessions.{create_session}
use sandboxed_ai_agent_orche.Access.{is_admin, Access, granted, Request, token_access, require_auth}
use sandboxed_ai_agent_orche.Accounts.{
  Passwords, LoginCall, issued, checked_user, open_session, login, logout, create_user, resolver,
  maintenance,
}
use sandboxed_ai_agent_orche.Accounts.Login.{
  NamesFit, KeepsSession, Checked, as_principal, login-require_auth,
}
use sandboxed_ai_agent_orche.Accounts.Sessions.{logout-require_auth, maintenance-require_auth}
use sandboxed_ai_agent_orche.Accounts.Users.{
  Accepted, create_user_iff, create_user-NamesFit, login-create_user,
}

abbrev pub trim : Text → Text
trim s = s

-- A hash that marks the password.
abbrev pub passwords : Passwords
passwords = record {
  hash_password = λ plain. some (1 ∷ plain);
  verify_password = λ h plain. text_eq h (1 ∷ plain);
  verify-hash = λ plain h e.
      let same : h ≡ 1 ∷ plain = ground (arith, e) in rw same (text_eq_refl (1 ∷ plain));
}

abbrev pub all_fine : Answers
all_fine = λ s. true

abbrev pub no_tables : Tables
no_tables = record {
  users = [];
  sessions = [];
  sandboxes = [];
  snapshots = [];
  transcript_lines = [];
  audit_log = [];
}

abbrev root : Access
root =
    granted
      (record { user_id = codes "u0"; username = codes "root"; role = admin; service = false })

abbrev bob : Option (Text × Text × Role)
bob = some (codes "bob", codes "password", operator)

made : (create_user trim passwords true all_fine root bob (codes "u1") 7 no_tables).0.status ≡ 201
unfolding create_user create_user_row log_audit is_admin find_username lookup insert
made = refl

abbrev tables : Tables
tables = (create_user trim passwords true all_fine root bob (codes "u1") 7 no_tables).1

create_user_iff_example :
    (((create_user trim passwords true all_fine root bob (codes "u1") 7 no_tables).0.status ≡ 201)
      ↔ Accepted trim passwords all_fine root bob (codes "u1") no_tables)
    × ((create_user trim passwords true all_fine root bob (codes "u1") 7 no_tables).0.status ≢ 201
        → (create_user trim passwords true all_fine root bob (codes "u1") 7 no_tables).1
          ≡ no_tables)
create_user_iff_example = create_user_iff trim passwords all_fine root bob (codes "u1") 7 no_tables

abbrev call : LoginCall
call = record {
  body = some (codes "bob", codes "password");
  limiter = none;
  client_ip = [];
  user_agent = [];
  sid = codes "s1";
  now = 100;
}

no_session : lookup (codes "s1") no_tables.sessions ≡ none
unfolding lookup
no_session = refl

login-create_user_example : (login trim passwords (some 3600) all_fine call tables).0 ≡ record {
  status = 200;
  cookie = issued (codes "s1") 3700;
  users = record { id = codes "u1"; username = codes "bob"; role = operator } ∷ [];
}
login-create_user_example =
    login-create_user trim passwords all_fine all_fine root (codes "bob") (codes "password")
      operator (codes "u1") 7 3600 call no_tables made refl refl no_session refl refl

no_users-NamesFit : NamesFit no_tables.users
unfolding find_username
no_users-NamesFit name u e = absurd (cc e)

tables-NamesFit : NamesFit tables.users
tables-NamesFit =
    create_user-NamesFit trim passwords all_fine root bob (codes "u1") 7 no_tables no_users-NamesFit

logged_in :
    (login trim passwords (some 3600) all_fine call tables).0.cookie ≡ issued (codes "s1") 3700
logged_in = ap (λ r. r.cookie) login-create_user_example

abbrev browser : Request
browser = record { cookie = codes "s1"; authorization = []; token_param = [] }

abbrev session_tables : Tables
session_tables = (login trim passwords (some 3600) all_fine call tables).1

-- The audit log has been emptied since.
abbrev later_tables : Tables
later_tables = record session_tables { audit_log = [] }

kept : KeepsSession trim passwords (codes "s1") session_tables later_tables
kept = record { session = λ s e. (s, e, refl, refl); accounts = λ k u e. e }

login-require_auth_example :
    (u : User) × Checked trim passwords call tables u
    × (require_auth (codes "k") (some (resolver all_fine 200 later_tables)) browser
        ≡ granted (as_principal u))
login-require_auth_example =
    login-require_auth trim passwords 3600 all_fine all_fine call tables later_tables (codes "s1")
      (codes "k") 3700 200 browser tables-NamesFit logged_in kept (λ e. absurd (cc e)) (omega arith)
      refl refl refl

logout-require_auth_example :
    require_auth
      (codes "k")
      (some (resolver all_fine 200 (logout true all_fine (codes "s1") session_tables).1))
      browser
    ≡ token_access (codes "k") browser
logout-require_auth_example =
    logout-require_auth all_fine all_fine (codes "s1") (codes "k") 200 browser session_tables refl
      (λ e. absurd (cc e)) refl

session_tables-NoRepeat : NoRepeat session_tables.sessions
unfolding login checked_user open_session create_session by_username log_audit create_user
    create_user_row is_admin find_username lookup insert text_eq
session_tables-NoRepeat = (refl, tt)

maintenance-require_auth_example :
    require_auth
      (codes "k")
      (some (resolver all_fine 200 (maintenance all_fine 150 30 session_tables)))
      browser
    ≡ require_auth (codes "k") (some (resolver all_fine 200 session_tables)) browser
maintenance-require_auth_example =
    maintenance-require_auth all_fine all_fine (codes "k") 150 200 30 browser session_tables
      session_tables-NoRepeat (omega arith)
