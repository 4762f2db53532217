-- ===== src/Api.antt =====
-- internal/gateway/api.go as a whole: the routes of `Register` behind `requireAuth`, over the
-- supervisor, a database that is there and Redis. A reply is its status alone.
pub mod Closed
pub mod Replay
use sandboxed_ai_agent_orche.Prelude.{
  ℕ, Bool, true, false, Option, none, some, List, [], ◌∷◌, if◌then◌else◌, is_empty, Result, ok, err,
}
use sandboxed_ai_agent_orche.Prelude.Text.{Text}
use sandboxed_ai_agent_orche.Prelude.Int.{ℤ}
use sandboxed_ai_agent_orche.Protocol.{Codec, ResponseFrame}
use sandboxed_ai_agent_orche.Redis.{Redis}
use sandboxed_ai_agent_orche.Database.{Role, Tables, Answers}
use sandboxed_ai_agent_orche.Database.Sessions.{resolve}
use sandboxed_ai_agent_orche.Database.Sandboxes.{touch}
use sandboxed_ai_agent_orche.Gate.{Decision, ApprovalRecord, Gate, pending_records}
use sandboxed_ai_agent_orche.Client
use sandboxed_ai_agent_orche.Proxy.{Message, serve_session}
use sandboxed_ai_agent_orche.Proxy.Transcript.{record_all}
use sandboxed_ai_agent_orche.Access.{Access, unauthorized, Request, require_auth, decide_approval}
use sandboxed_ai_agent_orche.Accounts.{
  Passwords, LoginCall, login, create_user, logout, me, list_users, resolver,
}
use sandboxed_ai_agent_orche.Supervisor.{LaunchSpec, Config, HostAnswers, get}
use sandboxed_ai_agent_orche.Handlers.{
  Platform, list_sandboxes, rename_sandbox, get_transcript, Capture, stop_sandbox, resume_sandbox,
  delete_sandbox, launch_vm, terminate_vm,
}

-- The routes behind `requireAuth`, with what the requests bring and what is answered to them.
pub data Route (Db : Type 0) : Type 0 where
  post_logout get_me get_users get_vms get_sandboxes get_approvals : Route Db
  post_users : Option (Text × Text × Role) → Text → Route Db
  post_vms : Option LaunchSpec → HostAnswers → Route Db
  delete_vm : Text → Route Db
  delete_history : Text → (Text → Bool) → Route Db
  post_stop : Text → Capture → Route Db
  post_resume : Text → HostAnswers → Route Db
  patch_name : Text → Option Text → Route Db
  get_lines : Text → ℤ → Route Db
  post_approval : Text → Option Decision → Route Db
  get_terminal : Text → Result ℕ ((ℕ → ℕ) × List (Message Db)) → Route Db

-- The login alone is public.
pub data Entry (Db : Type 0) : Type 0 where
  post_login : LoginCall → Entry Db
  protected : Request → Route Db → Entry Db

-- The sessions after `requireAuth` has looked a cookie up.
unfoldable pub looked_up : Answers → ℕ → Request → Tables → Tables
looked_up answers now req t =
    if is_empty req.cookie then t else (resolve answers now req.cookie t).1

module _ (r : Redis) (json : Codec ApprovalRecord) (wire : Codec ResponseFrame)
    (to_lower trim dir_of : Text → Text) (pw : Passwords) (g : Gate) (client : Client.Config)
    (cfg : Config) (ttl : ℕ) where
  abbrev pub ApiState : Type 0
  ApiState = Platform × r.Db

  abbrev pub on_tables : Platform → r.Db → ℕ × Tables → ℕ × ApiState
  on_tables pf db (status, t) = (status, (record pf { tables = t }, db))

  unfoldable pub list_approvals : r.Db → ℕ × r.Db
  list_approvals db =
      let (out, db') = pending_records r json g db in
      elim out [ err e ↦ (500, db') | ok recs ↦ (200, db') ]

  -- `terminal`, and the session that it starts. The upgrade to a WebSocket fails with a status, or it
  -- is made (101) and the messages come, with the times at which the lines of the transcript are written.
  unfoldable pub terminal :
      Answers → ℕ → Text → Result ℕ ((ℕ → ℕ) × List (Message r.Db)) → ApiState → ℕ × ApiState
  unfolding record_all
  terminal answers now id upgrade (pf, db) =
      if is_empty id then (400, (pf, db)) else (elim (get pf.world id) [
        | none ↦ (404, (pf, db))
        | some i ↦ elim upgrade [
          | err status ↦ (status, (pf, db))
          | ok (clock, messages) ↦
              let touched = (touch answers now id pf.tables).1 in
              let (acts, db') = serve_session r json wire to_lower g client messages id db in
              (101, (record pf { tables = record_all true answers clock 0 id acts touched }, db'))
        ]
      ])

  -- A route behind `requireAuth`.
  unfoldable pub handle : Answers → ℕ → Text → Access → Route r.Db → ApiState → ℕ × ApiState
  unfolding list_approvals terminal
  handle answers now cookie access post_logout (pf, db) =
      let (reply, t) = logout true answers cookie pf.tables in on_tables pf db (reply.status, t)
  handle answers now cookie access get_me (pf, db) = ((me access).status, (pf, db))
  handle answers now cookie access get_users (pf, db) =
      ((list_users true answers access pf.tables).status, (pf, db))
  handle answers now cookie access (post_users body fresh) (pf, db) =
      let (reply, t) = create_user trim pw true answers access body fresh now pf.tables in
      on_tables pf db (reply.status, t)
  handle answers now cookie access get_vms (pf, db) = (200, (pf, db))
  handle answers now cookie access (post_vms spec h) (pf, db) =
      let (out, pf') = launch_vm cfg answers access spec h pf in (out.0, (pf', db))
  handle answers now cookie access (delete_vm id) (pf, db) =
      let (status, pf') = terminate_vm cfg answers id now pf in (status, (pf', db))
  handle answers now cookie access get_sandboxes (pf, db) =
      ((list_sandboxes answers access pf.tables).0, (pf, db))
  handle answers now cookie access (post_stop id c) (pf, db) =
      let (status, pf') = stop_sandbox cfg answers access id c pf in (status, (pf', db))
  handle answers now cookie access (post_resume id h) (pf, db) =
      let (out, pf') = resume_sandbox cfg answers access id h now pf in (out.0, (pf', db))
  handle answers now cookie access (patch_name id name) (pf, db) =
      on_tables pf db (rename_sandbox trim answers access id name pf.tables)
  handle answers now cookie access (delete_history id removes) (pf, db) =
      let (status, pf') = delete_sandbox dir_of removes cfg answers access id now pf in
      (status, (pf', db))
  handle answers now cookie access (get_lines id after) (pf, db) =
      ((get_transcript answers access id after pf.tables).0, (pf, db))
  handle answers now cookie access get_approvals (pf, db) =
      let (status, db') = list_approvals db in (status, (pf, db'))
  handle answers now cookie access (post_approval id body) (pf, db) =
      let (status, db') = decide_approval r json g access id body now db in (status, (pf, db'))
  handle answers now cookie access (get_terminal id upgrade) (pf, db) =
      terminal answers now id upgrade (pf, db)

  -- `requireAuth` around a route.
  unfoldable pub guarded : Text → Answers → ℕ → Request → Route r.Db → ApiState → ℕ × ApiState
  unfolding handle looked_up
  guarded token answers now req route (pf, db) =
      let access = require_auth token (some (resolver answers now pf.tables)) req in
      let pf' = record pf { tables = looked_up answers now req pf.tables } in
      elim access [
        | unauthorized ↦ (401, (pf', db))
        | a ↦ handle answers now req.cookie a route (pf', db)
      ]

  -- `Register`
  unfoldable pub api : Text → Answers → ℕ → Entry r.Db → ApiState → ℕ × ApiState
  unfolding guarded
  api token answers now (post_login c) (pf, db) =
      let (reply, t) = login trim pw (some ttl) answers c pf.tables in
      on_tables pf db (reply.status, t)
  api token answers now (protected req route) world = guarded token answers now req route world
