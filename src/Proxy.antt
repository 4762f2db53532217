-- ===== src/Proxy.antt =====
-- internal/gateway/proxy.go: the terminal session of one sandbox over a WebSocket. What the client,
-- the limiter, Redis and the guest do comes with each message; the events sent to the browser and the
-- lines of the transcript come out in order, each under the names the source gives them.
pub mod Session
pub mod Transcript
use sandboxed_ai_agent_orche.Prelude.{
  ℕ, ◌≡◌, Bool, true, false, not, Option, none, some, List, [], ◌∷◌, ◌++◌, if◌then◌else◌, is_empty,
  Result, ok, err,
}
use sandboxed_ai_agent_orche.Prelude.Text.{Text, codes, text_eq}
use sandboxed_ai_agent_orche.Prelude.Table.{Table}
use sandboxed_ai_agent_orche.Prelude.Int.{ℤ}
use sandboxed_ai_agent_orche.Protocol.{Codec, ExecutionRequest, exec, FrameKind, ResponseFrame}
use sandboxed_ai_agent_orche.Redis.{Redis}
use sandboxed_ai_agent_orche.Gate.{
  Classification, benign, sensitive, State, pending, approved, rejected, ApprovalRecord, Gate,
  classify, submit, Poll, WaitResult, waiting, cancelled, returned, wait_for_decision,
}
use sandboxed_ai_agent_orche.Client.{Config, ClientError, Attempts, exec_request}

pub record WsRequest : Type 0 where
  pub script : Text
  pub timeout_sec : ℤ
  pub env : Table Text

-- `wsEvent`, one constructor for each kind that is sent, with the fields set there.
pub data WsEvent : Type 0 where
  output_event : Text → WsEvent
  exit_event : ℤ → WsEvent
  error_event : Text → WsEvent
  pending_event : Text → Text → WsEvent
  approved_event rejected_event : WsEvent

pub data TranscriptKind : Type 0 where
  input_line hitl_line output_line exit_line : TranscriptKind

-- What one message does, in order. `executed` is the call of `client.Exec`.
pub data Action : Type 0 where
  sent : WsEvent → Action
  recorded : TranscriptKind → Text → Option ℤ → Action
  executed : ExecutionRequest → Action

-- How the handling of a message ends; `unfinished` still waits for the operator.
pub data Next : Type 0 where
  continued ended unfinished : Next

-- `rateAllow`: none given, a failure, or its answer.
pub data RateAnswer : Type 0 where
  no_limiter check_failed : RateAnswer
  answered : Bool → RateAnswer

-- One message and what its handling meets. `request` is `none` when the message is no JSON of a
-- request; `describe` is the text of an error.
pub record Message (Db : Type 0) : Type 0 where
  pub request : Option WsRequest
  pub rate : RateAnswer
  pub new_id : Option Text
  pub now : ℕ
  pub polls : List (Poll Db)
  pub exec_id : Text
  pub attempts : Attempts
  pub send_ok : Bool
  pub ctx_done : Bool
  pub describe : ClientError → Text

abbrev pub rate_denies : RateAnswer → Bool
rate_denies no_limiter = false
rate_denies check_failed = false
rate_denies (answered fine) = not fine

-- The callback of `Exec`: the events it sends, the output it collects, and the last exit code.
unfoldable pub on_frames : List ResponseFrame → List Action × Text × Option ℤ
on_frames [] = ([], [], none)
on_frames (f ∷ fs) =
    let (acts, out, code) = on_frames fs in
    elim f.kind [
      | FrameKind.output ↦ (sent (output_event f.payload) ∷ acts, f.payload ++ out, code)
      | FrameKind.exit ↦ (
        sent (exit_event f.exit_code) ∷ acts,
        out,
        (elim code [ none ↦ some f.exit_code | some c ↦ some c ]),
      )
      | _ ↦ (acts, out, code)
    ]

exec_error_sent : (ClientError → Text) → Option ClientError → List Action
exec_error_sent describe none = []
exec_error_sent describe (some e) = sent (error_event (describe e)) ∷ []

exit_recorded : Option ℤ → List Action
exit_recorded none = []
exit_recorded (some c) = recorded exit_line [] (some c) ∷ []

-- After the guest's answer.
unfoldable pub report : (ClientError → Text) → List ResponseFrame × Option ClientError → List Action
unfolding exec_error_sent exit_recorded
report describe (frames, result) =
    let (acts, out, code) = on_frames frames in
    acts
    ++ (if is_empty out then [] else recorded output_line out none ∷ [])
    ++ exit_recorded code
    ++ exec_error_sent describe result

abbrev exec_of : WsRequest → Text → ExecutionRequest
exec_of q id = record {
  id = id;
  kind = exec;
  script = q.script;
  timeout_sec = q.timeout_sec;
  workdir = [];
  env = q.env;
}

-- `checkOrigin`; `host_of` is the host that url.Parse finds.
unfoldable pub in_origins : List Text → Text → Bool
in_origins [] origin = false
in_origins (o ∷ os) origin = if text_eq origin o then true else in_origins os origin

unfoldable pub check_origin : (Text → Option Text) → List Text → Text → Text → Bool
check_origin host_of origins host origin =
    if is_empty origin
    then true
    else (if in_origins origins origin
        then true
        else (if is_empty origins
            then (elim (host_of origin) [ none ↦ false | some h ↦ text_eq h host ])
            else false))

module _ (r : Redis) (json : Codec ApprovalRecord) (wire : Codec ResponseFrame)
    (to_lower : Text → Text) (g : Gate) (c : Config) where
  -- "Execute - benign or newly approved."
  unfoldable pub run_script : Message r.Db → WsRequest → List Action
  unfolding exec_of
  run_script m q =
      executed (exec_of q m.exec_id)
      ∷ report m.describe (exec_request wire c m.attempts m.send_ok m.ctx_done)

  -- The wait for a decision, and what follows it.
  unfoldable pub await : Message r.Db → WsRequest → WaitResult → List Action × Next
  unfolding run_script
  await m q waiting = ([], unfinished)
  await m q cancelled = ([], ended)
  await m q (returned rejected) =
      (sent rejected_event ∷ recorded hitl_line (codes "rejected") none ∷ [], continued)
  await m q (returned s) =
      (sent approved_event ∷ recorded hitl_line (codes "approved") none ∷ run_script m q, continued)

  -- A sensitive script.
  unfoldable pub hold : Message r.Db → WsRequest → Text → Text → r.Db → (List Action × Next) × r.Db
  unfolding await
  hold m q sandbox_id reason db =
      let (answer, db') = submit r json g m.new_id m.now sandbox_id q.script reason db in
      elim answer [
        | err e ↦
            ((sent (error_event (codes "failed to submit for approval")) ∷ [], continued), db')
        | ok id ↦
            let (acts, next) = await m q (wait_for_decision r json g id m.polls) in
            (
              (
                sent (pending_event id reason)
                    ∷ recorded hitl_line (codes "pending: " ++ reason) none
                    ∷ acts,
                next,
              ),
              db',
            )
      ]

  -- From the transcript line of the command on.
  unfoldable pub admit_script : Message r.Db → WsRequest → Text → r.Db → (List Action × Next) × r.Db
  unfolding hold run_script
  admit_script m q sandbox_id db =
      let (class, reason) = classify to_lower g q.script in
      let after : (List Action × Next) × r.Db = elim class [
        | sensitive ↦ hold m q sandbox_id reason db
        | benign ↦ ((run_script m q, continued), db)
      ] in
      let ((acts, next), db') = after in ((recorded input_line q.script none ∷ acts, next), db')

  -- One round of the loop of `serve`.
  unfoldable pub serve_message : Message r.Db → Text → r.Db → (List Action × Next) × r.Db
  unfolding admit_script
  serve_message m sandbox_id db = elim m.request [
    | none ↦ ((sent (error_event (codes "invalid request JSON")) ∷ [], continued), db)
    | some q ↦
        if is_empty q.script
        then ((sent (error_event (codes "script is required")) ∷ [], continued), db)
        else (if rate_denies m.rate
            then (
              (sent (error_event (codes "rate limit exceeded (60 commands/min)")) ∷ [], continued),
              db,
            )
            else admit_script m q sandbox_id db)
  ]

  -- The session, up to the end of the connection or of the messages given.
  unfoldable pub serve_session : List (Message r.Db) → Text → r.Db → List Action × r.Db
  unfolding serve_message
  serve_session [] sandbox_id db = ([], db)
  serve_session (m ∷ ms) sandbox_id db =
      let ((acts, next), db') = serve_message m sandbox_id db in
      let (acts', db'') = serve_session ms sandbox_id db' in
      elim next [ continued ↦ (acts ++ acts', db'') | _ ↦ (acts, db') ]
