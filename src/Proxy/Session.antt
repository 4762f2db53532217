-- ===== src/Proxy/Session.antt =====
-- What a terminal session of internal/gateway/proxy.go may run in the sandbox.
use sandboxed_ai_agent_orche.Prelude.{
  ◌≡◌, refl, ap, ◌≢◌, ◌⊎◌, inl, inr, Bool, true, false, Option, none, some, List, [], ◌∷◌, ◌++◌,
  arith, if◌then◌else◌, is_empty, Bool-cases, Option-cases, ok, Result-cases, All, All-append,
}
use sandboxed_ai_agent_orche.Prelude.Text.{Text}
use sandboxed_ai_agent_orche.Prelude.Int.{ℤ}
use sandboxed_ai_agent_orche.Protocol.{Codec, ExecutionRequest, ResponseFrame}
use sandboxed_ai_agent_orche.Redis.{Redis}
use sandboxed_ai_agent_orche.Gate.{
  Classification, benign, sensitive, State, pending, approved, rejected, other_state,
  ApprovalRecord, Gate, classify, submit, WaitResult, waiting, cancelled, returned,
  wait_for_decision,
}
use sandboxed_ai_agent_orche.Gate.Wait.{Saw, wait_for_decision-Saw}
use sandboxed_ai_agent_orche.Client.{Config, ClientError}
use sandboxed_ai_agent_orche.Proxy.{
  WsRequest, Message, Action, sent, recorded, output_line, executed, Next, continued, ended,
  unfinished, rate_denies, on_frames, exec_error_sent, exit_recorded, report, exec_of, run_script,
  await, hold, admit_script, serve_message, serve_session,
}

-- The calls of `client.Exec` among the actions.
unfoldable pub executions : List Action → List ExecutionRequest
executions [] = []
executions (executed q ∷ acts) = q ∷ executions acts
executions (sent e ∷ acts) = executions acts
executions (recorded k t n ∷ acts) = executions acts

executions-append : (a b : List Action) → executions (a ++ b) ≡ executions a ++ executions b
unfolding executions
executions-append [] b = refl
executions-append (executed q ∷ a) b = ap (◌∷◌ q) (executions-append a b)
executions-append (sent e ∷ a) b = executions-append a b
executions-append (recorded k t n ∷ a) b = executions-append a b

executions-on_frames : (fs : List ResponseFrame) → executions (on_frames fs).0 ≡ []
unfolding executions on_frames
executions-on_frames [] = refl
executions-on_frames (f ∷ fs) = ground (arith, executions-on_frames fs)

executions-exit_recorded : (c : Option ℤ) → executions (exit_recorded c) ≡ []
unfolding executions exit_recorded
executions-exit_recorded none = refl
executions-exit_recorded (some c) = refl

executions-exec_error_sent :
    (describe : ClientError → Text) (e : Option ClientError)
    → executions (exec_error_sent describe e) ≡ []
unfolding executions exec_error_sent
executions-exec_error_sent describe none = refl
executions-exec_error_sent describe (some e) = refl

executions-output :
    (b : Bool) (t : Text) → executions (if b then [] else recorded output_line t none ∷ []) ≡ []
unfolding executions
executions-output true t = refl
executions-output false t = refl

silent-append :
    (a b : List Action) → executions a ≡ [] → executions b ≡ [] → executions (a ++ b) ≡ []
silent-append a b e f = rw (executions-append a b, e, f)

executions-report :
    (describe : ClientError → Text) (fs : List ResponseFrame) (result : Option ClientError)
    → executions (report describe (fs, result)) ≡ []
unfolding report
executions-report describe fs result =
    silent-append _ _
      (silent-append _ _
        (silent-append _ _ (executions-on_frames fs)
          (executions-output (is_empty (on_frames fs).1) (on_frames fs).1))
        (executions-exit_recorded (on_frames fs).2))
      (executions-exec_error_sent describe result)

module _ (r : Redis) (json : Codec ApprovalRecord) (wire : Codec ResponseFrame)
    (to_lower : Text → Text) (g : Gate) (c : Config) where
  -- The script of the message may run: its pattern is harmless, or it was put to the operator and some
  -- poll of the wait has read the record of that very request in a state that is neither pending nor
  -- rejected.
  pub Allowed : Message r.Db → WsRequest → Text → r.Db → Type 0
  Allowed m q sandbox_id db =
      ((classify to_lower g q.script).0 ≡ benign)
      ⊎ ((id : Text) × ((submit r json g m.new_id m.now sandbox_id q.script
              (classify to_lower g q.script).1 db).0
            ≡ ok id)
          × ((s : State) × (s ≢ pending) × (s ≢ rejected) × Saw r json g id s m.polls))

  -- What is run comes from this message, was not denied by the limiter, and is allowed.
  pub record Cleared (m : Message r.Db) (sandbox_id : Text) (db : r.Db) (e : ExecutionRequest)
      : Type 0 where
    pub q : WsRequest
    pub asked : m.request ≡ some q
    pub not_empty : is_empty q.script ≡ false
    pub not_denied : rate_denies m.rate ≡ false
    pub unchanged : e ≡ exec_of q m.exec_id
    pub allowed : Allowed m q sandbox_id db

  executions-run_script :
      (m : Message r.Db) (q : WsRequest)
      → executions (run_script r json wire to_lower g c m q) ≡ exec_of q m.exec_id ∷ []
  unfolding executions run_script
  executions-run_script m q = ap (◌∷◌ (exec_of q m.exec_id)) (executions-report m.describe _ _)

  executions-await :
      (m : Message r.Db) (q : WsRequest) (x : WaitResult)
      → (executions (await r json wire to_lower g c m q x).0 ≡ [])
        ⊎ ((executions (await r json wire to_lower g c m q x).0 ≡ exec_of q m.exec_id ∷ [])
            × ((s : State) × (x ≡ returned s) × (s ≢ rejected)))
  unfolding executions await
  executions-await m q waiting = inl refl
  executions-await m q cancelled = inl refl
  executions-await m q (returned rejected) = inl refl
  executions-await m q (returned pending) =
      inr (executions-run_script m q, (pending, refl, λ e. ground arith))
  executions-await m q (returned approved) =
      inr (executions-run_script m q, (approved, refl, λ e. ground arith))
  executions-await m q (returned (other_state t)) =
      inr (executions-run_script m q, (other_state t, refl, λ e. ground arith))

  executions-hold :
      (m : Message r.Db) (q : WsRequest) (sandbox_id reason : Text) (db : r.Db)
      → (executions (hold r json wire to_lower g c m q sandbox_id reason db).0.0 ≡ [])
        ⊎ ((executions (hold r json wire to_lower g c m q sandbox_id reason db).0.0
              ≡ exec_of q m.exec_id ∷ [])
            × ((id : Text) × ((submit r json g m.new_id m.now sandbox_id q.script reason db).0
                  ≡ ok id)
                × ((s : State) × (s ≢ pending) × (s ≢ rejected) × Saw r json g id s m.polls)))
  unfolding executions hold
  executions-hold m q sandbox_id reason db =
      elim (Result-cases (submit r json g m.new_id m.now sandbox_id q.script reason db).0) [
        | inr (e, s) ↦ inl (rw (s, hold) refl)
        | inl (id, s) ↦ elim (executions-await m q (wait_for_decision r json g id m.polls)) [
          | inl silent ↦ inl (rw (s, hold) silent)
          | inr (runs, (st, w, n)) ↦ elim (wait_for_decision-Saw r json g id m.polls st w) [
            | inl rej ↦ absurd (n rej)
            | inr (settled, saw) ↦ inr (rw (s, hold) runs, (id, s, (st, settled, n, saw)))
          ]
        ]
      ]

  executions-admit_script :
      (m : Message r.Db) (q : WsRequest) (sandbox_id : Text) (db : r.Db)
      → (executions (admit_script r json wire to_lower g c m q sandbox_id db).0.0 ≡ [])
        ⊎ ((executions (admit_script r json wire to_lower g c m q sandbox_id db).0.0
              ≡ exec_of q m.exec_id ∷ [])
            × Allowed m q sandbox_id db)
  unfolding executions admit_script Allowed
  executions-admit_script m q sandbox_id db = class (classify to_lower g q.script).0 refl
    where
      class :
          (k : Classification)
          → (classify to_lower g q.script).0 ≡ k
          → (executions (admit_script r json wire to_lower g c m q sandbox_id db).0.0 ≡ [])
            ⊎ ((executions (admit_script r json wire to_lower g c m q sandbox_id db).0.0
                  ≡ exec_of q m.exec_id ∷ [])
                × Allowed m q sandbox_id db)
      class benign k = inr (rw (k, admit_script) (executions-run_script m q), inl k)
      class sensitive k =
          elim (executions-hold m q sandbox_id (classify to_lower g q.script).1 db) [
            | inl silent ↦ inl (rw (k, admit_script) silent)
            | inr (runs, saw) ↦ inr (rw (k, admit_script) runs, inr saw)
          ]

  -- The handling of one message calls the guest at most once, and then with the script of that message,
  -- which is not empty, was not denied by the limiter, and is benign or was put to the operator and
  -- its record seen neither pending nor rejected: a wait that is cut off, a rejection and an expired
  -- record run nothing.
  pub serve_message-Cleared :
      (m : Message r.Db) (sandbox_id : Text) (db : r.Db)
      → (executions (serve_message r json wire to_lower g c m sandbox_id db).0.0 ≡ [])
        ⊎ ((e : ExecutionRequest) × (executions
                (serve_message r json wire to_lower g c m sandbox_id db).0.0
              ≡ e ∷ [])
            × Cleared m sandbox_id db e)
  unfolding executions serve_message
  serve_message-Cleared m sandbox_id db = elim (Option-cases m.request) [
    | inl a ↦ inl (rw (a, serve_message) refl)
    | inr (q, a) ↦ elim (Bool-cases (is_empty q.script)) [
      | inl b ↦ inl (rw (a, serve_message, b) refl)
      | inr b ↦ elim (Bool-cases (rate_denies m.rate)) [
        | inl d ↦ inl (rw (a, serve_message, b, d) refl)
        | inr d ↦ elim (executions-admit_script m q sandbox_id db) [
          | inl silent ↦ inl (rw (a, serve_message, b, d) silent)
          | inr (runs, ok_) ↦ inr (
            exec_of q m.exec_id,
            rw (a, serve_message, b, d) runs,
            record {
              q = q;
              asked = a;
              not_empty = b;
              not_denied = d;
              unchanged = refl;
              allowed = ok_;
            },
          )
        ]
      ]
    ]
  ]

  -- One of the messages has cleared the request.
  pub data Origin (sandbox_id : Text) (e : ExecutionRequest) : List (Message r.Db) → Type 0 where
    first :
        (m : Message r.Db) (ms : List (Message r.Db)) (db : r.Db)
        → Cleared m sandbox_id db e
        → Origin sandbox_id e (m ∷ ms)
    rest :
        (m : Message r.Db) (ms : List (Message r.Db))
        → Origin sandbox_id e ms
        → Origin sandbox_id e (m ∷ ms)

  All-rest :
      (sandbox_id : Text) (m : Message r.Db) (ms : List (Message r.Db)) (es : List ExecutionRequest)
      → All (λ e. Origin sandbox_id e ms) es
      → All (λ e. Origin sandbox_id e (m ∷ ms)) es
  All-rest sandbox_id m ms [] h = tt
  All-rest sandbox_id m ms (e ∷ es) (o, h) = (rest m ms o, All-rest sandbox_id m ms es h)

  head-Origin :
      (m : Message r.Db) (ms : List (Message r.Db)) (sandbox_id : Text) (db : r.Db)
      → All
          (λ e. Origin sandbox_id e (m ∷ ms))
          (executions (serve_message r json wire to_lower g c m sandbox_id db).0.0)
  head-Origin m ms sandbox_id db = elim (serve_message-Cleared m sandbox_id db) [
    | inl silent ↦ rw silent tt
    | inr (e, runs, cleared) ↦ rw runs (first m ms db cleared, tt)
  ]

  -- Whatever the browser sends in a session and whatever Redis holds, every script that reaches the guest
  -- is that of one of the messages, is not empty and was not denied by the limiter (a check that fails
  -- denies nothing), and it is benign, or it was put to the operator and a poll of the wait has read the
  -- record of that very request in a state that is neither pending nor rejected.
  pub serve_session-Origin :
      (ms : List (Message r.Db)) (sandbox_id : Text) (db : r.Db)
      → All
          (λ e. Origin sandbox_id e ms)
          (executions (serve_session r json wire to_lower g c ms sandbox_id db).0)
  unfolding serve_session executions
  serve_session-Origin [] sandbox_id db = tt
  serve_session-Origin (m ∷ ms) sandbox_id db =
      go (serve_message r json wire to_lower g c m sandbox_id db).0.1 refl (
        serve_session-Origin ms sandbox_id
          (serve_message r json wire to_lower g c m sandbox_id db).1)
    where
      go :
          (n : Next)
          → (serve_message r json wire to_lower g c m sandbox_id db).0.1 ≡ n
          → All
              (λ e. Origin sandbox_id e ms)
              (executions
                (serve_session r json wire to_lower g c ms sandbox_id
                  (serve_message r json wire to_lower g c m sandbox_id db).1).0)
          → All
              (λ e. Origin sandbox_id e (m ∷ ms))
              (executions (serve_session r json wire to_lower g c (m ∷ ms) sandbox_id db).0)
      go continued n ih =
          rw
            (
              n,
              serve_session,
              executions-append _
                  (serve_session r json wire to_lower g c ms sandbox_id
                    (serve_message r json wire to_lower g c m sandbox_id db).1).0,
            )
            (All-append _ _ _ (head-Origin m ms sandbox_id db) (All-rest sandbox_id m ms _ ih))
      go ended n ih = rw (n, serve_session) (head-Origin m ms sandbox_id db)
      go unfinished n ih = rw (n, serve_session) (head-Origin m ms sandbox_id db)
