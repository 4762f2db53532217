-- ===== src/Agent.antt =====
-- cmd/guest-agent/guest_agent.go: the daemon inside the microVM. Frames leave through a `Sender`,
-- which stands for protocol.FrameWriter on the connection; what the operating system does with the
-- started process is a parameter.
pub mod Output
pub mod Reply
pub mod Writer
use sandboxed_ai_agent_orche.Prelude.{
  ℕ, zero, suc, ◌+◌, ◌-◌, ◌*◌, ◌≡◌, Bool, true, false, ◌&&◌, Option, none, some, List, [], ◌∷◌,
  ◌++◌, ltb, ◌==◌, if◌then◌else◌, length, take, drop, is_empty, Result, ok, err,
}
use sandboxed_ai_agent_orche.Prelude.Text.{Text, codes}
use sandboxed_ai_agent_orche.Prelude.Table.{Table, lookup, insert}
use sandboxed_ai_agent_orche.Prelude.Int.{ℤ, pos, negsuc, ltb_ℤ, ◌*ℤ◌, wrap64}
use sandboxed_ai_agent_orche.Protocol.{
  Codec, ExecutionRequest, RequestKind, ResponseFrame, FrameKind, read_message,
}

-- A frame as the host reads it: json.Marshal replaces what is not UTF-8 in a text.
abbrev pub on_wire : (Text → Text) → ResponseFrame → ResponseFrame
on_wire coerce f = record f {
  id = coerce f.id;
  payload = coerce f.payload;
  message = coerce f.message;
}

abbrev pub all_on_wire : (Text → Text) → List ResponseFrame → List ResponseFrame
all_on_wire coerce [] = []
all_on_wire coerce (f ∷ fs) = on_wire coerce f ∷ all_on_wire coerce fs

-- The FrameWriter over the connection. `send` answers false for a frame that is over `MaxFrameSize` or
-- that the connection does not take; `frames` are those that the host can read, and `coerce` is what
-- json.Marshal makes of a text. A frame that is sent without an error has joined the frames; one that
-- fails has not.
pub record Sender : Type 1 where
  pub Conn : Type 0
  pub send : ResponseFrame → Conn → Bool × Conn
  pub frames : Conn → List ResponseFrame
  pub coerce : Text → Text
  pub send-ok :
      (f : ResponseFrame) (c : Conn)
      → (send f c).0 ≡ true
      → frames (send f c).1 ≡ frames c ++ (on_wire coerce f ∷ [])
  pub send-failed :
      (f : ResponseFrame) (c : Conn) → (send f c).0 ≡ false → frames (send f c).1 ≡ frames c

-- Durations are int64 nanoseconds. A `max_output` of 0 stands for every setting that is not
-- positive: no cap.
pub record Config : Type 0 where
  pub uid : ℕ
  pub gid : ℕ
  pub shell : Text
  pub workdir : Text
  pub default_timeout : ℤ
  pub max_timeout : ℤ
  pub max_output : ℕ
  pub chunk_size : ℕ

pub record StreamWriter : Type 0 where
  pub id : Text
  pub max : ℕ
  pub chunk : ℕ
  pub written : ℕ
  pub truncated : Bool

unfoldable pub new_stream_writer : Text → ℕ → ℕ → StreamWriter
new_stream_writer id max chunk = record {
  id = id;
  max = max;
  chunk = if chunk == 0 then 32 * 1024 else chunk;
  written = 0;
  truncated = false;
}

abbrev pub output_frame : Text → Text → ResponseFrame
output_frame id bytes = record {
  id = id;
  kind = FrameKind.output;
  payload = bytes;
  exit_code = pos 0;
  message = [];
}

abbrev pub error_frame : Text → Text → ResponseFrame
error_frame id why = record {
  id = id;
  kind = FrameKind.error;
  payload = [];
  exit_code = pos 0;
  message = why;
}

-- What is forwarded of `p`, with the flag after it.
unfoldable pub admitted : StreamWriter → Text → Text × Bool
admitted s p =
    if ltb 0 s.max && ltb s.max (s.written + length p)
    then (if ltb 0 (s.max - s.written) then take (s.max - s.written) p else [], true)
    else (p, false)

module _ (out : Sender) where
  -- `for len(p) > 0`, on fuel; the Boolean is `err == nil`.
  unfoldable pub send_chunks : ℕ → Text → StreamWriter → out.Conn → Bool × StreamWriter × out.Conn
  send_chunks zero p s c = (true, s, c)
  send_chunks (suc n) p s c =
      let chunk = take s.chunk p in
      let (sent, c') = out.send (output_frame s.id chunk) c in
      let rest =
        send_chunks n (drop s.chunk p) (record s { written = s.written + length chunk }) c' in
      if is_empty p then (true, s, c) else (if sent then rest else (false, s, c'))

  -- `streamWriter.Write`; it always reports all of `p` as consumed.
  unfoldable pub write : Text → StreamWriter → out.Conn → Bool × StreamWriter × out.Conn
  unfolding admitted
  write p s c =
      if s.truncated
      then (true, s, c)
      else (let (q, cut) = admitted s p in
          send_chunks (length q) q (record s { truncated = cut }) c)

  -- The output of the process, as the writes in which os/exec copies it; the copy stops at the
  -- first write that fails.
  unfoldable pub copy_output : List Text → StreamWriter → out.Conn → Bool × StreamWriter × out.Conn
  copy_output [] s c = (true, s, c)
  copy_output (p ∷ ps) s c =
      let (fine, s', c') = write p s c in
      let rest = copy_output ps s' c' in if fine then rest else (false, s', c')

-- The command that is handed to the operating system. `Setpgid` and `NoSetGroups` are always set.
pub record Command : Type 0 where
  pub shell : Text
  pub script : Text
  pub dir : Text
  pub env : List Text
  pub uid : ℕ
  pub gid : ℕ
  pub timeout : ℤ

-- What `cmd.Wait` returns: nil, an exit error with its code, or another error.
pub data WaitResult : Type 0 where
  exited : WaitResult
  exit_error : ℤ → WaitResult
  wait_failed : Text → WaitResult

-- What becomes of a command: whether it starts, the writes in which its output is copied, what
-- `Wait` returns when the copy went well or not, and whether the deadline struck.
pub record Outcome : Type 0 where
  pub start_error : Option Text
  pub writes : List Text
  pub wait : Bool → WaitResult
  pub deadline_exceeded : Bool

-- Package fmt's texts for a duration and a number, and its %q.
pub record Format : Type 0 where
  pub duration : ℤ → Text
  pub number : ℕ → Text
  pub quote : RequestKind → Text

-- What a request makes the agent do to the system besides sending frames.
pub data Effect : Type 0 where
  started : Command → Effect
  killed_group : Effect

unfoldable pub effective_timeout : Config → ExecutionRequest → ℤ
effective_timeout cfg req =
    let asked =
      if ltb_ℤ (pos 0) req.timeout_sec
      then wrap64 (req.timeout_sec *ℤ pos (1000 * 1000 * 1000))
      else cfg.default_timeout in
    if ltb_ℤ cfg.max_timeout asked then cfg.max_timeout else asked

abbrev base_env : Config → Table Text
base_env cfg =
    (codes "PATH", codes "/usr/local/sbin:/usr/local/bin:/usr/sbin:/usr/bin:/sbin:/bin")
    ∷ (codes "HOME", cfg.workdir)
    ∷ (codes "PWD", cfg.workdir)
    ∷ (codes "SHELL", cfg.shell)
    ∷ (codes "TERM", codes "xterm-256color")
    ∷ (codes "LANG", codes "C.UTF-8")
    ∷ []

-- `for k, v := range extra { base[k] = v }`
unfoldable pub overlay : Table Text → Table Text → Table Text
overlay base [] = base
overlay base ((k, v) ∷ extra) = overlay (insert k v base) extra

render_env : Table Text → List Text
render_env [] = []
render_env ((k, v) ∷ env) = (k ++ (codes "=" ++ v)) ∷ render_env env

-- A Go map has no order; the model keeps that of insertion.
unfoldable pub sanitized_env : Config → Table Text → List Text
unfolding overlay render_env
sanitized_env cfg extra = render_env (overlay (base_env cfg) extra)

unfoldable pub command_of : Config → ExecutionRequest → Command
command_of cfg req = record {
  shell = cfg.shell;
  script = req.script;
  dir = if is_empty req.workdir then cfg.workdir else req.workdir;
  env = sanitized_env cfg req.env;
  uid = cfg.uid;
  gid = cfg.gid;
  timeout = effective_timeout cfg req;
}

abbrev pub exit_frame : Text → ℤ → ResponseFrame
exit_frame id code = record {
  id = id;
  kind = FrameKind.exit;
  payload = [];
  exit_code = code;
  message = [];
}

abbrev pub pong_frame : Text → ResponseFrame
pong_frame id = record {
  id = id;
  kind = FrameKind.pong;
  payload = [];
  exit_code = pos 0;
  message = [];
}

-- The terminal frame of a script that has run.
unfoldable pub last_frame : Format → ExecutionRequest → Command → Bool → WaitResult → ResponseFrame
last_frame fmt req cmd deadline waited =
    if deadline
    then error_frame req.id (codes "execution timed out after " ++ fmt.duration cmd.timeout)
    else (elim waited [
      | exited ↦ exit_frame req.id (pos 0)
      | exit_error code ↦ exit_frame req.id code
      | wait_failed why ↦ error_frame req.id why
    ])

abbrev truncation_note : Format → Config → Text
truncation_note fmt cfg =
    10
    ∷ (codes "[output truncated at "
        ++ (fmt.number cfg.max_output ++ (codes " bytes]" ++ (10 ∷ []))))

module _ (out : Sender) (fmt : Format) (run : Command → Outcome) where
  -- `_ = fw.Write(…)`: the error is dropped.
  unfoldable pub send_quietly : ResponseFrame → out.Conn → out.Conn
  send_quietly f c = (out.send f c).1

  -- The rest of `runScript` once the command has started.
  unfoldable pub finish_script :
      Config → ExecutionRequest → Command → Outcome → out.Conn → out.Conn × List Effect
  unfolding send_quietly
  finish_script cfg req cmd o c =
      let (copied, sw, c') =
        copy_output out o.writes (new_stream_writer req.id cfg.max_output cfg.chunk_size) c in
      let c'' =
        if sw.truncated
        then send_quietly (output_frame req.id (truncation_note fmt cfg)) c'
        else c' in
      (
        send_quietly (last_frame fmt req cmd o.deadline_exceeded (o.wait copied)) c'',
        started cmd ∷ killed_group ∷ [],
      )

  unfoldable pub run_script : Config → ExecutionRequest → out.Conn → out.Conn × List Effect
  unfolding send_quietly
  run_script cfg req c =
      if is_empty req.script
      then (send_quietly (error_frame req.id (codes "empty script")) c, [])
      else (let cmd = command_of cfg req in
          let o = run cmd in
          elim o.start_error [
            | some why ↦ (send_quietly (error_frame req.id (codes "start failed: " ++ why)) c, [])
            | none ↦ finish_script cfg req cmd o c
          ])

  -- `switch req.Kind`
  unfoldable pub by_kind :
      RequestKind → Config → ExecutionRequest → out.Conn → out.Conn × List Effect
  unfolding send_quietly
  by_kind RequestKind.ping cfg req c = (send_quietly (pong_frame req.id) c, [])
  by_kind RequestKind.exec cfg req c = run_script cfg req c
  by_kind RequestKind.unset cfg req c = run_script cfg req c
  by_kind (RequestKind.other k) cfg req c =
      let why = codes "unknown request kind: " ++ fmt.quote (RequestKind.other k) in
      (send_quietly (error_frame req.id why) c, [])

  -- One connection, with the bytes that arrive before its read deadline.
  unfoldable pub handle_conn :
      Codec ExecutionRequest → Config → Text → out.Conn → out.Conn × List Effect
  handle_conn codec cfg arrived c = elim (read_message codec arrived) [
    | err e ↦ (c, [])
    | ok (req, rest) ↦ by_kind req.kind cfg req c
  ]
