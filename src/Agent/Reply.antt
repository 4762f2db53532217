-- ===== src/Agent/Reply.antt =====
-- The response to one request in cmd/guest-agent/guest_agent.go, and the host's reading of it.
use sandboxed_ai_agent_orche.Prelude.{
  some, ◌≡◌, refl, sym, ap, ◌∙◌, ◌⊎◌, inl, inr, Bool, true, List, [], ◌∷◌, ◌++◌, arith, Bool-cases,
  Option-cases, is_empty, append_assoc, append-nil, All, All-append, ok,
}
use sandboxed_ai_agent_orche.Prelude.Text.{Text, codes}
use sandboxed_ai_agent_orche.Prelude.Int.{◌≤ℤ◌}
use sandboxed_ai_agent_orche.Protocol.{
  Codec, ExecutionRequest, RequestKind, ResponseFrame, terminal, read_message,
}
use sandboxed_ai_agent_orche.Protocol.Stream.{IsOutput, IsResponse}
use sandboxed_ai_agent_orche.Client
use sandboxed_ai_agent_orche.Client.{Attempts, dial_with_retry, exec_request, finish}
use sandboxed_ai_agent_orche.Client.Exec.{Encodes, exec_request_response}
use sandboxed_ai_agent_orche.Agent.{
  on_wire, all_on_wire, Sender, Config, Command, Outcome, Format, Effect, started, killed_group,
  WaitResult, StreamWriter, output_frame, error_frame, effective_timeout, command_of, last_frame,
  new_stream_writer, copy_output, send_quietly, finish_script, truncation_note, run_script, by_kind,
  pong_frame, handle_conn,
}
use sandboxed_ai_agent_orche.Agent.Output.{IsChunk, copy_output_cap}

-- The timeout of a script is at most `MaxTimeout`, whatever the request asks for.
pub effective_timeout-le :
    (cfg : Config) (req : ExecutionRequest) → effective_timeout cfg req ≤ℤ cfg.max_timeout
unfolding effective_timeout
effective_timeout-le cfg req = ground arith

abbrev HasId : Text → ResponseFrame → Type 0
HasId id f = f.id ≡ id

last_frame-terminal :
    (fmt : Format) (req : ExecutionRequest) (cmd : Command) (d : Bool) (w : WaitResult)
    → (terminal (last_frame fmt req cmd d w) ≡ true) × ((last_frame fmt req cmd d w).id ≡ req.id)
unfolding last_frame terminal
last_frame-terminal fmt req cmd d w = ground arith

chunk-IsOutput :
    (coerce : Text → Text) (s : StreamWriter) (fs : List ResponseFrame)
    → All (IsChunk s) fs
    → All IsOutput (all_on_wire coerce fs)
unfolding terminal
chunk-IsOutput coerce s [] h = tt
chunk-IsOutput coerce s (f ∷ fs) ((e, _), h) = (rw e, chunk-IsOutput coerce s fs h)

chunk-HasId :
    (coerce : Text → Text) (s : StreamWriter) (fs : List ResponseFrame)
    → All (IsChunk s) fs
    → All (HasId (coerce s.id)) (all_on_wire coerce fs)
chunk-HasId coerce s [] h = tt
chunk-HasId coerce s (f ∷ fs) ((e, _), h) =
    (ap (λ (g : ResponseFrame). coerce g.id) e, chunk-HasId coerce s fs h)

-- The frames that may have to be sent for a request besides the chunks of its output.
pub data Answer (fmt : Format) (run : Command → Outcome) (cfg : Config) (req : ExecutionRequest)
    : ResponseFrame → Type 0 where
  pong : Answer fmt run cfg req (pong_frame req.id)
  unknown_kind :
      (k : Text)
      → req.kind ≡ RequestKind.other k
      → Answer fmt run cfg req
          (error_frame req.id (codes "unknown request kind: " ++ fmt.quote (RequestKind.other k)))
  no_script : Answer fmt run cfg req (error_frame req.id (codes "empty script"))
  not_started :
      (why : Text)
      → (run (command_of cfg req)).start_error ≡ some why
      → Answer fmt run cfg req (error_frame req.id (codes "start failed: " ++ why))
  note : Answer fmt run cfg req (output_frame req.id (truncation_note fmt cfg))
  result :
      (copied : Bool)
      → Answer fmt run cfg req (
          last_frame fmt req
            (command_of cfg req)
            (run (command_of cfg req)).deadline_exceeded
            ((run (command_of cfg req)).wait copied))

-- What a handler has sent: a complete response, every frame of which carries the request's id as JSON
-- has it.
pub record Replied (out : Sender) (id : Text) (c c' : out.Conn) : Type 0 where
  pub frames : List ResponseFrame
  pub grew : out.frames c' ≡ out.frames c ++ frames
  pub response : IsResponse frames
  pub ids : All (HasId (out.coerce id)) frames

module _ (out : Sender) (fmt : Format) (run : Command → Outcome) (cfg : Config)
    (req : ExecutionRequest)
    (steady : (f : ResponseFrame) (c : out.Conn)
      → Answer fmt run cfg req f
      → (out.send f c).0 ≡ true) where
  replied :
      (c c' c'' : out.Conn) (outputs : List ResponseFrame) (last : ResponseFrame)
      → out.frames c' ≡ out.frames c ++ outputs
      → All IsOutput outputs
      → All (HasId (out.coerce req.id)) outputs
      → (terminal last ≡ true) × (last.id ≡ req.id)
      → Answer fmt run cfg req last
      → c'' ≡ send_quietly out fmt run last c'
      → Replied out req.id c c''
  unfolding send_quietly terminal
  replied c c' c'' outputs last grew o ids (t, i) answer e = record {
    frames = outputs ++ (on_wire out.coerce last ∷ []);
    grew =
        ap out.frames e
        ∙ out.send-ok last c' (steady last c' answer)
        ∙ ap (λ (x : List ResponseFrame). x ++ (on_wire out.coerce last ∷ [])) grew
        ∙ append_assoc (out.frames c) outputs (on_wire out.coerce last ∷ []);
    response = record {
      outputs = outputs;
      last = on_wire out.coerce last;
      split = refl;
      open_before = o;
      ends = t;
    };
    ids =
        All-append (HasId (out.coerce req.id)) outputs (on_wire out.coerce last ∷ []) ids
          (ap out.coerce i, tt);
  }

  only :
      (c : out.Conn) (last : ResponseFrame)
      → (terminal last ≡ true) × (last.id ≡ req.id)
      → Answer fmt run cfg req last
      → Replied out req.id c (send_quietly out fmt run last c)
  only c last t answer = replied c c _ [] last (sym (append-nil (out.frames c))) tt tt t answer refl

  noted :
      (c c' : out.Conn) (fresh : List ResponseFrame) (f : ResponseFrame)
      → out.frames c' ≡ out.frames c ++ fresh
      → Answer fmt run cfg req f
      → out.frames (send_quietly out fmt run f c')
        ≡ out.frames c ++ (fresh ++ (on_wire out.coerce f ∷ []))
  unfolding send_quietly
  noted c c' fresh f grew answer =
      out.send-ok f c' (steady f c' answer)
      ∙ ap (λ (x : List ResponseFrame). x ++ (on_wire out.coerce f ∷ [])) grew
      ∙ append_assoc (out.frames c) fresh (on_wire out.coerce f ∷ [])

  finish_script-Replied :
      (c : out.Conn)
      → let cmd = command_of cfg req in
        Replied out req.id c (finish_script out fmt run cfg req cmd (run cmd) c).0
  unfolding finish_script terminal new_stream_writer
  finish_script-Replied c =
      let cmd = command_of cfg req in
      let o = run cmd in
      let (fresh, grew, chunks, _, _, _) =
        copy_output_cap out req.id cfg.max_output cfg.chunk_size o.writes c in
      let s = new_stream_writer req.id cfg.max_output cfg.chunk_size in
      let r = copy_output out o.writes s c in
      let last = last_frame fmt req cmd o.deadline_exceeded (o.wait r.0) in
      let note = output_frame req.id (truncation_note fmt cfg) in
      let ends = last_frame-terminal fmt req cmd o.deadline_exceeded (o.wait r.0) in
      let wired = all_on_wire out.coerce fresh in
      let outs = chunk-IsOutput out.coerce s fresh chunks in
      let ids : All (HasId (out.coerce req.id)) wired = chunk-HasId out.coerce s fresh chunks in
      let noted_too = on_wire out.coerce note in
      elim (Bool-cases r.1.truncated) [
        | inr whole ↦
            rw whole (replied c r.2 _ wired last grew outs ids ends (Answer.result r.0) refl)
        | inl cut ↦ rw cut (
            replied c (send_quietly out fmt run note r.2) _ (wired ++ (noted_too ∷ [])) last
              (noted c r.2 wired note grew Answer.note)
              (All-append IsOutput wired (noted_too ∷ []) outs (refl, tt))
              (All-append (HasId (out.coerce req.id)) wired (noted_too ∷ []) ids (refl, tt)) ends
              (Answer.result r.0) refl)
      ]

  run_script-Replied : (c : out.Conn) → Replied out req.id c (run_script out fmt run cfg req c).0
  unfolding run_script terminal
  run_script-Replied c = elim (Bool-cases (is_empty req.script)) [
    | inl e ↦
        rw e (only c (error_frame req.id (codes "empty script")) (refl, refl) Answer.no_script)
    | inr e ↦ elim (Option-cases (run (command_of cfg req)).start_error) [
      | inl n ↦ rw (e, n) (finish_script-Replied c)
      | inr (why, s) ↦
          rw (e, s)
            (only c (error_frame req.id (codes "start failed: " ++ why)) (refl, refl)
              (Answer.not_started why s))
    ]
  ]

  by_kind-Replied :
      (k : RequestKind) (c : out.Conn)
      → req.kind ≡ k
      → Replied out req.id c (by_kind out fmt run k cfg req c).0
  unfolding by_kind terminal
  by_kind-Replied RequestKind.ping c e = only c (pong_frame req.id) (refl, refl) Answer.pong
  by_kind-Replied RequestKind.exec c e = run_script-Replied c
  by_kind-Replied RequestKind.unset c e = run_script-Replied c
  by_kind-Replied (RequestKind.other k) c e =
      only c
        (error_frame req.id (codes "unknown request kind: " ++ fmt.quote (RequestKind.other k)))
        (refl, refl) (Answer.unknown_kind k e)

  -- Nothing, or the request's command is started and then its process group is killed.
  abbrev Contained : List Effect → Type 0
  Contained effects = (effects ≡ []) ⊎ (effects ≡ started (command_of cfg req) ∷ killed_group ∷ [])

  by_kind-Contained :
      (k : RequestKind) (c : out.Conn) → Contained (by_kind out fmt run k cfg req c).1
  unfolding by_kind run_script finish_script
  by_kind-Contained k c = ground arith

  -- A request that the agent can read is answered with a complete response under the request's id, as
  -- JSON has it: output frames and then one terminal frame, if the frames that the request may need
  -- besides the chunks of the output (the pong, the errors, the note on truncation, the result) are
  -- accepted, which the FrameWriter does not do for one over `MaxFrameSize`. Whether chunks are accepted
  -- does not matter. All it does to the system is to start the one command and, after it, to kill its
  -- process group.
  pub handle_conn-Replied :
      (codec : Codec ExecutionRequest) (arrived rest : Text) (c : out.Conn)
      → read_message codec arrived ≡ ok (req, rest)
      → Replied out req.id c (handle_conn out fmt run codec cfg arrived c).0
        × ((let effects = (handle_conn out fmt run codec cfg arrived c).1 in
            (effects ≡ []) ⊎ (effects ≡ started (command_of cfg req) ∷ killed_group ∷ [])))
  unfolding handle_conn
  handle_conn-Replied codec arrived rest c e =
      rw (e, handle_conn) (by_kind-Replied req.kind c refl, by_kind-Contained req.kind c)

  -- Client and agent together: if the frames that the request needs besides the chunks of the output are
  -- accepted, and the frames that the agent sends on a fresh connection reach the host, `Exec` hands on
  -- exactly these frames, and returns an error only for an error frame.
  pub exec_request-handle_conn :
      (codec : Codec ExecutionRequest) (frames_codec : Codec ResponseFrame)
      (arrived rest sent : Text) (c : out.Conn) (client : Client.Config) (w : Attempts) (d : Bool)
      → read_message codec arrived ≡ ok (req, rest)
      → out.frames c ≡ []
      → Encodes frames_codec (out.frames (handle_conn out fmt run codec cfg arrived c).0) sent
      → (dial_with_retry client w).1 ≡ ok sent
      → (last : ResponseFrame) × (terminal last ≡ true)
        × (exec_request frames_codec client w true d
            ≡ (out.frames (handle_conn out fmt run codec cfg arrived c).0, finish last))
  exec_request-handle_conn codec frames_codec arrived rest sent c client w d e empty enc dialled =
      let r = (handle_conn-Replied codec arrived rest c e).0 in
      let p = r.response in
      let whole : out.frames (handle_conn out fmt run codec cfg arrived c).0
          ≡ p.outputs ++ (p.last ∷ []) =
        r.grew ∙ ap (λ (x : List ResponseFrame). x ++ r.frames) empty ∙ p.split in
      (
        p.last,
        p.ends,
        exec_request_response frames_codec client w d p.outputs p.last sent []
              (rw append-nil dialled) (rw whole at enc) p.open_before p.ends
            ∙ ap (λ (x : List ResponseFrame). (x, finish p.last)) (sym whole),
      )
