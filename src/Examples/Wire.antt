-- ===== src/Examples/Wire.antt =====
-- The frames, the client and the guest agent at concrete inputs.
use sandboxed_ai_agent_orche.Prelude.{
  ℕ, ◌≤◌, ◌<◌, ◌≡◌, refl, sym, subst, ap, ◌⊎◌, true, false, ◌&&◌, Option, none, some, List, [], ◌∷◌,
  ◌++◌, arith, if◌then◌else◌, ltb, ◌==◌, length, take, concat, All, ok, err,
}
use sandboxed_ai_agent_orche.Prelude.Text.{Text, codes}
use sandboxed_ai_agent_orche.Prelude.Int.{pos}
use sandboxed_ai_agent_orche.Protocol.{
  max_frame_size, Codec, Writer, ExecutionRequest, exec, ResponseFrame, FrameKind, terminal,
  put_uint32, uint32, read_full, write_message, read_message,
}
use sandboxed_ai_agent_orche.Protocol.RoundTrip.{framed, read_message-write_message}
use sandboxed_ai_agent_orche.Protocol.Stream.{IsOutput}
use sandboxed_ai_agent_orche.Client
use sandboxed_ai_agent_orche.Client.{
  Attempts, refused, connected, ConnectError, dial_failed, read_string, trim_right, do_handshake,
  connect, retry_loop, dial_with_retry, exec_loop, exec_request, finish,
}
use sandboxed_ai_agent_orche.Client.Handshake.{do_handshake-read_ahead}
use sandboxed_ai_agent_orche.Client.Retry.{dial_with_retry_first_success}
use sandboxed_ai_agent_orche.Client.Exec.{Encodes, frame, exec_request_response}
use sandboxed_ai_agent_orche.Agent
use sandboxed_ai_agent_orche.Agent.{
  on_wire, all_on_wire, Sender, Command, Outcome, Format, Effect, started, killed_group, WaitResult,
  output_frame, exit_frame, effective_timeout, command_of, new_stream_writer, copy_output,
  handle_conn,
}
use sandboxed_ai_agent_orche.Agent.Writer.{fw_send, frame_writer_lem}
use sandboxed_ai_agent_orche.Agent.Output.{bytes_of, IsChunk, copy_output_cap}
use sandboxed_ai_agent_orche.Agent.Reply.{Replied, handle_conn-Replied, exec_request-handle_conn}

-- An output frame is a zero and its bytes; any other frame is an exit.
encode_frame : ResponseFrame → Text
encode_frame f = elim f.kind [ FrameKind.output ↦ 0 ∷ f.payload | _ ↦ 1 ∷ [] ]

decode_frame : Text → Option ResponseFrame
decode_frame [] = none
decode_frame (b ∷ t) = if b == 0 then some (output_frame [] t) else some (exit_frame [] (pos 0))

abbrev frames : Codec ResponseFrame
frames = record {
  marshal = λ f. some (encode_frame f);
  unmarshal = decode_frame;
  IsPlain = λ f. decode_frame (encode_frame f) ≡ some f;
  unmarshal-marshal = λ f plain. (encode_frame f, refl, plain);
}

request_of : Text → ExecutionRequest
request_of script = record {
  id = [];
  kind = exec;
  script = script;
  timeout_sec = pos 0;
  workdir = [];
  env = [];
}

abbrev requests : Codec ExecutionRequest
unfolding request_of
requests = record {
  marshal = λ q. some q.script;
  unmarshal = λ t. some (request_of t);
  IsPlain = λ q. request_of q.script ≡ q;
  unmarshal-marshal = λ q plain. (q.script, refl, ap some plain);
}

abbrev buffer : Writer
buffer = record {
  Conn = Text;
  write = λ p c. (true, c ++ p);
  sent = λ c. c;
  write-sent = λ p c e. refl;
}

abbrev hi : ResponseFrame
hi = output_frame [] (104 ∷ 105 ∷ [])

abbrev bye : ResponseFrame
bye = exit_frame [] (pos 0)

written : (write_message frames buffer hi []).0 ≡ none
unfolding write_message encode_frame
written = refl

plain_hi : frames.IsPlain hi
unfolding decode_frame encode_frame
plain_hi = refl

read_message-write_message_example :
    (frame : Text) × ((write_message frames buffer hi []).1 ≡ [] ++ frame)
    × ((rest : Text) → read_message frames (frame ++ rest) ≡ ok (hi, rest))
read_message-write_message_example = read_message-write_message frames buffer hi [] plain_hi written

-- The guest answers the second attempt with a handshake and these bytes.
answering : Text → Attempts
answering s = record {
  dial = λ n. if n == 0 then refused else connected true (codes "OK 5005" ++ (10 ∷ s));
  done = λ n. false;
}

abbrev client : Client.Config
client = record {
  port = 5005;
  dial_timeout = pos 5;
  retry_max = pos 3;
  retry_base = pos 100;
  retry_cap = pos 2000;
  ping_deadline = pos 5;
}

refusal : (s : Text) (i : ℕ) → i < 1 → (e : ConnectError) × (connect ((answering s).dial i) ≡ err e)
unfolding answering connect
refusal s i h = let z : i ≡ 0 = omega arith in rw z (dial_failed, refl)

answer : (s : Text) → connect ((answering s).dial 1) ≡ ok s
unfolding answering connect
answer s =
    do_handshake-read_ahead (codes "5005") s
      ((λ e. omega arith), ((λ e. omega arith), ((λ e. omega arith), ((λ e. omega arith), tt))))

calm : (s : Text) (i : ℕ) → i ≤ 1 → (answering s).done i ≡ false
unfolding answering
calm s i h = refl

dials : (s : Text) → (dial_with_retry client (answering s)).1 ≡ ok s
dials s =
    (dial_with_retry_first_success client (answering s) 3 1 s refl (omega arith) (calm s)
      (refusal s) (answer s)).0

dial_with_retry_first_success_example :
    ((dial_with_retry client (answering (7 ∷ []))).1 ≡ ok (7 ∷ []))
    × (length (dial_with_retry client (answering (7 ∷ []))).0 ≡ 1)
dial_with_retry_first_success_example =
    dial_with_retry_first_success client (answering (7 ∷ [])) 3 1 (7 ∷ []) refl (omega arith)
      (calm (7 ∷ [])) (refusal (7 ∷ [])) (answer (7 ∷ []))

abbrev stream : Text
stream = framed (0 ∷ 104 ∷ 105 ∷ []) ++ (framed (1 ∷ []) ++ [])

encoded : Encodes frames (hi ∷ (bye ∷ [])) stream
unfolding decode_frame
encoded =
    frame hi (0 ∷ 104 ∷ 105 ∷ []) refl (omega arith)
      (frame bye (1 ∷ []) refl (omega arith) Encodes.done)

open_hi : IsOutput hi
unfolding terminal
open_hi = refl

ends_bye : terminal bye ≡ true
unfolding terminal
ends_bye = refl

exec_request_response_example :
    exec_request frames client (answering (stream ++ (9 ∷ []))) true false
    ≡ (hi ∷ (bye ∷ []), finish bye)
exec_request_response_example =
    exec_request_response frames client (answering (stream ++ (9 ∷ []))) false (hi ∷ []) bye stream
      (9 ∷ []) (dials (stream ++ (9 ∷ []))) encoded (open_hi, tt) ends_bye

no_error : (exec_request frames client (answering (stream ++ (9 ∷ []))) true false).1 ≡ none
unfolding finish
no_error =
    ap (λ (p : List ResponseFrame × Option Client.ClientError). p.1) exec_request_response_example

-- A byte that is not ASCII becomes U+FFFD.
abbrev ascii : Text → Text
ascii [] = []
ascii (b ∷ s) = let rest = ascii s in if ltb b 128 then b ∷ rest else 239 ∷ 191 ∷ 189 ∷ rest

-- Every send succeeds.
abbrev log : Sender
log = record {
  Conn = List ResponseFrame;
  send = λ f c. (true, c ++ (on_wire ascii f ∷ []));
  frames = λ c. c;
  coerce = ascii;
  send-ok = λ f c e. refl;
  send-failed = λ f c e. absurd (cc e);
}

hi_read : (p : Text) → frames.marshal hi ≡ some p → frames.unmarshal p ≡ some (on_wire ascii hi)
unfolding encode_frame decode_frame
hi_read p e = let same : 0 ∷ (104 ∷ (105 ∷ [])) ≡ p = ground (arith, e) in rw (← same) refl

frame_writer_example :
    let (fine, c') = fw_send buffer frames ascii hi ([], []) in
    (fine ≡ true → (c'.1 ≡ [] ++ (on_wire ascii hi ∷ [])) × Encodes frames c'.1 (buffer.sent c'.0))
    × ((p : Text)
        → frames.marshal hi ≡ some p
        → max_frame_size < length p
        → (fine ≡ false) × (c' ≡ ([], [])))
frame_writer_example = frame_writer_lem buffer frames ascii hi [] [] hi_read Encodes.done

abbrev writes : List Text
writes = (1 ∷ 2 ∷ []) ∷ (3 ∷ 4 ∷ []) ∷ []

copy_output_cap_example :
    let s = new_stream_writer (codes "r") 3 2 in
    let r = copy_output log writes s [] in
    (fresh : List ResponseFrame) × (r.2 ≡ [] ++ all_on_wire ascii fresh)
    × All (IsChunk s) fresh
    × (0 < 3 → length (bytes_of fresh) ≤ 3)
    × (r.0 ≡ true → bytes_of fresh ≡ (if 3 == 0 then concat writes else take 3 (concat writes)))
    × (r.0 ≡ true → r.1.truncated ≡ (ltb 0 3 && ltb 3 (length (concat writes))))
copy_output_cap_example = copy_output_cap log (codes "r") 3 2 writes []

abbrev agent : Agent.Config
agent = record {
  uid = 1000;
  gid = 1000;
  shell = codes "/bin/sh";
  workdir = codes "/workspace";
  default_timeout = pos 30;
  max_timeout = pos 300;
  max_output = 0;
  chunk_size = 4;
}

abbrev texts : Format
texts = record { duration = λ d. []; number = λ n. []; quote = λ k. [] }

-- Every command prints two bytes and exits with 0.
abbrev run : Command → Outcome
run cmd = record {
  start_error = none;
  writes = (104 ∷ 105 ∷ []) ∷ [];
  wait = λ copied. WaitResult.exited;
  deadline_exceeded = false;
}

abbrev arrived : Text
arrived = framed (codes "ls")

arrived_reads : read_message requests arrived ≡ ok (request_of (codes "ls"), [])
unfolding read_message read_full uint32 put_uint32 request_of
arrived_reads = refl

handle_conn-Replied_example :
    Replied log
      (request_of (codes "ls")).id
      []
      (handle_conn log texts run requests agent arrived []).0
    × ((let effects = (handle_conn log texts run requests agent arrived []).1 in
        (effects ≡ [])
        ⊎ (effects ≡ started (command_of agent (request_of (codes "ls"))) ∷ killed_group ∷ [])))
handle_conn-Replied_example =
    handle_conn-Replied log texts run agent (request_of (codes "ls")) (λ f c a. refl) requests
      arrived [] [] arrived_reads

agent_frames : (handle_conn log texts run requests agent arrived []).0 ≡ hi ∷ (bye ∷ [])
unfolding handle_conn Agent.by_kind Agent.run_script Agent.finish_script Agent.send_quietly
    Agent.copy_output Agent.write Agent.send_chunks Agent.admitted Agent.new_stream_writer
    Agent.last_frame request_of read_message read_full uint32 put_uint32
agent_frames = refl

exec_request-handle_conn_example :
    (last : ResponseFrame) × (terminal last ≡ true)
    × (exec_request frames client (answering stream) true false
        ≡ ((handle_conn log texts run requests agent arrived []).0, finish last))
exec_request-handle_conn_example =
    exec_request-handle_conn log texts run agent (request_of (codes "ls")) (λ f c a. refl) requests
      frames arrived [] stream [] client (answering stream) false arrived_reads refl
      (subst (λ (fs : List ResponseFrame). Encodes frames fs stream) (sym agent_frames) encoded)
      (dials stream)
