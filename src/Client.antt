-- ===== src/Client.antt =====
-- internal/gateway/vsockclient.go: the host side of one request over the vsock bridge. Dialling and
-- the clock are parameters; the frames that the guest sends are the bytes that arrive before the
-- connection ends, which is also what a cancelled context does to it.
pub mod Handshake
pub mod Retry
pub mod Exec
use Prim.Native.Nat.{◌*◌}
use sandboxed_ai_agent_orche.Prelude.{
  ℕ, zero, suc, ◌+◌, ◌/◌, ◌%◌, ◌≡◌, Bool, true, false, ◌||◌, Option, none, some, List, [], ◌∷◌,
  ◌++◌, ltb, ◌==◌, if◌then◌else◌, length, Result, ok, err,
}
use sandboxed_ai_agent_orche.Prelude.Text.{Text, codes, starts_with}
use sandboxed_ai_agent_orche.Prelude.Int.{ℤ, pos, negsuc, ltb_ℤ, ◌*ℤ◌, wrap64}
use sandboxed_ai_agent_orche.Protocol.{
  Codec, ResponseFrame, FrameKind, WireError, eof, ExecutionRequest, ping, terminal, read_message,
  default_port,
}

-- Why one attempt failed.
pub data ConnectError : Type 0 where
  dial_failed write_connect_failed read_reply_failed handshake_failed : ConnectError

pub data ClientError : Type 0 where
  cancelled send_failed closed_early : ClientError
  cancelled_after : ℕ → ClientError
  gave_up : Option ConnectError → ClientError
  read_failed : WireError → ClientError
  guest_error : Text → ClientError

-- Durations are int64 nanoseconds.
pub record Config : Type 0 where
  pub port : ℕ
  pub dial_timeout : ℤ
  pub retry_max : ℤ
  pub retry_base : ℤ
  pub retry_cap : ℤ
  pub ping_deadline : ℤ

abbrev pub second : ℕ
second = 1000 * 1000 * 1000

abbrev is_zero : ℤ → Bool
is_zero (pos n) = n == 0
is_zero (negsuc n) = false

abbrev default_to : ℤ → ℤ → ℤ
default_to d v = if is_zero v then d else v

unfoldable pub apply_defaults : Config → Config
apply_defaults c = record {
  port = if c.port == 0 then default_port else c.port;
  dial_timeout = default_to (pos (5 * second)) c.dial_timeout;
  retry_max = c.retry_max;
  retry_base = default_to (pos (100 * 1000 * 1000)) c.retry_base;
  retry_cap = default_to (pos (2 * second)) c.retry_cap;
  ping_deadline = default_to (pos (5 * second)) c.ping_deadline;
}

-- bufio's ReadString at '\n': the line with its end, and what is left in the buffer.
unfoldable pub read_string : Text → Option (Text × Text)
read_string [] = none
read_string (b ∷ r) =
    let rest = read_string r in
    if b == 10
    then some (b ∷ [], r)
    else elim rest [ none ↦ none | some (line, left) ↦ some (b ∷ line, left) ]

-- strings.TrimRight(line, "\r\n")
unfoldable pub trim_right : Text → Text
trim_right [] = []
trim_right (b ∷ s) = elim (trim_right s) [
  | [] ↦ if b == 10 || b == 13 then [] else b ∷ []
  | c ∷ t ↦ b ∷ c ∷ t
]

-- What the guest side of the bridge has sent when the deadline strikes, after the write of
-- "CONNECT <port>\n" returned an error or not. On success the result is what is left to read.
unfoldable pub do_handshake : Bool → Text → Result ConnectError Text
do_handshake write_ok arrived =
    if write_ok
    then (elim (read_string arrived) [
      | none ↦ err read_reply_failed
      | some (line, left) ↦
          if starts_with (trim_right line) (codes "OK ") then ok left else err handshake_failed
    ])
    else err write_connect_failed

-- One attempt: the dial may fail; otherwise the handshake decides.
pub data Dial : Type 0 where
  refused : Dial
  connected : Bool → Text → Dial

unfoldable pub connect : Dial → Result ConnectError Text
unfolding do_handshake
connect refused = err dial_failed
connect (connected write_ok arrived) = do_handshake write_ok arrived

-- The world during a retry loop: what each attempt meets, and whether the context is done while
-- the client sleeps before it.
pub record Attempts : Type 0 where
  pub dial : ℕ → Dial
  pub done : ℕ → Bool

-- `backoff *= 2`, and the cap.
unfoldable pub next_backoff : Config → ℤ → ℤ
next_backoff c b =
    let doubled = wrap64 (b *ℤ pos 2) in if ltb_ℤ c.retry_cap doubled then c.retry_cap else doubled

-- The loop from its second round on, with the rounds left, the attempt, the backoff and lastErr.
-- The result comes with the sleeps made.
unfoldable pub retry_loop :
    Config → Attempts → ℕ → ℕ → ℤ → ConnectError → List ℤ × Result ClientError Text
unfolding connect next_backoff
retry_loop c w zero attempt backoff last = ([], err (gave_up (some last)))
retry_loop c w (suc n) attempt backoff last =
    if w.done attempt
    then (backoff ∷ [], err (cancelled_after attempt))
    else (elim (connect (w.dial attempt)) [
      | ok conn ↦ (backoff ∷ [], ok conn)
      | err e ↦
          let (slept, r) = retry_loop c w n (attempt + 1) (next_backoff c backoff) e in
          (backoff ∷ slept, r)
    ])

-- `for attempt := 0; attempt <= RetryMax; attempt++`
retries : Config → Attempts → ℤ → List ℤ × Result ClientError Text
unfolding connect
retries c w (negsuc m) = ([], err (gave_up none))
retries c w (pos n) = elim (connect (w.dial 0)) [
  | ok conn ↦ ([], ok conn)
  | err e ↦ retry_loop c w n 1 c.retry_base e
]

unfoldable pub dial_with_retry : Config → Attempts → List ℤ × Result ClientError Text
unfolding retries
dial_with_retry c w = retries c w c.retry_max

-- How a read error is reported.
read_error : Bool → WireError → ClientError
read_error ctx_done e =
    if ctx_done then cancelled else (elim e [ eof ↦ closed_early | x ↦ read_failed x ])

-- After a terminal frame.
unfoldable pub finish : ResponseFrame → Option ClientError
finish f = elim f.kind [ FrameKind.error ↦ some (guest_error f.message) | _ ↦ none ]

-- The read loop of `Exec`, on fuel: the frames handed to `onFrame`, and the error returned.
unfoldable pub exec_loop :
    Codec ResponseFrame → Bool → ℕ → Text → List ResponseFrame × Option ClientError
unfolding read_error finish
exec_loop codec ctx_done zero r = ([], some closed_early)
exec_loop codec ctx_done (suc n) r = elim (read_message codec r) [
  | err e ↦ ([], some (read_error ctx_done e))
  | ok (frame, rest) ↦
      let (frames, result) = exec_loop codec ctx_done n rest in
      if terminal frame then (frame ∷ [], finish frame) else (frame ∷ frames, result)
]

-- `Exec`: dial, send the request, read to the terminal frame. `send_ok` says whether WriteMessage
-- returned no error. Every frame takes four bytes or more, so the fuel is enough.
unfoldable pub exec_request :
    Codec ResponseFrame → Config → Attempts → Bool → Bool → List ResponseFrame × Option ClientError
exec_request codec c w send_ok ctx_done = elim (dial_with_retry c w).1 [
  | err e ↦ ([], some e)
  | ok conn ↦
      if send_ok
      then exec_loop codec ctx_done (suc (length conn)) conn
      else ([], some (if ctx_done then cancelled else send_failed))
]

-- The request of `Ping`, whose frames are dropped.
abbrev pub ping_request : ExecutionRequest
ping_request = record {
  id = codes "hb";
  kind = ping;
  script = [];
  timeout_sec = pos 0;
  workdir = [];
  env = [];
}

unfoldable pub ping_guest :
    Codec ResponseFrame → Config → Attempts → Bool → Bool → Option ClientError
ping_guest codec c w send_ok ctx_done = (exec_request codec c w send_ok ctx_done).1
