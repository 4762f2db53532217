-- ===== src/Client/Exec.antt =====
-- The read loop of `Exec` in internal/gateway/vsockclient.go.
use sandboxed_ai_agent_orche.Prelude.{
  ℕ, zero, suc, ◌≤◌, ◌<◌, ◌≡◌, refl, sym, ap, ◌∙◌, ◌≢◌, inl, inr, Bool, true, none, some, List, [],
  ◌∷◌, ◌++◌, arith, if◌then◌else◌, Bool-cases, length, length-append, append_assoc, All, ok, err,
  Result-cases,
}
use sandboxed_ai_agent_orche.Prelude.Text.{Text}
use sandboxed_ai_agent_orche.Protocol.{
  put_uint32, Codec, ResponseFrame, FrameKind, WireError, max_frame_size, terminal, read_message,
}
use sandboxed_ai_agent_orche.Protocol.RoundTrip.{
  framed, length-put_uint32, read_message-framed, read_message-Consumed,
}
use sandboxed_ai_agent_orche.Protocol.Stream.{IsOutput, IsResponse}
use sandboxed_ai_agent_orche.Client.{
  Config, Attempts, finish, read_error, exec_loop, exec_request, dial_with_retry,
}

module _ (codec : Codec ResponseFrame) where
  -- The bytes of a sequence of frames, each of at most 16 MiB.
  pub data Encodes : List ResponseFrame → Text → Type 0 where
    done : Encodes [] []
    frame :
        (f : ResponseFrame) (payload : Text) {fs : List ResponseFrame} {s : Text}
        → codec.unmarshal payload ≡ some f
        → length payload ≤ max_frame_size
        → Encodes fs s
        → Encodes (f ∷ fs) (framed payload ++ s)

  exec_loop_step :
      (d : Bool) (n : ℕ) (r rest : Text) (f : ResponseFrame)
      → read_message codec r ≡ ok (f, rest)
      → exec_loop codec d (suc n) r ≡ (
          if terminal f
          then (f ∷ [], finish f)
          else (f ∷ (exec_loop codec d n rest).0, (exec_loop codec d n rest).1))
  unfolding exec_loop
  exec_loop_step d n r rest f e = rw (e, exec_loop)

  exec_loop_error :
      (d : Bool) (n : ℕ) (r : Text) (x : WireError)
      → read_message codec r ≡ err x
      → exec_loop codec d (suc n) r ≡ ([], some (read_error d x))
  unfolding exec_loop
  exec_loop_error d n r x e = rw (e, exec_loop)

  read_shorter :
      (r rest : Text) (f : ResponseFrame)
      → read_message codec r ≡ ok (f, rest)
      → length rest < length r
  read_shorter r rest f e =
      let c = read_message-Consumed codec r f rest e in
      omega (
        arith,
        ap length c.split,
        length-append c.header (c.payload ++ rest),
        length-append c.payload rest,
        c.header_length,
      )

  -- The fuel of `exec_request` is enough: the loop never runs more rounds than there are bytes, so
  -- more fuel changes nothing.
  pub exec_loop_fuel :
      (d : Bool) (n m : ℕ) (r : Text)
      → length r < n
      → length r < m
      → exec_loop codec d n r ≡ exec_loop codec d m r
  exec_loop_fuel d zero m r hn hm = absurd (omega arith)
  exec_loop_fuel d (suc n) zero r hn hm = absurd (omega arith)
  exec_loop_fuel d (suc n) (suc m) r hn hm = elim (Result-cases (read_message codec r)) [
    | inr (x, e) ↦ exec_loop_error d n r x e ∙ sym (exec_loop_error d m r x e)
    | inl ((f, rest), e) ↦
        let less = read_shorter r rest f e in
        let ih = exec_loop_fuel d n m rest (omega arith) (omega arith) in
        rw (exec_loop_step d n r rest f e, exec_loop_step d m r rest f e, ih)
  ]

  exec_loop_response :
      (d : Bool) (n : ℕ) (outputs : List ResponseFrame) (last : ResponseFrame) (s rest : Text)
      → Encodes (outputs ++ (last ∷ [])) s
      → All IsOutput outputs
      → terminal last ≡ true
      → length s < n
      → exec_loop codec d n (s ++ rest) ≡ (outputs ++ (last ∷ []), finish last)
  exec_loop_response d zero outputs last s rest e open_before ends h = absurd (omega arith)
  exec_loop_response d (suc n) [] last _ rest (frame f payload {s = s} u small e) open_before ends
        h =
      rw (
        append_assoc,
        exec_loop_step d n _ (s ++ rest) last
            (read_message-framed codec last payload (s ++ rest) u small),
        ends,
      )
  exec_loop_response d (suc n) (o ∷ outputs) last _ rest (frame f payload {s = s} u small e)
        open_before ends h =
      let shorter : length s < n = omega (
        arith,
        length-append (framed payload) s,
        length-append (put_uint32 (length payload)) payload,
        length-put_uint32 (length payload),
      ) in
      let ih = exec_loop_response d n outputs last s rest e open_before.1 ends shorter in
      rw (
        append_assoc,
        exec_loop_step d n _ (s ++ rest) o
            (read_message-framed codec o payload (s ++ rest) u small),
        open_before.0,
        ih,
      )

  -- On a connected sandbox that answers with output frames and one terminal frame, `Exec` hands on
  -- exactly these frames in order, ignores any bytes behind them, and returns an error only if the
  -- terminal frame is an error frame.
  pub exec_request_response :
      (c : Config) (w : Attempts) (d : Bool) (outputs : List ResponseFrame) (last : ResponseFrame)
      (s rest : Text)
      → (dial_with_retry c w).1 ≡ ok (s ++ rest)
      → Encodes (outputs ++ (last ∷ [])) s
      → All IsOutput outputs
      → terminal last ≡ true
      → exec_request codec c w true d ≡ (outputs ++ (last ∷ []), finish last)
  unfolding exec_request
  exec_request_response c w d outputs last s rest dialled e open_before ends =
      rw (dialled, exec_request)
        (exec_loop_response d _ outputs last s rest e open_before ends
          (omega (arith, length-append s rest)))

  abbrev NotError : ResponseFrame → Type 0
  NotError f = f.kind ≢ FrameKind.error

  open-NotError : (f : ResponseFrame) → IsOutput f → NotError f
  unfolding terminal
  open-NotError f h = ground arith

  finish-NotError : (f : ResponseFrame) → finish f ≡ none → NotError f
  unfolding finish
  finish-NotError f h = ground arith

  IsResponse-cons :
      (f : ResponseFrame) (fs : List ResponseFrame)
      → IsOutput f
      → IsResponse fs
      → IsResponse (f ∷ fs)
  IsResponse-cons f fs h r = record {
    outputs = f ∷ r.outputs;
    last = r.last;
    split = ap (◌∷◌ f) r.split;
    open_before = (h, r.open_before);
    ends = r.ends;
  }

  exec_loop-none :
      (d : Bool) (n : ℕ) (r : Text)
      → (exec_loop codec d n r).1 ≡ none
      → IsResponse (exec_loop codec d n r).0 × All NotError (exec_loop codec d n r).0
  exec_loop-none d zero r e = absurd (unfold exec_loop in cc)
  exec_loop-none d (suc n) r e = elim (Result-cases (read_message codec r)) [
    | inr (x, q) ↦ absurd (cc (exec_loop_error d n r x q))
    | inl ((f, rest), q) ↦ elim (Bool-cases (terminal f)) [
      | inl t ↦
          rw (exec_loop_step d n r rest f q, t)
            (
              record { outputs = []; last = f; split = refl; open_before = tt; ends = t },
              (finish-NotError f (rw (exec_loop_step d n r rest f q, t) at e), tt),
            )
      | inr t ↦
          let (resp, fine) = exec_loop-none d n rest (rw (exec_loop_step d n r rest f q, t) at e) in
          rw (exec_loop_step d n r rest f q, t)
            (IsResponse-cons f _ t resp, (open-NotError f t, fine))
    ]
  ]

  -- When `Exec` returns no error, the frames that it handed on are a complete response: output
  -- frames and then one terminal frame, none of which is an error frame.
  pub exec_request-none :
      (c : Config) (w : Attempts) (send_ok d : Bool)
      → (exec_request codec c w send_ok d).1 ≡ none
      → IsResponse (exec_request codec c w send_ok d).0
        × All (λ f. f.kind ≢ FrameKind.error) (exec_request codec c w send_ok d).0
  unfolding exec_request
  exec_request-none c w send_ok d e = elim (Result-cases (dial_with_retry c w).1) [
    | inr (x, q) ↦ absurd (ground arith)
    | inl (conn, q) ↦ elim (Bool-cases send_ok) [
      | inl t ↦ rw (q, exec_request, t) (exec_loop-none d _ conn (rw (q, exec_request, t) at e))
      | inr t ↦ absurd (ground arith)
    ]
  ]
