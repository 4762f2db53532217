-- ===== src/Agent/Writer.antt =====
-- The FrameWriter of internal/protocol/protocol.go as the agent's sender.
use sandboxed_ai_agent_orche.Prelude.{
  ◌%◌, ◌^◌, ◌≡◌, ◌≤◌, ◌<◌, refl, ap, sym, subst, Bool, true, false, none, some, List, [], ◌∷◌, ◌++◌,
  arith, length, append_assoc, append-nil, Option-cases, inl, inr,
}
use sandboxed_ai_agent_orche.Prelude.Text.{Text}
use sandboxed_ai_agent_orche.Protocol.{
  Codec, Writer, ResponseFrame, max_frame_size, frame_too_large, marshal_failed, put_uint32,
  write_message,
}
use sandboxed_ai_agent_orche.Protocol.RoundTrip.{framed}
use sandboxed_ai_agent_orche.Client.Exec.{Encodes}
use sandboxed_ai_agent_orche.Agent.{on_wire, Sender}

module _ (w : Writer) (codec : Codec ResponseFrame) (coerce : Text → Text) where
  -- A FrameWriter, with the frames that it has written.
  unfoldable pub fw_send :
      ResponseFrame → w.Conn × List ResponseFrame → Bool × (w.Conn × List ResponseFrame)
  fw_send f (c, fs) =
      let (e, c') = write_message codec w f c in
      elim e [ none ↦ (true, (c', fs ++ (on_wire coerce f ∷ []))) | some x ↦ (false, (c', fs)) ]

  pub fw_ok :
      (f : ResponseFrame) (c : w.Conn × List ResponseFrame)
      → (fw_send f c).0 ≡ true
      → (fw_send f c).1.1 ≡ c.1 ++ (on_wire coerce f ∷ [])
  unfolding fw_send
  fw_ok f (c, fs) e = elim (Option-cases (write_message codec w f c).0) [
    | inl q ↦ rw (q, fw_send) refl
    | inr (x, q) ↦ absurd (ground (arith, e, q))
  ]

  pub fw_failed :
      (f : ResponseFrame) (c : w.Conn × List ResponseFrame)
      → (fw_send f c).0 ≡ false
      → (fw_send f c).1.1 ≡ c.1
  unfolding fw_send
  fw_failed f (c, fs) e = elim (Option-cases (write_message codec w f c).0) [
    | inl q ↦ absurd (ground (arith, e, q))
    | inr (x, q) ↦ rw (q, fw_send) refl
  ]

  unfoldable pub frame_writer : Sender
  unfolding fw_send
  frame_writer = record {
    Conn = w.Conn × List ResponseFrame;
    send = fw_send;
    frames = λ c. c.1;
    coerce = coerce;
    send-ok = fw_ok;
    send-failed = fw_failed;
  }

  Encodes-snoc :
      (fs : List ResponseFrame) (s p : Text) (f : ResponseFrame)
      → Encodes codec fs s
      → codec.unmarshal p ≡ some f
      → length p ≤ max_frame_size
      → Encodes codec (fs ++ (f ∷ [])) (s ++ framed p)
  Encodes-snoc fs s p f (Encodes.done) u small =
      subst (λ (x : Text). Encodes codec (f ∷ []) x) (append-nil (framed p))
        (Encodes.frame f p u small Encodes.done)
  Encodes-snoc fs s p f (Encodes.frame g q {fs = gs} {s = r} v le rest) u small =
      subst (λ (x : Text). Encodes codec (g ∷ (gs ++ (f ∷ []))) x)
        (sym (append_assoc (framed q) r (framed p)))
        (Encodes.frame g q v le (Encodes-snoc gs r p f rest u small))

  written :
      (f : ResponseFrame) (c : w.Conn) (p : Text)
      → codec.marshal f ≡ some p
      → (write_message codec w f c).0 ≡ none
      → (length p ≤ max_frame_size) × (w.sent (write_message codec w f c).1 ≡ w.sent c ++ framed p)
  unfolding write_message
  written f c p m e = ground (
    arith,
    m,
    w.write-sent (put_uint32 (length p % 2 ^ 32)) c,
    w.write-sent p (w.write (put_uint32 (length p % 2 ^ 32)) c).1,
    append_assoc (w.sent c) (put_uint32 (length p)) p,
  )

  unmarshalled :
      (f : ResponseFrame) (c : w.Conn)
      → codec.marshal f ≡ none
      → (write_message codec w f c).0 ≡ some marshal_failed
  unfolding write_message
  unmarshalled f c m = ground (arith, m)

  too_large :
      (f : ResponseFrame) (c : w.Conn) (p : Text)
      → codec.marshal f ≡ some p
      → max_frame_size < length p
      → write_message codec w f c ≡ (some frame_too_large, c)
  unfolding write_message
  too_large f c p m big = ground (arith, m, big)

  -- How the FrameWriter serves as the sender: when what is on the connection encodes the frames written so
  -- far, then after a `Write` without an error it encodes these and the new one, with its texts as JSON
  -- has them, provided that this is what the codec reads back from its JSON; and a frame whose JSON is over
  -- `MaxFrameSize` is refused and nothing of it is written.
  pub frame_writer_lem :
      (f : ResponseFrame) (c : w.Conn) (fs : List ResponseFrame)
      → ((p : Text) → codec.marshal f ≡ some p → codec.unmarshal p ≡ some (on_wire coerce f))
      → Encodes codec fs (w.sent c)
      → let (fine, c') = fw_send f (c, fs) in
        (fine ≡ true → (c'.1 ≡ fs ++ (on_wire coerce f ∷ [])) × Encodes codec c'.1 (w.sent c'.0))
        × ((p : Text)
            → codec.marshal f ≡ some p
            → max_frame_size < length p
            → (fine ≡ false) × (c' ≡ (c, fs)))
  unfolding fw_send
  frame_writer_lem f c fs law before = (
    λ e. elim (Option-cases (codec.marshal f)) [
      | inl m ↦ absurd (ground (arith, e, unmarshalled f c m))
      | inr (p, m) ↦ elim (Option-cases (write_message codec w f c).0) [
        | inr (x, q) ↦ absurd (ground (arith, e, q))
        | inl q ↦
            let (small, sent) = written f c p m q in
            rw (q, fw_send)
              (
                refl,
                rw sent (Encodes-snoc fs (w.sent c) p (on_wire coerce f) before (law p m) small),
              )
      ]
    ],
    λ p m big.
        rw (too_large f c p m big, fw_send) (refl, ap (λ r. (r.1, fs)) (too_large f c p m big)),
  )
