-- ===== src/Protocol/RoundTrip.antt =====
-- `ReadMessage` of internal/protocol/protocol.go against `WriteMessage`.
use sandboxed_ai_agent_orche.Prelude.{
  ℕ, zero, suc, ◌%◌, ◌^◌, ◌≤◌, ◌<◌, ◌≡◌, refl, sym, ap, ◌∙◌, inl, inr, none, some, [], ◌∷◌, ◌++◌,
  arith, length, take, length-append, take-append, drop-append, take-append-drop, length-take,
  append_assoc, ok, err, Result-cases,
}
use sandboxed_ai_agent_orche.Prelude.Text.{Text}
use sandboxed_ai_agent_orche.Protocol.{
  Codec, Writer, WireError, max_frame_size, put_uint32, uint32, read_full, write_message,
  read_message, read_payload,
}

pub uint32-put_uint32 : (n : ℕ) → n < 2 ^ 32 → uint32 (put_uint32 n) ≡ n
unfolding uint32 put_uint32
uint32-put_uint32 n h = omega arith

pub length-put_uint32 : (n : ℕ) → length (put_uint32 n) ≡ 4
unfolding put_uint32
length-put_uint32 n = refl

-- A frame on the wire.
abbrev pub framed : Text → Text
framed payload = put_uint32 (length payload) ++ payload

pub read_full-append :
    (n : ℕ) (p rest : Text) → n ≡ length p → read_full n (p ++ rest) ≡ ok (p, rest)
unfolding read_full
read_full-append zero [] rest h = refl
read_full-append zero (b ∷ p) rest h = absurd (omega arith)
read_full-append (suc n) [] rest h = absurd (omega arith)
read_full-append (suc n) (b ∷ p) rest h =
    ground (arith, length-append p rest, take-append n p rest, drop-append n p rest)

read_header :
    (payload rest : Text)
    → read_full 4 (framed payload ++ rest) ≡ ok (put_uint32 (length payload), payload ++ rest)
read_header payload rest =
    rw append_assoc (
      read_full-append 4 (put_uint32 (length payload)) (payload ++ rest)
        (unfold put_uint32 in refl))

pub read_full_ok :
    (n : ℕ) (r p rest : Text) → read_full n r ≡ ok (p, rest) → (r ≡ p ++ rest) × (length p ≡ n)
unfolding read_full
read_full_ok zero r p rest e = ground arith
read_full_ok (suc n) [] p rest e = cc
read_full_ok (suc n) (b ∷ r) p rest e = ground (arith, take-append-drop n r, length-take n r)

module _ {V : Type 0} (codec : Codec V) where
  pub read_message-framed :
      (v : V) (payload rest : Text)
      → codec.unmarshal payload ≡ some v
      → length payload ≤ max_frame_size
      → read_message codec (framed payload ++ rest) ≡ ok (v, rest)
  unfolding read_message
  read_message-framed v payload rest e fits = ground (
    arith,
    read_header payload rest,
    uint32-put_uint32 (length payload),
    read_full-append (length payload) payload rest,
  )

  read_payload-ok :
      (n : ℕ) (r : Text) (v : V) (rest : Text)
      → read_payload codec n r ≡ ok (v, rest)
      → (payload : Text) × (read_full n r ≡ ok (payload, rest)) × (codec.unmarshal payload ≡ some v)
  unfolding read_payload
  read_payload-ok n r v rest e = elim (Result-cases (read_full n r)) [
    | inl ((payload, left), f) ↦ (payload, ground arith, ground arith)
    | inr (x, f) ↦ absurd (ground arith)
  ]

  -- What was read when `read_message` succeeds.
  pub record Consumed (r : Text) (v : V) (rest : Text) : Type 0 where
    pub header : Text
    pub payload : Text
    pub split : r ≡ header ++ (payload ++ rest)
    pub header_length : length header ≡ 4
    pub payload_length : length payload ≡ uint32 header
    pub bounded : length payload ≤ max_frame_size
    pub decoded : codec.unmarshal payload ≡ some v

  consumed :
      (r header left : Text) (v : V) (rest : Text)
      → read_full 4 r ≡ ok (header, left)
      → uint32 header ≤ max_frame_size
      → read_payload codec (uint32 header) left ≡ ok (v, rest)
      → Consumed r v rest
  consumed r header left v rest f small g =
      let (payload, h, d) = read_payload-ok (uint32 header) left v rest g in
      let (split, four) = read_full_ok 4 r header left f in
      let (split', size) = read_full_ok (uint32 header) left payload rest h in
      record {
        header = header;
        payload = payload;
        split = cc;
        header_length = four;
        payload_length = size;
        bounded = omega arith;
        decoded = d;
      }

  pub read_message-Consumed :
      (r : Text) (v : V) (rest : Text) → read_message codec r ≡ ok (v, rest) → Consumed r v rest
  unfolding read_message
  read_message-Consumed r v rest e = elim (Result-cases (read_full 4 r)) [
    | inl ((header, left), f) ↦ consumed r header left v rest f (ground arith) (ground arith)
    | inr (x, f) ↦ absurd (ground arith)
  ]

  -- A frame that `WriteMessage` has written without an error is read back by `ReadMessage` as the
  -- value written, and the bytes that follow it are left for the next read.
  pub read_message-write_message :
      (w : Writer) (v : V) (c : w.Conn)
      → codec.IsPlain v
      → (write_message codec w v c).0 ≡ none
      → (frame : Text) × (w.sent (write_message codec w v c).1 ≡ w.sent c ++ frame)
        × ((rest : Text) → read_message codec (frame ++ rest) ≡ ok (v, rest))
  unfolding write_message
  read_message-write_message w v c plain e =
      let (payload, m, d) = codec.unmarshal-marshal v plain in
      (
        framed payload,
        ground (
          arith,
          m,
          w.write-sent (put_uint32 (length payload % 2 ^ 32)) c,
          w.write-sent payload (w.write (put_uint32 (length payload % 2 ^ 32)) c).1,
          append_assoc (w.sent c) (put_uint32 (length payload)) payload,
        ),
        λ rest. read_message-framed v payload rest d (ground (arith, m)),
      )

  -- `ReadMessage` never reads a value from a frame that was cut short: on every proper prefix of a
  -- frame of at most 16 MiB it returns an error.
  pub read_message_truncated :
      (payload front back : Text) (x : ℕ)
      → length payload ≤ max_frame_size
      → framed payload ≡ front ++ (x ∷ back)
      → (e : WireError) × (read_message codec front ≡ err e)
  read_message_truncated payload front back x fits split =
      elim (Result-cases (read_message codec front)) [
        | inr (e, f) ↦ (e, f)
        | inl ((v, rest), f) ↦ absurd (impossible v rest (read_message-Consumed front v rest f))
      ]
    where
      same_header :
          (c : Text) (t : Text) → length c ≡ 4 → front ≡ c ++ t → put_uint32 (length payload) ≡ c
      same_header c t four e =
          sym (
            take-append 4 (put_uint32 (length payload)) payload
              (sym (length-put_uint32 (length payload))))
          ∙ ap (take 4) (split ∙ ap (λ (s : Text). s ++ (x ∷ back)) e ∙ append_assoc c t (x ∷ back))
          ∙ take-append 4 c (t ++ (x ∷ back)) (sym four)

      impossible : (v : V) (rest : Text) → Consumed front v rest → ⊥
      impossible v rest c =
          let h = same_header c.header (c.payload ++ rest) c.header_length c.split in
          omega (
            arith,
            ap length split,
            ap length c.split,
            length-append (put_uint32 (length payload)) payload,
            length-append front (x ∷ back),
            length-append c.header (c.payload ++ rest),
            length-append c.payload rest,
            length-put_uint32 (length payload),
            ap uint32 h,
            uint32-put_uint32 (length payload) (omega arith),
          )
