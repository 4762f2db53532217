-- ===== src/Protocol.antt =====
-- internal/protocol/protocol.go: the length-prefixed JSON frames between host and guest.
-- encoding/json is a parameter (`Codec`), and so is the connection that bytes are written to
-- (`Writer`). What is read is the list of bytes that arrive before the connection ends.
pub mod RoundTrip
pub mod Stream
use sandboxed_ai_agent_orche.Prelude.{
  ℕ, zero, suc, ◌+◌, ◌-◌, ◌*◌, ◌/◌, ◌%◌, ◌^◌, ◌≡◌, Bool, true, false, Option, none, some, List, [],
  ◌∷◌, ◌++◌, leb, ltb, if◌then◌else◌, length, take, drop, Result, ok, err,
}
use sandboxed_ai_agent_orche.Prelude.Text.{Text}
use sandboxed_ai_agent_orche.Prelude.Table.{Table}
use sandboxed_ai_agent_orche.Prelude.Int.{ℤ}

-- `RequestKind` is a string in the source: `unset` is "", and `other` any string without a name.
pub data RequestKind : Type 0 where
  exec ping unset : RequestKind
  other : Text → RequestKind

pub record ExecutionRequest : Type 0 where
  pub id : Text
  pub kind : RequestKind
  pub script : Text
  pub timeout_sec : ℤ
  pub workdir : Text
  pub env : Table Text

-- `FrameKind`, with every string that has no name under `other`.
pub data FrameKind : Type 0 where
  output exit error pong : FrameKind
  other : Text → FrameKind

-- `payload` is the field `Data`.
pub record ResponseFrame : Type 0 where
  pub id : Text
  pub kind : FrameKind
  pub payload : Text
  pub exit_code : ℤ
  pub message : Text

unfoldable pub terminal : ResponseFrame → Bool
terminal f = elim f.kind [ exit ↦ true | error ↦ true | pong ↦ true | _ ↦ false ]

abbrev pub max_frame_size : ℕ
max_frame_size = 16 * 2 ^ 20

abbrev pub default_port : ℕ
default_port = 5005

-- json.Marshal and json.Unmarshal at one type. A value that is plain (its strings are UTF-8)
-- survives the round trip.
pub record Codec (V : Type 0) : Type 1 where
  pub marshal : V → Option Text
  pub unmarshal : Text → Option V
  pub IsPlain : V → Type 0
  pub unmarshal-marshal :
      (v : V) → IsPlain v → (t : Text) × (marshal v ≡ some t) × (unmarshal t ≡ some v)

-- An io.Writer: a write that returns no error has taken all the bytes.
pub record Writer : Type 1 where
  pub Conn : Type 0
  pub write : Text → Conn → Bool × Conn
  pub sent : Conn → Text
  pub write-sent : (p : Text) (c : Conn) → (write p c).0 ≡ true → sent (write p c).1 ≡ sent c ++ p

pub data WireError : Type 0 where
  marshal_failed frame_too_large write_header_failed write_payload_failed : WireError
  eof unexpected_eof read_payload_failed unmarshal_failed : WireError

-- binary.BigEndian.PutUint32 and Uint32.
unfoldable pub put_uint32 : ℕ → Text
put_uint32 n = (n / 2 ^ 24 % 256) ∷ (n / 2 ^ 16 % 256) ∷ (n / 2 ^ 8 % 256) ∷ (n % 256) ∷ []

unfoldable pub uint32 : Text → ℕ
uint32 (a ∷ b ∷ c ∷ d ∷ []) = a * 2 ^ 24 + b * 2 ^ 16 + c * 2 ^ 8 + d
uint32 _ = 0

-- io.ReadFull: the bytes read, and the bytes left.
unfoldable pub read_full : ℕ → Text → Result WireError (Text × Text)
read_full zero r = ok ([], r)
read_full (suc n) [] = err eof
read_full (suc n) (b ∷ r) =
    if leb (suc n) (length (b ∷ r))
    then ok (take (suc n) (b ∷ r), drop (suc n) (b ∷ r))
    else err unexpected_eof

module _ {V : Type 0} (codec : Codec V) where
  unfoldable pub write_message : (w : Writer) → V → w.Conn → Option WireError × w.Conn
  write_message w v c = elim (codec.marshal v) [
    | none ↦ (some marshal_failed, c)
    | some payload ↦
        if ltb max_frame_size (length payload)
        then (some frame_too_large, c)
        else (let (header_ok, c') = w.write (put_uint32 (length payload % 2 ^ 32)) c in
            let (payload_ok, c'') = w.write payload c' in
            if header_ok
            then (if payload_ok then (none, c'') else (some write_payload_failed, c''))
            else (some write_header_failed, c'))
  ]

  read_payload : ℕ → Text → Result WireError (V × Text)
  read_payload n r = elim (read_full n r) [
    | err e ↦ err read_payload_failed
    | ok (payload, rest) ↦ elim (codec.unmarshal payload) [
      | none ↦ err unmarshal_failed
      | some v ↦ ok (v, rest)
    ]
  ]

  unfoldable pub read_message : Text → Result WireError (V × Text)
  unfolding read_payload
  read_message r = elim (read_full 4 r) [
    | err e ↦ err e
    | ok (header, rest) ↦
        if ltb max_frame_size (uint32 header)
        then err frame_too_large
        else read_payload (uint32 header) rest
  ]
