-- ===== src/Client/Handshake.antt =====
-- The handshake of internal/gateway/vsockclient.go.
use sandboxed_ai_agent_orche.Prelude.{
  ◌≡◌, refl, ◌≢◌, inl, inr, Bool, true, some, [], ◌∷◌, ◌++◌, arith, Option-cases, All, ok,
}
use sandboxed_ai_agent_orche.Prelude.Text.{Text, codes, starts_with}
use sandboxed_ai_agent_orche.Client.{read_string, trim_right, do_handshake}

abbrev pub NoNewline : Text → Type 0
NoNewline = All (λ b. b ≢ 10)

read_string-line :
    (line rest : Text)
    → NoNewline line
    → read_string (line ++ (10 ∷ rest)) ≡ some (line ++ (10 ∷ []), rest)
unfolding read_string
read_string-line [] rest h = refl
read_string-line (b ∷ line) rest h = ground (arith, read_string-line line rest h.1)

trim_right_ok : (t : Text) → trim_right (79 ∷ 75 ∷ 32 ∷ t) ≡ 79 ∷ 75 ∷ 32 ∷ trim_right t
unfolding trim_right
trim_right_ok t = ground arith

ok_prefix : (t : Text) → starts_with (79 ∷ 75 ∷ 32 ∷ t) (codes "OK ") ≡ true
unfolding starts_with
ok_prefix [] = refl
ok_prefix (b ∷ t) = refl

-- A reply line that begins with "OK " completes the handshake, and the bytes that arrived behind
-- the line, read ahead or not, are what the client reads next.
pub do_handshake-read_ahead :
    (line rest : Text)
    → NoNewline line
    → do_handshake true (codes "OK " ++ (line ++ (10 ∷ rest))) ≡ ok rest
unfolding do_handshake
do_handshake-read_ahead line rest h = ground (
  arith,
  read_string-line (codes "OK " ++ line) rest
      ((λ e. omega arith), ((λ e. omega arith), ((λ e. omega arith), h))),
  trim_right_ok (line ++ (10 ∷ [])),
  ok_prefix (trim_right (line ++ (10 ∷ []))),
)

read_string_split :
    (arrived line left : Text) → read_string arrived ≡ some (line, left) → arrived ≡ line ++ left
unfolding read_string
read_string_split [] line left e = cc
read_string_split (b ∷ r) line left e = elim (Option-cases (read_string r)) [
  | inl n ↦ ground arith
  | inr ((l, t), n) ↦ ground (arith, read_string_split r l t n)
]

-- The handshake succeeds only if the request was written and the first line of the reply begins
-- with "OK "; it takes that line and nothing more.
pub do_handshake_ok :
    (write_ok : Bool) (arrived left : Text)
    → do_handshake write_ok arrived ≡ ok left
    → (line : Text) × (write_ok ≡ true)
      × (arrived ≡ line ++ left)
      × (starts_with (trim_right line) (codes "OK ") ≡ true)
unfolding do_handshake
do_handshake_ok write_ok arrived left e = elim (Option-cases (read_string arrived)) [
  | inl n ↦ absurd (ground arith)
  | inr ((line, t), n) ↦
      (line, ground arith, ground (arith, read_string_split arrived line t n), ground arith)
]
