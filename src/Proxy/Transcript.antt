-- ===== src/Proxy/Transcript.antt =====
-- The rows that a terminal session appends: `recordLine` of internal/gateway/proxy.go over `Append` of
-- internal/store/pg/transcripts.go.
use sandboxed_ai_agent_orche.Prelude.{
  ℕ, ◌+◌, ◌≤◌, ◌<◌, ◌≡◌, refl, ap, ◌∙◌, inl, inr, Bool, true, Option, some, List, [], ◌∷◌, ◌++◌,
  arith, if◌then◌else◌, Bool-cases, ok, ltb,
}
use sandboxed_ai_agent_orche.Prelude.Text.{Text, text_eq, text_eq_refl}
use sandboxed_ai_agent_orche.Prelude.Table.{lookup}
use sandboxed_ai_agent_orche.Prelude.Int.{ℤ, pos}
use sandboxed_ai_agent_orche.Database.{
  TranscriptLine, Sandbox, Tables, Answers, insert_line, list_line, order_by, place,
}
use sandboxed_ai_agent_orche.Database
use sandboxed_ai_agent_orche.Database.Transcripts.{max_seq, append_line, after_seq, list_lines}
use sandboxed_ai_agent_orche.Proxy.{
  TranscriptKind, input_line, hitl_line, output_line, exit_line, Action, sent, recorded, executed,
}

unfoldable pub row_kind : TranscriptKind → Database.TranscriptKind
row_kind input_line = Database.input
row_kind hitl_line = Database.hitl
row_kind output_line = Database.output
row_kind exit_line = Database.exit

-- `recordLine`, with or without a repository of transcripts.
unfoldable pub record_line :
    Bool → Answers → ℕ → Text → TranscriptKind → Text → Option ℤ → Tables → Tables
unfolding row_kind
record_line wired answers now id kind data_text exit_code t =
    if wired then (append_line answers now id (row_kind kind) data_text exit_code t).1 else t

-- The calls of `recordLine` in a session, the nth of them at the time `clock n`.
unfoldable pub record_all : Bool → Answers → (ℕ → ℕ) → ℕ → Text → List Action → Tables → Tables
unfolding record_line
record_all wired answers clock n id [] t = t
record_all wired answers clock n id (sent e ∷ acts) t = record_all wired answers clock n id acts t
record_all wired answers clock n id (executed q ∷ acts) t =
    record_all wired answers clock n id acts t
record_all wired answers clock n id (recorded kind data_text exit_code ∷ acts) t =
    record_all wired answers clock (n + 1) id acts
      (record_line wired answers (clock n) id kind data_text exit_code t)

-- The transcript of a session, numbered from a first number on.
unfoldable pub rows : (ℕ → ℕ) → ℕ → Text → ℕ → List Action → List TranscriptLine
unfolding row_kind
rows clock n id seq [] = []
rows clock n id seq (sent e ∷ acts) = rows clock n id seq acts
rows clock n id seq (executed q ∷ acts) = rows clock n id seq acts
rows clock n id seq (recorded kind data_text exit_code ∷ acts) =
    record {
      sandbox_id = id;
      seq = seq;
      ts = clock n;
      kind = row_kind kind;
      data_text = data_text;
      exit_code = exit_code;
    }
    ∷ rows clock (n + 1) id (seq + 1) acts

max_seq-snoc :
    (id : Text) (ls : List TranscriptLine) (l : TranscriptLine)
    → text_eq l.sandbox_id id ≡ true
    → max_seq id ls < l.seq
    → max_seq id (ls ++ (l ∷ [])) ≡ l.seq
unfolding max_seq
max_seq-snoc id [] l e h = ground arith
max_seq-snoc id (x ∷ ls) l e h = elim (Bool-cases (text_eq x.sandbox_id id)) [
  | inr q ↦ rw q (max_seq-snoc id ls l e (ground (arith, h, q)))
  | inl q ↦ ground (arith, h, q, max_seq-snoc id ls l e (ground (arith, h, q)))
]

append_assoc :
    (xs : List TranscriptLine) (y : TranscriptLine) (zs : List TranscriptLine)
    → (xs ++ (y ∷ [])) ++ zs ≡ xs ++ (y ∷ zs)
append_assoc [] y zs = refl
append_assoc (x ∷ xs) y zs = rw (append_assoc xs y zs) refl

append_nil : (xs : List TranscriptLine) → xs ≡ xs ++ []
append_nil [] = refl
append_nil (x ∷ xs) = ap (λ (ys : List TranscriptLine). x ∷ ys) (append_nil xs)

record_all-lines :
    (answers : Answers) (clock : ℕ → ℕ) (n : ℕ) (id : Text) (seq : ℕ) (acts : List Action)
    (t : Tables) (sb : Sandbox)
    → lookup id t.sandboxes ≡ some sb
    → answers insert_line ≡ true
    → max_seq id t.transcript_lines + 1 ≡ seq
    → (record_all true answers clock n id acts t).transcript_lines
      ≡ t.transcript_lines ++ rows clock n id seq acts
unfolding record_all rows record_line append_line
record_all-lines answers clock n id seq [] t sb row fine e = append_nil t.transcript_lines
record_all-lines answers clock n id seq (sent x ∷ acts) t sb row fine e =
    record_all-lines answers clock n id seq acts t sb row fine e
record_all-lines answers clock n id seq (executed x ∷ acts) t sb row fine e =
    record_all-lines answers clock n id seq acts t sb row fine e
record_all-lines answers clock n id seq (recorded kind text code ∷ acts) t sb row fine e =
    let line : TranscriptLine = record {
      sandbox_id = id;
      seq = seq;
      ts = clock n;
      kind = row_kind kind;
      data_text = text;
      exit_code = code;
    } in
    let t' : Tables = record t { transcript_lines = t.transcript_lines ++ (line ∷ []) } in
    let next = max_seq-snoc id t.transcript_lines line (text_eq_refl id) (omega (arith, e)) in
    let one : record_line true answers (clock n) id kind text code t ≡ t' =
      rw (← e, row, fine, record_line, append_line) refl in
    ap (λ (u : Tables). (record_all true answers clock (n + 1) id acts u).transcript_lines) one
    ∙ record_all-lines answers clock (n + 1) id (seq + 1) acts t' sb row fine (omega (arith, next))
    ∙ append_assoc t.transcript_lines line (rows clock (n + 1) id (seq + 1) acts)

after_seq-append :
    (id : Text) (after : ℤ) (xs ys : List TranscriptLine)
    → after_seq id after (xs ++ ys) ≡ after_seq id after xs ++ after_seq id after ys
unfolding after_seq
after_seq-append id after [] ys = refl
after_seq-append id after (x ∷ xs) ys = ground (arith, after_seq-append id after xs ys)

after_seq-old :
    (id : Text) (m : ℕ) (ls : List TranscriptLine)
    → max_seq id ls ≤ m
    → after_seq id (pos m) ls ≡ []
unfolding after_seq max_seq
after_seq-old id m [] h = refl
after_seq-old id m (x ∷ ls) h = elim (Bool-cases (text_eq x.sandbox_id id)) [
  | inr q ↦ ground (arith, q, after_seq-old id m ls (ground (arith, h, q)))
  | inl q ↦ ground (arith, q, h, after_seq-old id m ls (ground (arith, h, q)))
]

after_seq-rows :
    (clock : ℕ → ℕ) (n : ℕ) (id : Text) (m seq : ℕ) (acts : List Action)
    → m < seq
    → after_seq id (pos m) (rows clock n id seq acts) ≡ rows clock n id seq acts
unfolding after_seq rows
after_seq-rows clock n id m seq [] h = refl
after_seq-rows clock n id m seq (sent e ∷ acts) h = after_seq-rows clock n id m seq acts h
after_seq-rows clock n id m seq (executed e ∷ acts) h = after_seq-rows clock n id m seq acts h
after_seq-rows clock n id m seq (recorded kind text code ∷ acts) h =
    ground (
      arith,
      h,
      text_eq_refl id,
      after_seq-rows clock (n + 1) id m (seq + 1) acts (omega (arith, h)),
    )

abbrev earlier : TranscriptLine → TranscriptLine → Bool
earlier a b = ltb a.seq b.seq

place-rows :
    (clock : ℕ → ℕ) (n : ℕ) (id : Text) (seq : ℕ) (l : TranscriptLine) (acts : List Action)
    → l.seq < seq
    → place earlier l (rows clock n id seq acts) ≡ l ∷ rows clock n id seq acts
unfolding rows
place-rows clock n id seq l [] h = refl
place-rows clock n id seq l (sent e ∷ acts) h = place-rows clock n id seq l acts h
place-rows clock n id seq l (executed e ∷ acts) h = place-rows clock n id seq l acts h
place-rows clock n id seq l (recorded kind text code ∷ acts) h = ground (arith, h)

order_by-rows :
    (clock : ℕ → ℕ) (n : ℕ) (id : Text) (seq : ℕ) (acts : List Action)
    → order_by earlier (rows clock n id seq acts) ≡ rows clock n id seq acts
unfolding rows
order_by-rows clock n id seq [] = refl
order_by-rows clock n id seq (sent e ∷ acts) = order_by-rows clock n id seq acts
order_by-rows clock n id seq (executed e ∷ acts) = order_by-rows clock n id seq acts
order_by-rows clock n id seq (recorded kind text code ∷ acts) =
    let line : TranscriptLine = record {
      sandbox_id = id;
      seq = seq;
      ts = clock n;
      kind = row_kind kind;
      data_text = text;
      exit_code = code;
    } in
    ap (place earlier line) (order_by-rows clock (n + 1) id (seq + 1) acts)
    ∙ place-rows clock (n + 1) id (seq + 1) line acts (omega arith)

-- Whoever asks for the lines behind those that were there gets the lines of the session.
pub list_lines-record_all :
    (answers : Answers) (clock : ℕ → ℕ) (id : Text) (acts : List Action) (t : Tables) (sb : Sandbox)
    → lookup id t.sandboxes ≡ some sb
    → answers insert_line ≡ true
    → answers list_line ≡ true
    → list_lines answers id
        (pos (max_seq id t.transcript_lines))
        0
        (record_all true answers clock 0 id acts t)
      ≡ ok (rows clock 0 id (max_seq id t.transcript_lines + 1) acts)
unfolding list_lines
list_lines-record_all answers clock id acts t sb row fine read =
    let m = max_seq id t.transcript_lines in
    let new = rows clock 0 id (m + 1) acts in
    let lines = record_all-lines answers clock 0 id (m + 1) acts t sb row fine refl in
    let found : after_seq id (pos m) (t.transcript_lines ++ new) ≡ new =
      after_seq-append id (pos m) t.transcript_lines new
      ∙ ap (λ (ls : List TranscriptLine). ls ++ after_seq id (pos m) new)
          (after_seq-old id m t.transcript_lines (omega arith))
      ∙ after_seq-rows clock 0 id m (m + 1) acts (omega arith) in
    rw (read, lines, found, order_by-rows clock 0 id (m + 1) acts) refl
