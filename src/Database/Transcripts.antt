-- ===== src/Database/Transcripts.antt =====
-- internal/store/pg/transcripts.go.
use sandboxed_ai_agent_orche.Prelude.{
  ℕ, ◌+◌, ◌-◌, ◌*◌, ◌&&◌, Option, none, some, List, [], ◌∷◌, ◌++◌, if◌then◌else◌, Result, ok, err,
  ltb, length, take, ◌==◌,
}
use sandboxed_ai_agent_orche.Prelude.Text.{Text, text_eq}
use sandboxed_ai_agent_orche.Prelude.Int.{ℤ, pos, ltb_ℤ}
use sandboxed_ai_agent_orche.Prelude.Table.{lookup}
use sandboxed_ai_agent_orche.Database.{
  TranscriptKind, TranscriptLine, Tables, Answers, DbError, failed, insert_line, list_line,
  delete_lines, order_by,
}

-- `COALESCE((SELECT max(seq) …), 0)`
unfoldable pub max_seq : Text → List TranscriptLine → ℕ
max_seq id [] = 0
max_seq id (l ∷ ls) =
    let rest = max_seq id ls in
    if text_eq l.sandbox_id id then (if ltb rest l.seq then l.seq else rest) else rest

-- `Append`: the sequence number that it gives, for a sandbox that has a row.
unfoldable pub append_line :
    Answers → ℕ → Text → TranscriptKind → Text → Option ℤ → Tables → Result DbError ℕ × Tables
append_line answers now id kind data_text exit_code t =
    let next = max_seq id t.transcript_lines + 1 in
    let line : TranscriptLine = record {
      sandbox_id = id;
      seq = next;
      ts = now;
      kind = kind;
      data_text = data_text;
      exit_code = exit_code;
    } in
    elim (lookup id t.sandboxes) [
      | none ↦ (err failed, t)
      | some sb ↦
          if answers insert_line
          then (ok next, record t { transcript_lines = t.transcript_lines ++ (line ∷ []) })
          else (err failed, t)
    ]

-- `WHERE sandbox_id=$1 AND seq > $2`
unfoldable pub after_seq : Text → ℤ → List TranscriptLine → List TranscriptLine
after_seq id after [] = []
after_seq id after (l ∷ ls) =
    let rest = after_seq id after ls in
    if text_eq l.sandbox_id id && ltb_ℤ after (pos l.seq) then l ∷ rest else rest

unfoldable pub list_lines : Answers → Text → ℤ → ℕ → Tables → Result DbError (List TranscriptLine)
unfolding after_seq
list_lines answers id after limit t =
    let rows = order_by (λ a b. ltb a.seq b.seq) (after_seq id after t.transcript_lines) in
    if answers list_line then ok (if limit == 0 then rows else take limit rows) else err failed

-- `WHERE ts < now() - days`, with the times in seconds.
unfoldable pub recent : ℕ → List TranscriptLine → List TranscriptLine
recent limit [] = []
recent limit (l ∷ ls) = let rest = recent limit ls in if ltb l.ts limit then rest else l ∷ rest

unfoldable pub prune_older_than_days : Answers → ℕ → ℕ → Tables → Result DbError ℕ × Tables
unfolding recent
prune_older_than_days answers now days t =
    let kept = recent (now - days * 86400) t.transcript_lines in
    if answers delete_lines
    then (ok (length t.transcript_lines - length kept), record t { transcript_lines = kept })
    else (err failed, t)
