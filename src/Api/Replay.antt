-- ===== src/Api/Replay.antt =====
-- The transcript of a terminal session, written by `serve` of internal/gateway/proxy.go and read back by
-- `getTranscript` of internal/gateway/sandbox_api.go.
use sandboxed_ai_agent_orche.Prelude.{
  ℕ, ◌+◌, ◌≡◌, refl, ap, true, false, some, List, arith, is_empty, ok, inl, inr, Bool-cases, subst,
}
use sandboxed_ai_agent_orche.Prelude.Text.{Text, text_eq_refl}
use sandboxed_ai_agent_orche.Prelude.Int.{pos}
use sandboxed_ai_agent_orche.Prelude.Table.{lookup, lookup-insert}
use sandboxed_ai_agent_orche.Protocol.{Codec, ResponseFrame}
use sandboxed_ai_agent_orche.Redis.{Redis}
use sandboxed_ai_agent_orche.Database.{
  Sandbox, Tables, Answers, insert_line, list_line, touch_sandbox_row,
}
use sandboxed_ai_agent_orche.Database.Sandboxes.{touch, update_row}
use sandboxed_ai_agent_orche.Database.Transcripts.{max_seq, list_lines}
use sandboxed_ai_agent_orche.Gate.{ApprovalRecord, Gate}
use sandboxed_ai_agent_orche.Client
use sandboxed_ai_agent_orche.Accounts.{Passwords}
use sandboxed_ai_agent_orche.Supervisor.{Instance, Config, get}
use sandboxed_ai_agent_orche.Handlers.{Platform}
use sandboxed_ai_agent_orche.Proxy.{Message, serve_session}
use sandboxed_ai_agent_orche.Proxy.Transcript.{record_all, rows, list_lines-record_all}
use sandboxed_ai_agent_orche.Api.{terminal}

touch_lines :
    (answers : Answers) (now : ℕ) (id : Text) (t : Tables) (sb : Sandbox)
    → lookup id t.sandboxes ≡ some sb
    → (touch answers now id t).1.transcript_lines ≡ t.transcript_lines
unfolding touch update_row
touch_lines answers now id t sb row = elim (Bool-cases (answers touch_sandbox_row)) [
  | inl f ↦ ground (arith, f, row)
  | inr f ↦ ground (arith, f)
]

touch_row :
    (answers : Answers) (now : ℕ) (id : Text) (t : Tables) (sb : Sandbox)
    → lookup id t.sandboxes ≡ some sb
    → (sb' : Sandbox) × (lookup id (touch answers now id t).1.sandboxes ≡ some sb')
unfolding touch update_row
touch_row answers now id t sb row = elim (Bool-cases (answers touch_sandbox_row)) [
  | inl f ↦
      let used : Sandbox = record sb { last_used_at = now } in
      (used, ground (arith, f, row, lookup-insert id id used t.sandboxes, text_eq_refl id))
  | inr f ↦ (sb, ground (arith, f, row))
]

module _ (r : Redis) (json : Codec ApprovalRecord) (wire : Codec ResponseFrame)
    (to_lower trim dir_of : Text → Text) (pw : Passwords) (g : Gate) (client : Client.Config)
    (cfg : Config) (ttl : ℕ) where
  -- A terminal session can be replayed. For a sandbox that runs and has a row in the history, with a
  -- database that inserts and lists lines, the entry of the terminal answers 101, and after the session
  -- the lines listed behind those that were there before, without a limit, are those that the session
  -- recorded, all of them, in their order, and numbered from the number after the last one.
  pub terminal_replay :
      (answers : Answers) (now : ℕ) (id : Text) (clock : ℕ → ℕ) (messages : List (Message r.Db))
      (pf : Platform) (db : r.Db) (i : Instance) (sb : Sandbox)
      → is_empty id ≡ false
      → get pf.world id ≡ some i
      → lookup id pf.tables.sandboxes ≡ some sb
      → answers insert_line ≡ true
      → answers list_line ≡ true
      → let m = max_seq id pf.tables.transcript_lines in
        let out =
          terminal r json wire to_lower trim dir_of pw g client cfg ttl answers now id
            (ok (clock, messages))
            (pf, db) in
        (out.0 ≡ 101)
        × (list_lines answers id (pos m) 0 out.1.0.tables
            ≡ ok (
                rows clock 0 id
                  (m + 1)
                  (serve_session r json wire to_lower g client messages id db).0))
  unfolding terminal
  terminal_replay answers now id clock messages pf db i sb named here row fine read =
      let acts = (serve_session r json wire to_lower g client messages id db).0 in
      let touched = (touch answers now id pf.tables).1 in
      let (sb', row') = touch_row answers now id pf.tables sb row in
      let lines = touch_lines answers now id pf.tables sb row in
      let same = ap (max_seq id) lines in
      let listed = list_lines-record_all answers clock id acts touched sb' row' fine read in
      rw (named, here, terminal)
        (
          refl,
          subst
              (λ (n : ℕ).
                list_lines answers id (pos n) 0 (record_all true answers clock 0 id acts touched)
                ≡ ok (rows clock 0 id (n + 1) acts))
              same listed,
        )
