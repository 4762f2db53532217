-- ===== src/Database/Snapshots.antt =====
-- internal/store/pg/snapshots.go.
pub mod Newest
use sandboxed_ai_agent_orche.Prelude.{
  ℕ, Bool, true, false, Option, none, some, List, [], ◌∷◌, if◌then◌else◌, Result, ok, err, ltb,
}
use sandboxed_ai_agent_orche.Prelude.Text.{Text, text_eq}
use sandboxed_ai_agent_orche.Prelude.Table.{Table, lookup, insert, erase}
use sandboxed_ai_agent_orche.Database.{
  Snapshot, Tables, Answers, DbError, no_rows, failed, insert_snapshot, select_latest,
  list_snapshot, delete_snapshot_row, order_by, select,
}

-- `Create`, with the id and the time that the database makes; the sandbox must have a row.
unfoldable pub create_snapshot_row :
    Answers → Text → ℕ → Snapshot → Tables → Result DbError Snapshot × Tables
create_snapshot_row answers fresh now s t =
    let out : Snapshot = record s { id = fresh; created_at = now } in
    elim (lookup s.sandbox_id t.sandboxes) [
      | none ↦ (err failed, t)
      | some sb ↦ elim (lookup fresh t.snapshots) [
        | some other ↦ (err failed, t)
        | none ↦
            if answers insert_snapshot
            then (ok out, record t { snapshots = insert fresh out t.snapshots })
            else (err failed, t)
      ]
    ]

-- The rows of a sandbox, newest first.
unfoldable pub newest_first : Text → Table Snapshot → List Snapshot
newest_first id m =
    order_by (λ a b. ltb b.created_at a.created_at) (select (λ s. text_eq s.sandbox_id id) m)

-- `LIMIT 1`
abbrev pub first_row : List Snapshot → Result DbError Snapshot
first_row [] = err no_rows
first_row (s ∷ ss) = ok s

unfoldable pub latest : Answers → Text → Tables → Result DbError Snapshot
unfolding newest_first
latest answers id t =
    if answers select_latest then first_row (newest_first id t.snapshots) else err failed

unfoldable pub list_by_sandbox : Answers → Text → Tables → Result DbError (List Snapshot)
unfolding newest_first
list_by_sandbox answers id t =
    if answers list_snapshot then ok (newest_first id t.snapshots) else err failed

unfoldable pub delete_snapshot : Answers → Text → Tables → Option DbError × Tables
delete_snapshot answers id t =
    if answers (delete_snapshot_row id)
    then (none, record t { snapshots = erase id t.snapshots })
    else (some failed, t)
