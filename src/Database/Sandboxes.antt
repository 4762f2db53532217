-- ===== src/Database/Sandboxes.antt =====
-- internal/store/pg/sandboxes.go.
use sandboxed_ai_agent_orche.Prelude.{
  ℕ, Bool, true, false, ◌&&◌, ◌||◌, Option, none, some, List, if◌then◌else◌, Result, ok, err, ltb,
  not, is_empty,
}
use sandboxed_ai_agent_orche.Prelude.Text.{Text, text_eq}
use sandboxed_ai_agent_orche.Prelude.Table.{lookup, insert}
use sandboxed_ai_agent_orche.Database.{
  SandboxStatus, running, stopped, archived, Sandbox, Tables, Answers, DbError, failed,
  upsert_sandbox, stop_sandbox_row, touch_sandbox_row, update_status, update_name, select_sandbox,
  list_sandbox, order_by, select,
}
use sandboxed_ai_agent_orche.Database.Users.{row_or_none}

-- `ON CONFLICT (id) DO UPDATE`: the owner and the limits of the row that is there stay. Without a row
-- the new one is written as given.
unfoldable pub merged : ℕ → Sandbox → Option Sandbox → Sandbox
merged now s none = record s { created_at = now; stopped_at = none; last_used_at = now }
merged now s (some old) = record old {
  status = s.status;
  cid = s.cid;
  name = if is_empty s.name then old.name else s.name;
  last_used_at = now;
  stopped_at = none;
}

unfoldable pub upsert : Answers → ℕ → Sandbox → Tables → Option DbError × Tables
unfolding merged
upsert answers now s t =
    if answers upsert_sandbox
    then (
      none,
      record t { sandboxes = insert s.id (merged now s (lookup s.id t.sandboxes)) t.sandboxes },
    )
    else (some failed, t)

-- `UPDATE sandboxes SET … WHERE id=$1`: no error when there is no such row.
unfoldable pub update_row : (Sandbox → Sandbox) → Text → Tables → Tables
update_row change id t = elim (lookup id t.sandboxes) [
  | none ↦ t
  | some s ↦ record t { sandboxes = insert id (change s) t.sandboxes }
]

abbrev pub run_update : Bool → (Sandbox → Sandbox) → Text → Tables → Option DbError × Tables
run_update true change id t = (none, update_row change id t)
run_update false change id t = (some failed, t)

abbrev pub as_stopped : ℕ → Sandbox → Sandbox
as_stopped now s = record s { status = stopped; stopped_at = some now; cid = 0 }

unfoldable pub mark_stopped : Answers → ℕ → Text → Tables → Option DbError × Tables
unfolding update_row
mark_stopped answers now id t = run_update (answers stop_sandbox_row) (as_stopped now) id t

abbrev pub is_running : SandboxStatus → Bool
is_running running = true
is_running _ = false

abbrev pub with_status : ℕ → SandboxStatus → Sandbox → Sandbox
with_status now status s = record s {
  status = status;
  stopped_at = if is_running status then none else s.stopped_at;
  last_used_at = now;
}

unfoldable pub set_status : Answers → ℕ → Text → SandboxStatus → Tables → Option DbError × Tables
unfolding update_row
set_status answers now id status t =
    run_update (answers update_status) (with_status now status) id t

unfoldable pub rename : Answers → Text → Text → Tables → Option DbError × Tables
unfolding update_row
rename answers id name t =
    run_update (answers update_name) (λ (s : Sandbox). record s { name = name }) id t

unfoldable pub archive : Answers → ℕ → Text → Tables → Option DbError × Tables
unfolding set_status
archive answers now id t = set_status answers now id archived t

-- `Touch`
unfoldable pub touch : Answers → ℕ → Text → Tables → Option DbError × Tables
unfolding update_row
touch answers now id t =
    run_update (answers touch_sandbox_row) (λ (s : Sandbox). record s { last_used_at = now }) id t

unfoldable pub sandbox_by_id : Answers → Text → Tables → Result DbError Sandbox
sandbox_by_id answers id t = row_or_none (answers select_sandbox) (lookup id t.sandboxes)

abbrev pub is_archived : SandboxStatus → Bool
is_archived archived = true
is_archived _ = false

-- The rows of `ListByOwner`: an empty owner asks for every owner's.
abbrev pub listed : Text → Sandbox → Bool
listed owner s = (is_empty owner || text_eq s.owner_id owner) && not (is_archived s.status)

unfoldable pub list_by_owner : Answers → Text → Tables → Result DbError (List Sandbox)
list_by_owner answers owner t =
    if answers list_sandbox
    then ok
        (order_by (λ a b. ltb b.last_used_at a.last_used_at) (select (listed owner) t.sandboxes))
    else err failed
