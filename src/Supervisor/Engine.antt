-- ===== src/Supervisor/Engine.antt =====
-- The snapshot of a machine that goes on running: `Create` and `Delete` of `SnapshotEngine` in
-- internal/orchestrator/snapshot.go.
use sandboxed_ai_agent_orche.Prelude.{◌≡◌, Bool, true, false, not, arith, if◌then◌else◌}
use sandboxed_ai_agent_orche.Prelude.Text.{Text, text_eq_refl}
use sandboxed_ai_agent_orche.Supervisor.{World, put}

-- How the steps of `Create` end.
pub record EngineAnswers : Type 0 where
  pub mkdir_ok : Bool
  pub pause_ok : Bool
  pub create_ok : Bool
  pub resume_ok : Bool

-- `Create` for the machine `id` with files under `dir`; `false` is an error. The first component of the
-- state says which snapshot directories there are.
unfoldable pub create_snapshot :
    Text → Text → EngineAnswers → (Text → Bool) × World → Bool × (Text → Bool) × World
create_snapshot dir id h (dirs, w) =
    let made = put dirs dir true in
    let stopped : World = record w { paused = put w.paused id true } in
    let resumed : World = record w { paused = put w.paused id false } in
    if not h.mkdir_ok
    then (false, dirs, w)
    else (if not h.pause_ok
        then (false, made, w)
        else (if not h.resume_ok
            then (false, made, stopped)
            else (if not h.create_ok
                then (false, put made dir false, resumed)
                else (true, made, resumed))))

-- `Delete`, by the directory of the memory's file.
unfoldable pub delete_snapshot_files : (Text → Text) → Text → (Text → Bool) → Text → Bool
delete_snapshot_files dir_of mem_file dirs = put dirs (dir_of mem_file) false

-- After `Create` has returned a snapshot its directory is there and the machine runs; whatever fails,
-- a machine that ran before runs after it unless the resumption fails.
create_snapshot_runs :
    (dir id : Text) (h : EngineAnswers) (dirs : Text → Bool) (w : World)
    → w.paused id ≡ false
    → let (fine, dirs', w') = create_snapshot dir id h (dirs, w) in
      (fine ≡ true → (dirs' dir ≡ true) × (w'.paused id ≡ false))
      × (h.resume_ok ≡ true → w'.paused id ≡ false)
unfolding create_snapshot
create_snapshot_runs dir id h dirs w runs = ground (arith, runs, text_eq_refl dir, text_eq_refl id)
