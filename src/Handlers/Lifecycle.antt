-- ===== src/Handlers/Lifecycle.antt =====
-- A sandbox that is deleted: internal/gateway/sandbox_api.go, `deleteSandbox`.
use sandboxed_ai_agent_orche.Prelude.{
  ℕ, ◌≡◌, ◌⊎◌, refl, ap, ◌∙◌, sym, subst, inl, inr, Bool, true, false, none, some, List, [], ◌∷◌,
  arith, if◌then◌else◌, Option-cases, Result-cases, Bool-cases, Holds, ltb,
}
use sandboxed_ai_agent_orche.Prelude.Text.{Text, text_eq, text_eq_refl}
use sandboxed_ai_agent_orche.Prelude.Table.{Table, lookup, lookup-insert, lookup-erase}
use sandboxed_ai_agent_orche.Database.{
  Sandbox, Snapshot, Tables, Answers, archived, list_snapshot, delete_snapshot_row, update_status,
  order_by, place, select,
}
use sandboxed_ai_agent_orche.Database.Users.{log_audit}
use sandboxed_ai_agent_orche.Database.Sandboxes.{archive, set_status, update_row, with_status}
use sandboxed_ai_agent_orche.Database.Snapshots.{newest_first, list_by_sandbox, delete_snapshot}
use sandboxed_ai_agent_orche.Access.{Access}
use sandboxed_ai_agent_orche.Supervisor.{Config, World, put, get, terminate}
use sandboxed_ai_agent_orche.Handlers.{
  Platform, delete_snapshots, take_down, clear_snapshots, delete_sandbox,
}
use sandboxed_ai_agent_orche.Handlers.Resume.{authorized_row}

module _ (dir_of : Text → Text) (removes : Text → Bool) (answers : Answers) where
  delete_one :
      (k j : Text) (t : Tables)
      → lookup k t.snapshots ≡ none
      → lookup k (delete_snapshot answers j t).1.snapshots ≡ none
  unfolding delete_snapshot
  delete_one k j t h = ground (arith, h, lookup-erase j k t.snapshots)

  delete_same :
      (k : Text) (t : Tables)
      → answers (delete_snapshot_row k) ≡ true
      → lookup k (delete_snapshot answers k t).1.snapshots ≡ none
  unfolding delete_snapshot
  delete_same k t fine = ground (arith, fine, lookup-erase k k t.snapshots, text_eq_refl k)

  -- What is gone stays gone.
  keep_gone :
      (k : Text) (ss : List Snapshot) (pf : Platform)
      → lookup k pf.tables.snapshots ≡ none
      → lookup k (delete_snapshots dir_of removes answers ss pf).tables.snapshots ≡ none
  unfolding delete_snapshots
  keep_gone k [] pf h = h
  keep_gone k (s ∷ ss) pf h = keep_gone k ss _ (delete_one k s.id pf.tables h)

  no_dir :
      (d : Text) (ss : List Snapshot) (pf : Platform)
      → pf.snapshot_dirs d ≡ false
      → (delete_snapshots dir_of removes answers ss pf).snapshot_dirs d ≡ false
  unfolding delete_snapshots
  no_dir d [] pf h = h
  no_dir d (s ∷ ss) pf h = no_dir d ss _ (ground (arith, h))

  delete_snapshots_gone :
      (s : Snapshot) (ss : List Snapshot) (pf : Platform)
      → Holds s ss
      → answers (delete_snapshot_row s.id) ≡ true
      → removes (dir_of s.mem_file_path) ≡ true
      → let pf' = delete_snapshots dir_of removes answers ss pf in
        (lookup s.id pf'.tables.snapshots ≡ none)
        × (pf'.snapshot_dirs (dir_of s.mem_file_path) ≡ false)
  unfolding delete_snapshots
  delete_snapshots_gone s [] pf h fine clean = absurd h
  delete_snapshots_gone s (x ∷ ss) pf (inr h) fine clean = delete_snapshots_gone s ss _ h fine clean
  delete_snapshots_gone s (x ∷ ss) pf (inl e) fine clean = (
    keep_gone s.id ss _ (
        subst
          (λ (y : Snapshot).
            lookup s.id (delete_snapshot answers y.id pf.tables).1.snapshots ≡ none)
          e (delete_same s.id pf.tables fine)),
    no_dir (dir_of s.mem_file_path) ss _ (
        subst
          (λ (y : Snapshot).
            (if removes (dir_of y.mem_file_path)
                then put pf.snapshot_dirs (dir_of y.mem_file_path) false
                else pf.snapshot_dirs)
              (dir_of s.mem_file_path)
            ≡ false)
          e (rw clean (rw (text_eq_refl (dir_of s.mem_file_path)) refl))),
  )

  delete_snapshots_frame :
      (ss : List Snapshot) (pf : Platform)
      → let pf' = delete_snapshots dir_of removes answers ss pf in
        (pf'.world ≡ pf.world) × (pf'.tables.sandboxes ≡ pf.tables.sandboxes)
  unfolding delete_snapshots delete_snapshot
  delete_snapshots_frame [] pf = (refl, refl)
  delete_snapshots_frame (s ∷ ss) pf =
      let rest = delete_snapshots_frame ss (record pf {
        tables = (delete_snapshot answers s.id pf.tables).1;
        snapshot_dirs =
            if removes (dir_of s.mem_file_path)
            then put pf.snapshot_dirs (dir_of s.mem_file_path) false
            else pf.snapshot_dirs;
      }) in
      (rest.0, rest.1 ∙ ground arith)

place-Holds :
    (before : Snapshot → Snapshot → Bool) (s x : Snapshot) (xs : List Snapshot)
    → (s ≡ x) ⊎ Holds s xs
    → Holds s (place before x xs)
place-Holds before s x [] h = h
place-Holds before s x (y ∷ ys) h = elim (Bool-cases (before y x)) [
  | inr e ↦ rw e h
  | inl e ↦ rw e (elim h [
    | inl z ↦ inr (place-Holds before s x ys (inl z))
    | inr (inl z) ↦ inl z
    | inr (inr z) ↦ inr (place-Holds before s x ys (inr z))
  ])
]

order_by-Holds :
    (before : Snapshot → Snapshot → Bool) (s : Snapshot) (xs : List Snapshot)
    → Holds s xs
    → Holds s (order_by before xs)
order_by-Holds before s [] h = h
order_by-Holds before s (x ∷ xs) h =
    place-Holds before s x (order_by before xs)
      (elim h [ inl e ↦ inl e | inr k ↦ inr (order_by-Holds before s xs k) ])

select-Holds :
    (keep : Snapshot → Bool) (k : Text) (s : Snapshot) (m : Table Snapshot)
    → lookup k m ≡ some s
    → keep s ≡ true
    → Holds s (select keep m)
unfolding lookup
select-Holds keep k s [] e h = absurd (cc e)
select-Holds keep k s ((j, x) ∷ m) e h = elim (Bool-cases (text_eq j k)) [
  | inl q ↦
      let same : x ≡ s = ground (arith, e, q) in
      subst (λ (y : Snapshot). Holds s (if keep y then y ∷ select keep m else select keep m))
        (sym same) (rw h (inl refl))
  | inr q ↦
      let rest = select-Holds keep k s m (ground (arith, e, q)) h in
      elim (Bool-cases (keep x)) [ inl z ↦ rw z (inr rest) | inr z ↦ rw z rest ]
]

take_down_lem :
    (cfg : Config) (id : Text) (pf : Platform)
    → (get (take_down cfg id pf).world id ≡ none)
      × ((take_down cfg id pf).tables ≡ pf.tables)
      × ((take_down cfg id pf).snapshot_dirs ≡ pf.snapshot_dirs)
unfolding take_down get terminate
take_down_lem cfg id pf = elim (Option-cases (lookup id pf.world.inst)) [
  | inl q ↦ rw (q, take_down) (q, refl, refl)
  | inr (i, q) ↦
      rw (q, take_down)
        (
          rw (q, terminate) (lookup-erase id id pf.world.inst ∙ rw (text_eq_refl id) refl),
          refl,
          refl,
        )
]

clear_snapshots_frame :
    (dir_of : Text → Text) (removes : Text → Bool) (answers : Answers) (id : Text) (pf : Platform)
    → let pf' = clear_snapshots dir_of removes answers id pf in
      (pf'.world ≡ pf.world) × (pf'.tables.sandboxes ≡ pf.tables.sandboxes)
unfolding clear_snapshots
clear_snapshots_frame dir_of removes answers id pf =
    elim (Result-cases (list_by_sandbox answers id pf.tables)) [
      | inr (e, q) ↦ rw (q, clear_snapshots) (refl, refl)
      | inl (snaps, q) ↦
          rw (q, clear_snapshots) (delete_snapshots_frame dir_of removes answers snaps pf)
    ]

clear_snapshots_gone :
    (dir_of : Text → Text) (removes : Text → Bool) (answers : Answers) (id : Text) (s : Snapshot)
    (pf : Platform)
    → answers list_snapshot ≡ true
    → lookup s.id pf.tables.snapshots ≡ some s
    → s.sandbox_id ≡ id
    → answers (delete_snapshot_row s.id) ≡ true
    → removes (dir_of s.mem_file_path) ≡ true
    → let pf' = clear_snapshots dir_of removes answers id pf in
      (lookup s.id pf'.tables.snapshots ≡ none)
      × (pf'.snapshot_dirs (dir_of s.mem_file_path) ≡ false)
unfolding clear_snapshots list_by_sandbox newest_first
clear_snapshots_gone dir_of removes answers id s pf f here own d clean =
    let keep = λ (x : Snapshot). text_eq x.sandbox_id id in
    let before = λ (a b : Snapshot). ltb b.created_at a.created_at in
    let held =
      order_by-Holds before s (select keep pf.tables.snapshots)
        (select-Holds keep s.id s pf.tables.snapshots here (rw own (text_eq_refl id))) in
    rw (f, clear_snapshots, list_by_sandbox)
      (delete_snapshots_gone dir_of removes answers s (newest_first id pf.tables.snapshots) pf held
        d clean)

archived_lem :
    (answers : Answers) (now : ℕ) (id : Text) (sb : Sandbox) (t : Tables)
    → lookup id t.sandboxes ≡ some sb
    → (archive answers now id t).0 ≡ none
    → (lookup id (archive answers now id t).1.sandboxes ≡ some (with_status now archived sb))
      × ((archive answers now id t).1.snapshots ≡ t.snapshots)
unfolding archive set_status update_row
archived_lem answers now id sb t here e = elim (Bool-cases (answers update_status)) [
  | inr f ↦ absurd (ground (arith, f))
  | inl f ↦
      let row = lookup-insert id id (with_status now archived sb) t.sandboxes in
      (ground (arith, f, here, row, text_eq_refl id), ground (arith, f, here))
]

-- A sandbox whose deletion is answered 204 is tracked no longer and is archived in the history. Every
-- snapshot of it that stood under its own id is gone with its directory, if the database lists the
-- snapshots and carries its deletion out and os.RemoveAll removes the directory: an error of it is
-- ignored, and then the row goes and the directory stays.
pub delete_sandbox_gone :
    (dir_of : Text → Text) (removes : Text → Bool) (cfg : Config) (answers : Answers)
    (access : Access) (id : Text) (now : ℕ) (pf : Platform) (s : Snapshot)
    → (delete_sandbox dir_of removes cfg answers access id now pf).0 ≡ 204
    → answers list_snapshot ≡ true
    → lookup s.id pf.tables.snapshots ≡ some s
    → s.sandbox_id ≡ id
    → answers (delete_snapshot_row s.id) ≡ true
    → removes (dir_of s.mem_file_path) ≡ true
    → let pf' = (delete_sandbox dir_of removes cfg answers access id now pf).1 in
      (get pf'.world id ≡ none)
      × ((sb : Sandbox) × (lookup id pf'.tables.sandboxes ≡ some sb) × (sb.status ≡ archived))
      × (lookup s.id pf'.tables.snapshots ≡ none)
      × (pf'.snapshot_dirs (dir_of s.mem_file_path) ≡ false)
unfolding delete_sandbox log_audit get
delete_sandbox_gone dir_of removes cfg answers access id now pf s e f here own d clean =
    elim (authorized_row answers access id pf.tables) [
      | inl (n, r, other, more) ↦ absurd (more (rw (r, delete_sandbox) at e))
      | inr (sb, a, row) ↦
          let down = take_down cfg id pf in
          let pf' = clear_snapshots dir_of removes answers id down in
          let (untracked, tables, dirs) = take_down_lem cfg id pf in
          let (world, sandboxes) = clear_snapshots_frame dir_of removes answers id down in
          let (gone, no_files) =
            clear_snapshots_gone dir_of removes answers id s down f
              (ap (λ (t : Tables). lookup s.id t.snapshots) tables ∙ here) own d clean in
          let kept : lookup id pf'.tables.sandboxes ≡ some sb =
            ap (lookup id) sandboxes ∙ ap (λ (t : Tables). lookup id t.sandboxes) tables ∙ row in
          elim (Option-cases (archive answers now id pf'.tables).0) [
            | inr (x, q) ↦ absurd (omega (arith, rw (a, delete_sandbox, q) at e))
            | inl q ↦
                let (status, snapshots) = archived_lem answers now id sb pf'.tables kept q in
                rw (a, delete_sandbox, q)
                  (
                    ap (lookup id) (ap (λ (w : World). w.inst) world) ∙ untracked,
                    (with_status now archived sb, ground (arith, status), refl),
                    ground (arith, ap (lookup s.id) snapshots ∙ gone),
                    no_files,
                  )
          ]
    ]
