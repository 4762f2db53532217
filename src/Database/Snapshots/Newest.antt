-- ===== src/Database/Snapshots/Newest.antt =====
-- The snapshot that internal/store/pg/snapshots.go, `Latest`, finds.
use sandboxed_ai_agent_orche.Prelude.{
  ◌<◌, ◌≡◌, refl, ap, ◌∙◌, inl, inr, Bool, true, none, List, [], ◌∷◌, ◌++◌, arith, if◌then◌else◌,
  All, ltb, lt→ltb, Bool-cases, ok,
}
use sandboxed_ai_agent_orche.Prelude.Text.{Text, text_eq, text_eq_refl}
use sandboxed_ai_agent_orche.Prelude.Table.{Table, lookup, insert, Entries}
use sandboxed_ai_agent_orche.Database.{
  Snapshot, Tables, Answers, select_latest, order_by, place, select,
}
use sandboxed_ai_agent_orche.Database.Snapshots.{newest_first, latest}

select-insert :
    (keep : Snapshot → Bool) (k : Text) (s : Snapshot) (m : Table Snapshot)
    → lookup k m ≡ none
    → select keep (insert k s m) ≡ select keep m ++ (if keep s then s ∷ [] else [])
unfolding lookup insert
select-insert keep k s [] h = refl
select-insert keep k s ((j, x) ∷ m) h = ground (arith, select-insert keep k s m)

-- A row that belongs in front of all others ends up in front.
order_by-last :
    (before : Snapshot → Snapshot → Bool) (xs : List Snapshot) (s : Snapshot)
    → All (λ x. before s x ≡ true) xs
    → order_by before (xs ++ (s ∷ [])) ≡ s ∷ order_by before xs
order_by-last before [] s h = refl
order_by-last before (x ∷ xs) s h =
    ap (place before x) (order_by-last before xs s h.1) ∙ ground (arith, h.0)

select-older :
    (keep : Snapshot → Bool) (s : Snapshot) (m : Table Snapshot)
    → Entries (λ k x. x.created_at < s.created_at) m
    → All (λ x. ltb x.created_at s.created_at ≡ true) (select keep m)
select-older keep s [] h = h
select-older keep s ((k, x) ∷ m) h = elim (Bool-cases (keep x)) [
  | inl e ↦ rw e (lt→ltb x.created_at s.created_at h.0, select-older keep s m h.1)
  | inr e ↦ rw e (select-older keep s m h.1)
]

-- `Latest` finds a new row of the sandbox, when every other row is older.
pub latest-insert :
    (answers : Answers) (id k : Text) (s : Snapshot) (t : Tables) (m : Table Snapshot)
    → answers select_latest ≡ true
    → t.snapshots ≡ insert k s m
    → s.sandbox_id ≡ id
    → lookup k m ≡ none
    → Entries (λ k x. x.created_at < s.created_at) m
    → latest answers id t ≡ ok s
unfolding latest newest_first
latest-insert answers id k s t m fine e own new old =
    let keep = λ (x : Snapshot). text_eq x.sandbox_id id in
    let before = λ (a b : Snapshot). ltb b.created_at a.created_at in
    let here : keep s ≡ true = rw own (text_eq_refl id) in
    let rows : select keep t.snapshots ≡ select keep m ++ (s ∷ []) =
      ap (select keep) e ∙ select-insert keep k s m new ∙ rw here refl in
    let sorted : order_by before (select keep t.snapshots) ≡ s ∷ order_by before (select keep m) =
      ap (order_by before) rows
      ∙ order_by-last before (select keep m) s (select-older keep s m old) in
    rw (fine, latest) (rw sorted refl)
