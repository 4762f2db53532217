-- ===== src/Database/Users.antt =====
-- internal/store/pg/users.go and the audit log of internal/store/pg/audit.go.
use sandboxed_ai_agent_orche.Prelude.{
  ℕ, Bool, true, false, Option, none, some, List, [], ◌∷◌, ◌++◌, if◌then◌else◌, Result, ok, err,
  length, ltb,
}
use sandboxed_ai_agent_orche.Prelude.Text.{Text, text_eq}
use sandboxed_ai_agent_orche.Prelude.Table.{Table, lookup, insert}
use sandboxed_ai_agent_orche.Database.{
  Role, operator, other_role, User, Tables, Answers, DbError, no_rows, failed, insert_user,
  select_username, select_user, count_user, list_user, update_disabled, insert_audit, order_by,
  select,
}

-- `WHERE username=$1`; the column is UNIQUE.
unfoldable pub find_username : Text → Table User → Option User
find_username name [] = none
find_username name ((id, u) ∷ m) = if text_eq u.username name then some u else find_username name m

abbrev pub or_operator : Role → Role
or_operator (other_role []) = operator
or_operator role = role

-- `Create`, with the id and the time that the database makes. A name or an id that is taken is refused.
unfoldable pub create_user_row :
    Answers → Text → ℕ → Text → Text → Role → Tables → Result DbError User × Tables
create_user_row answers fresh now username password_hash role t =
    let u : User = record {
      id = fresh;
      username = username;
      password_hash = password_hash;
      role = or_operator role;
      disabled = false;
      created_at = now;
    } in
    elim (find_username username t.users) [
      | some other ↦ (err failed, t)
      | none ↦ elim (lookup fresh t.users) [
        | some other ↦ (err failed, t)
        | none ↦
            if answers insert_user
            then (ok u, record t { users = insert fresh u t.users })
            else (err failed, t)
      ]
    ]

abbrev pub row_or_none {ℓ} : {A : Type ℓ} → Bool → Option A → Result DbError A
row_or_none false o = err failed
row_or_none true none = err no_rows
row_or_none true (some a) = ok a

unfoldable pub by_username : Answers → Text → Tables → Result DbError User
by_username answers name t = row_or_none (answers select_username) (find_username name t.users)

unfoldable pub user_by_id : Answers → Text → Tables → Result DbError User
user_by_id answers id t = row_or_none (answers select_user) (lookup id t.users)

unfoldable pub count_users : Answers → Tables → Result DbError ℕ
count_users answers t = if answers count_user then ok (length t.users) else err failed

unfoldable pub all_users : Answers → Tables → Result DbError (List User)
all_users answers t =
    if answers list_user
    then ok (order_by (λ u v. ltb u.created_at v.created_at) (select (λ u. true) t.users))
    else err failed

-- `SetDisabled`; an id that is unknown is no error.
unfoldable pub set_disabled : Answers → Text → Bool → Tables → Option DbError × Tables
set_disabled answers id disabled t =
    if answers update_disabled
    then (elim (lookup id t.users) [
      | none ↦ (none, t)
      | some u ↦ (none, record t { users = insert id (record u { disabled = disabled }) t.users })
    ])
    else (some failed, t)

-- `Log`, whose error the handlers ignore.
unfoldable pub log_audit : Answers → Text → Text → Text → Tables → Tables
log_audit answers user_id action target t =
    if answers insert_audit
    then record t {
      audit_log =
          t.audit_log ++ (record { user_id = user_id; action = action; target = target } ∷ []);
    }
    else t
