-- ===== src/Database/Sessions.antt =====
-- internal/store/pg/sessions.go and the `Sessions` of internal/auth/auth.go.
use sandboxed_ai_agent_orche.Prelude.{
  ℕ, ◌+◌, ◌-◌, ◌*◌, Option, none, some, [], ◌∷◌, if◌then◌else◌, Result, ok, err, ltb, leb, length,
  is_empty,
}
use sandboxed_ai_agent_orche.Prelude.Text.{Text}
use sandboxed_ai_agent_orche.Prelude.Int.{ℤ, pos, ltb_ℤ, pos_part}
use sandboxed_ai_agent_orche.Prelude.Table.{Table, lookup, insert, erase}
use sandboxed_ai_agent_orche.Database.{
  User, Session, Tables, Answers, DbError, no_rows, failed, insert_session, touch_session,
  select_session_user, delete_session, delete_expired_sessions,
}

-- `NewSessions`: the lifetime, in seconds.
unfoldable pub new_sessions : ℤ → ℕ
new_sessions ttl = if ltb_ℤ (pos 0) ttl then pos_part ttl else 24 * 3600

-- `Create` of both: the row refers to a user and its id is new, or it is refused.
unfoldable pub create_session :
    Answers → ℕ → Text → ℕ → Text → Text → Text → Tables → Result DbError (Text × ℕ) × Tables
create_session answers ttl sid now user_id user_agent ip t =
    let s : Session = record {
      id = sid;
      user_id = user_id;
      created_at = now;
      expires_at = now + ttl;
      last_seen_at = now;
      user_agent = user_agent;
      ip = if is_empty ip then none else some ip;
    } in
    elim (lookup sid t.sessions) [
      | some other ↦ (err failed, t)
      | none ↦ elim (lookup user_id t.users) [
        | none ↦ (err failed, t)
        | some u ↦
            if answers insert_session
            then (ok (sid, now + ttl), record t { sessions = insert sid s t.sessions })
            else (err failed, t)
      ]
    ]

-- The second query of `Resolve`: `WHERE id=$1 AND disabled=false`.
unfoldable pub enabled_user : Answers → Text → Tables → Result DbError User
enabled_user answers id t =
    if answers select_session_user
    then (elim (lookup id t.users) [
      | none ↦ err no_rows
      | some u ↦ if u.disabled then err no_rows else ok u
    ])
    else err failed

-- `Resolve`: the update of `last_seen_at` takes place before the user is looked at.
unfoldable pub resolve : Answers → ℕ → Text → Tables → Result DbError User × Tables
unfolding enabled_user
resolve answers now sid t =
    if answers touch_session
    then (elim (lookup sid t.sessions) [
      | none ↦ (err no_rows, t)
      | some s ↦
          if ltb now s.expires_at
          then (
            enabled_user answers s.user_id t,
            record t { sessions = insert sid (record s { last_seen_at = now }) t.sessions },
          )
          else (err no_rows, t)
    ])
    else (err failed, t)

unfoldable pub revoke : Answers → Text → Tables → Option DbError × Tables
revoke answers sid t =
    if answers delete_session
    then (none, record t { sessions = erase sid t.sessions })
    else (some failed, t)

-- `DELETE … WHERE expires_at <= now()`.
unfoldable pub unexpired : ℕ → Table Session → Table Session
unexpired now [] = []
unexpired now ((sid, s) ∷ m) =
    let rest = unexpired now m in if leb s.expires_at now then rest else (sid, s) ∷ rest

-- `DeleteExpired`, with the number of rows deleted.
unfoldable pub delete_expired : Answers → ℕ → Tables → Result DbError ℕ × Tables
unfolding unexpired
delete_expired answers now t =
    let kept = unexpired now t.sessions in
    if answers delete_expired_sessions
    then (ok (length t.sessions - length kept), record t { sessions = kept })
    else (err failed, t)
