-- ===== src/Records/Calls.antt =====
-- The store of internal/state/redis.go behind any sequence of its calls, against a map of records.
use sandboxed_ai_agent_orche.Prelude.{
  ℕ, ◌≡◌, refl, ◌↔◌, Option, none, some, List, [], ◌∷◌, arith, All, Holds, ok,
}
use sandboxed_ai_agent_orche.Prelude.Text.{Text}
use sandboxed_ai_agent_orche.Protocol.{Codec}
use sandboxed_ai_agent_orche.Redis.{Redis, set, del}
use sandboxed_ai_agent_orche.Records.{
  Record, StoreError, beat_key, session_key, save, all, remove, heartbeat, bind_session,
  unbind_session,
}
use sandboxed_ai_agent_orche.Records.Keys.{beat-record, session-record}
use sandboxed_ai_agent_orche.Records.Refinement.{
  Kept, put_record, drop_record, Represents, frame-Represents, save-Represents, remove-Represents,
  all_lem,
}

-- A call that writes.
pub data Call : Type 0 where
  save_record : Record → Call
  remove_record : Text → Call
  beat : Text → Text → ℕ → Call
  bind : Text → Text → ℕ → Call
  unbind : Text → Call

-- What a call does to the map: heartbeats and bindings do nothing.
abbrev pub replay_call : Call → Kept → Kept
replay_call (save_record rec) m = put_record m rec
replay_call (remove_record id) m = drop_record m id
replay_call _ m = m

abbrev pub replay_calls : List Call → Kept → Kept
replay_calls [] m = m
replay_calls (c ∷ cs) m = replay_calls cs (replay_call c m)

module _ (r : Redis) (json : Codec Record) where
  abbrev pub call : Call → r.Db → Option StoreError × r.Db
  call (save_record rec) db = save r json rec db
  call (remove_record id) db = remove r id db
  call (beat id stamp ttl) db = heartbeat r id stamp ttl db
  call (bind sid sandbox ttl) db = bind_session r sid sandbox ttl db
  call (unbind sid) db = unbind_session r sid db

  abbrev pub calls : List Call → r.Db → r.Db
  calls [] db = db
  calls (c ∷ cs) db = calls cs (call c db).1

  -- Every call returns no error.
  abbrev pub AllFine : List Call → r.Db → Type 0
  AllFine [] db = Unit
  AllFine (c ∷ cs) db = ((call c db).0 ≡ none) × AllFine cs (call c db).1

  -- A record that is saved can be read back.
  abbrev pub Readable : Call → Type 0
  Readable (save_record rec) = json.IsPlain rec
  Readable _ = Unit

  call-Represents :
      (c : Call) (db : r.Db) (m : Kept)
      → Readable c
      → Represents r json db m
      → (call c db).0 ≡ none
      → Represents r json (call c db).1 (replay_call c m)
  unfolding heartbeat bind_session unbind_session
  call-Represents (save_record rec) db m plain h e = save-Represents r json rec db m plain h e
  call-Represents (remove_record id) db m plain h e = remove-Represents r json id db m h e
  call-Represents (beat id stamp ttl) db m plain h e =
      frame-Represents r json (set (beat_key id) stamp ttl ∷ []) db m h (ground arith)
        (λ j. rw (beat-record id j) refl) (λ j. refl)
  call-Represents (bind sid sandbox ttl) db m plain h e =
      frame-Represents r json (set (session_key sid) sandbox ttl ∷ []) db m h (ground arith)
        (λ j. rw (session-record sid j) refl) (λ j. refl)
  call-Represents (unbind sid) db m plain h e =
      frame-Represents r json (del (session_key sid) ∷ []) db m h (ground arith)
        (λ j. rw (session-record sid j) refl) (λ j. refl)

  -- Calls that return no error leave a database that represents the map with the same calls made
  -- on it.
  pub calls-Represents :
      (cs : List Call) (db : r.Db) (m : Kept)
      → All Readable cs
      → AllFine cs db
      → Represents r json db m
      → Represents r json (calls cs db) (replay_calls cs m)
  calls-Represents [] db m plain fine h = h
  calls-Represents (c ∷ cs) db m plain fine h =
      calls-Represents cs (call c db).1 (replay_call c m) plain.1 fine.1
        (call-Represents c db m plain.0 h fine.0)

  -- `Store` implements a map from ids to records: after calls of `Save`, `Remove`, `Heartbeat`,
  -- `BindSession` and `UnbindSession` that return no error, on a database that holds a map and with
  -- records that their encoding keeps, `All`, when it returns no error, lists exactly the records of
  -- that map with the same saves and removals made on it, and leaves the database alone.
  pub all-calls :
      (cs : List Call) (db : r.Db) (m : Kept) (recs : List Record)
      → All Readable cs
      → AllFine cs db
      → Represents r json db m
      → (all r json (calls cs db)).0 ≡ ok recs
      → ((rec : Record) → Holds rec recs ↔ (replay_calls cs m rec.id ≡ some rec))
        × ((all r json (calls cs db)).1 ≡ calls cs db)
  all-calls cs db m recs plain fine h e =
      all_lem r json (calls cs db) (replay_calls cs m) recs (calls-Represents cs db m plain fine h)
        e
