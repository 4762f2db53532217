-- ===== src/Records.antt =====
-- The rest of `Store` of internal/state/redis.go: the records of sandboxes that outlive the control
-- plane (the contract `Recorder` of internal/sandbox/record.go), heartbeats and session bindings.
pub mod Keys
pub mod Refinement
pub mod Calls
use sandboxed_ai_agent_orche.Prelude.{
  ℕ, Bool, true, false, Option, none, some, List, [], ◌∷◌, ◌++◌, if◌then◌else◌, Result, ok, err,
}
use sandboxed_ai_agent_orche.Prelude.Text.{Text, codes}
use sandboxed_ai_agent_orche.Prelude.Int.{ℤ}
use sandboxed_ai_agent_orche.Protocol.{Codec}
use sandboxed_ai_agent_orche.Redis.{Redis, set, del, sadd, srem}

-- `Status` is a string in the source.
pub data Status : Type 0 where
  running stopped : Status
  other_status : Text → Status

pub record Spec : Type 0 where
  pub vcpus : ℤ
  pub mem_mib : ℤ
  pub cpu_percent : ℤ
  pub pids_max : ℤ

pub record Record : Type 0 where
  pub id : Text
  pub cid : ℕ
  pub pid : ℤ
  pub vsock_uds_path : Text
  pub socket_path : Text
  pub chroot_dir : Text
  pub cgroup_path : Text
  pub status : Status
  pub created_at : ℕ
  pub spec : Spec

pub data StoreError : Type 0 where
  not_found marshal_failed save_failed remove_failed list_failed get_failed unmarshal_failed :
      StoreError
  alive_failed lookup_failed set_failed : StoreError

abbrev pub key_active : Text
key_active = codes "sandboxes:active"

unfoldable pub record_key : Text → Text
record_key id = codes "sandbox:" ++ id

unfoldable pub beat_key : Text → Text
beat_key id = codes "heartbeat:" ++ id

unfoldable pub session_key : Text → Text
session_key sid = codes "session:" ++ sid

abbrev error_unless : Bool → StoreError → Option StoreError
error_unless true e = none
error_unless false e = some e

module _ (r : Redis) (json : Codec Record) where
  unfoldable pub save : Record → r.Db → Option StoreError × r.Db
  save rec db = elim (json.marshal rec) [
    | none ↦ (some marshal_failed, db)
    | some b ↦
        let (fine, db') = r.exec (set (record_key rec.id) b 0 ∷ sadd key_active rec.id ∷ []) db in
        (error_unless fine save_failed, db')
  ]

  -- The loop of `All`. It forgets an id that has no record, and stops at the first error.
  unfoldable pub collect : List Text → r.Db → Result StoreError (List Record) × r.Db
  collect [] db = (ok [], db)
  collect (id ∷ ids) db = elim (r.get (record_key id) db) [
    | err e ↦ (err get_failed, db)
    | ok none ↦ collect ids (r.exec (srem key_active id ∷ []) db).1
    | ok (some b) ↦ elim (json.unmarshal b) [
      | none ↦ (err unmarshal_failed, db)
      | some rec ↦
          let (out, db') = collect ids db in
          elim out [ err e ↦ (err e, db') | ok recs ↦ (ok (rec ∷ recs), db') ]
    ]
  ]

  unfoldable pub all : r.Db → Result StoreError (List Record) × r.Db
  all db = elim (r.smembers key_active db) [
    | err e ↦ (err list_failed, db)
    | ok ids ↦ collect ids db
  ]

module _ (r : Redis) where
  unfoldable pub remove : Text → r.Db → Option StoreError × r.Db
  remove id db =
      let (fine, db') =
        r.exec (del (record_key id) ∷ srem key_active id ∷ del (beat_key id) ∷ []) db in
      (error_unless fine remove_failed, db')

  -- `stamp` is the decimal text of the clock in milliseconds.
  unfoldable pub heartbeat : Text → Text → ℕ → r.Db → Option StoreError × r.Db
  heartbeat id stamp ttl db =
      let (fine, db') = r.exec (set (beat_key id) stamp ttl ∷ []) db in
      (error_unless fine set_failed, db')

  unfoldable pub alive : Text → r.Db → Result StoreError Bool
  alive id db = elim (r.exists (beat_key id) db) [ err e ↦ err alive_failed | ok b ↦ ok b ]

  unfoldable pub bind_session : Text → Text → ℕ → r.Db → Option StoreError × r.Db
  bind_session sid sandbox_id ttl db =
      let (fine, db') = r.exec (set (session_key sid) sandbox_id ttl ∷ []) db in
      (error_unless fine set_failed, db')

  unfoldable pub session_sandbox : Text → r.Db → Result StoreError Text
  session_sandbox sid db = elim (r.get (session_key sid) db) [
    | err e ↦ err lookup_failed
    | ok none ↦ err not_found
    | ok (some v) ↦ ok v
  ]

  unfoldable pub unbind_session : Text → r.Db → Option StoreError × r.Db
  unbind_session sid db =
      let (fine, db') = r.exec (del (session_key sid) ∷ []) db in
      (error_unless fine set_failed, db')
