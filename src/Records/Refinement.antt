-- ===== src/Records/Refinement.antt =====
-- The store of internal/state/redis.go implements the contract of internal/sandbox/record.go: a map
-- from ids to records.
use sandboxed_ai_agent_orche.Prelude.{
  ◌≡◌, refl, ap, sym, ◌∙◌, ◌↔◌, ◌⊎◌, inl, inr, true, Option, none, some, List, [], ◌∷◌, arith,
  if◌then◌else◌, Option-cases, Bool-cases, Holds, subst, ok, err, Result-cases,
}
use sandboxed_ai_agent_orche.Prelude.Text.{Text, text_eq, text_eq_iff, text_eq_refl}
use sandboxed_ai_agent_orche.Protocol.{Codec}
use sandboxed_ai_agent_orche.Redis.{
  Redis, is_some, set, del, sadd, srem, RedisCommand, values_after, members_after, RedisError,
}
use sandboxed_ai_agent_orche.Records.{
  Record, key_active, record_key, beat_key, save, collect, all, remove,
}
use sandboxed_ai_agent_orche.Records.Keys.{record_key_eq, beat-record}

-- The contract: what is kept under each id.
abbrev pub Kept : Type 0
Kept = Text → Option Record

abbrev pub put_record : Kept → Record → Kept
put_record m rec id = if text_eq rec.id id then some rec else m id

abbrev pub drop_record : Kept → Text → Kept
drop_record m id j = if text_eq id j then none else m j

module _ (r : Redis) (json : Codec Record) where
  -- What stands under the key of `id`.
  abbrev pub Shows : r.Db → Text → Option Record → Type 0
  Shows db id none = r.value db (record_key id) ≡ none
  Shows db id (some rec) =
      (raw : Text) × (r.value db (record_key id) ≡ some raw) × (json.unmarshal raw ≡ some rec)

  -- The database holds the map `m`, and every record under its own id.
  pub record Represents (db : r.Db) (m : Kept) : Type 0 where
    pub active : (id : Text) → r.member db key_active id ≡ is_some (m id)
    pub shown : (id : Text) → Shows db id (m id)
    pub keyed : (id : Text) (rec : Record) → m id ≡ some rec → rec.id ≡ id

  Shows-same :
      (db db' : r.Db) (id : Text) (o : Option Record)
      → r.value db' (record_key id) ≡ r.value db (record_key id)
      → Shows db id o
      → Shows db' id o
  Shows-same db db' id none e h = e ∙ h
  Shows-same db db' id (some rec) e (raw, v, u) = (raw, e ∙ v, u)

  module _ (cmds : List RedisCommand) (db : r.Db) (m : Kept) (h : Represents db m)
      (fine : (r.exec cmds db).0 ≡ true) where
    -- A write that leaves the records and the active set alone.
    pub frame-Represents :
        ((id : Text) → values_after cmds (r.value db) (record_key id) ≡ r.value db (record_key id))
        → ((id : Text) → members_after cmds (r.member db) key_active id ≡ r.member db key_active id)
        → Represents (r.exec cmds db).1 m
    frame-Represents vs ms = record {
      active = λ id. r.exec-member cmds db key_active id fine ∙ ms id ∙ h.active id;
      shown = λ id.
          Shows-same db (r.exec cmds db).1 id (m id)
            (r.exec-value cmds db (record_key id) fine ∙ vs id) (h.shown id);
      keyed = h.keyed;
    }

  save_exec :
      (rec : Record) (raw : Text) (db : r.Db) (m : Kept)
      → json.unmarshal raw ≡ some rec
      → Represents db m
      → (r.exec (set (record_key rec.id) raw 0 ∷ sadd key_active rec.id ∷ []) db).0 ≡ true
      → Represents
          (r.exec (set (record_key rec.id) raw 0 ∷ sadd key_active rec.id ∷ []) db).1
          (put_record m rec)
  save_exec rec raw db m u h fine =
      let cmds = set (record_key rec.id) raw 0 ∷ sadd key_active rec.id ∷ [] in
      let db' = (r.exec cmds db).1 in
      record {
        active = λ id.
            r.exec-member cmds db key_active id fine
            ∙ ground (arith, h.active id, text_eq_refl key_active);
        shown = λ id.
            let value = r.exec-value cmds db (record_key id) fine in
            elim (Bool-cases (text_eq rec.id id)) [
              | inl e ↦ rw e (raw, ground (arith, value, record_key_eq rec.id id, e), u)
              | inr e ↦ rw e (
                  Shows-same db db' id (m id) (ground (arith, value, record_key_eq rec.id id, e))
                    (h.shown id))
            ];
        keyed = λ id rec' e. ground (arith, h.keyed id rec', text_eq_iff rec.id id);
      }

  -- `Save`, when it returns no error, puts the record into the map.
  pub save-Represents :
      (rec : Record) (db : r.Db) (m : Kept)
      → json.IsPlain rec
      → Represents db m
      → (save r json rec db).0 ≡ none
      → Represents (save r json rec db).1 (put_record m rec)
  unfolding save
  save-Represents rec db m plain h e =
      let (raw, written, read) = json.unmarshal-marshal rec plain in
      rw (written, save) (save_exec rec raw db m read h (ground (arith, rw (written, save) at e)))

  -- `Remove`, when it returns no error, takes the id out of the map.
  pub remove-Represents :
      (id : Text) (db : r.Db) (m : Kept)
      → Represents db m
      → (remove r id db).0 ≡ none
      → Represents (remove r id db).1 (drop_record m id)
  unfolding remove
  remove-Represents id db m h e =
      let cmds = del (record_key id) ∷ srem key_active id ∷ del (beat_key id) ∷ [] in
      let db' = (r.exec cmds db).1 in
      let fine : (r.exec cmds db).0 ≡ true = ground arith in
      record {
        active = λ j.
            r.exec-member cmds db key_active j fine
            ∙ ground (arith, h.active j, text_eq_refl key_active);
        shown = λ j.
            let value = r.exec-value cmds db (record_key j) fine in
            elim (Bool-cases (text_eq id j)) [
              | inl t ↦ rw t (ground (arith, value, record_key_eq id j, beat-record id j, t))
              | inr t ↦ rw t (
                  Shows-same db db' j (m j)
                    (ground (arith, value, record_key_eq id j, beat-record id j, t)) (h.shown j))
            ];
        keyed = λ j rec q. ground (arith, h.keyed j rec);
      }

  -- What `All` collects over some ids of the active set.
  record Collected (m : Kept) (ids : List Text) (db : r.Db) (recs : List Record) (db' : r.Db)
      : Type 0 where
    untouched : db' ≡ db
    sound : (rec : Record) → Holds rec recs → m rec.id ≡ some rec
    complete : (id : Text) (rec : Record) → Holds id ids → m id ≡ some rec → Holds rec recs

  -- One round of the loop at an id that has a record.
  collect_round :
      (id : Text) (ids : List Text) (db : r.Db) (raw : Text) (rec : Record) (recs : List Record)
      → r.get (record_key id) db ≡ ok (some raw)
      → json.unmarshal raw ≡ some rec
      → (collect r json (id ∷ ids) db).0 ≡ ok recs
      → (rest : List Record) × ((collect r json ids db).0 ≡ ok rest)
        × (recs ≡ rec ∷ rest)
        × ((collect r json (id ∷ ids) db).1 ≡ (collect r json ids db).1)
  unfolding collect
  collect_round id ids db raw rec recs g u e = elim (Result-cases (collect r json ids db).0) [
    | inl (rest, t) ↦
        (rest, t, ground (arith, rw (g, collect, u, t) at e), rw (g, collect, u, t) refl)
    | inr (x, t) ↦ absurd (cc (rw (g, collect, u, t) at e))
  ]

  get_shown :
      (id : Text) (db : r.Db) (raw : Text)
      → r.value db (record_key id) ≡ some raw
      → (r.get (record_key id) db ≡ ok (some raw))
        ⊎ ((x : RedisError) × (r.get (record_key id) db ≡ err x))
  get_shown id db raw v = elim (Result-cases (r.get (record_key id) db)) [
    | inl (o, g) ↦ inl (g ∙ ap ok (r.get-value (record_key id) db o g ∙ v))
    | inr (x, g) ↦ inr (x, g)
  ]

  collect_lem :
      (ids : List Text) (db : r.Db) (m : Kept) (recs : List Record)
      → Represents db m
      → ((id : Text) → Holds id ids → is_some (m id) ≡ true)
      → (collect r json ids db).0 ≡ ok recs
      → Collected m ids db recs (collect r json ids db).1
  unfolding collect
  collect_lem [] db m recs h live e =
      let none_left : recs ≡ [] = ground arith in
      record {
        untouched = refl;
        sound = λ rec q. absurd (subst (Holds rec) none_left q);
        complete = λ id rec q. absurd q;
      }
  collect_lem (id ∷ ids) db m recs h live e = elim (Option-cases (m id)) [
    | inl q ↦ absurd (cc (live id (inl refl), q))
    | inr (rec, q) ↦
        let (raw, v, u) = subst (Shows db id) q (h.shown id) in
        elim (get_shown id db raw v) [
          | inr (x, g) ↦ absurd (cc (rw (g, collect) at e))
          | inl g ↦
              let (rest, t, split, same) = collect_round id ids db raw rec recs g u e in
              let c = collect_lem ids db m rest h (λ j k. live j (inr k)) t in
              let key = h.keyed id rec q in
              record {
                untouched = same ∙ c.untouched;
                sound = λ rec' k. elim (subst (Holds rec') split k) [
                  | inl z ↦ subst (λ (x : Record). m x.id ≡ some x) (sym z) (ap m key ∙ q)
                  | inr z ↦ c.sound rec' z
                ];
                complete = λ j rec' k l.
                    subst (Holds rec') (sym split)
                      (elim k [ inl z ↦ inl (ground arith) | inr z ↦ inr (c.complete j rec' z l) ]);
              }
        ]
  ]

  -- `All`, when it returns no error, lists exactly the records of the map, and changes nothing.
  pub all_lem :
      (db : r.Db) (m : Kept) (recs : List Record)
      → Represents db m
      → (all r json db).0 ≡ ok recs
      → ((rec : Record) → Holds rec recs ↔ (m rec.id ≡ some rec)) × ((all r json db).1 ≡ db)
  unfolding all
  all_lem db m recs h e = elim (Result-cases (r.smembers key_active db)) [
    | inr (x, q) ↦ absurd (cc (rw (q, all) at e))
    | inl (ids, q) ↦
        let live = λ (id : Text) (k : Holds id ids).
          sym (h.active id) ∙ (r.smembers-member key_active id db ids q).0 k in
        let c = collect_lem ids db m recs h live (rw (q, all) at e) in
        (
          λ rec. (
            c.sound rec,
            λ k.
                c.complete rec.id rec
                  ((r.smembers-member key_active rec.id db ids q).1
                    (h.active rec.id ∙ ap is_some k))
                  k,
          ),
          rw (q, all) c.untouched,
        )
  ]
