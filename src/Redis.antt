-- ===== src/Redis.antt =====
-- Redis as internal/hitl/gate.go and internal/state/redis.go use it: a service, so a parameter. The
-- hypotheses are its documented behaviour: a pipeline that returns no error has applied its commands
-- in order, and a read that returns no error shows what is stored. `value` and `member` are what is
-- stored and has not expired.
use sandboxed_ai_agent_orche.Prelude.{
  ℕ, ◌≡◌, ◌↔◌, Bool, true, false, Option, none, some, List, [], ◌∷◌, if◌then◌else◌, Result, ok,
  Holds,
}
use sandboxed_ai_agent_orche.Prelude.Text.{Text, text_eq}

pub data RedisCommand : Type 0 where
  set : Text → Text → ℕ → RedisCommand
  del : Text → RedisCommand
  sadd srem : Text → Text → RedisCommand
  expire : Text → ℕ → RedisCommand

-- What a command does to the strings and to the sets, before any time passes.
abbrev pub value_after : RedisCommand → (Text → Option Text) → Text → Option Text
value_after (set k v ttl) m j = if text_eq k j then some v else m j
value_after (del k) m j = if text_eq k j then none else m j
value_after (sadd s x) m j = m j
value_after (srem s x) m j = m j
value_after (expire s ttl) m j = m j

abbrev pub member_after : RedisCommand → (Text → Text → Bool) → Text → Text → Bool
member_after (set k v ttl) m s x = m s x
member_after (del k) m s x = m s x
member_after (sadd t y) m s x = if text_eq t s then (if text_eq y x then true else m s x) else m s x
member_after (srem t y) m s x =
    if text_eq t s then (if text_eq y x then false else m s x) else m s x
member_after (expire t ttl) m s x = m s x

abbrev pub values_after : List RedisCommand → (Text → Option Text) → Text → Option Text
values_after [] m = m
values_after (c ∷ cs) m = values_after cs (value_after c m)

abbrev pub members_after : List RedisCommand → (Text → Text → Bool) → Text → Text → Bool
members_after [] m = m
members_after (c ∷ cs) m = members_after cs (member_after c m)

-- An error other than redis.Nil.
pub data RedisError : Type 0 where
  redis_failed : RedisError

abbrev pub is_some {ℓ} : {A : Type ℓ} → Option A → Bool
is_some none = false
is_some (some a) = true

pub record Redis : Type 1 where
  pub Db : Type 0
  pub get : Text → Db → Result RedisError (Option Text)
  pub smembers : Text → Db → Result RedisError (List Text)
  pub exec : List RedisCommand → Db → Bool × Db
  pub value : Db → Text → Option Text
  pub member : Db → Text → Text → Bool
  pub get-value : (k : Text) (d : Db) (o : Option Text) → get k d ≡ ok o → o ≡ value d k
  pub exec-value :
      (cs : List RedisCommand) (d : Db) (k : Text)
      → (exec cs d).0 ≡ true
      → value (exec cs d).1 k ≡ values_after cs (value d) k
  pub exec-member :
      (cs : List RedisCommand) (d : Db) (s x : Text)
      → (exec cs d).0 ≡ true
      → member (exec cs d).1 s x ≡ members_after cs (member d) s x
  pub exists : Text → Db → Result RedisError Bool
  pub smembers-member :
      (s x : Text) (d : Db) (xs : List Text)
      → smembers s d ≡ ok xs
      → Holds x xs ↔ (member d s x ≡ true)
  pub exists-value : (k : Text) (d : Db) (b : Bool) → exists k d ≡ ok b → b ≡ is_some (value d k)
