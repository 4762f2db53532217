-- ===== src/Examples/Memory.antt =====
-- A Redis that never fails, in memory: it shows that the hypotheses of the outside service can hold.
use sandboxed_ai_agent_orche.Prelude.{
  ◌≡◌, refl, ◌∙◌, ◌↔◌, inl, inr, Bool, true, false, Option, List, [], ◌∷◌, arith, if◌then◌else◌,
  Holds, ok, sym, Bool-cases,
}
use sandboxed_ai_agent_orche.Prelude.Text.{Text, text_eq, text_eq_iff, text_eq_refl}
use sandboxed_ai_agent_orche.Redis.{
  Redis, RedisCommand, set, del, sadd, srem, expire, is_some, values_after, member_after,
  members_after,
}

abbrev pub is_in : Text → List Text → Bool
is_in x [] = false
is_in x (y ∷ ys) = if text_eq y x then true else is_in x ys

abbrev pub without : Text → List Text → List Text
without x [] = []
without x (y ∷ ys) = if text_eq x y then without x ys else y ∷ without x ys

is_in-without :
    (x y : Text) (ys : List Text)
    → is_in y (without x ys) ≡ (if text_eq x y then false else is_in y ys)
is_in-without x y [] = ground arith
is_in-without x y (z ∷ ys) =
    ground (arith, is_in-without x y ys, text_eq_iff x y, text_eq_iff x z, text_eq_iff z y)

pub is_in_iff : (x : Text) (xs : List Text) → Holds x xs ↔ (is_in x xs ≡ true)
is_in_iff x [] = (λ h. absurd h, λ h. absurd (cc h))
is_in_iff x (y ∷ ys) = (
  λ h. elim h [
    | inl e ↦ rw e (ground (arith, text_eq_refl y))
    | inr k ↦ ground (arith, (is_in_iff x ys).0 k)
  ],
  λ h. elim (Bool-cases (text_eq y x)) [
    | inl e ↦ inl (sym ((text_eq_iff y x).0 e))
    | inr e ↦ inr ((is_in_iff x ys).1 (ground arith))
  ],
)

abbrev pub list_after : RedisCommand → (Text → List Text) → Text → List Text
list_after (sadd t y) m s = if text_eq t s then y ∷ m s else m s
list_after (srem t y) m s = if text_eq t s then without y (m s) else m s
list_after _ m s = m s

abbrev pub lists_after : List RedisCommand → (Text → List Text) → Text → List Text
lists_after [] m = m
lists_after (c ∷ cs) m = lists_after cs (list_after c m)

members_after-same :
    (cs : List RedisCommand) (m m' : Text → Text → Bool) (s x : Text)
    → ((t y : Text) → m t y ≡ m' t y)
    → members_after cs m s x ≡ members_after cs m' s x
members_after-same [] m m' s x h = h s x
members_after-same (c ∷ cs) m m' s x h =
    members_after-same cs (member_after c m) (member_after c m') s x (step c)
  where
    step : (c : RedisCommand) (t y : Text) → member_after c m t y ≡ member_after c m' t y
    step (set k v ttl) t y = h t y
    step (del k) t y = h t y
    step (sadd u z) t y = rw (h t y) refl
    step (srem u z) t y = rw (h t y) refl
    step (expire u ttl) t y = h t y

list_after-member :
    (c : RedisCommand) (m : Text → List Text) (s x : Text)
    → is_in x (list_after c m s) ≡ member_after c (λ t y. is_in y (m t)) s x
list_after-member (set k v ttl) m s x = refl
list_after-member (del k) m s x = refl
list_after-member (sadd t y) m s x = ground arith
list_after-member (srem t y) m s x = ground (arith, is_in-without y x (m s))
list_after-member (expire t ttl) m s x = refl

pub lists_after-member :
    (cs : List RedisCommand) (m : Text → List Text) (s x : Text)
    → is_in x (lists_after cs m s) ≡ members_after cs (λ t y. is_in y (m t)) s x
lists_after-member [] m s x = refl
lists_after-member (c ∷ cs) m s x =
    lists_after-member cs (list_after c m) s x
    ∙ members_after-same cs (λ t y. is_in y (list_after c m t))
        (member_after c (λ t y. is_in y (m t))) s x (list_after-member c m)

-- Strings, and sets as lists; no key expires and no command fails.
abbrev pub Memory : Type 0
Memory = (Text → Option Text) × (Text → List Text)

abbrev pub redis : Redis
redis = record {
  Db = Memory;
  get = λ k d. ok (d.0 k);
  smembers = λ s d. ok (d.1 s);
  exists = λ k d. ok (is_some (d.0 k));
  exec = λ cs d. (true, (values_after cs d.0, lists_after cs d.1));
  value = λ d k. d.0 k;
  member = λ d s x. is_in x (d.1 s);
  get-value = λ k d o e. ground arith;
  exec-value = λ cs d k e. refl;
  exec-member = λ cs d s x e. lists_after-member cs d.1 s x;
  smembers-member =
      λ s x d xs e. let same : xs ≡ d.1 s = ground arith in rw same (is_in_iff x (d.1 s));
  exists-value = λ k d b e. ground arith;
}
