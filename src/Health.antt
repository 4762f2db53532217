-- ===== src/Health.antt =====
-- cmd/controlplane/main.go: a round of `healthLoop`, the end of `main`, and how the environment is read.
pub mod Round
pub mod Shutdown
use sandboxed_ai_agent_orche.Prelude.{
  ℕ, Bool, true, false, Option, none, some, List, [], ◌∷◌, if◌then◌else◌, is_empty, ◌==◌,
}
use sandboxed_ai_agent_orche.Prelude.Text.{Text}
use sandboxed_ai_agent_orche.Prelude.Int.{ℤ}
use sandboxed_ai_agent_orche.Redis.{Redis}
use sandboxed_ai_agent_orche.Records.{heartbeat}
use sandboxed_ai_agent_orche.Supervisor.{Instance, Config, World, instances, reap_dead, terminate}

-- A heartbeat for each sandbox of the list; errors are only logged.
unfoldable pub beat_all : (r : Redis) → Text → ℕ → List Instance → r.Db → r.Db
beat_all r stamp ttl [] db = db
beat_all r stamp ttl (i ∷ is) db = beat_all r stamp ttl is (heartbeat r i.id stamp ttl db).1

-- A tick of `healthLoop`: what it reaps, then the heartbeats of what is left.
unfoldable pub health_round :
    (r : Redis) → Config → (ℕ → Bool) → Text → ℕ → World × r.Db → List Text × World × r.Db
unfolding beat_all
health_round r cfg alive stamp ttl (w, db) =
    let (dead, w') = reap_dead cfg alive w in
    (dead, w', beat_all r stamp ttl (instances w'.inst) db)

-- The end of `main`, over the list taken at its start.
unfoldable pub shut_down_loop : Config → List Instance → World → World
shut_down_loop cfg [] w = w
shut_down_loop cfg (i ∷ is) w = shut_down_loop cfg is (terminate cfg w i.id).1

unfoldable pub shut_down : Bool → Config → World → World
unfolding shut_down_loop
shut_down terminates_all cfg w =
    if terminates_all then shut_down_loop cfg (instances w.inst) w else w

-- `envStr`, `envInt` and `envBool`: a variable that does not parse counts as one that is not set. The
-- parsers are those of package strconv.
unfoldable pub env_str : (Text → Option Text) → Text → Text → Text
env_str env key def = elim (env key) [ none ↦ def | some v ↦ v ]

unfoldable pub env_parsed {ℓ} :
    {A : Type ℓ} → (Text → Option A) → (Text → Option Text) → Text → A → A
env_parsed parse env key def = elim (env key) [
  | none ↦ def
  | some v ↦ elim (parse v) [ none ↦ def | some a ↦ a ]
]

-- `strings.Split(s, ",")`
unfoldable pub split_commas : Text → List Text
split_commas [] = [] ∷ []
split_commas (b ∷ s) =
    let rest = split_commas s in
    if b == 44 then [] ∷ rest else (elim rest [ [] ↦ (b ∷ []) ∷ [] | t ∷ ts ↦ (b ∷ t) ∷ ts ])

-- The origins that `loadConfig` keeps.
unfoldable pub trimmed_origins : (Text → Text) → List Text → List Text
trimmed_origins trim [] = []
trimmed_origins trim (o ∷ os) =
    let rest = trimmed_origins trim os in if is_empty (trim o) then rest else trim o ∷ rest

unfoldable pub allowed_origins : (Text → Text) → Text → List Text
unfolding split_commas trimmed_origins
allowed_origins trim raw = trimmed_origins trim (split_commas raw)
