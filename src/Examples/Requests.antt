-- ===== src/Examples/Requests.antt =====
-- A request without credentials, the transcript of a terminal session and a round of the health loop, at
-- concrete inputs.
use sandboxed_ai_agent_orche.Prelude.{
  ◌≡◌, ◌⊎◌, refl, true, false, none, some, [], ◌∷◌, ok, ◌==◌, ◌||◌, Bool, ℕ, ◌+◌,
}
use sandboxed_ai_agent_orche.Prelude.Text.{Text, codes, text_eq, starts_with}
use sandboxed_ai_agent_orche.Prelude.Int.{pos}
use sandboxed_ai_agent_orche.Prelude.Table.{lookup, erase}
use sandboxed_ai_agent_orche.Records.{heartbeat, alive, beat_key}
use sandboxed_ai_agent_orche.Access.{
  unauthorized, Request, presented, trim_prefix, token_access, require_auth,
}
use sandboxed_ai_agent_orche.Accounts.{resolver}
use sandboxed_ai_agent_orche.Supervisor.{
  Instance, World, get, instances, terminate, reap_dead, reap_loop,
}
use sandboxed_ai_agent_orche.Cid.{free}
use sandboxed_ai_agent_orche.Api.Replay.{terminal_replay}
use sandboxed_ai_agent_orche.Gate.{pending}
use sandboxed_ai_agent_orche.Proxy.{serve_session}
use sandboxed_ai_agent_orche.Proxy.Transcript.{rows}
use sandboxed_ai_agent_orche.Database.Transcripts.{max_seq, list_lines}
use sandboxed_ai_agent_orche.Api.{terminal, delete_history, protected, api}
use sandboxed_ai_agent_orche.Api.Closed.{Unmoved, api-unauthorized}
use sandboxed_ai_agent_orche.Health.{health_round, beat_all}
use sandboxed_ai_agent_orche.Health.Round.{Tracked, survivor, AllBeat, health_round_lem}
use sandboxed_ai_agent_orche.Examples.Memory.{Memory, redis}
use sandboxed_ai_agent_orche.Examples.Accounts.{all_fine, passwords}
use sandboxed_ai_agent_orche.Examples.Sessions.{json, gate, silent_codec, client, message, stored}
use sandboxed_ai_agent_orche.Examples.Host.{cfg, running, full_get}
use sandboxed_ai_agent_orche.Examples.Sandboxes.{platform, same, box}

-- Redis with nothing in it.
abbrev blank : Memory
blank = (λ k. none, λ s. [])

-- A bearer header with the wrong token.
abbrev guess : Request
guess = record { cookie = []; authorization = codes "Bearer guess"; token_param = [] }

turned_away :
    require_auth (codes "secret") (some (resolver all_fine 50 platform.tables)) guess ≡ unauthorized
unfolding require_auth token_access presented text_eq trim_prefix starts_with
turned_away = refl

api-unauthorized_example :
    let out =
      api redis json silent_codec
        (λ s. s)
        same
        same
        passwords
        gate
        client
        cfg
        3600
        (codes "secret")
        all_fine
        50
        (protected guess (delete_history (codes "a") (λ d. true)))
        (platform, blank) in
    (out.0 ≡ 401)
    × (out.1.0.world ≡ platform.world)
    × (out.1.0.snapshot_dirs ≡ platform.snapshot_dirs)
    × (out.1.1 ≡ blank)
    × Unmoved platform.tables out.1.0.tables
api-unauthorized_example =
    api-unauthorized redis json silent_codec (λ s. s) same same passwords gate client cfg 3600
      (codes "secret") all_fine 50 guess (delete_history (codes "a") (λ d. true)) platform blank
      turned_away

abbrev box_at : Text → ℕ → ℕ → Instance
box_at id cid pid = record {
  id = id;
  cid = cid;
  pid = pid;
  spec = record {
    id = id;
    vcpus = pos 1;
    mem_mib = pos 512;
    cpu_percent = pos 50;
    pids_max = pos 128;
  };
  created_at = 9;
}

-- Two sandboxes; the process of "b" has died.
abbrev pair : World
pair = record {
  inst = (codes "a", box_at (codes "a") 3 77) ∷ (codes "b", box_at (codes "b") 4 78) ∷ [];
  cids = record { next = 5; min = 3; max = 9; used = λ c. (c == 3) || (c == 4) };
  state_dirs = λ j. true;
  leaves = λ j. true;
  chroots = λ j. true;
  vms = λ j. true;
  paused = λ j. false;
  records = [];
}

abbrev lives : ℕ → Bool
lives pid = pid == 77

pair-Tracked : Tracked pair.inst
unfolding lookup text_eq
pair-Tracked = ((refl, (refl, tt)), (refl, (refl, tt)))

pair-AllBeat :
    AllBeat redis
      (codes "now")
      30
      (instances (health_round redis cfg lives (codes "now") 30 (pair, blank)).1.inst)
      blank
unfolding health_round beat_all heartbeat reap_dead reap_loop instances terminate free lookup erase
    text_eq
pair-AllBeat = (refl, tt)

a_alive :
    alive redis (codes "a") (health_round redis cfg lives (codes "now") 30 (pair, blank)).2
    ≡ ok true
unfolding health_round beat_all heartbeat alive reap_dead reap_loop instances terminate free lookup
    erase text_eq beat_key
a_alive = refl

health_round_example :
    let (dead, w', db') = health_round redis cfg lives (codes "now") 30 (pair, blank) in
    (get w' (codes "a") ≡ survivor lives (get pair (codes "a")))
    × ((get w' (codes "a") ≡ none) ⊎ (true ≡ true))
health_round_example =
    health_round_lem redis (codes "now") 30 cfg lives pair blank (codes "a") true pair-Tracked
      pair-AllBeat a_alive

box_there : lookup (codes "a") platform.tables.sandboxes ≡ some box
unfolding lookup text_eq
box_there = refl

terminal_replay_example :
    let m = max_seq (codes "a") platform.tables.transcript_lines in
    let out =
      terminal redis json silent_codec
        (λ s. s)
        same
        same
        passwords
        gate
        client
        cfg
        3600
        all_fine
        50
        (codes "a")
        (ok ((λ n. 60 + n), message ∷ message ∷ []))
        (platform, stored pending) in
    (out.0 ≡ 101)
    × (list_lines all_fine (codes "a") (pos m) 0 out.1.0.tables
        ≡ ok (
            rows
              (λ n. 60 + n)
              0
              (codes "a")
              (m + 1)
              (serve_session redis json silent_codec
                (λ s. s)
                gate
                client
                (message ∷ message ∷ [])
                (codes "a")
                (stored pending)).0))
terminal_replay_example =
    terminal_replay redis json silent_codec (λ s. s) same same passwords gate client cfg 3600
      all_fine 50 (codes "a") (λ n. 60 + n) (message ∷ message ∷ []) platform (stored pending)
      running box refl full_get box_there refl refl
