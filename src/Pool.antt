-- ===== src/Pool.antt =====
-- internal/orchestrator/pool.go: the pool of warm sandboxes. The mutex and the channels make each
-- critical section, each send and each receive one step; the refill goroutine's place in its loop is
-- part of the state.
pub mod Depth
use sandboxed_ai_agent_orche.Prelude.{
  ℕ, zero, suc, ◌+◌, ◌-◌, ◌*◌, ◌≡◌, Bool, true, false, ◌&&◌, Option, none, some, List, [], ◌∷◌, ltb,
  if◌then◌else◌, length, Result, ok, err,
}
use sandboxed_ai_agent_orche.Prelude.Int.{ℤ, pos, negsuc}
use sandboxed_ai_agent_orche.Supervisor.{
  LaunchSpec, Instance, Config, World, LaunchError, HostAnswers, terminate, restore_instance,
}

-- Nanoseconds.
pub record PoolConfig : Type 0 where
  pub spec : LaunchSpec
  pub depth : ℤ
  pub refill_timeout : ℕ
  pub max_wait_time : ℕ

-- `applyDefaults` on the depth: at least one.
unfoldable pub depth_of : ℤ → ℕ
depth_of (pos zero) = 1
depth_of (pos (suc n)) = suc n
depth_of (negsuc n) = 1

-- `warm` has the last of the slice first; `signals` counts what the channel `refill` holds; `closed`
-- is the channel `done`; `running` says that the refill goroutine has not returned, and `need` is what
-- it has left of its inner loop.
pub record Pool : Type 0 where
  pub depth : ℕ
  pub spec : LaunchSpec
  pub warm : List Instance
  pub signals : ℕ
  pub closed : Bool
  pub running : Bool
  pub need : ℕ

-- A send that does not block on a full channel.
unfoldable pub trigger_refill : Pool → Pool
trigger_refill p = record p { signals = if ltb p.signals p.depth then p.signals + 1 else p.signals }

-- `for i := 0; i < cfg.Depth; i++ { p.triggerRefill() }`
unfoldable pub trigger_times : ℕ → Pool → Pool
unfolding trigger_refill
trigger_times zero p = p
trigger_times (suc n) p = trigger_times n (trigger_refill p)

unfoldable pub new_pool : PoolConfig → Pool
unfolding trigger_times depth_of
new_pool c = trigger_times (depth_of c.depth) (record {
  depth = depth_of c.depth;
  spec = c.spec;
  warm = [];
  signals = 0;
  closed = false;
  running = true;
  need = 0;
})

unfoldable pub acquire :
    Config → Pool → World → HostAnswers → Result LaunchError Instance × Pool × World
unfolding trigger_refill
acquire cfg p w h = elim p.warm [
  | i ∷ rest ↦ (ok i, trigger_refill (record p { warm = rest }), w)
  | [] ↦ let (r, w') = restore_instance cfg w p.spec h in (r, p, w')
]

-- `true` is no error.
unfoldable pub release : Config → Pool → World → Instance → Bool × Pool × World
release cfg p w i =
    if ltb (length p.warm) p.depth
    then (true, record p { warm = i ∷ p.warm }, w)
    else (let (fine, w') = terminate cfg w i.id in (fine, p, w'))

-- The loop of `Close` over the instances it took, the first of the slice last here.
unfoldable pub terminate_all : Config → List Instance → World → World
terminate_all cfg [] w = w
terminate_all cfg (i ∷ is) w = (terminate cfg (terminate_all cfg is w) i.id).1

-- `none` is the panic of closing a closed channel.
unfoldable pub close : Config → Pool → World → Option (Pool × World)
unfolding terminate_all
close cfg p w =
    if p.closed
    then none
    else some (record p { closed = true; warm = [] }, terminate_all cfg p.warm w)

-- `refillLoop` receives a signal when its inner loop has ended. It may do so after `Close` as well,
-- since `select` chooses freely.
unfoldable pub take_signal : Pool → Pool
take_signal p = elim p.need [
  | suc k ↦ p
  | zero ↦ elim p.signals [
    | zero ↦ p
    | suc s ↦ if p.running then record p { signals = s; need = p.depth - length p.warm } else p
  ]
]

-- `refillLoop` sees that `done` is closed.
unfoldable pub stop_refill : Pool → Pool
stop_refill p = elim p.need [
  | suc k ↦ p
  | zero ↦ if p.closed then record p { running = false } else p
]

-- After a failed refill: the goroutine waits, and returns if it sees `done` closed first.
unfoldable pub after_failure : Bool → ℕ → Pool → Pool
after_failure done_first k p =
    if p.closed && done_first then record p { need = 0; running = false } else record p { need = k }

-- One round of the inner loop with `refillOne`, which does not look at the depth again.
unfoldable pub refill_one : Config → Bool → Pool → World → HostAnswers → Pool × World
unfolding after_failure
refill_one cfg done_first p w h = elim p.need [
  | zero ↦ (p, w)
  | suc k ↦
      let (r, w') = restore_instance cfg w p.spec h in
      elim r [
        | ok i ↦ (record p { warm = i ∷ p.warm; need = k }, w')
        | err e ↦ (after_failure done_first k p, w')
      ]
]

-- One step of the program around the pool.
pub data Event : Type 0 where
  acquiring : HostAnswers → Event
  releasing : Instance → Event
  closing signalled stopped : Event
  refilling : Bool → HostAnswers → Event

-- A panic ends the program: nothing changes any more.
unfoldable pub pool_step : Config → Event → Pool × World → Pool × World
unfolding acquire release close take_signal stop_refill refill_one
pool_step cfg (acquiring h) (p, w) = let (r, p', w') = acquire cfg p w h in (p', w')
pool_step cfg (releasing i) (p, w) = let (fine, p', w') = release cfg p w i in (p', w')
pool_step cfg closing (p, w) = elim (close cfg p w) [ none ↦ (p, w) | some x ↦ x ]
pool_step cfg signalled (p, w) = (take_signal p, w)
pool_step cfg stopped (p, w) = (stop_refill p, w)
pool_step cfg (refilling d h) (p, w) = refill_one cfg d p w h

unfoldable pub pool_run : Config → List Event → Pool × World → Pool × World
unfolding pool_step
pool_run cfg [] s = s
pool_run cfg (e ∷ es) s = pool_run cfg es (pool_step cfg e s)
