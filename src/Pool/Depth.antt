-- ===== src/Pool/Depth.antt =====
-- How many sandboxes the pool of internal/orchestrator/pool.go holds.
use sandboxed_ai_agent_orche.Prelude.{
  ℕ, zero, suc, ◌+◌, ◌*◌, ◌≤◌, ◌≡◌, refl, ap, inl, inr, Bool, true, false, some, List, [], ◌∷◌,
  arith, ltb, length, Bool-cases, Option-cases, Result-cases,
}
use sandboxed_ai_agent_orche.Supervisor.{Instance, Config, World, HostAnswers, restore_instance}
use sandboxed_ai_agent_orche.Pool.{
  PoolConfig, depth_of, Pool, trigger_refill, trigger_times, new_pool, acquire, release, close,
  take_signal, refill_one, Event, acquiring, releasing, closing, signalled, stopped, refilling,
  stop_refill, after_failure, pool_step, pool_run,
}

pub record Bounded (p : Pool) : Type 0 where
  pub queue : p.signals ≤ p.depth
  pub rounds : p.need ≤ p.depth
  pub room : length p.warm + p.need ≤ 2 * p.depth

trigger_refill-Bounded : (p : Pool) → Bounded p → Bounded (trigger_refill p)
unfolding trigger_refill
trigger_refill-Bounded p b = record {
  queue = ground (arith, b.queue);
  rounds = b.rounds;
  room = b.room;
}

trigger_times-Bounded : (n : ℕ) (p : Pool) → Bounded p → Bounded (trigger_times n p)
unfolding trigger_times
trigger_times-Bounded zero p b = b
trigger_times-Bounded (suc n) p b = trigger_times-Bounded n _ (trigger_refill-Bounded p b)

trigger_times_fills :
    (n : ℕ) (p : Pool) → p.signals + n ≤ p.depth → (trigger_times n p).signals ≡ p.signals + n
unfolding trigger_times trigger_refill
trigger_times_fills zero p h = omega arith
trigger_times_fills (suc n) p h = ground (arith, trigger_times_fills n (trigger_refill p))

-- A new pool keeps its bounds, and its channel holds as many signals for the refill goroutine as the
-- depth after the defaults.
pub new_pool_lem :
    (c : PoolConfig) → Bounded (new_pool c) × ((new_pool c).signals ≡ depth_of c.depth)
unfolding new_pool
new_pool_lem c = fill (depth_of c.depth)
  where
    fill :
        (n : ℕ)
        → Bounded (
            trigger_times n (record {
              depth = n;
              spec = c.spec;
              warm = [];
              signals = 0;
              closed = false;
              running = true;
              need = 0;
            }))
          × ((trigger_times n (record {
            depth = n;
            spec = c.spec;
            warm = [];
            signals = 0;
            closed = false;
            running = true;
            need = 0;
          })).signals
              ≡ n)
    fill n =
        let p : Pool = record {
          depth = n;
          spec = c.spec;
          warm = [];
          signals = 0;
          closed = false;
          running = true;
          need = 0;
        } in
        (
          trigger_times-Bounded n p
              (record { queue = omega arith; rounds = omega arith; room = omega arith }),
          omega (arith, trigger_times_fills n p (omega arith)),
        )

acquire-Bounded :
    (cfg : Config) (p : Pool) (w : World) (h : HostAnswers)
    → Bounded p
    → Bounded (acquire cfg p w h).1
unfolding acquire
acquire-Bounded cfg p w h b = taken p.warm refl
  where
    taken : (is : List Instance) → p.warm ≡ is → Bounded (acquire cfg p w h).1
    taken [] e = rw (e, acquire) b
    taken (i ∷ is) e =
        rw (e, acquire)
          (trigger_refill-Bounded _ (record {
            queue = b.queue;
            rounds = b.rounds;
            room = omega (arith, ap (λ (l : List Instance). length l) e, b.room);
          }))

release-Bounded :
    (cfg : Config) (p : Pool) (w : World) (i : Instance) → Bounded p → Bounded (release cfg p w i).1
unfolding release
release-Bounded cfg p w i b = elim (Bool-cases (ltb (length p.warm) p.depth)) [
  | inl e ↦ rw e (record { queue = b.queue; rounds = b.rounds; room = ground (arith, b.rounds) })
  | inr e ↦ rw e b
]

take_signal-Bounded : (p : Pool) → Bounded p → Bounded (take_signal p)
unfolding take_signal
take_signal-Bounded p b = record {
  queue = ground (arith, b.queue);
  rounds = ground (arith, b.rounds);
  room = ground (arith, b.room, b.rounds);
}

stop_refill-Bounded : (p : Pool) → Bounded p → Bounded (stop_refill p)
unfolding stop_refill
stop_refill-Bounded p b = record {
  queue = ground (arith, b.queue);
  rounds = ground (arith, b.rounds);
  room = ground (arith, b.room);
}

after_failure-Bounded :
    (d : Bool) (k : ℕ) (p : Pool) → p.need ≡ suc k → Bounded p → Bounded (after_failure d k p)
unfolding after_failure
after_failure-Bounded d k p e b = record {
  queue = ground (arith, b.queue);
  rounds = ground (arith, b.rounds);
  room = ground (arith, b.room);
}

refill_one-Bounded :
    (cfg : Config) (d : Bool) (p : Pool) (w : World) (h : HostAnswers)
    → Bounded p
    → Bounded (refill_one cfg d p w h).0
unfolding refill_one
refill_one-Bounded cfg d p w h b = round p.need refl
  where
    round : (n : ℕ) → p.need ≡ n → Bounded (refill_one cfg d p w h).0
    round zero e = rw (e, refill_one) b
    round (suc k) e = elim (Result-cases (restore_instance cfg w p.spec h).0) [
      | inl (i, q) ↦
          rw (e, refill_one, q)
            (record {
              queue = b.queue;
              rounds = omega (arith, b.rounds, e);
              room = omega (arith, b.room, e);
            })
      | inr (x, q) ↦ rw (e, refill_one, q) (after_failure-Bounded d k p e b)
    ]

close-Bounded :
    (cfg : Config) (p p' : Pool) (w w' : World)
    → close cfg p w ≡ some (p', w')
    → Bounded p
    → Bounded p'
unfolding close
close-Bounded cfg p p' w w' e b = record {
  queue = ground (arith, b.queue);
  rounds = ground (arith, b.rounds);
  room = ground (arith, b.room);
}

pool_step-Bounded :
    (cfg : Config) (e : Event) (p : Pool) (w : World)
    → Bounded p
    → Bounded (pool_step cfg e (p, w)).0
unfolding pool_step
pool_step-Bounded cfg (acquiring h) p w b = acquire-Bounded cfg p w h b
pool_step-Bounded cfg (releasing i) p w b = release-Bounded cfg p w i b
pool_step-Bounded cfg closing p w b = elim (Option-cases (close cfg p w)) [
  | inl e ↦ rw (e, pool_step) b
  | inr ((p', w'), e) ↦ rw (e, pool_step) (close-Bounded cfg p p' w w' e b)
]
pool_step-Bounded cfg signalled p w b = take_signal-Bounded p b
pool_step-Bounded cfg stopped p w b = stop_refill-Bounded p b
pool_step-Bounded cfg (refilling d h) p w b = refill_one-Bounded cfg d p w h b

-- In every interleaving of acquires, releases, closes and steps of the refill goroutine, the channel
-- holds at most `Depth` signals, and the sandboxes held and those still to be restored are at most
-- twice `Depth` together.
pub pool_run-Bounded :
    (cfg : Config) (es : List Event) (p : Pool) (w : World)
    → Bounded p
    → Bounded (pool_run cfg es (p, w)).0
unfolding pool_run
pool_run-Bounded cfg [] p w b = b
pool_run-Bounded cfg (e ∷ es) p w b =
    pool_run-Bounded cfg es (pool_step cfg e (p, w)).0 (pool_step cfg e (p, w)).1
      (pool_step-Bounded cfg e p w b)
