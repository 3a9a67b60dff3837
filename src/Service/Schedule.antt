-- ===== src/Service/Schedule.antt =====
-- internal/stack/scheduler.go: the loop that runs the cleanup. What the select of the loop receives
-- is a sequence of events: a tick, or the end of the context. A run that has handled all its
-- events waits for the next. Log lines are left out.
use container_provisioner_k.Base.{
  ℕ, zero, suc, true, Option, none, some, List, [], ◌∷◌, if◌then◌else◌, length, ◌≡◌, refl,
}
use container_provisioner_k.Base.Int.{pos, ltb_ℤ}
use container_provisioner_k.Config.{Duration}
use container_provisioner_k.Service.{Service}
use container_provisioner_k.Service.Cleanup.{cleanup_expired_and_orphaned}

pub record Scheduler (W Q : Type 0) : Type 0 where
  pub interval : Duration
  pub service : Option (Service W Q)

pub data Event : Type 0 where
  done tick : Event

module _ {W Q : Type 0} where
  -- One cleanup, for what it leaves behind.
  abbrev pub clean : Service W Q → W → W
  clean s w = (cleanup_expired_and_orphaned s w).1

  -- `for { select { ... } }`
  unfoldable pub loop : Service W Q → List Event → W → W
  loop s [] w = w
  loop s (done ∷ events) w = w
  loop s (tick ∷ events) w = loop s events (clean s w)

  -- `time.NewTicker` panics on an interval that is not positive; the panic is recovered.
  unfoldable pub run : Option (Scheduler W Q) → List Event → W → W
  unfolding loop
  run none events w = w
  run (some sched) events w = elim sched.service [
    | none ↦ w
    | some s ↦ if ltb_ℤ (pos 0) sched.interval then loop s events (clean s w) else w
  ]

-- The events before the first end of the context.
unfoldable pub before_done : List Event → List Event
before_done [] = []
before_done (done ∷ events) = []
before_done (tick ∷ events) = tick ∷ before_done events

unfoldable pub repeated {ℓ} : {A : Type ℓ} → ℕ → (A → A) → A → A
repeated zero f a = a
repeated (suc n) f a = repeated n f (f a)

loop-repeated :
    {W Q : Type 0} (s : Service W Q) (events : List Event) (w : W)
    → loop s events w ≡ repeated (length (before_done events)) (clean s) w
unfolding loop before_done repeated
loop-repeated s [] w = refl
loop-repeated s (done ∷ events) w = refl
loop-repeated s (tick ∷ events) w = loop-repeated s events (clean s w)

-- A scheduler with a service and a positive interval cleans up once at the start and once for each tick
-- before the first end of the context, and does nothing else.
pub run-repeated :
    {W Q : Type 0} (sched : Scheduler W Q) (s : Service W Q) (events : List Event) (w : W)
    → sched.service ≡ some s
    → ltb_ℤ (pos 0) sched.interval ≡ true
    → run (some sched) events w ≡ repeated (suc (length (before_done events))) (clean s) w
unfolding run repeated
run-repeated sched s events w given positive =
    rw (given, positive) (loop-repeated s events (clean s w))
