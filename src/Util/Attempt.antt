-- ===== src/Util/Attempt.antt =====
-- `AttemptStrategy` and `Attempt` of pkg/util/attempt.go. Times and durations are natural numbers of
-- nanoseconds, and do not overflow. A negative `Min` acts as zero.
use vpc_route_controller.Common.{
  ℕ, suc, ◌+◌, ◌-◌, Bool, true, false, not, ◌&&◌, ◌||◌, ltb, leb, if◌then◌else◌,
}

-- `AttemptStrategy`
pub record AttemptStrategy : Type 0 where
  pub total : ℕ
  pub delay : ℕ
  pub min : ℕ

-- `Attempt`; `end` is `finish`.
pub record Attempt : Type 0 where
  pub strategy : AttemptStrategy
  pub last : ℕ
  pub finish : ℕ
  pub force : Bool
  pub count : ℕ

-- `time.Now` and `time.Sleep`
pub record Clock (W : Type 0) : Type 0 where
  pub now : W → ℕ × W
  pub sleep : ℕ → W → W

-- `nextSleep`: the delay less the time since the last attempt, and zero where that is negative.
unfoldable pub next_sleep : Attempt → ℕ → ℕ
next_sleep a now = (a.strategy.delay + a.last) - now

module _ {W : Type 0} (clock : Clock W) where
  -- `Start`
  unfoldable pub start : AttemptStrategy → W → Attempt × W
  start s w =
      let (now, w1) = clock.now w in
      (record { strategy = s; last = now; finish = now + s.total; force = true; count = 0 }, w1)

  -- The part of `Next` that makes the attempt.
  unfoldable pub go_ahead : Attempt → ℕ → ℕ → W → Bool × Attempt × W
  go_ahead a now sleep w =
      if ltb 0 sleep && ltb 0 a.count
      then (let (later, w') = clock.now (clock.sleep sleep w) in
          (true, record a { force = false; count = suc a.count; last = later }, w'))
      else (true, record a { force = false; count = suc a.count; last = now }, w)

  -- `Next`
  unfoldable pub next : Attempt → W → Bool × Attempt × W
  unfolding next_sleep go_ahead
  next a w =
      let (now, w1) = clock.now w in
      let sleep = next_sleep a now in
      if not a.force && not (ltb (now + sleep) a.finish) && leb a.strategy.min a.count
      then (false, a, w1)
      else go_ahead a now sleep w1

  -- `HasNext`
  unfoldable pub has_next : Attempt → W → Bool × Attempt × W
  unfolding next_sleep
  has_next a w =
      if a.force || ltb a.count a.strategy.min
      then (true, a, w)
      else (let (now, w1) = clock.now w in
          if ltb (now + next_sleep a now) a.finish
          then (true, record a { force = true }, w1)
          else (false, a, w1))
