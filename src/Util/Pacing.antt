-- ===== src/Util/Pacing.antt =====
-- How often `Next` of pkg/util/attempt.go lets the caller try.
use native.Mathlib.Nat.{mul-suc}
use vpc_route_controller.Common.{
  ℕ, zero, suc, ◌+◌, ◌*◌, ◌≤◌, ◌<◌, true, false, not, ◌&&◌, ◌||◌, ltb, leb, ◌≡◌, refl, ap, ◌⊎◌, inl,
  inr, arith, Bool-cases,
}
use vpc_route_controller.Util.Attempt.{
  AttemptStrategy, Attempt, Clock, next_sleep, start, go_ahead, next, has_next,
}

module _ {W : Type 0} (clock : Clock W) where
  -- When HasNext answers true, the following Next answers true, whatever the clock says by then.
  pub has_next-next :
      (a : Attempt) (w v : W)
      → (has_next clock a w).0 ≡ true
      → (next clock ((has_next clock a w).1) v).0 ≡ true
  unfolding has_next next go_ahead
  has_next-next a w v said = ground (arith)

-- A clock that does not go back, and a sleep that takes its time; `reading` is the time.
pub record Ticks {W : Type 0} (clock : Clock W) : Type 0 where
  pub reading : W → ℕ
  pub reads : (w : W) → reading w ≤ (clock.now w).0
  pub moves : (w : W) → (clock.now w).0 ≤ reading (clock.now w).1
  pub sleeps : (s : ℕ) (w : W) → reading w + s ≤ reading (clock.sleep s w)

-- The pauses between so many attempts.
abbrev pub pauses : ℕ → ℕ
pauses zero = 0
pauses (suc n) = n

one_more : (d k : ℕ) → d * pauses (suc (suc k)) ≡ d * pauses (suc k) + d
one_more d k = mul-suc d k

module _ {W : Type 0} (clock : Clock W) (s : AttemptStrategy) (ticks : Ticks clock) where
  -- What the caller can do with an attempt, in any order; the number counts the answers true of Next.
  pub data Reached : ℕ → Attempt → W → Type 0 where
    started : (w : W) → Reached 0 ((start clock s w).0) ((start clock s w).1)
    waited :
        {n : ℕ} {a : Attempt} {w : W} (v : W)
        → Reached n a w
        → ticks.reading w ≤ ticks.reading v
        → Reached n a v
    tried :
        {n : ℕ} {a : Attempt} {w : W}
        → Reached n a w
        → (next clock a w).0 ≡ true
        → Reached (suc n) (next clock a w).1 (next clock a w).2
    asked :
        {n : ℕ} {a : Attempt} {w : W}
        → Reached n a w
        → Reached n (has_next clock a w).1 (has_next clock a w).2

  -- So many attempts fit: one, or as many as the minimum, or as many as the pauses between them leave
  -- time for.
  abbrev pub Fits : ℕ → Type 0
  Fits n = (n ≤ 1) ⊎ ((n ≤ s.min) ⊎ (s.delay * pauses n < s.total))

  -- What force says: no attempt was made, or the next one comes before the end.
  abbrev Forced : ℕ → Attempt → Type 0
  Forced n a = (a.force ≡ true) → (n ≡ 0) ⊎ (a.last + s.delay < a.finish)

  -- The invariant, with the time of the start.
  record Paced (n : ℕ) (a : Attempt) (w : W) : Type 0 where
    t0 : ℕ
    same : a.strategy ≡ s
    counted : a.count ≡ n
    ends : a.finish ≡ t0 + s.total
    past : a.last ≤ ticks.reading w
    apart : t0 + s.delay * pauses n ≤ a.last
    forced : Forced n a
    fits : Fits n

  start-Paced : (w : W) → Paced 0 ((start clock s w).0) ((start clock s w).1)
  unfolding start
  start-Paced w = record {
    t0 = (clock.now w).0;
    same = refl;
    counted = refl;
    ends = refl;
    past = ticks.moves w;
    apart = omega arith;
    forced = λ f. inl refl;
    fits = inl (omega arith);
  }

  waited-Paced :
      (n : ℕ) (a : Attempt) (w v : W)
      → ticks.reading w ≤ ticks.reading v
      → Paced n a w
      → Paced n a v
  waited-Paced n a w v later p = record {
    t0 = p.t0;
    same = p.same;
    counted = p.counted;
    ends = p.ends;
    past = omega (arith, p.past, later);
    apart = p.apart;
    forced = p.forced;
    fits = p.fits;
  }

  -- The room for one more attempt.
  abbrev Room : ℕ → Attempt → Type 0
  Room n a = (n ≡ 0) ⊎ ((n < s.min) ⊎ (a.last + s.delay < a.finish))

  more-Fits : (n : ℕ) (a : Attempt) (w : W) → Paced n a w → Room n a → Fits (suc n)
  more-Fits zero a w p room = inl (omega arith)
  more-Fits (suc k) a w p (inl never) = absurd (omega (arith, never))
  more-Fits (suc k) a w p (inr (inl few)) = inr (inl (omega (arith, few)))
  more-Fits (suc k) a w p (inr (inr soon)) =
      inr (inr (omega (arith, soon, p.apart, p.ends, one_more s.delay k)))

  -- Waiting before the attempt goes past the delay.
  soon_enough :
      (n : ℕ) (a : Attempt) (w : W) (now : ℕ)
      → Paced n a w
      → ltb (now + next_sleep a now) a.finish ≡ true
      → a.last + s.delay < a.finish
  unfolding next_sleep
  soon_enough n a w now p e = ground (arith, ap (λ (x : AttemptStrategy). x.delay) p.same)

  asked-Paced :
      (n : ℕ) (a : Attempt) (w : W)
      → Paced n a w
      → Paced n (has_next clock a w).1 (has_next clock a w).2
  unfolding has_next
  asked-Paced n a w p = elim (Bool-cases (a.force || ltb a.count a.strategy.min)) [
    | inl sure ↦ rw (sure, has_next) p
    | inr unsure ↦
        let now = (clock.now w).0 in
        let read : Paced n a (clock.now w).1 =
          waited-Paced n a w (clock.now w).1 (omega (arith, ticks.reads w, ticks.moves w)) p in
        elim (Bool-cases (ltb (now + next_sleep a now) a.finish)) [
          | inr late ↦ rw (unsure, has_next) (rw late read)
          | inl early ↦
              rw (unsure, has_next)
                (rw early (record {
                  t0 = p.t0;
                  same = p.same;
                  counted = p.counted;
                  ends = p.ends;
                  past = read.past;
                  apart = p.apart;
                  forced = λ f. inr (soon_enough n a w now p early);
                  fits = p.fits;
                }))
        ]
  ]

  -- Whether Next tries again: the test that it makes, and what the attempt is then.
  tried-Room : (n : ℕ) (a : Attempt) (w : W) → Paced n a w → (next clock a w).0 ≡ true → Room n a
  unfolding next
  tried-Room n a w p said =
      let now = (clock.now w).0 in
      elim (Bool-cases a.force) [
        | inl sure ↦ elim (p.forced sure) [ inl z ↦ inl z | inr soon ↦ inr (inr soon) ]
        | inr unsure ↦ elim (Bool-cases (ltb (now + next_sleep a now) a.finish)) [
          | inl early ↦ inr (inr (soon_enough n a w now p early))
          | inr late ↦ elim (Bool-cases (leb a.strategy.min a.count)) [
            | inl enough ↦ absurd (ground (arith, rw (unsure, next) at said, late, enough))
            | inr few ↦
                inr
                  (inl (ground (arith, few, p.counted, ap (λ (x : AttemptStrategy). x.min) p.same)))
          ]
        ]
      ]

  spread :
      (n : ℕ) (a : Attempt) (w : W) (made : ℕ) (p : Paced n a w)
      → (n ≡ 0) ⊎ (a.last + s.delay ≤ made)
      → a.last ≤ made
      → p.t0 + s.delay * pauses (suc n) ≤ made
  spread zero a w made p gap later = omega (arith, p.apart, later)
  spread (suc k) a w made p (inl never) later = absurd (omega (arith, never))
  spread (suc k) a w made p (inr gap) later = omega (arith, p.apart, gap, one_more s.delay k)

  -- The state after an attempt, made at that time.
  made-Paced :
      (n : ℕ) (a : Attempt) (w v : W) (made : ℕ)
      → Paced n a w
      → Room n a
      → made ≤ ticks.reading v
      → (n ≡ 0) ⊎ (a.last + s.delay ≤ made)
      → a.last ≤ made
      → Paced (suc n) (record a { force = false; count = suc a.count; last = made }) v
  made-Paced n a w v made p room before gap later = record {
    t0 = p.t0;
    same = p.same;
    counted = ap suc p.counted;
    ends = p.ends;
    past = before;
    apart = spread n a w made p gap later;
    forced = λ f. absurd (ground (arith, f));
    fits = more-Fits n a w p room;
  }

  goes_ahead :
      (a : Attempt) (w : W)
      → (next clock a w).0 ≡ true
      → next clock a w
        ≡ go_ahead clock a (clock.now w).0 (next_sleep a (clock.now w).0) (clock.now w).1
  unfolding next
  goes_ahead a w said =
      let now = (clock.now w).0 in
      elim (Bool-cases (
        not a.force && not (ltb (now + next_sleep a now) a.finish) && leb a.strategy.min a.count)) [
          | inl stop ↦ absurd (ground (arith, rw (stop, next) at said))
          | inr go ↦ rw (go, next) refl
        ]

  tried-Paced :
      (n : ℕ) (a : Attempt) (w : W)
      → Paced n a w
      → (next clock a w).0 ≡ true
      → Paced (suc n) (next clock a w).1 (next clock a w).2
  unfolding go_ahead next_sleep
  tried-Paced n a w p said =
      let (now, w1) = clock.now w in
      let sleep = next_sleep a now in
      let w2 = clock.sleep sleep w1 in
      let room = tried-Room n a w p said in
      let delays = ap (λ (x : AttemptStrategy). x.delay) p.same in
      elim (Bool-cases (ltb 0 sleep && ltb 0 a.count)) [
        | inl slept ↦
            rw (goes_ahead a w said, go_ahead)
              (rw slept (
                made-Paced n a w _ _ p room (ticks.moves w2)
                  (inr
                    (omega (arith, ticks.reads w2, ticks.sleeps sleep w1, ticks.moves w, delays)))
                  (omega (
                    arith,
                    p.past,
                    ticks.reads w,
                    ticks.moves w,
                    ticks.reads w2,
                    ticks.sleeps sleep w1,
                  ))))
        | inr at_once ↦
            rw (goes_ahead a w said, go_ahead)
              (rw at_once (
                made-Paced n a w _ _ p room (ticks.moves w)
                  (ground (arith, at_once, delays, p.counted))
                  (omega (arith, p.past, ticks.reads w))))
      ]

  Reached-Paced : (n : ℕ) (a : Attempt) (w : W) → Reached n a w → Paced n a w
  Reached-Paced _ _ _ (started w) = start-Paced w
  Reached-Paced _ _ _ (waited v r later) = waited-Paced _ _ _ v later (Reached-Paced _ _ _ r)
  Reached-Paced _ _ _ (tried r said) = tried-Paced _ _ _ (Reached-Paced _ _ _ r) said
  Reached-Paced _ _ _ (asked r) = asked-Paced _ _ _ (Reached-Paced _ _ _ r)

  -- However a caller mixes Next and HasNext and waits in between, where the clock does not go back
  -- and a sleep takes its time: Next has answered true at most once, or at most Min times, or so
  -- often that the pauses of Delay between these answers fit into Total.
  pub attempts_fit : (n : ℕ) (a : Attempt) (w : W) → Reached n a w → Fits n
  attempts_fit n a w r = (Reached-Paced n a w r).fits
