-- ===== src/Queue/Closing.antt =====
-- How the workers that `Run` starts close `workerDone` (pkg/controller/helper/queue.go): each asks whether
-- the channel is closed and then closes it, which are two steps, and the workers take turns in any order.
use vpc_route_controller.Common.{
  ℕ, zero, suc, Bool, true, false, none, some, List, [], ◌∷◌, ◌≡◌, ◌≢◌, refl, get_elem?, set,
}

-- Where a worker is that was told to quit: before `isClosed`, between that and `close`, and returned. To
-- close a closed channel panics.
pub data Phase : Type 0 where
  quitting seen_open returned crashed : Phase

-- A step of a worker, on whether the channel is closed; `wait.Until` calls a worker again that returned.
unfoldable pub quit_step : Bool → Phase → Bool × Phase
quit_step false quitting = (false, seen_open)
quit_step true quitting = (true, returned)
quit_step false seen_open = (true, returned)
quit_step true seen_open = (true, crashed)
quit_step closed returned = (closed, quitting)
quit_step closed crashed = (closed, crashed)

-- The worker of that number takes a step.
unfoldable pub take_turn : ℕ → Bool × List Phase → Bool × List Phase
unfolding quit_step
take_turn i (closed, workers) = elim (get_elem? workers i) [
  | none ↦ (closed, workers)
  | some phase ↦ let (closed', phase') = quit_step closed phase in (closed', set workers i phase')
]

-- The workers take turns in that order.
unfoldable pub take_turns : List ℕ → Bool × List Phase → Bool × List Phase
unfolding take_turn
take_turns [] s = s
take_turns (i ∷ order) s = take_turns order (take_turn i s)

-- What holds of one worker: it is not about to close a closed channel.
data Calm : Bool × List Phase → Type 0 where
  asking : (closed : Bool) → Calm (closed, quitting ∷ [])
  closing : Calm (false, seen_open ∷ [])
  back : (closed : Bool) → Calm (closed, returned ∷ [])

turn-Calm : (i : ℕ) (s : Bool × List Phase) → Calm s → Calm (take_turn i s)
unfolding take_turn quit_step
turn-Calm zero _ (asking false) = closing
turn-Calm zero _ (asking true) = back true
turn-Calm zero _ closing = back true
turn-Calm zero _ (back closed) = asking closed
turn-Calm (suc i) _ (asking closed) = asking closed
turn-Calm (suc i) _ closing = closing
turn-Calm (suc i) _ (back closed) = back closed

turns-Calm : (order : List ℕ) (s : Bool × List Phase) → Calm s → Calm (take_turns order s)
unfolding take_turns
turns-Calm [] s calm = calm
turns-Calm (i ∷ order) s calm = turns-Calm order (take_turn i s) (turn-Calm i s calm)

Calm-unharmed : (s : Bool × List Phase) → Calm s → get_elem? s.1 0 ≢ some crashed
Calm-unharmed _ (asking closed) e = cc
Calm-unharmed _ closing e = cc
Calm-unharmed _ (back closed) e = cc

-- In every order of turns, a worker that is alone never closes a closed channel, however often it
-- is called again.
pub one_worker_safe :
    (order : List ℕ) → get_elem? (take_turns order (false, quitting ∷ [])).1 0 ≢ some crashed
one_worker_safe order = Calm-unharmed _ (turns-Calm order _ (asking false))

-- As soon as there are two workers, there is an order of turns in which both find the channel
-- open, and the second one panics when it closes it.
pub two_workers_crash :
    (workers : List Phase)
    → (order : List ℕ) × (take_turns order (false, quitting ∷ quitting ∷ workers)
        ≡ (true, returned ∷ crashed ∷ workers))
unfolding take_turns take_turn quit_step
two_workers_crash workers = (0 ∷ 1 ∷ 0 ∷ 1 ∷ [], refl)
