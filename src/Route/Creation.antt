-- ===== src/Route/Creation.antt =====
-- How a route is made: `createRouteForInstance` against a relation that lists the ways in which a
-- creation can go.
use vpc_route_controller.Common.{
  ℕ, zero, suc, String, true, false, Option, none, some, [], ◌∷◌, ◌≡◌, contains, concat, Outcome,
  done, Result, ok, err, Error, plain, message, ap, Returns, inl, inr, Bool-cases,
}
use vpc_route_controller.Route.State.{Route, Deps, IsBackoff, next_step}
use vpc_route_controller.Route.Calls.{
  create_attempt, after_create, find_or_nil, create_route_for_instance, create_steps, same_route,
}

-- The error that `createRouteForInstance` makes of the one that ended its loop.
abbrev pub creation_failed : String → Error → Error
creation_failed instance_id e =
    plain (concat ("error create route for node " ∷ instance_id ∷ ", err: " ∷ message e ∷ []))

module _ {W : Type 0} (d : Deps W) (b : IsBackoff d.backoff) (instance_id cidr : String) where
  -- `Creates n w r v`: from `w`, with at most `n` calls of CreateRoute, the creation ends in `v` with
  -- the answer `r`.
  pub data Creates : ℕ → W → Result (Option Route) → W → Type 0 where
    -- CreateRoute succeeds, and one look-up follows, whose error is dropped.
    made :
        {n : ℕ} {w w1 v : W} {r : Option Route}
        → d.cloud.create_route instance_id cidr w ≡ (done none, w1)
        → find_or_nil d cidr w1 ≡ (done (ok r), v)
        → Creates (suc n) w (ok r) v
    -- The cloud has a route of that network already, and it is found.
    existing :
        {n : ℕ} {w w1 v : W} {e : Error} {r : Route}
        → d.cloud.create_route instance_id cidr w ≡ (done (some e), w1)
        → contains (message e) same_route ≡ true
        → d.cloud.find_route cidr w1 ≡ (done (ok (some r)), v)
        → Creates (suc n) w (ok (some r)) v
    -- The cloud says so, and it is not found: there is no further try.
    hidden :
        {n : ℕ} {w w1 v : W} {e : Error}
        → d.cloud.create_route instance_id cidr w ≡ (done (some e), w1)
        → contains (message e) same_route ≡ true
        → d.cloud.find_route cidr w1 ≡ (done (ok none), v)
        → Creates (suc n) w (err (creation_failed instance_id e)) v
    -- The same, where the look-up fails.
    unknown :
        {n : ℕ} {w w1 v : W} {e find_err : Error}
        → d.cloud.create_route instance_id cidr w ≡ (done (some e), w1)
        → contains (message e) same_route ≡ true
        → d.cloud.find_route cidr w1 ≡ (done (err find_err), v)
        → Creates (suc n) w (err (creation_failed instance_id e)) v
    -- The last try fails for another reason.
    exhausted :
        {w v : W} {e : Error}
        → d.cloud.create_route instance_id cidr w ≡ (done (some e), v)
        → contains (message e) same_route ≡ false
        → Creates 1 w (err (creation_failed instance_id b.timed_out)) v
    -- Another try fails for another reason: sleep, and go on.
    again :
        {n : ℕ} {w w1 v : W} {e : Error} {r : Result (Option Route)}
        → d.cloud.create_route instance_id cidr w ≡ (done (some e), w1)
        → contains (message e) same_route ≡ false
        → Creates (suc n) (b.pause w1) r v
        → Creates (suc (suc n)) w r v

  -- The creation from a loop with that many steps left.
  abbrev run : ℕ → W → Outcome (Result (Option Route)) × W
  run n w =
      after_create d instance_id cidr
        (d.backoff n (create_attempt d instance_id cidr) (record { world = w; route = none }))

  run_step :
      (n : ℕ) (w : W)
      → run (suc n) w
        ≡ after_create d instance_id cidr (
            next_step b.timed_out b.pause
              (d.backoff n (create_attempt d instance_id cidr))
              n
              (create_attempt d instance_id cidr (record { world = w; route = none })))
  run_step n w =
      ap (after_create d instance_id cidr)
        (b.attempt n (create_attempt d instance_id cidr) (record { world = w; route = none }))

  Creates-run :
      {n : ℕ} {w v : W} {r : Result (Option Route)} → Creates n w r v → run n w ≡ (done r, v)
  unfolding create_attempt after_create
  Creates-run (made {n} {w} c f) = rw (run_step n w, create_attempt, c) f
  Creates-run (existing {n} {w} c s f) = rw (run_step n w, create_attempt, c) (rw s (rw f))
  Creates-run (hidden {n} {w} c s f) = rw (run_step n w, create_attempt, c) (rw s (rw f))
  Creates-run (unknown {n} {w} c s f) = rw (run_step n w, create_attempt, c) (rw s (rw f))
  Creates-run (exhausted {w} c s) = rw (run_step zero w, create_attempt, c) (rw s)
  Creates-run (again {n} {w} c s rest) =
      rw (run_step (suc n) w, create_attempt, c) (rw s (Creates-run rest))

  -- Whatever the relation Creates allows with three calls of CreateRoute (the cloud accepts; it
  -- has the same route, which is then found, not found or cannot be looked up; it fails for
  -- another reason, which is tried again until the steps are used up) is what
  -- createRouteForInstance answers and where it leaves the cloud, for any backoff that behaves as
  -- ExponentialBackoff documents.
  pub create_route_for_instance-Creates :
      {w v : W} {r : Result (Option Route)}
      → Creates create_steps w r v
      → create_route_for_instance d instance_id cidr w ≡ (done r, v)
  unfolding create_route_for_instance
  create_route_for_instance-Creates c = Creates-run c

  module _ (creates : Returns (d.cloud.create_route instance_id cidr))
      (finds : Returns (d.cloud.find_route cidr)) where
    -- Some way to go from `w` with so many calls.
    abbrev Goes : ℕ → W → Type 0
    Goes n w = (r : Result (Option Route)) × (v : W) × Creates n w r v

    found_or_nil :
        (w : W)
        → (a : Result (Option Route)) × (v : W) × (d.cloud.find_route cidr w ≡ (done a, v))
        → (r : Option Route) × (v : W) × (find_or_nil d cidr w ≡ (done (ok r), v))
    unfolding find_or_nil
    found_or_nil w (ok r, v, e) = (r, v, rw (e, find_or_nil))
    found_or_nil w (err x, v, e) = (none, v, rw (e, find_or_nil))

    same_route-Goes :
        (n : ℕ) (w w1 : W) (e : Error)
        → d.cloud.create_route instance_id cidr w ≡ (done (some e), w1)
        → contains (message e) same_route ≡ true
        → (a : Result (Option Route)) × (v : W) × (d.cloud.find_route cidr w1 ≡ (done a, v))
        → Goes (suc n) w
    same_route-Goes n w w1 e c s (ok none, v, f) = (_, v, hidden c s f)
    same_route-Goes n w w1 e c s (ok (some r), v, f) = (_, v, existing c s f)
    same_route-Goes n w w1 e c s (err x, v, f) = (_, v, unknown c s f)

    first-Goes :
        (n : ℕ) (w : W)
        → ((e : Error) (w1 : W)
            → d.cloud.create_route instance_id cidr w ≡ (done (some e), w1)
            → contains (message e) same_route ≡ false
            → Goes (suc n) w)
        → (a : Option Error) × (w1 : W) × (d.cloud.create_route instance_id cidr w ≡ (done a, w1))
        → Goes (suc n) w
    first-Goes n w later (none, w1, c) =
        let (r, v, f) = found_or_nil w1 (finds w1) in (ok r, v, made c f)
    first-Goes n w later (some e, w1, c) = elim (Bool-cases (contains (message e) same_route)) [
      | inl s ↦ same_route-Goes n w w1 e c s (finds w1)
      | inr s ↦ later e w1 c s
    ]

    Creates-total : (n : ℕ) (w : W) → Goes (suc n) w
    Creates-total zero w = first-Goes zero w (λ e w1 c s. (_, w1, exhausted c s)) (creates w)
    Creates-total (suc n) w =
        first-Goes (suc n) w
          (λ e w1 c s. let (r, v, rest) = Creates-total n (b.pause w1) in (r, v, again c s rest))
          (creates w)

    -- Where CreateRoute and FindRoute return, createRouteForInstance returns, in one of the ways
    -- that the relation Creates lists, with at most three calls of CreateRoute.
    pub create_route_for_instance-total :
        (w : W)
        → (r : Result (Option Route)) × (v : W) × Creates create_steps w r v
          × (create_route_for_instance d instance_id cidr w ≡ (done r, v))
    create_route_for_instance-total w =
        let (r, v, c) = Creates-total 2 w in (r, v, c, create_route_for_instance-Creates c)
