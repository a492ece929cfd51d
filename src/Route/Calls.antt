-- ===== src/Route/Calls.antt =====
-- The controller's calls of the cloud: `createRouteForInstance`, `deleteRouteForInstance` and
-- `findRoute` of pkg/controller/route/manager.go. `routeLock` is held over the first two; a run of
-- the model is one such sequence of calls.
use vpc_route_controller.Common.{
  ℕ, String, Bool, true, false, Option, none, some, List, [], ◌∷◌, ◌==◌, if◌then◌else◌, concat,
  contains, Action, Outcome, done, panicked, Result, ok, err, Error, plain, message, pure, ◌>>=◌,
  ◌>>◌,
}
use vpc_route_controller.Route.State.{Route, Deps, CreateLoop}

-- `createBackoff.Steps`
abbrev pub create_steps : ℕ
create_steps = 3

abbrev pub same_route : String
same_route = "same with a route"

module _ {W A : Type 0} where
  abbrev pub on_world : Action W A → Action (CreateLoop W) A
  on_world m s = let (a, w) = m s.world in (a, record s { world = w })

module _ {W : Type 0} where
  abbrev pub capture : Option Route → Action (CreateLoop W) (Unit {0})
  capture route s = (done tt, record s { route = route })

module _ {W : Type 0} (d : Deps W) where
  -- The closure of `createRouteForInstance`.
  unfoldable pub create_attempt : String → String → Action (CreateLoop W) (Result Bool)
  create_attempt instance_id cidr = do
    failure ← on_world (d.cloud.create_route instance_id cidr)
    elim failure [
      | none ↦ pure (ok true)
      | some e ↦
          if contains (message e) same_route
          then (do
            found ← on_world (d.cloud.find_route cidr)
            elim found [
              | err find_err ↦ capture none >> pure (err e)
              | ok none ↦ capture none >> pure (err e)
              | ok (some route) ↦ capture (some route) >> pure (ok true)
            ])
          else pure (ok false)
    ]

  -- `route, _ = ksyun.FindRoute(ctx, cidr)`
  unfoldable pub find_or_nil : String → Action W (Result (Option Route))
  find_or_nil cidr = do
    found ← d.cloud.find_route cidr
    elim found [ err e ↦ pure (ok none) | ok route ↦ pure (ok route) ]

  -- What `createRouteForInstance` does once the loop has ended.
  unfoldable pub after_create :
      String → String → Outcome (Option Error) × CreateLoop W → Outcome (Result (Option Route)) × W
  unfolding find_or_nil
  after_create instance_id cidr (panicked, s) = (panicked, s.world)
  after_create instance_id cidr (done (some e), s) = (
    done (
        err (
          plain
            (concat ("error create route for node " ∷ instance_id ∷ ", err: " ∷ message e ∷ [])))),
    s.world,
  )
  after_create instance_id cidr (done none, s) = elim s.route [
    | some route ↦ (done (ok (some route)), s.world)
    | none ↦ find_or_nil cidr s.world
  ]

  -- `createRouteForInstance`
  unfoldable pub create_route_for_instance : String → String → Action W (Result (Option Route))
  unfolding create_attempt after_create
  create_route_for_instance instance_id cidr w = after_create instance_id cidr (
      d.backoff create_steps (create_attempt instance_id cidr) (record { world = w; route = none }))

  -- `deleteRouteForInstance`
  unfoldable pub delete_route_for_instance : String → Action W (Option Error)
  delete_route_for_instance cidr = d.cloud.delete_route cidr

-- The search of `findRoute` among the cached routes.
unfoldable pub cached_route : String → List Route → Option Route
cached_route cidr [] = none
cached_route cidr (route ∷ routes) =
    if route.destination_cidr == cidr then some route else cached_route cidr routes

-- `findRoute`
unfoldable pub find_route :
    {W : Type 0} → Deps W → String → List Route → Action W (Result (Option Route))
unfolding cached_route
find_route d cidr cached_routes =
    if cidr == "" then pure (err (plain "empty query condition")) else elim cached_routes [
      | [] ↦ d.cloud.find_route cidr
      | route ∷ routes ↦ pure (ok (cached_route cidr (route ∷ routes)))
    ]
