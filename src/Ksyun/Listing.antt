-- ===== src/Ksyun/Listing.antt =====
-- What package ksyun makes of the routes of the VPC (pkg/ksyun/ksyun.go).
use vpc_route_controller.Common.{
  zero, suc, get_elem?, inl, inr, Bool-cases, ℕ, some, List, [], ◌∷◌, ◌≡◌, ◌≢◌, ◌==◌, eq_iff, All,
  arith,
}
use vpc_route_controller.Route.State.{Route}
use vpc_route_controller.Ksyun.Types.{RouteSetType}
use vpc_route_controller.Ksyun.Routes.{default_destination, to_route, listed}

abbrev pub Specific : Route → Type 0
Specific r = r.destination_cidr ≢ default_destination

-- An entry comes back as a route.
abbrev pub Listed : List Route → RouteSetType → Type 0
Listed routes r = (i : ℕ) × (get_elem? routes i ≡ some (to_route r))

abbrev Later : Route → List Route → RouteSetType → Type 0
Later a routes r = Listed routes r → Listed (a ∷ routes) r

later : (a : Route) (routes : List Route) (r : RouteSetType) → Later a routes r
later a routes r (i, e) = (suc i, e)

-- The loop of ListRoutes never returns the default route.
pub listed-Specific : (rs : List RouteSetType) → All Specific (listed rs)
unfolding listed
listed-Specific [] = tt
listed-Specific (r ∷ rs) = elim (Bool-cases (r.destination_cidr == default_destination)) [
  | inl y ↦ rw (y) (listed-Specific rs)
  | inr n ↦ rw (n) (
    (λ e. ground (arith, e, n, eq_iff r.destination_cidr default_destination)),
    listed-Specific rs,
  )
]

-- The loop of ListRoutes returns a route for every entry that is not the default route.
pub listed-Listed :
    (rs : List RouteSetType) (i : ℕ) (r : RouteSetType)
    → get_elem? rs i ≡ some r
    → r.destination_cidr ≢ default_destination
    → Listed (listed rs) r
unfolding listed
listed-Listed [] i r at ne = ground arith
listed-Listed (a ∷ rs) zero r at ne =
    elim (Bool-cases (a.destination_cidr == default_destination)) [
      | inl y ↦ grind (arith, y, at, ne, eq_iff a.destination_cidr default_destination)
      | inr n ↦ rw (n) (zero, grind (arith, at))
    ]
listed-Listed (a ∷ rs) (suc i) r at ne =
    elim (Bool-cases (a.destination_cidr == default_destination)) [
      | inl y ↦ rw (y) (listed-Listed rs i r at ne)
      | inr n ↦ rw (n) (later (to_route a) (listed rs) r (listed-Listed rs i r at ne))
    ]
