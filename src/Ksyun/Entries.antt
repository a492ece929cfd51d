-- ===== src/Ksyun/Entries.antt =====
-- The entries of the service as the routes of pkg/ksyun/ksyun.go: what is found, listed, added and
-- removed agrees on both sides.
use mathlib.Core.Option.{none-ne-some}
use vpc_route_controller.Common.{
  String, true, none, some, List, [], ◌∷◌, ◌++◌, map, ◌≡◌, refl, sym, subst, ap, ◌∙◌, ◌==◌, eq_refl,
  eq_iff, Bool-cases, inl, inr, arith,
}
use vpc_route_controller.Route.State.{Route}
use vpc_route_controller.Route.Calls.{cached_route}
use vpc_route_controller.Route.Table.{default_network, specific, without_first}
use vpc_route_controller.Ksyun.Types.{RouteSetType}
use vpc_route_controller.Ksyun.Routes.{to_route, listed, first_route}
use vpc_route_controller.Ksyun.Vpc.{find_entry, entries_of, without_entry, Identified}

abbrev pub routes_of : List RouteSetType → List Route
routes_of entries = map to_route entries

-- The loop of `ListRoutes` makes the routes that go to one network.
pub listed-specific : (es : List RouteSetType) → listed es ≡ specific (routes_of es)
unfolding listed specific
listed-specific [] = refl
listed-specific (e ∷ es) = elim (Bool-cases (e.destination_cidr == default_network)) [
  | inl all ↦ rw all (listed-specific es)
  | inr one ↦ rw one (ap (λ rs. to_route e ∷ rs) (listed-specific es))
]

-- The first of the entries of a network is the route that the table has of it.
pub first_route-entries_of :
    (cidr : String) (es : List RouteSetType)
    → first_route (entries_of cidr es) ≡ cached_route cidr (routes_of es)
unfolding entries_of cached_route
first_route-entries_of cidr [] = refl
first_route-entries_of cidr (e ∷ es) = elim (Bool-cases (e.destination_cidr == cidr)) [
  | inl hit ↦ rw hit refl
  | inr miss ↦ rw miss (first_route-entries_of cidr es)
]

pub find_entry-append :
    (es : List RouteSetType) (e : RouteSetType)
    → find_entry e.route_id es ≡ none
    → find_entry e.route_id (es ++ e ∷ []) ≡ some e
unfolding find_entry
find_entry-append [] e new = rw (eq_refl e.route_id) refl
find_entry-append (x ∷ es) e new = elim (Bool-cases (x.route_id == e.route_id)) [
  | inl hit ↦ absurd (none-ne-some x (sym new ∙ rw hit refl))
  | inr miss ↦ rw miss (find_entry-append es e (rw miss at new))
]

-- The entry of a network that comes first is found by its id, and to remove it by its id removes the
-- first route of the network.
pub first_entry :
    (cidr : String) (es : List RouteSetType) (e : RouteSetType) (others : List RouteSetType)
    → Identified es
    → entries_of cidr es ≡ e ∷ others
    → (find_entry e.route_id es ≡ some e)
      × (routes_of (without_entry e.route_id es) ≡ without_first cidr (routes_of es))
      × (e.destination_cidr == cidr ≡ true)
unfolding entries_of find_entry without_entry without_first Identified
first_entry cidr [] e others identified first = ground (arith, first)
first_entry cidr (x ∷ es) e others (own, identified) first =
    elim (Bool-cases (x.destination_cidr == cidr)) [
      | inl hit ↦
          let same : x ≡ e = grind (arith, rw hit at first) in
          subst
            (λ y.
              (find_entry y.route_id (x ∷ es) ≡ some y)
              × (routes_of (without_entry y.route_id (x ∷ es))
                  ≡ without_first cidr (routes_of (x ∷ es)))
              × (y.destination_cidr == cidr ≡ true))
            same (rw (eq_refl x.route_id) (refl, rw hit refl, hit))
      | inr miss ↦
          let (found, removed, same) = first_entry cidr es e others identified (rw miss at first) in
          elim (Bool-cases (x.route_id == e.route_id)) [
            | inl one ↦
                let one_network =
                  own e
                    (ap (λ id. find_entry id es) ((eq_iff x.route_id e.route_id).0 one) ∙ found) in
                absurd (ground (arith, rw one_network at same, miss))
            | inr other ↦ rw other (found, rw miss (ap (λ rs. to_route x ∷ rs) removed), same)
          ]
    ]

pub without_first-none :
    (cidr : String) (t : List Route) → cached_route cidr t ≡ none → without_first cidr t ≡ t
unfolding cached_route without_first
without_first-none cidr [] e = refl
without_first-none cidr (x ∷ t) e = elim (Bool-cases (x.destination_cidr == cidr)) [
  | inl hit ↦ absurd (none-ne-some x (sym e ∙ rw hit refl))
  | inr miss ↦ rw miss (ap (λ rs. x ∷ rs) (without_first-none cidr t (rw miss at e)))
]

pub entries_of-none :
    (cidr : String) (es : List RouteSetType)
    → cached_route cidr (routes_of es) ≡ none
    → entries_of cidr es ≡ []
unfolding cached_route entries_of
entries_of-none cidr [] e = refl
entries_of-none cidr (x ∷ es) e = elim (Bool-cases (x.destination_cidr == cidr)) [
  | inl hit ↦ absurd (none-ne-some (to_route x) (sym e ∙ rw hit refl))
  | inr miss ↦ rw miss (entries_of-none cidr es (rw miss at e))
]

pub entries_of-some :
    (cidr : String) (es : List RouteSetType) (route : Route)
    → cached_route cidr (routes_of es) ≡ some route
    → (e : RouteSetType) × (others : List RouteSetType) × (entries_of cidr es ≡ e ∷ others)
unfolding cached_route entries_of
entries_of-some cidr [] route e = absurd (none-ne-some route e)
entries_of-some cidr (x ∷ es) route e = elim (Bool-cases (x.destination_cidr == cidr)) [
  | inl hit ↦ (x, entries_of cidr es, rw hit refl)
  | inr miss ↦
      let (y, others, e') = entries_of-some cidr es route (rw miss at e) in (y, others, rw miss e')
]
