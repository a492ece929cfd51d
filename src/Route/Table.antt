-- ===== src/Route/Table.antt =====
-- What the controller relies on in the cloud, as a table of routes, and what it relies on in the API
-- server: that its calls leave the table alone.
use mathlib.Core.Option.{none-ne-some}
use vpc_route_controller.Common.{
  String, true, Option, none, some, List, [], ◌∷◌, ◌++◌, ◌≡◌, refl, sym, ◌∙◌, ◌==◌, eq_refl, eq_iff,
  if◌then◌else◌, contains, Action, done, ok, Error, message, pure, ◌>>=◌, Bool-cases, inl, inr, ap,
  arith,
}
use vpc_route_controller.Kube.{Node, KubeClient}
use vpc_route_controller.Route.State.{Route, Cloud}
use vpc_route_controller.Route.Calls.{cached_route, same_route}

-- Removes the first route of a network.
unfoldable pub without_first : String → List Route → List Route
without_first cidr [] = []
without_first cidr (route ∷ routes) =
    if route.destination_cidr == cidr then routes else route ∷ without_first cidr routes

abbrev pub default_network : String
default_network = "0.0.0.0/0"

-- The routes that go to one network.
unfoldable pub specific : List Route → List Route
specific [] = []
specific (route ∷ routes) =
    let rest = specific routes in
    if route.destination_cidr == default_network then rest else route ∷ rest

-- A cloud that keeps a table of routes: it lists those to one network, adds a route of a
-- new network at the end, refuses one of a network that is there, and finds and deletes what is there.
pub record KeepsTable {W : Type 0} (cloud : Cloud W) (table : W → List Route) : Type 0 where
  pub lists :
      (w : W)
      → (v : W) × (cloud.list_routes w ≡ (done (ok (specific (table w))), v)) × (table v ≡ table w)
  pub finds :
      (cidr : String) (w : W)
      → (v : W) × (cloud.find_route cidr w ≡ (done (ok (cached_route cidr (table w))), v))
        × (table v ≡ table w)
  pub adds :
      (id cidr : String) (w : W)
      → cached_route cidr (table w) ≡ none
      → (v : W) × (route : Route) × (cloud.create_route id cidr w ≡ (done none, v))
        × (table v ≡ table w ++ route ∷ [])
        × (route.destination_cidr ≡ cidr)
        × (route.instance_id ≡ id)
  pub refuses :
      (id cidr : String) (w : W) (route : Route)
      → cached_route cidr (table w) ≡ some route
      → (v : W) × (e : Error) × (cloud.create_route id cidr w ≡ (done (some e), v))
        × (contains (message e) same_route ≡ true)
        × (table v ≡ table w)
  pub deletes :
      (cidr : String) (w : W)
      → (v : W) × (cloud.delete_route cidr w ≡ (done none, v))
        × (table v ≡ without_first cidr (table w))

-- A call that returns, and leaves the table alone.
abbrev pub Leaves : {W A : Type 0} → (W → List Route) → Action W A → Type 0
Leaves {W} {A} table m = (w : W) → (a : A) × (v : W) × (m w ≡ (done a, v)) × (table v ≡ table w)

-- An API server that answers, and whose calls leave the table alone.
pub record LeavesTable {W : Type 0} (kube : KubeClient W) (table : W → List Route) : Type 0 where
  pub get_node : (name : String) → Leaves table (kube.get_node name)
  pub list_nodes : Leaves table kube.list_nodes
  pub patch : (node : Node) (bytes : String) → Leaves table (kube.patch node bytes)
  pub status_patch : (node : Node) (bytes : String) → Leaves table (kube.status_patch node bytes)
  pub now : Leaves table kube.now

pub Leaves-pure : {W A : Type 0} (table : W → List Route) (a : A) → Leaves table (pure a)
Leaves-pure table a w = (a, w, refl, refl)

pub Leaves-bind :
    {W A B : Type 0} (table : W → List Route) (m : Action W A) (f : A → Action W B)
    → Leaves table m
    → ((a : A) → Leaves table (f a))
    → Leaves table (m >>= f)
Leaves-bind table m f lm lf w =
    let (a, v, e, t) = lm w in let (c, u, e', t') = lf a v in (c, u, rw e e', t' ∙ t)

-- Every route that is found in a table is found in another.
abbrev pub Grows : List Route → List Route → Type 0
Grows t t' =
    (cidr : String) (route : Route)
    → cached_route cidr t ≡ some route
    → cached_route cidr t' ≡ some route

pub cached_route-append :
    (cidr : String) (t : List Route) (route : Route)
    → cached_route cidr (t ++ route ∷ []) ≡ elim (cached_route cidr t) as (λ _. Option Route) [
      | some r ↦ some r
      | none ↦ if route.destination_cidr == cidr then some route else none
    ]
unfolding cached_route
cached_route-append cidr [] route = ground arith
cached_route-append cidr (x ∷ t) route = elim (Bool-cases (x.destination_cidr == cidr)) [
  | inl hit ↦ rw hit refl
  | inr miss ↦ rw miss (cached_route-append cidr t route)
]

cached_route-specific : (t : List Route) → cached_route default_network (specific t) ≡ none
unfolding specific cached_route
cached_route-specific [] = refl
cached_route-specific (x ∷ t) = elim (Bool-cases (x.destination_cidr == default_network)) [
  | inl all ↦ rw all (cached_route-specific t)
  | inr one ↦ rw one (rw one (cached_route-specific t))
]

-- A route that is found among those to one network is found in the whole table.
pub Grows-specific : (t : List Route) → Grows (specific t) t
unfolding specific cached_route
Grows-specific [] cidr route e = e
Grows-specific (x ∷ t) cidr route e = elim (Bool-cases (x.destination_cidr == default_network)) [
  | inl all ↦ elim (Bool-cases (x.destination_cidr == cidr)) [
    | inl hit ↦
        let same : cidr ≡ default_network =
          sym ((eq_iff x.destination_cidr cidr).0 hit)
          ∙ (eq_iff x.destination_cidr default_network).0 all in
        let e' : cached_route default_network (specific t) ≡ some route = rw (all, same) at e in
        absurd (none-ne-some route (sym (cached_route-specific t) ∙ e'))
    | inr miss ↦ rw miss (Grows-specific t cidr route (rw all at e))
  ]
  | inr one ↦ elim (Bool-cases (x.destination_cidr == cidr)) [
    | inl hit ↦ rw hit (rw (one, hit) at e)
    | inr miss ↦ rw miss (Grows-specific t cidr route (rw (one, miss) at e))
  ]
]

pub Grows-append : (t : List Route) (route : Route) → Grows t (t ++ route ∷ [])
Grows-append t route cidr r e = cached_route-append cidr t route ∙ rw e refl

-- The appended route is found, where no other of its network was.
pub cached_route-append_new :
    (cidr : String) (t : List Route) (route : Route)
    → cached_route cidr t ≡ none
    → route.destination_cidr ≡ cidr
    → cached_route cidr (t ++ route ∷ []) ≡ some route
cached_route-append_new cidr t route e same =
    cached_route-append cidr t route ∙ rw e (rw (same, eq_refl cidr) refl)

-- A call that leaves the table alone does so where its result is known.
pub Leaves-table :
    {W A : Type 0} (table : W → List Route) (m : Action W A) (a : A) (w v : W)
    → Leaves table m
    → m w ≡ (done a, v)
    → table v ≡ table w
Leaves-table table m a w v leaves e =
    let (x, u, returned, t) = leaves w in ap (λ out. table out.1) (sym e ∙ returned) ∙ t
