-- ===== src/Route/Deletion.antt =====
-- `Reconcile` of a node that is gone from the cluster.
use vpc_route_controller.Common.{
  String, true, none, ◌≡◌, refl, ◌==◌, if◌then◌else◌, lookup, lookup-remove, remove, done, err,
  Error, is_not_found, ℕ, zero, suc, some, Option, Action, pure, ◌>>=◌, ◌∙◌,
}
use vpc_route_controller.Route.State.{Route, ReconcileRoute, Deps, AggregateLaws}
use vpc_route_controller.Route.Calls.{delete_route_for_instance}
use vpc_route_controller.Route.Reconcile.{reconcile, reconcile_missing}

module _ {W : Type 0} (d : Deps W) (name : String) (r : ReconcileRoute W) where
  missing_step :
      (e : Error) (w : W)
      → r.config_routes ≡ true
      → d.kube.get_node name r.world ≡ (done (err e), w)
      → is_not_found e ≡ true
      → reconcile d name r ≡ reconcile_missing d name (record r { world = w })
  unfolding reconcile
  missing_step e w on gone nf = rw (on, reconcile) (rw gone (rw nf))

  -- When the sync of routes is on and the API server says that the node is gone, but the node is
  -- not in the cache, Reconcile answers no error after that one call: no route is looked for or
  -- deleted, and the cache and the events stay as they are.
  pub gone_unknown :
      (e : Error) (w : W)
      → r.config_routes ≡ true
      → d.kube.get_node name r.world ≡ (done (err e), w)
      → is_not_found e ≡ true
      → lookup name r.node_cache ≡ none
      → reconcile d name r ≡ (done none, record r { world = w })
  unfolding reconcile_missing
  gone_unknown e w on gone nf absent =
      rw (missing_step e w on gone nf) (rw (absent, reconcile_missing))

  module _ (laws : AggregateLaws d.libs) where
    gone_deletes_to :
        (e : Error) (w v : W) (route : Route)
        → r.config_routes ≡ true
        → d.kube.get_node name r.world ≡ (done (err e), w)
        → is_not_found e ≡ true
        → lookup name r.node_cache ≡ some route
        → d.cloud.delete_route route.destination_cidr w ≡ (done none, v)
        → reconcile d name r
          ≡ (done none, record r { node_cache = remove name r.node_cache; world = v })
    unfolding reconcile_missing delete_route_for_instance
    gone_deletes_to e w v route on gone nf cached deleted =
        rw (missing_step e w on gone nf)
          (rw (cached, reconcile_missing) (rw deleted (rw laws.nothing)))

    pub gone_deletes :
        (e : Error) (w v : W) (route : Route)
        → r.config_routes ≡ true
        → d.kube.get_node name r.world ≡ (done (err e), w)
        → is_not_found e ≡ true
        → lookup name r.node_cache ≡ some route
        → d.cloud.delete_route route.destination_cidr w ≡ (done none, v)
        → let (answer, after) = reconcile d name r in
          (answer ≡ done none)
          × (after.world ≡ v)
          × (after.events ≡ r.events)
          × ((other : String)
              → lookup other after.node_cache
                ≡ (if name == other then none else lookup other r.node_cache))
    gone_deletes e w v route on gone nf cached deleted =
        rw (gone_deletes_to e w v route on gone nf cached deleted)
          (refl, refl, refl, λ other. lookup-remove name other r.node_cache)

    gone_fails_to :
        (e x : Error) (w v : W) (route : Route)
        → r.config_routes ≡ true
        → d.kube.get_node name r.world ≡ (done (err e), w)
        → is_not_found e ≡ true
        → lookup name r.node_cache ≡ some route
        → d.cloud.delete_route route.destination_cidr w ≡ (done (some x), v)
        → (x' : Error) × (reconcile d name r ≡ (done (some x'), record r { world = v }))
    unfolding reconcile_missing delete_route_for_instance
    gone_fails_to e x w v route on gone nf cached failed =
        let (x', one) = laws.one x in
        (x', rw (missing_step e w on gone nf) (rw (cached, reconcile_missing) (rw failed (rw one))))

-- What the API server and the cloud do from one world to another: so many times the node is gone
-- and the deletion of its route fails, and then the node is gone and the deletion succeeds.
pub data Outage {W : Type 0} (d : Deps W) (name cidr : String) : ℕ → W → W → Type 0 where
  over :
      {e : Error} {w w1 v : W}
      → d.kube.get_node name w ≡ (done (err e), w1)
      → is_not_found e ≡ true
      → d.cloud.delete_route cidr w1 ≡ (done none, v)
      → Outage d name cidr zero w v
  failing :
      {n : ℕ} {e x : Error} {w w1 w2 v : W}
      → d.kube.get_node name w ≡ (done (err e), w1)
      → is_not_found e ≡ true
      → d.cloud.delete_route cidr w1 ≡ (done (some x), w2)
      → Outage d name cidr n w2 v
      → Outage d name cidr (suc n) w v

module _ {W : Type 0} (d : Deps W) (name : String) where
  -- Calls of Reconcile, of which one follows as long as the answer is an error, so many at most.
  abbrev pub until_done : ℕ → Action (ReconcileRoute W) (Option Error)
  until_done zero = reconcile d name
  until_done (suc n) = do
    answer ← reconcile d name
    elim answer [ some e ↦ until_done n | none ↦ pure none ]

  failed_step :
      (n : ℕ) (r r' : ReconcileRoute W) (x : Error)
      → reconcile d name r ≡ (done (some x), r')
      → until_done (suc n) r ≡ until_done n r'
  failed_step n r r' x e = rw e refl

  module _ (laws : AggregateLaws d.libs) where
    until_done-Outage :
        (n : ℕ) (v : W) (route : Route) (r : ReconcileRoute W)
        → r.config_routes ≡ true
        → lookup name r.node_cache ≡ some route
        → Outage d name route.destination_cidr n r.world v
        → until_done n r
          ≡ (done none, record r { node_cache = remove name r.node_cache; world = v })
    until_done-Outage zero v route r on cached (over {e = e} {w1 = w1} gone nf deleted) =
        gone_deletes_to d name r laws e w1 v route on gone nf cached deleted
    until_done-Outage (suc n) v route r on cached
          (failing {e = e} {x = x} {w1 = w1} {w2 = w2} gone nf failed rest) =
        let (x', fails) = gone_fails_to d name r laws e x w1 w2 route on gone nf cached failed in
        failed_step n r (record r { world = w2 }) x' fails
        ∙ until_done-Outage n v route (record r { world = w2 }) on cached rest

    -- For an aggregate that behaves as documented, the sync of routes on and a node whose route is
    -- cached: when the API server says that it is gone and the deletion of its route fails any
    -- number of times and then succeeds, a run of Reconcile, called again after each error up to
    -- that many times, ends with no error, leaves the world as that deletion did, records no
    -- event, and forgets that node and no other.
    pub gone_deletes_later :
        (n : ℕ) (v : W) (route : Route) (r : ReconcileRoute W)
        → r.config_routes ≡ true
        → lookup name r.node_cache ≡ some route
        → Outage d name route.destination_cidr n r.world v
        → let (answer, after) = until_done n r in
          (answer ≡ done none)
          × (after.world ≡ v)
          × (after.events ≡ r.events)
          × ((other : String)
              → lookup other after.node_cache
                ≡ (if name == other then none else lookup other r.node_cache))
    gone_deletes_later n v route r on cached outage =
        rw (until_done-Outage n v route r on cached outage)
          (refl, refl, refl, λ other. lookup-remove name other r.node_cache)
