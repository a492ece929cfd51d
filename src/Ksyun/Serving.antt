-- ===== src/Ksyun/Serving.antt =====
-- The methods of `RouteClient` (pkg/ksyun/openstack_client/neutron/route.go) before a service that keeps a
-- list of entries.
use vpc_route_controller.Common.{
  Dict, Action, String, Bool, true, false, none, some, List, [], ◌∷◌, ◌++◌, ◌≡◌, refl, ◌==◌,
  contains, concat, message, done, ok, err, Error,
}
use vpc_route_controller.Http.Kop.{get}
use vpc_route_controller.Route.Calls.{same_route}
use vpc_route_controller.Ksyun.Types.{Config, Services, Vpc, RouteSetType, RouteArgs}
use vpc_route_controller.Ksyun.Call.{Client, Session, call}
use vpc_route_controller.Ksyun.Neutron.{
  describe_vpcs, vpc_request, create_request, delete_request, routes_request, new_route_client,
  create_route, delete_route, describe_routes, list_routes, get_routes, get_route, wait_rounds,
  wait_for_all_route_entries_available, seconds, fresh_client,
}
use vpc_route_controller.Ksyun.Vpc.{
  Responds, Succeeds, TellsTag, Tells, Creates, IsSame, Deletes, CanSend, KeepsEntries, find_entry,
  entries_of, without_entry,
}
use vpc_route_controller.Ksyun.Sending.{call-Succeeds, call_refused, refusal_of, refusal_quotes}

-- The arguments of a route to an instance.
abbrev pub host_args : Config → String → String → RouteArgs
host_args conf id cidr = record {
  domain_id = conf.vpc_id;
  instance_id = id;
  instance_type = "Host";
  cidr_block = cidr;
}

module _ {W : Type 0} (env : Services W) (conf : Config) (trusted : Bool)
    (entries : W → List RouteSetType) (can : CanSend env conf entries)
    (keeps : KeepsEntries env conf trusted entries) where
  -- A client that knows the tag of its VPC.
  abbrev Tagged : Client → Type 0
  Tagged c = c.product_tag == "trust" ≡ trusted

  describe_vpcs_lem :
      (bytes : String) (vpc : Vpc) (vpcs : List Vpc) (s s' : Session W)
      → call env conf (vpc_request env conf) s ≡ (done (ok bytes), s')
      → env.codec.read_vpcs bytes ≡ ok (vpc ∷ vpcs)
      → describe_vpcs env conf s ≡ (done (ok vpc), s')
  unfolding describe_vpcs
  describe_vpcs_lem bytes vpc vpcs s s' answered read = rw (answered, describe_vpcs) (rw read refl)

  -- `NewRouteClient` makes a client that knows the tag, and leaves the entries alone.
  pub new_route_client-Tagged :
      (w : W)
      → (c : Client) × (v : W) × (new_route_client env conf w ≡ (done (ok c), v))
        × Tagged c
        × (entries v ≡ entries w)
  unfolding new_route_client
  new_route_client-Tagged w =
      let s : Session W = record { client = fresh_client env.kop_endpoint; world = w } in
      let (bytes, s', answered, tag, (vpc, vpcs, read, trust, t)) =
        call-Succeeds env conf entries can (vpc_request env conf) s
          (TellsTag env conf trusted entries (entries w)) refl
          (λ u same. rw (← same) (keeps.vpc u)) in
      (
        record s'.client { product_tag = vpc.product_tag },
        s'.world,
        rw (describe_vpcs_lem bytes vpc vpcs s s' answered read, new_route_client) refl,
        trust,
        t,
      )

  -- A call of a client, which is left with its tag, and the entries alone.
  abbrev pub Reads : {A : Type 0} → Action (Session W) A → A → Session W → Type 0
  Reads m a s =
      (s' : Session W) × (m s ≡ (done a, s'))
      × (s'.client.product_tag ≡ s.client.product_tag)
      × (entries s'.world ≡ entries s.world)

  describe_routes-Reads :
      (what : String) (filters : Dict String) (s : Session W) (found : List RouteSetType)
      → ((u : W)
          → entries u ≡ entries s.world
          → Responds env conf get
              (("Action", "DescribeRoutes") ∷ ("Version", "2016-03-04") ∷ filters)
              u
              (Succeeds env conf (Tells env conf trusted entries found (entries s.world))))
      → Reads (describe_routes env conf what filters) (ok found) s
  unfolding describe_routes
  describe_routes-Reads what filters s found responds =
      let (bytes, s', answered, tag, (read, t)) =
        call-Succeeds env conf entries can (routes_request env conf what filters) s
          (Tells env conf trusted entries found (entries s.world)) refl responds in
      (s', rw (answered, describe_routes) (rw read refl), tag, t)

  pub list_routes-Reads :
      (s : Session W) → Reads (list_routes env conf (host_args conf "" "")) (ok (entries s.world)) s
  unfolding list_routes
  list_routes-Reads s =
      describe_routes-Reads _ _ s (entries s.world) (λ u same. rw (← same) (keeps.lists u))

  pub get_routes-Reads :
      (cidr : String) (s : Session W)
      → Reads
          (get_routes env conf (host_args conf "" cidr))
          (ok (entries_of cidr (entries s.world)))
          s
  unfolding get_routes
  get_routes-Reads cidr s =
      describe_routes-Reads _ _ s (entries_of cidr (entries s.world))
        (λ u same. rw (← same) (keeps.filters cidr u))

  get_route-Reads :
      (id : String) (s : Session W) (entry : RouteSetType)
      → find_entry id (entries s.world) ≡ some entry
      → Reads (get_route env conf id) (ok entry) s
  unfolding get_route
  get_route-Reads id s entry e =
      let (s', answered, tag, t) =
        describe_routes-Reads (concat ("get route " ∷ id ∷ [])) (("RouteId.1", id) ∷ []) s
          (entry ∷ []) (λ u same. rw (← same) (keeps.describes id u entry (rw same e))) in
      (s', rw (answered, get_route) refl, tag, t)

  -- The wait for an entry that is there ends at once.
  pub wait_for_all_route_entries_available-Reads :
      (id : String) (s : Session W) (entry : RouteSetType)
      → find_entry id (entries s.world) ≡ some entry
      → entry.route_id == "" ≡ false
      → Reads (wait_for_all_route_entries_available env conf id 60) none s
  unfolding wait_for_all_route_entries_available seconds wait_rounds
  wait_for_all_route_entries_available-Reads id s entry e named =
      let (s', answered, tag, t) = get_route-Reads id s entry e in
      (s', rw (answered, wait_rounds) (rw named refl), tag, t)

  pub create_route-Creates :
      (id cidr : String) (s : Session W)
      → Tagged s.client
      → entries_of cidr (entries s.world) ≡ []
      → (entry : RouteSetType) × (s' : Session W) × (create_route env conf
            (host_args conf id cidr)
            s
          ≡ (done (ok entry.route_id), s'))
        × Tagged s'.client
        × (entry.route_id == "" ≡ false)
        × (find_entry entry.route_id (entries s.world) ≡ none)
        × (entry.destination_cidr ≡ cidr)
        × (entry.next_hopset ≡ id ∷ [])
        × (entries s'.world ≡ entries s.world ++ entry ∷ [])
  unfolding create_route
  create_route-Creates id cidr s tagged free =
      let (bytes, s', answered, tag, (entry, read, named, new, to, via, added)) =
        call-Succeeds env conf entries can
          (create_request env conf (host_args conf id cidr) s.client) s
          (Creates env conf trusted entries id cidr (entries s.world)) refl
          (λ u same. rw (tagged, ← same) (keeps.creates id cidr u (rw same free))) in
      (
        entry,
        s',
        rw (answered, create_route) (rw read refl),
        rw tag tagged,
        named,
        new,
        to,
        via,
        added,
      )

  pub create_route_refused :
      (id cidr : String) (s : Session W) (entry : RouteSetType) (others : List RouteSetType)
      → Tagged s.client
      → entries_of cidr (entries s.world) ≡ entry ∷ others
      → (e : Error) × (s' : Session W) × (create_route env conf (host_args conf id cidr) s
          ≡ (done (err e), s'))
        × (contains (message e) same_route ≡ true)
        × (entries s'.world ≡ entries s.world)
  unfolding create_route
  create_route_refused id cidr s entry others tagged taken =
      let q = create_request env conf (host_args conf id cidr) s.client in
      let (code, bytes, s', answered, (same, t)) =
        call_refused env conf entries can q s (IsSame env conf trusted entries (entries s.world))
          refl
          (λ u same. rw (tagged, ← same) (keeps.refuses id cidr u entry others (rw same taken))) in
      (
        refusal_of env conf entries can q code bytes,
        s',
        rw (answered, create_route) refl,
        refusal_quotes env conf entries can q code bytes same_route same,
        t,
      )

  pub delete_route-Deletes :
      (id : String) (s : Session W) (entry : RouteSetType)
      → Tagged s.client
      → find_entry id (entries s.world) ≡ some entry
      → (s' : Session W) × (delete_route env conf id s ≡ (done none, s'))
        × (entries s'.world ≡ without_entry id (entries s.world))
  unfolding delete_route
  delete_route-Deletes id s entry tagged e =
      let (bytes, s', answered, tag, deleted) =
        call-Succeeds env conf entries can (delete_request env conf id s.client) s
          (Deletes env conf trusted entries id (entries s.world)) refl
          (λ u same. rw (tagged, ← same) (keeps.deletes id u entry (rw same e))) in
      (s', rw (answered, delete_route) refl, deleted)
