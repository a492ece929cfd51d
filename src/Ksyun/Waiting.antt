-- ===== src/Ksyun/Waiting.antt =====
-- `WaitForAllRouteEntriesAvailable` (pkg/ksyun/openstack_client/neutron/route.go): how long it waits.
use vpc_route_controller.Common.{
  [], ◌∷◌, String, concat, ok, ℕ, zero, suc, ◌-◌, ◌*◌, ◌≤◌, ◌<◌, String, Option, none, some, ◌≡◌,
  refl, ◌⊎◌, inl, inr, arith, leb, Action, done, panicked, Result, Error, Returns, Bool-cases, true,
  false, err, nat_eq, if◌then◌else◌, ◌==◌,
}
use vpc_route_controller.Ksyun.Types.{Config, Services, RouteSetType}
use vpc_route_controller.Ksyun.Call.{Session}
use vpc_route_controller.Ksyun.Neutron.{
  describe_routes, get_route, is_available, timeout, after_lookup, seconds, wait_rounds,
  wait_for_all_route_entries_available,
}

-- A lookup that failed, or found no id.
abbrev pub Missing : Result RouteSetType → Type 0
Missing (err e) = Unit
Missing (ok route) = route.route_id == "" ≡ true

at_most : {left : ℕ} → left ≤ 5 → leb left 5 ≡ true
at_most h = ground (arith, h)

above : {left : ℕ} → 5 < left → leb left 5 ≡ false
above h = ground (arith, h)

module _ {W : Type 0} (env : Services W) (conf : Config) (id : String) where
  -- The result of a wait that ends.
  abbrev pub Ends : Action (Session W) (Option Error) → Type 0
  Ends m =
      (s : Session W)
      → (a : Option Error) × (s' : Session W) × (m s ≡ (done a, s'))
        × ((a ≡ none) ⊎ (a ≡ some timeout))

  wait_step :
      (n left : ℕ) (s s' : Session W) (got : Result RouteSetType)
      → get_route env conf id s ≡ (done got, s')
      → wait_rounds env conf (suc n) id left s
        ≡ after_lookup env conf left (wait_rounds env conf n id) got s'
  unfolding wait_rounds
  wait_step n left s s' got e = rw (e, wait_rounds) refl

  some_seconds : (given : ℕ) → 0 < seconds env conf given
  unfolding seconds
  some_seconds given = ground arith

  module _ (returns : Returns (get_route env conf id)) where
    -- When every lookup of the route returns, a wait of so many seconds ends within one round for each
    -- five seconds begun, and it ends with success or with the timeout.
    pub wait_rounds_end :
        (n left : ℕ) → 0 < left → left ≤ 5 * n → Ends (wait_rounds env conf n id left)
    wait_rounds_end zero left lo hi s = absurd (omega arith)
    wait_rounds_end (suc n) left lo hi s =
        let (got, s', e) = returns s in
        let step = wait_step n left s s' got e in
        elim (Bool-cases (is_available got)) [
          | inl y ↦ (none, s', rw (step) (rw (y) refl), inl refl)
          | inr y ↦ elim (Bool-cases (leb left 5)) [
            | inl z ↦ (some timeout, s', rw (step) (rw (y) (rw (z) refl)), inr refl)
            | inr z ↦
                let (a, s'', e', q) =
                  wait_rounds_end n (left - 5) (ground arith) (ground arith)
                    (record s' { world = env.sleep s'.world }) in
                (a, s'', rw (step) (rw (y) (rw (z) e')), q)
          ]
        ]

    -- When every GetRoute of the id returns, WaitForAllRouteEntriesAvailable returns in every
    -- state and at every timeout, with nothing or with the timeout error.
    pub wait_for_all_route_entries_available-Ends :
        (given : ℕ) → Ends (wait_for_all_route_entries_available env conf id given)
    unfolding wait_for_all_route_entries_available
    wait_for_all_route_entries_available-Ends given =
        wait_rounds_end (seconds env conf given) (seconds env conf given) (some_seconds given)
          (omega arith)

  -- The loop of the source as it runs, with so many seconds left: what it returns, and in which
  -- state. No round is counted.
  pub data Waited : ℕ → Session W → Option Error → Session W → Type 0 where
    found :
        {left : ℕ} {s s' : Session W} (route : RouteSetType)
        → get_route env conf id s ≡ (done (ok route), s')
        → route.route_id == "" ≡ false
        → Waited left s none s'
    timed_out :
        {left : ℕ} {s s' : Session W} {got : Result RouteSetType}
        → get_route env conf id s ≡ (done got, s')
        → Missing got
        → left ≤ 5
        → Waited left s (some timeout) s'
    slept :
        {left : ℕ} {s s' s'' : Session W} {a : Option Error} {got : Result RouteSetType}
        → get_route env conf id s ≡ (done got, s')
        → Missing got
        → 5 < left
        → Waited (left - 5) (record s' { world = env.sleep s'.world }) a s''
        → Waited left s a s''

  not_available : (got : Result RouteSetType) → Missing got → is_available got ≡ false
  not_available (err e) missing = refl
  not_available (ok route) missing = rw missing refl

  rounds-Waited :
      (n left : ℕ) (s s'' : Session W) (a : Option Error)
      → Waited left s a s''
      → 0 < left
      → left ≤ 5 * n
      → wait_rounds env conf n id left s ≡ (done a, s'')
  rounds-Waited zero left s s'' a run lo hi = absurd (omega arith)
  rounds-Waited (suc n) left s s'' _ (found route e full) lo hi =
      rw (wait_step n left s s'' (ok route) e) (rw full refl)
  rounds-Waited (suc n) left s s'' _ (timed_out {got = got} e missing late) lo hi =
      rw (wait_step n left s s'' got e) (rw (not_available got missing) (rw (at_most late) refl))
  rounds-Waited (suc n) left s s'' a (slept {s' = s'} {got = got} e missing early run) lo hi =
      rw (wait_step n left s s' got e) (
        rw (not_available got missing) (
          rw (above early) (
            rounds-Waited n (left - 5) (record s' { world = env.sleep s'.world }) s'' a run
              (omega (arith, early)) (omega (arith, hi, early)))))

  -- WaitForAllRouteEntriesAvailable does what its loop says, without a bound on the rounds: where
  -- the loop, started with the seconds of the timeout or with sixty at zero, looks the route up
  -- until it has an id, or until at most five seconds are left, and sleeps for five in between,
  -- the call returns what the loop returns, in the same state.
  pub wait_for_all_route_entries_available-Waited :
      (given : ℕ) (s s' : Session W) (a : Option Error)
      → Waited (if nat_eq given 0 then 60 else given) s a s'
      → wait_for_all_route_entries_available env conf id given s ≡ (done a, s')
  unfolding wait_for_all_route_entries_available seconds
  wait_for_all_route_entries_available-Waited given s s' a run =
      rounds-Waited (seconds env conf given) (seconds env conf given) s s' a run
        (some_seconds given) (omega arith)

  get_route_panics :
      (s s' : Session W)
      → describe_routes env conf (concat ("get route " ∷ id ∷ [])) (("RouteId.1", id) ∷ []) s
        ≡ (done (ok []), s')
      → get_route env conf id s ≡ (panicked, s')
  unfolding get_route
  get_route_panics s s' e = rw (e, get_route) refl

  -- When the cloud answers the first lookup with no entry, WaitForAllRouteEntriesAvailable panics
  -- instead of waiting, at every timeout.
  pub wait_panics_on_empty :
      (given : ℕ) (s s' : Session W)
      → describe_routes env conf (concat ("get route " ∷ id ∷ [])) (("RouteId.1", id) ∷ []) s
        ≡ (done (ok []), s')
      → wait_for_all_route_entries_available env conf id given s ≡ (panicked, s')
  unfolding wait_for_all_route_entries_available
  wait_panics_on_empty given s s' e = from_first (seconds env conf given) (some_seconds given)
    where
      from_first : (left : ℕ) → 0 < left → wait_rounds env conf left id left s ≡ (panicked, s')
      from_first zero pos = absurd (omega arith)
      from_first (suc n) pos = unfold wait_rounds in rw (get_route_panics s s' e, wait_rounds) refl
