-- ===== src/Queue/Drain.antt =====
-- How a worker of pkg/controller/helper/queue.go empties the work queue and ends.
use vpc_route_controller.Common.{
  ℕ, suc, Bool, true, false, Option, none, some, List, [], ◌∷◌, ◌≡◌, refl, ap, ◌∙◌, Action, done,
  Error, length, if◌then◌else◌,
}
use vpc_route_controller.Queue.Task.{
  Element, TaskQueue, QueueDeps, work_on, worker_round, worker, begin_shutdown, shutdown_goes_on,
}
use vpc_route_controller.Queue.Contents.{
  ElementSet, Contents, IsWorkQueue, insert, delete, delete_all, taken, finished,
}

-- A call that returns and leaves the work queue as it is.
abbrev pub Spares : {O W A : Type 0} → (W → Contents O) → Action W A → Type 0
Spares {O} {W} {A} contents m =
    (w : W) → (a : A) × (v : W) × (m w ≡ (done a, v)) × (contents v ≡ contents w)

module _ {O W : Type 0} (same : Element O → Element O → Bool) (d : QueueDeps O W)
    (contents : W → Contents O) (laws : IsWorkQueue same d.queue contents)
    (syncs : (x : Element O) → Spares contents (d.sync x)) (clock : Spares contents d.now) where
  still_shut : (w : W) (c : Contents O) → contents w ≡ c → c.shut ≡ true → (contents w).shut ≡ true
  still_shut w c holds shut = ap (λ (y : Contents O). y.shut) holds ∙ shut

  -- The worker has given the element back.
  abbrev Worked : Element O → ℕ → TaskQueue W → Contents O → Type 0
  Worked x ts t c =
      (t' : TaskQueue W) × (work_on d x ts t ≡ (done tt, t'))
      × (contents t'.world ≡ finished same x c)

  Worked-from :
      (failure : Option Error) (x : Element O) (ts : ℕ) (t : TaskQueue W) (w : W) (c : Contents O)
      → d.sync x t.world ≡ (done failure, w)
      → contents w ≡ c
      → c.shut ≡ true
      → Worked x ts t c
  unfolding work_on
  Worked-from none x ts t w c synced holds shut =
      let (w1, forgotten, c1) = laws.forgets x w (still_shut w c holds shut) in
      let (w2, given, c2) = laws.finishes x w1 (still_shut w1 c (c1 ∙ holds) shut) in
      (
        record t { world = w2; last_sync = ts },
        rw (synced, work_on) (rw forgotten (rw given refl)),
        c2 ∙ ap (finished same x) (c1 ∙ holds),
      )
  Worked-from (some e) x ts t w c synced holds shut =
      let (w1, retried, c1) =
        laws.drops (record x { is_skippable = false }) w (still_shut w c holds shut) in
      let (w2, given, c2) = laws.finishes x w1 (still_shut w1 c (c1 ∙ holds) shut) in
      (
        record t { world = w2 },
        rw (synced, work_on) (rw retried (rw given refl)),
        c2 ∙ ap (finished same x) (c1 ∙ holds),
      )

  delete-insert :
      (x : Element O) (set : ElementSet O) → delete same x (insert same x set) ≡ delete same x set
  delete-insert x set = λ i y. by_equality y (same x y) i
    where
      by_equality :
          (y : Element O) (b : Bool)
          → (if b then false else if b then true else set y) ≡ (if b then false else set y)
      by_equality y true = refl
      by_equality y false = refl

  -- An element that was taken and given back is gone from the queue and from both sets.
  abbrev worked_off : Element O → List (Element O) → Contents O → Contents O
  worked_off x xs c = record c {
    waiting = xs;
    dirty = delete same x c.dirty;
    processing = delete same x c.processing;
  }

  finished-taken :
      (x : Element O) (xs : List (Element O)) (c : Contents O)
      → finished same x (taken same x xs c) ≡ worked_off x xs c
  finished-taken x xs c = rw (laws.equal x) (
      ap (λ p. record c { waiting = xs; dirty = delete same x c.dirty; processing = p })
        (delete-insert x c.processing))

  -- A round on a queue that is shut down takes the first element and gives it back.
  abbrev Rounded : TaskQueue W → Contents O → Type 0
  Rounded t c = (t' : TaskQueue W) × (worker_round d t ≡ (done true, t')) × (contents t'.world ≡ c)

  round_takes :
      (t : TaskQueue W) (x : Element O) (xs : List (Element O)) (c : Contents O)
      → contents t.world ≡ c
      → c.waiting ≡ x ∷ xs
      → c.shut ≡ true
      → Rounded t (worked_off x xs c)
  unfolding worker_round
  round_takes t x xs c holds waits shut =
      let (w1, got, c1) =
        laws.gets t.world x xs (ap (λ (y : Contents O). y.waiting) holds ∙ waits)
          (still_shut t.world c holds shut) in
      let (ts, w2, read, c2) = clock w1 in
      let (failure, w3, synced, c3) = syncs x w2 in
      let (t', worked, c4) =
        Worked-from failure x ts (record t { world = w2 }) w3 (taken same x xs c) synced
          (c3 ∙ (c2 ∙ (c1 ∙ ap (taken same x xs) holds))) shut in
      (t', rw (got, worker_round) (rw read (rw worked refl)), c4 ∙ finished-taken x xs c)

  -- The contents without the elements that waited.
  abbrev pub emptied : List (Element O) → Contents O → Contents O
  emptied xs c = record c {
    waiting = [];
    dirty = delete_all same xs c.dirty;
    processing = delete_all same xs c.processing;
  }

  -- A worker on a queue that is shut down works on all the elements that wait, and returns.
  drains :
      (xs : List (Element O)) (t : TaskQueue W) (c : Contents O)
      → contents t.world ≡ c
      → c.waiting ≡ xs
      → c.shut ≡ true
      → (t' : TaskQueue W) × (worker d (suc (length xs)) t ≡ (done true, t'))
        × (contents t'.world ≡ emptied xs c)
        × (t'.worker_done ≡ true)
  unfolding worker worker_round
  drains [] t c holds waits shut =
      let (w, quit, kept) =
        laws.quits t.world (ap (λ (y : Contents O). y.waiting) holds ∙ waits)
          (still_shut t.world c holds shut) in
      (
        record t { world = w; worker_done = true },
        rw (quit, worker, worker_round) refl,
        kept ∙ (holds ∙ ap (λ ws. record c { waiting = ws }) waits),
        refl,
      )
  drains (x ∷ xs) t c holds waits shut =
      let (t1, round, c1) = round_takes t x xs c holds waits shut in
      let (t2, rest, c2, closed) = drains xs t1 (worked_off x xs c) c1 refl shut in
      (t2, rw (round, worker) rest, c2, closed)

  -- Where the work queue behaves as documented after its shut-down, and sync and the clock return
  -- and leave the work queue alone: after Shutdown has shut it down, a worker takes every element
  -- that waits, in one round each, and returns in one round more; nothing waits then, none of
  -- those elements is marked as added or held by a worker, the other marks and what waits for a
  -- retry are as before, so that a failed element is not added for a retry, and Shutdown goes on.
  pub shutdown_drains :
      (t : TaskQueue W)
      → (t1 : TaskQueue W) × (t2 : TaskQueue W) × (begin_shutdown d t ≡ (done tt, t1))
        × (worker d (suc (length (contents t.world).waiting)) t1 ≡ (done true, t2))
        × (contents t2.world ≡ record (contents t.world) {
          waiting = [];
          dirty = delete_all same (contents t.world).waiting (contents t.world).dirty;
          processing = delete_all same (contents t.world).waiting (contents t.world).processing;
          shut = true;
        })
        × (shutdown_goes_on t2 ≡ true)
  unfolding begin_shutdown
  shutdown_drains t =
      let (w, down, c) = laws.shuts t.world in
      let (t2, gone, c2, closed) =
        drains (contents t.world).waiting (record t { world = w }) _ c refl refl in
      (record t { world = w }, t2, rw down refl, gone, c2, closed)
