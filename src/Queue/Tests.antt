-- ===== src/Queue/Tests.antt =====
-- A queue of two elements, of which the first fails, before one worker; and two workers that quit.
use vpc_route_controller.Common.{
  ℕ, String, true, false, Option, none, some, List, [], ◌∷◌, ◌≡◌, ◌≢◌, refl, ◌==◌, if◌then◌else◌,
  Outcome, done, ok, Error, plain, get_elem?, Bool, eq_refl, Bool-cases, inl, inr, arith, nat_eq,
  not, ◌&&◌, ◌||◌, ◌++◌,
}
use vpc_route_controller.Queue.Task.{
  Task, Element, RateLimitingQueue, TaskQueue, QueueDeps, create_event, begin_shutdown, worker,
  shutdown_goes_on, enqueue, enqueue_task, enqueue_skippable_task,
}
use vpc_route_controller.Queue.Contents.{Contents, IsWorkQueue, taken, finished, insert, delete_all}
use vpc_route_controller.Queue.Drain.{Spares, shutdown_drains}
use vpc_route_controller.Queue.Closing.{
  quitting, returned, crashed, take_turns, one_worker_safe, two_workers_crash,
}

abbrev Store : Type 0
Store = Contents ℕ

-- The equality of elements.
abbrev same : Element ℕ → Element ℕ → Bool
same x y =
    x.key == y.key
    && (x.event.kind == y.event.kind
        && (nat_eq x.event.obj y.event.obj
            && (if x.is_skippable then y.is_skippable else not y.is_skippable)))

same_lem : (x : Element ℕ) → same x x ≡ true
same_lem x =
    rw (eq_refl x.key, eq_refl x.event.kind)
      (elim (Bool-cases x.is_skippable) [
        | inl y ↦ rw (same_obj, y) refl
        | inr y ↦ rw (same_obj, y) refl
      ])
  where
    same_obj : nat_eq x.event.obj x.event.obj ≡ true
    same_obj = ground arith

abbrev get_from : List (Element ℕ) → Store → Outcome (Option (Element ℕ)) × Store
get_from [] w = (done none, w)
get_from (x ∷ xs) w = (done (some x), taken same x xs w)

-- As `Add` of client-go: an element that waits already is not added, and one that a worker has only marked.
abbrev add_to : Element ℕ → Store → Store
add_to x w = if w.shut || w.dirty x then w else record w {
  dirty = insert same x w.dirty;
  waiting = if w.processing x then w.waiting else w.waiting ++ x ∷ [];
}

abbrev store_queue : RateLimitingQueue ℕ Store
store_queue = record {
  add = λ x w. (done tt, add_to x w);
  get = λ w. get_from w.waiting w;
  add_rate_limited = λ x w. (done tt, if w.shut then w else record w { retrying = x ∷ w.retrying });
  forget = λ x w. (done tt, w);
  finish = λ x w. (done tt, finished same x w);
  shut_down = λ w. (done tt, record w { shut = true });
  shutting_down = λ w. (done w.shut, w);
}

abbrev contents : Store → Contents ℕ
contents w = w

is_work_queue : IsWorkQueue same store_queue contents
is_work_queue = record {
  equal = same_lem;
  gets = λ w x xs e s. (_, rw e refl, refl);
  quits = λ w e s. (w, rw e refl, refl);
  drops = λ x w e. (w, rw e refl, refl);
  forgets = λ x w s. (w, refl, refl);
  finishes = λ x w s. (_, refl, refl);
  shuts = λ w. (_, refl, refl);
}

abbrev fails_first : Element ℕ → Option Error
fails_first x = if x.key == "ns/a" then some (plain "busy") else none

abbrev deps : QueueDeps ℕ Store
deps = record {
  queue = store_queue;
  key_of = λ o. ok "ns/a";
  sync = λ x w. (done (fails_first x), w);
  now = λ w. (done 7, w);
}

syncs : (x : Element ℕ) → Spares contents (deps.sync x)
syncs x w = (fails_first x, w, refl, refl)

reads : Spares contents deps.now
reads w = (7, w, refl, refl)

abbrev element : String → Element ℕ
element key = record {
  key = key;
  event = record { kind = create_event; obj = 1 };
  is_skippable = false;
}

abbrev filled : TaskQueue Store
filled = record {
  worker_done = false;
  last_sync = 0;
  world = record {
    waiting = element "ns/a" ∷ element "ns/b" ∷ [];
    dirty = insert same (element "ns/a") (insert same (element "ns/b") (λ y. false));
    processing = insert same (element "ns/c") (λ y. false);
    retrying = [];
    shut = false;
  };
}

shutdown_drains_example :
    (t1 : TaskQueue Store) × (t2 : TaskQueue Store) × (begin_shutdown deps filled ≡ (done tt, t1))
    × (worker deps 3 t1 ≡ (done true, t2))
    × (contents t2.world ≡ record (contents filled.world) {
      waiting = [];
      dirty = delete_all same filled.world.waiting filled.world.dirty;
      processing = delete_all same filled.world.waiting filled.world.processing;
      shut = true;
    })
    × (shutdown_goes_on t2 ≡ true)
shutdown_drains_example = shutdown_drains same deps contents is_work_queue syncs reads filled

-- An element that is added while a worker has it waits again when the worker is done with it.
added_again :
    (finished same (element "ns/c") (add_to (element "ns/c") filled.world)).waiting
    ≡ element "ns/a" ∷ element "ns/b" ∷ element "ns/c" ∷ []
added_again = refl

-- The second argument of `enqueue` makes no difference.
skippable_ignored :
    (obj : Task ℕ) → enqueue_skippable_task deps obj filled ≡ enqueue_task deps obj filled
unfolding enqueue_skippable_task enqueue_task enqueue
skippable_ignored obj = refl

one_worker_safe_example :
    get_elem? (take_turns (0 ∷ 0 ∷ 0 ∷ 0 ∷ []) (false, quitting ∷ [])).1 0 ≢ some crashed
one_worker_safe_example = one_worker_safe (0 ∷ 0 ∷ 0 ∷ 0 ∷ [])

two_workers_crash_example :
    (order : List ℕ) × (take_turns order (false, quitting ∷ quitting ∷ [])
      ≡ (true, returned ∷ crashed ∷ []))
two_workers_crash_example = two_workers_crash []
