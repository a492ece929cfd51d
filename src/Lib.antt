-- ===== src/Lib.antt =====
-- vpc-route-controller keeps the routes of a VPC in step with the nodes of a Kubernetes cluster: every
-- node has a network for its pods, and the cloud needs a route that sends this network to the node's
-- instance. These modules model the Go code of the repository and prove what it does.
--
-- The parts of the program, and where they are modelled:
--   * Route: package route (pkg/controller/route), the controller. Route/State has `ReconcileRoute`
--     with the fields that change, and `Deps`, all that it calls. Route/Nodes (manager.go,
--     predicate.go) reads nodes, Route/Cidr compares networks, Route/Calls makes, deletes and finds
--     routes, Route/Condition is `updateNetworkingCondition`, Route/Reconcile is `Reconcile` and the
--     periodic `reconcileForCluster`. The modules Creation, Deletion, Resync, Cache, Answers, Marking,
--     Selection, Conflicts and Filter prove what they are named for. Table says what the controller
--     relies on in a cloud that keeps a table of routes; Upkeep, Converge, Reach, Rounds and
--     Life prove which routes are there after a run.
--   * Manager: the program of the controller. Manager/Settings is pkg/config, the flags; Manager/Start
--     is `main` of cmd/manager/main.go, `AddToManager` of pkg/controller/controller.go and the making of
--     the controller in pkg/controller/route/route_controller.go; Manager/Adding proves which
--     controllers it starts with.
--   * Kube: pkg/controller/helper/node_utils.go over a client of the API server, `KubeClient`.
--   * Ksyun: package ksyun (pkg/ksyun/ksyun.go) in Ksyun/Routes, which fills the interface `Cloud` that
--     Route is written against, over the service clients of pkg/ksyun/openstack_client: Ksyun/Neutron
--     (`RouteClient`) and Ksyun/Nova (`ServerClient`, `AlarmClient`). Ksyun/Call is what their methods
--     have in common, Ksyun/Settings reads the configuration. Each call of package ksyun makes a client
--     of its own, as in the source. Ksyun/Vpc says what is relied on in the service of the VPC: it
--     keeps a list of entries and answers requests by their method and URL. Sending, Alarms and
--     Serving follow a request through the HTTP client, Entries, Methods and Cloud make package ksyun the
--     table of routes that Route/Table asks for, and Composed puts the controller on top. Ksyun/Shapes has
--     the other types of answers.
--   * Annotate: the annotation program (cmd/annotation, pkg/annotation), which writes instance ids that
--     `getNodeInstanceId` of Route/Nodes reads.
--   * Http: the `KopClient` of pkg/http/kophttp.go, over `Transport`, which is third-party code.
--     Http/Client is the `Client` of pkg/http/http.go, with `Notify` of the notifier, which posts with
--     it; Http/Posting proves what they send. Http/Names is `getServerName`, the name of a span.
--   * Queue: pkg/controller/helper/queue.go over client-go's work queue. Queue/Task is `Queue`,
--     Queue/Closing the turns of several workers that quit, Queue/Drain how a worker empties the queue.
--     Queue/Contents is what is relied on in the work queue.
--   * Util: the small utilities of pkg/util. Util/Attempt is attempt.go; Util/Query and Util/Body are
--     `setQueryValues` and `setBodyValues` of encoding.go, over Util/Reflected, which is what reflection
--     sees of a value; Util/Form and Util/Maps are functions of util.go, and so is Util/Cipher;
--     Util/Time and Util/Reading are iso6801.go, Util/Random is pkg/util/random. Pacing, Flat, Nesting,
--     Sorting, Merging, Stamp, Drawing and Padding prove what they do.
--   * Ip: pkg/util/ip/ipnet.go, IPv4 addresses and networks as numbers below 2 ^ 32; shifts and sums
--     are cut to 32 bits, and `32 - PrefixLen` wraps at 64. Ip/Json prints and reads them, Quotes
--     proves that this agrees. Ip/Iface is iface.go, over package netlink.
--   * Common: Boolean tests, text, maps, and effects.
--
-- A Go function with effects is an `Action S A`: it takes a state to an outcome and a state. An error
-- is a value of the result, a panic is an outcome. The world `W` is a parameter: the API server, the
-- cloud, the clock and the transport are functions on it, so that nothing is assumed of what they
-- answer. Where a theorem needs documented behaviour of third-party code, that is a record of laws:
-- `IsBackoff` (wait.ExponentialBackoff), `AggregateLaws` (utilerrors.NewAggregate), `EndsAtOnce`
-- (retry.Do), `KeepsTable` and `LeavesTable` (a cloud with a table of routes, and an API server that
-- answers), `CanSend` and `KeepsEntries` (keys and a signer, and the service of the VPC by its HTTP
-- requests; Ksyun/Tests/Service is such a service, which reads the query off the URL), `IsWorkQueue`
-- (client-go's work queue), `Ticks` (a clock), `Posts` (a network on which every request is answered
-- somehow); the modules Tests instantiate them.
--
-- Loops are structural, except `WaitForAllRouteEntriesAvailable`: `wait_rounds` counts its rounds and
-- panics at zero, and is started with one round for each second, which is five times what it can use. Ksyun/Waiting states
-- the loop of the source without rounds, as the relation `Waited`, and proves that it is this.
-- The retries of `createRouteForInstance` (three) and of `updateNetworkingCondition` (three) are the
-- constants of the source. `worker` of Queue counts its rounds too, and tells whether it has
-- returned; one round for each element that waits and one more are enough after a shut-down.
--
-- Not modelled: logs, metrics and tracing; that sending an unsigned request drains the buffer of
-- `KopClient` (the service clients sign theirs); locks, each of which is held over one sequence of
-- calls; JSON of structs, reflection, URL encoding and the flags that pflag reads, which are parameters where
-- they are called; the ioctl calls of pkg/util; the overflow of times and durations.
pub mod Common
pub mod Ip
pub mod Util
pub mod Queue
pub mod Http
pub mod Ksyun
pub mod Kube
pub mod Route
pub mod Manager
pub mod Annotate
