-- ===== src/Lib.antt =====
-- The data plane of Argon, an ingress proxy (images/dataplane).
--
-- The control plane sends snapshots over a gRPC stream. From each the data plane builds a route table
-- and a map of certificates, which replace the old ones in shared state. A listener gives each request
-- to `proxy_handler`: under a read lock it finds the route of the host and path, the cluster of the
-- route and an endpoint of the cluster; then it asks the authorization service if the cluster wants
-- that, makes the request ready, forwards it with retries, and returns the answer. Counters of requests
-- in flight, which the endpoint's selection reads, are shared between requests.
--
-- Files, and the code that they model:
--   Config       images/dataplane/src/argon.config.rs: the messages as records
--   Route        images/dataplane/src/snapshot.rs: RouteRule, PathType, the buckets of RouteTable::new,
--                match_in_bucket; Route/Order and Route/Buckets are about the order and the search
--   Cluster      snapshot.rs: ClusterRule, EndpointKey, round_robin, least_conn; Cluster/Wiring is about
--                build_map, Cluster/Balance and Cluster/Rounds about the picks
--   Table        snapshot.rs: RouteTable::new, choose_route, get_endpoint, get_cluster_rules
--   Auth         snapshot.rs: AuthConfigDex::from_pb, build_auth_runtime
--   Rewrites     snapshot.rs: build_header_rewrites
--   Proxy        images/dataplane/src/proxy.rs, with a module for each group of its functions:
--                Resolve (extract_host, resolve_*), Headers, Encode, Reply, Subrequest
--                (perform_auth_if_needed, build_auth_request), Upstream (handle_req_upstream), Forward
--                (forward_to_upstream), Guard (ActiveConnGuard), Handler (proxy_handler)
--   Certs        images/dataplane/src/certs.rs: certificates_from_snap, DynResolver::resolve
--   Grpc         images/dataplane/src/grpc.rs: connect_fut, the loop of GrpcManager::start as a step
--                function, the certificate watcher, and the state at the start
--   Admin        images/dataplane/src/main.rs: echo and the accept loop of its port
--   ClientPool   images/dataplane/src/client_pool.rs: the clients, by their builders' settings
--   Startup      main.rs: the settings from the environment, and make_dummy_cert of certs.rs
--   Listener     main.rs: run_http and run_https as one step function
--   Process      main.rs: main after the start-up, on the two listeners and the manager
--   Serving      the composition: requests to the tables that a run of the manager publishes
--   InFlight     the composition: the counters under requests and new tables in any order
--   DataPlane    the composition of all: the process with its listeners, manager and requests;
--                DataPlane/View forgets all but the counters and the table, DataPlane/Served is about the
--                snapshot that a request is served by, DataPlane/Routed about its rule as a
--                function of a set of routes, DataPlane/Balanced about the endpoint that it is sent to,
--                DataPlane/Handshakes about the certificate that a connection gets,
--                DataPlane/Ready about the probe of the admin port, DataPlane/Ordered and
--                DataPlane/Ending about the shutdown
--   Boot         main.rs: main from its environment to the process, and Boot/Dials how it dials then
--   Utils        images/dataplane/src/utils.rs: the bodies empty and full
--   Prelude, Text, HashMap, Sort, Atomics, Decimal   Rust's standard library, as far as it is used
--   Http         the interface of the crates http and hyper, with what is documented of HeaderMap
--   Tests        instances of the interfaces and runs at concrete inputs
--
-- State is passed explicitly. The atomic counters are cells of a heap, so that a clone of an `Arc` is
-- the same address; `fetch_add` and `fetch_sub` wrap at 2 ^ 64. A `HashMap` is an association list with
-- one entry for each key, and a `DashMap` is the interface `Counters`, whose iteration has any order.
-- A text is a list of Unicode scalar values; `len` counts UTF-8 bytes. `i32` is the type of signed
-- integers, with the casts `as u16`, `as u64` and `as usize` written out. The answers of the network are
-- the parameter `Clients`, and a trace records the calls. The steps of the control plane's stream are
-- events in any order; the three writes of a message and the three reads of the certificate watcher are
-- steps of their own, since they are awaited, and a read with its notification is one step. The loads of
-- the least-connections policy are not awaited, but other requests count between them: the parameter
-- `seen` has the values that they give, at whatever moments. A lookup of a certificate loads the shared
-- map twice, so `resolve` has two maps. A request counts from its step `enters` to its step `leaves`,
-- which may be at any time; the moment in the handler, the end of its scope, is only written in
-- `proxy_handler`.
--
-- Loops are recursion on lists. Two are recursion on a number: `rounds` of forwarding counts the
-- attempts that are left, which is the range of the source's `for`; `digits` has fuel for ten digits,
-- which is enough for the ports and counts below 2 ^ 32 that are printed.
--
-- A drain has no fuel: its steps are events, and a measure of the work that is left bounds them.
--
-- Not modelled: the set-up of the log in main.rs; the inside of a connection, which is hyper's and
-- rustls' code, so that a connection is a task with stages, and a request in flight has no connection;
-- the client and server of argon.config.rs, which tonic_build writes; log output; the control plane,
-- which is another program in Go. Parsers of URIs, headers, PEM and keys, the transport of tonic, the
-- bodies of http-body-util, the generator of certificates, the environment and whether tokio builds its
-- runtime are parameters; of tokio's `Notify`, what is documented is written out.
pub mod Prelude
pub mod Text
pub mod HashMap
pub mod Atomics
pub mod Sort
pub mod Config
pub mod Route
pub mod Auth
pub mod Rewrites
pub mod Cluster
pub mod Table
pub mod Decimal
pub mod Http
pub mod Utils
pub mod Proxy
pub mod Certs
pub mod Grpc
pub mod Listener
pub mod Process
pub mod Startup
pub mod Serving
pub mod InFlight
pub mod DataPlane
pub mod Boot
pub mod Admin
pub mod ClientPool
pub mod Tests
