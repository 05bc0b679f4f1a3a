-- ===== src/Lib.antt =====
-- httpcache, a forward HTTP proxy with a response cache: its parts as functions, and what holds of
-- them.
--
-- The program. `src/main.rs` loads a configuration (`src/config.rs`) and starts the listener of
-- `src/server.rs`. Each request first passes the limits of `src/server.rs`, among them the rate
-- limiter, and then goes to `src/connect_tunnel.rs`, if it is a CONNECT, or to
-- `src/http_proxy/mod.rs`. There the policy (`src/policy.rs`) is asked, the cache (`src/cache.rs`) is
-- looked up, and, on a miss, the request is sent upstream with its body under a limit and without
-- its hop-by-hop headers (`src/headers.rs`). A response that may be kept, by
-- `src/http_proxy/headers.rs`, is passed on through a tee that copies it to a writer task
-- (`src/http_proxy/cache_pipeline.rs`), which stores it in the cache. Errors are those of
-- `src/errors.rs`.
--
-- The files.
--   Prelude            shared names; text as code points, machine words, decimal numbers, lists
--   Errors             `src/errors.rs`: `ProxyError`, its status codes and its `Display` form
--   Config             `src/config.rs`: the records and defaults; Config/Validation has `load` and
--                      `validate`, Config/Warnings has `startup_warnings`
--   Policy             `src/policy.rs`: `PolicyEngine::new` and `check`; Policy/Domains is on the
--                      patterns, Policy/Decisions on the decision
--   Headers            `src/headers.rs`: `strip_hop_by_hop`, and the interface `HeaderLib` of hyper's
--                      header maps; Headers/Hops is on what is removed and kept
--   Body               what one poll of a body yields
--   Network            the connections that the two handlers open; Network/Permitted says what is
--                      claimed of each
--   Connect            `src/connect_tunnel.rs`: `handle_connect` and the ends of its task
--   Server             `src/server.rs`: RateLimit is `IpRateLimiter::allow`, Admission
--                      `enforce_request_limits`, Redaction `redact_headers_for_logging`, Requests
--                      `AppState` and `handle_request`, TimedBody the wrapper of a response's body,
--                      Listener the accept loop and its semaphore, Startup `run` as far as that loop
--   Obs                `src/obs.rs`: `init_tracing` and `TeeWriter`
--   HttpProxy          `src/http_proxy`: LimitedBody is the request body of `mod.rs`; Expiry is
--                      `compute_expiry` and `parse_content_length` of `headers.rs`; Stored is
--                      `headers_for_storage` there and `cached_response` of `cache_pipeline.rs`;
--                      CacheWrite is `TeeBody` and the writer of `cache_body`; Upstream is
--                      `rewrite_absolute_form` of `upstream.rs`; Handler is `handle_http` of `mod.rs`
--                      as far as the connection to the upstream, Storing what is stored of the
--                      response, with the write permits of `cache_pipeline.rs`, Forwarding the
--                      whole of `handle_http`, Committing the end of the cache writer with its files,
--                      CacheBody the writer with its files from the start, Reuse a stored response from
--                      one request to the next
--   Cache              `src/cache.rs`: entries, keys, time stamps; World is the store that operations
--                      change, Table the SQL statements, Sqlite the operations of `SqliteCache`,
--                      Backend the choice between it and `NoopCache`, Control the parser of
--                      Cache-Control, Ideal the specification: a map from keys to entries,
--                      Interleaved a lookup among the statements of other operations
--   Tests              inputs at which the theorems apply; UnitTests has the unit tests of the files,
--                      as what they assert of the definitions
--
-- The cache's state. `Cache.World.World` holds the rows of `cache_entries`, the files by path, and a
-- list of faults: every call that can fail consumes its head, so a theorem over all worlds is over
-- every choice of failing calls. A world without faults is called calm. `Sqlite.get`, `store` and
-- `delete` are the methods of `SqliteCache` with the calls of rusqlite, tokio and the file system in
-- their order, as one step; `Interleaved.advance` takes a lookup apart into the tasks it runs, and
-- Interleaved/Alone shows that these put together are `Sqlite.get`. `ORDER BY last_access ASC`
-- leaves the order of equal times open: `Order` is any function that permutes the rows and sorts
-- them. The time is an argument, `none` when the clock shows a time before 1970.
--
-- A request's state. `Forwarding.Shared` is what requests share besides the rate limiter: the cache's
-- world, the keys of the write permits, and the addresses that were tried, which no code reads and
-- which say what was done on the network. `Server.Requests.Proxy` adds the rate limiter. One request
-- is handled at a time; what the network answers to it is a parameter, arbitrary per address. The
-- clock is an argument at each of its readings.
--
-- The writer's state. `CacheWrite.Pipeline` holds what the tee and the writer share (the chunks on
-- their way, the two senders, the completion, the abort flag) and the writer's position and locals.
-- `run_writer` goes as far as the next wait, so that an event sequence is an interleaving at the
-- waits; what `try_send` answers and whether the file and store calls succeed is chosen by the
-- event. What the reader of the body saw is kept apart from it, in `Streams.Stream`.
-- `CacheBody.Caching` is the same pipeline with the world: `CacheBody.turn` takes the outcome of each
-- call from the faults, `Runs.elsewhere` is what the rest of the program changes in between, and
-- CacheBody/Simulated shows that its runs are runs of CacheWrite. The flush, the rename and the store
-- of a commit are awaited one by one: `Committing.Gap` is what comes between two of them, any change
-- of rows and files but of the temporary file, and `Committing.commit_amid` the commit with two such
-- gaps, which stand in the writer's `Job`. `Committing.commit_files` is the commit with nothing in
-- between; Committing/Placed shows that it is `commit_amid` where the rest of the program keeps still.
--
-- The listener's state. `Server.Listener` counts the connections that wait for a permit, those in the
-- hands of `handle_connection`, and the tunnels: hyper's connection ends at the upgrade of a CONNECT,
-- its permit is free from there, and the tunnel goes on in a task of its own.
--
-- The permits of the writer. `HttpProxy.Storing` has the set of keys behind the permits, and
-- Storing/Permits the permits that live, with the calls that ask for one and give one back.
--
-- Parameters. `HeaderLib` (hyper's HeaderMap, HeaderName, HeaderValue and StatusCode), `UriLib`
-- (hyper's Uri), `Network` (tokio's connect under its timeout, hyper's handshake and exchange),
-- `Json` (serde_json on header lists), `Order` (SQLite's sorting), `Sources` (the file system and the
-- TOML reader at start-up) and a reader of HTTP dates are arguments, with the laws that the program
-- relies on as fields. Tests/HeaderMaps, Tests/Headers and Tests/Fixtures build functions that meet
-- them.
--
-- Numbers. u64, usize and smaller words are natural numbers, with `saturating_add`, wrap-around and
-- the `as` casts between u64 and i64 written out (Prelude/Words); i64 is a signed integer. An IP
-- address is a number that names it. Loops are recursion on lists. The only fuel is that of
-- `to_decimal`, the number plus one, which is more than it has digits. The channel's capacity does
-- not occur: a full channel is one of the answers of `try_send`.
--
-- Not modelled. The log lines of `handle_http`, `handle_connect` and the tasks that they spawn
-- (`Server.Requests.LogLine` has those of `handle_request`). hyper's serving of a connection in `handle_connection`, the byte copying of CONNECT
-- tunnels, the connection to the upstream and the builders of the tracing crates are calls of tokio,
-- hyper and tracing; the SHA-256 of `hash_key` and the UUIDs are other crates' too, and arguments
-- where they are used. Several requests at a time are covered where they meet: at the permits of
-- the listener, at the claim of a key by its writer, and at the rows, where the statements of other
-- operations run between the tasks of a lookup. Two requests are not run side by side as a whole.
-- Of the unit tests the one that reads TOML is left out, and the tests under tests/, which run the
-- whole program over sockets.
pub mod Prelude
pub mod Errors
pub mod Config
pub mod Policy
pub mod Server
pub mod Body
pub mod Headers
pub mod HttpProxy
pub mod Cache
pub mod Tests
pub mod Network
pub mod Connect
pub mod Obs
