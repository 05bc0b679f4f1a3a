-- ===== src/HttpProxy/CacheBody/Served.antt =====
-- From the body that the reader of src/http_proxy/cache_pipeline.rs sees, over the writer, its files
-- and the rows of src/cache.rs, to the hit of src/http_proxy/mod.rs.
use http_cache.HttpProxy.Committing.Replayed.{stored-Replays}
use http_cache.Cache.Sqlite.Lookups.{entry_of}
use http_cache.HttpProxy.Stored.Replay.{Replays}
use http_cache.HttpProxy.Handler.{look_up_cache}
use http_cache.HttpProxy.Stored.{Response}
use http_cache.Cache.{Clock, cache_key, now_unix}
use http_cache.Policy.{PolicyEngine}
use http_cache.HttpProxy.Upstream.{UriLib}
use http_cache.Headers.{HeaderLib}
use http_cache.HttpProxy.CacheBody.Committed.{turn-HasCommitted}
use http_cache.Cache.Table.{select_key}
use http_cache.HttpProxy.Committing.Placed.{commit_amid-IsPlaced, IsSpared, renamed_in}
use http_cache.Prelude.Words.{u64_mod, u64_max}
use http_cache.Body.{Bytes}
use http_cache.HttpProxy.Committing.{Job, request_of}
use http_cache.Cache.Backend.{Cache, sqlite_cache}
use http_cache.Cache.Sqlite.{Json, Order, SqliteCache, to_row}
use http_cache.Errors.{ProxyError, ok}
use http_cache.Cache.World.{World}
use http_cache.HttpProxy.CacheWrite.{Pipeline, started, committed, Settings}
use http_cache.HttpProxy.CacheWrite.Streams.{Stream, begun}
use http_cache.HttpProxy.CacheWrite.Whole.{IsWhole, steps-IsWhole}
use http_cache.HttpProxy.CacheBody.{turn, Caching}
use http_cache.HttpProxy.CacheBody.Runs.{Event, takes_turn, step, steps}
use http_cache.HttpProxy.CacheBody.Simulated.{steps-Simulates, observed_all, observed}
use http_cache.Cache.Sqlite.Calm.{calm}
use http_cache.Prelude.Decimal.{to_decimal}
use http_cache.Prelude.Int.{◌<ℤ◌}
use http_cache.Prelude.{
  codes, ◌≢◌, ◌≡◌, ◌∙◌, [], ◌∷◌, ◌++◌, some, none, false, refl, ap, sym, arith, length, ◌%◌, ◌≤◌,
  ◌<◌, List, str_eq, ℕ, Str,
}

abbrev pub begins : World → Caching
begins w = record { pipeline = started; world = w }

module _ {E : Type 0} (from : E → ProxyError) (json : Json) (order : Order) (cache : Cache)
    (job : Job) (settings : Settings) where
  -- A committed pipeline is whole, over the files as without them.
  run-IsWhole :
      (events : List (Event E)) (w : World)
      → (steps from json order cache job settings events (begins w)).pipeline.phase ≡ committed
      → IsWhole settings
          (steps from json order cache job settings events (begins w)).pipeline
          (observed_all events begun)
  run-IsWhole events w h =
      let s = steps-Simulates from json order cache job settings events (begins w) in
      let whole =
        steps-IsWhole from settings s.abstract
          (sym (ap (λ (p : Pipeline). p.phase) s.pipeline) ∙ h) in
      rw (s.pipeline, s.stream begun) whole

  steps-snoc :
      (events : List (Event E)) (event : Event E) (c : Caching)
      → steps from json order cache job settings (events ++ (event ∷ [])) c
        ≡ step from json order cache job settings event
            (steps from json order cache job settings events c)
  unfolding steps
  steps-snoc [] event c = refl
  steps-snoc (e ∷ events) event c =
      steps-snoc events event (step from json order cache job settings e c)

  observed-snoc :
      (events : List (Event E)) (held : Bytes) (s : Stream)
      → observed_all (events ++ (takes_turn held ∷ [])) s ≡ observed_all events s
  unfolding observed_all observed
  observed-snoc [] held s = refl
  observed-snoc (e ∷ events) held s = observed-snoc events held (observed e s)

  -- The same behind one more turn of the writer.
  turn-IsWhole :
      (events : List (Event E)) (held : Bytes) (w : World)
      → let c = steps from json order cache job settings events (begins w) in
        let c' = turn json order cache job settings held c.pipeline c.world in
        c'.pipeline.phase ≡ committed → IsWhole settings c'.pipeline (observed_all events begun)
  unfolding step
  turn-IsWhole events held w h =
      let last = steps-snoc events (takes_turn held) (begins w) in
      let whole =
        run-IsWhole (events ++ (takes_turn held ∷ [])) w
          (ap (λ (c : Caching). c.pipeline.phase) last ∙ h) in
      rw (last, observed-snoc events held begun) at whole

module _ {E : Type 0} (from : E → ProxyError) (json : Json) (order : Order) (cache : SqliteCache)
    (job : Job) (settings : Settings) (apart : str_eq job.final_path job.temp_path ≡ false) where
  -- What a commit leaves in the world: the bytes under the final path, and the row of the job.
  pub record IsInPlace (bytes : Bytes) (w : World) : Type 0 where
    pub file : w.files job.final_path ≡ some bytes
    pub temp : w.files job.temp_path ≡ none
    pub row :
        length bytes < u64_mod
        → select_key job.key w.rows ≡ some (to_row json (request_of job (length bytes)))

  pub turn-IsInPlace :
      (held : Bytes) (p : Pipeline) (w : World) (s : Stream)
      → let c = turn json order (sqlite_cache cache) job settings held p w in
        IsSpared json order cache job p.written p.size
          (renamed_in json order cache job p.written p.size w)
        → p.phase ≢ committed
        → c.pipeline.phase ≡ committed
        → IsWhole settings c.pipeline s
        → IsInPlace s.bytes c.world
  unfolding to_row
  turn-IsInPlace held p w s spared new h whole =
      let c = turn json order (sqlite_cache cache) job settings held p w in
      let at = turn-HasCommitted json order (sqlite_cache cache) job settings held p w new h in
      let left =
        commit_amid-IsPlaced json order cache job p.written p.size w spared apart at.done in
      let bytes : p.written ≡ s.bytes = sym at.written ∙ whole.bytes in
      let size : p.size ≡ length s.bytes % u64_mod = sym at.size ∙ whole.size in
      record {
        file = rw at.world (left.0 ∙ ap some bytes);
        temp = rw at.world left.1;
        row = λ small.
            let same : p.size ≡ length s.bytes = omega arith in
            rw at.world (left.2 ∙ ap (λ n. some (to_row json (request_of job n))) same);
      }

  module _ (lib : HeaderLib) (uris : UriLib) (policy : PolicyEngine) (max : ℕ) (clock : Clock)
      (url text : Str) (value : lib.HeaderValue) where
    -- The path of a body from the upstream to a later hit. Whatever the order in which the reader
    -- of the body and the writer run, whatever `try_send` answers, whatever the rest of the program
    -- does, also between the flush, the rename and the store of the commit, to the rows and to files
    -- other than the temporary one, and whichever calls fail: if the next turn of the writer
    -- commits, then what it committed is whole, and a GET of the same URL is answered, when no call
    -- fails from there, with the stored status, exactly the bytes that the reader saw, and a
    -- Content-Length that reads as their number. The file that the writer has renamed is still there
    -- as it was when the writer comes to its store, and no row that a limit of the table makes that
    -- store evict is the new one or names the file; the entry is still live at the GET; its status
    -- is one of HTTP; its headers and its size can be printed; and the two paths of the job are
    -- distinct.
    pub committed-Replays :
        (events : List (Event E)) (held : Bytes) (w : World)
        → let c = steps from json order (sqlite_cache cache) job settings events (begins w) in
          let c' = turn json order (sqlite_cache cache) job settings held c.pipeline c.world in
          let bytes = (observed_all events begun).bytes in
          IsSpared json order cache job c.pipeline.written c.pipeline.size
            (renamed_in json order cache job c.pipeline.written c.pipeline.size c.world)
          → c.pipeline.phase ≢ committed
          → c'.pipeline.phase ≡ committed
          → job.key ≡ cache_key (codes "GET") url
          → json.to_json job.headers ≡ some text
          → length bytes ≤ u64_max
          → now_unix clock <ℤ job.expires_at
          → 100 ≤ job.status
          → job.status < 1000
          → lib.from_str (to_decimal (length bytes)) ≡ some value
          → IsWhole settings c'.pipeline (observed_all events begun)
            × (r : Response lib) × ((look_up_cache lib uris json order
                  (sqlite_cache cache)
                  policy
                  max
                  clock
                  (codes "GET")
                  url
                  false
                  (calm c'.world.rows c'.world.files)).0
                ≡ ok (some r))
            × Replays lib (entry_of (request_of job (length bytes)) (now_unix clock)) bytes r
    committed-Replays events held w spared new h k printed small fresh low high sized =
        let c = steps from json order (sqlite_cache cache) job settings events (begins w) in
        let c' = turn json order (sqlite_cache cache) job settings held c.pipeline c.world in
        let s = observed_all events begun in
        let whole =
          turn-IsWhole from json order (sqlite_cache cache) job settings events held w h in
        let here = turn-IsInPlace held c.pipeline c.world s spared new h whole in
        let (r, sent, replays) =
          stored-Replays json order cache job s.bytes c'.world.rows c'.world.files lib uris policy
            max clock url text value c'.world.rows c'.world.files
            (rw (← k) (here.row (omega arith))) printed small fresh low high sized here.file in
        (whole, r, sent, replays)
