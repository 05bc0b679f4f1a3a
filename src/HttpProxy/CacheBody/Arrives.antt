-- ===== src/HttpProxy/CacheBody/Arrives.antt =====
-- The writer of src/http_proxy/cache_pipeline.rs, over its files, commits a body that arrives without
-- trouble.
use http_cache.Cache.World.{World}
use http_cache.HttpProxy.Committing.{Job, commit_amid}
use http_cache.Cache.Backend.{sqlite_cache}
use http_cache.Cache.Sqlite.{Json, Order, SqliteCache}
use http_cache.Errors.{ProxyError}
use http_cache.HttpProxy.CacheBody.Runs.{Event, takes_turn, step, steps}
use http_cache.HttpProxy.CacheWrite.Commits.{Admits}
use http_cache.HttpProxy.CacheWrite.Streams.{joined}
use http_cache.HttpProxy.CacheWrite.{awaiting, committed, Settings, Pipeline}
use http_cache.HttpProxy.CacheBody.{turn, open_temp, create, Caching}
use http_cache.Body.{Bytes}
use mathlib.Core.List.{append_assoc, append-nil}
use http_cache.HttpProxy.CacheBody.{finish_file}
use http_cache.HttpProxy.Committing.Placed.{commit_amid_succeeds}
use http_cache.Errors.{ok}
use http_cache.Cache.World.{Row}
use http_cache.HttpProxy.CacheBody.{settle}
use http_cache.HttpProxy.CacheBody.{phase_of}
use http_cache.HttpProxy.CacheBody.Served.{begins}
use http_cache.HttpProxy.CacheWrite.Streams.{begun, observe}
use http_cache.HttpProxy.CacheBody.Simulated.{observed_all, observed}
use http_cache.Prelude.{
  ◌∙◌, ltb, ◌&&◌, ◌==◌, false, ap, Option, sym, ◌≡◌, ◌⊎◌, ◌≤◌, ◌++◌, [], ◌∷◌, length, arith, refl,
  true, none, some, List, false, ℕ,
}
use http_cache.HttpProxy.CacheBody.Arriving.{IsBetween, IsWaiting, at_end, arriving, arrived}

module _ {E : Type 0} (from : E → ProxyError) (json : Json) (order : Order) (cache : SqliteCache)
    (job : Job) (settings : Settings) where
  finishes :
      (written : Bytes) (p : Pipeline) (w : World)
      → p.written ≡ written
      → p.size ≡ length written
      → (settings.max_object_size_bytes ≡ 0) ⊎ (length written ≤ settings.max_object_size_bytes)
      → (commit_amid json order (sqlite_cache cache) job written (length written) w).0 ≡ ok true
      → (finish_file json order (sqlite_cache cache) job settings p w).pipeline.phase ≡ committed
  unfolding finish_file
  finishes written p w e f within done =
      let small : (ltb 0 settings.max_object_size_bytes
            && ltb settings.max_object_size_bytes p.size)
          ≡ false =
        ground arith in
      let done' : (commit_amid json order (sqlite_cache cache) job p.written p.size w).0 ≡ ok true =
        rw (e, f) done in
      rw small (ap phase_of done')

  settles :
      (announced : Option ℕ) (p : Pipeline) (w : World)
      → (announced ≡ some p.size) ⊎ (announced ≡ none)
      → (finish_file json order (sqlite_cache cache) job settings p w).pipeline.phase ≡ committed
      → (settle json order (sqlite_cache cache) job settings true announced p w).pipeline.phase
        ≡ committed
  settles none p w known done = done
  settles (some n) p w known done = let met : (p.size == n) ≡ true = ground arith in rw met done

  -- The last turn: the commit.
  commits :
      (held written : Bytes) (rows : List Row) (c : Caching)
      → IsWaiting from json order (sqlite_cache cache) job settings rows written c
      → Admits settings (length written)
      → (turn json order (sqlite_cache cache) job settings held c.pipeline c.world).pipeline.phase
        ≡ committed
  unfolding turn
  commits held written rows c s admits =
      let p = at_end from json order (sqlite_cache cache) job settings written in
      rw s.pipeline (
        settles settings.content_length p c.world (ground (arith, admits.announced)) (
          finishes written p c.world refl refl admits.within
            (commit_amid_succeeds json order cache job written (length written) c.world s.calm)))

  -- The whole of such a body, from the creation of the file.
  abbrev pub whole_run : Bytes → List Bytes → List (Event E)
  whole_run held chunks = takes_turn held ∷ arriving held chunks

  begun-IsBetween :
      (held : Bytes) (w : World)
      → w.faults ≡ []
      → IsBetween w.rows []
          (step from json order (sqlite_cache cache) job settings (takes_turn held) (begins w))
  unfolding step turn open_temp create
  begun-IsBetween held w calm = rw calm (record { pipeline = refl; calm = refl; table = refl })

  -- A body whose chunks are all taken by the channel, and which ends cleanly, is committed with its
  -- file and its row, if no call fails and the settings admit its size.
  pub whole_run-commits :
      (held : Bytes) (chunks : List Bytes) (w : World)
      → let c =
          steps from json order
            (sqlite_cache cache)
            job
            settings
            (whole_run held chunks)
            (begins w) in
        w.faults ≡ []
        → Admits settings (length (joined chunks))
        → (c.pipeline.phase ≡ awaiting)
          × (c.pipeline.size ≡ length (joined chunks))
          × (c.world.rows ≡ w.rows)
          × ((turn json order
                (sqlite_cache cache)
                job
                settings
                held
                c.pipeline
                c.world).pipeline.phase
              ≡ committed)
  unfolding steps
  whole_run-commits held chunks w calm admits =
      let waits =
        arrived from json order (sqlite_cache cache) job settings held chunks [] w.rows _
          (begun-IsBetween held w calm) admits in
      (
        ap (λ (p : Pipeline). p.phase) waits.pipeline,
        ap (λ (p : Pipeline). p.size) waits.pipeline,
        waits.table,
        commits held (joined chunks) w.rows _ waits admits,
      )

  seen_after :
      (held : Bytes) (chunks : List Bytes) (seen : Bytes)
      → (observed_all {E = E} (arriving held chunks) (record { bytes = seen; ended = none })).bytes
        ≡ seen ++ joined chunks
  unfolding observed_all observed observe arriving joined
  seen_after held [] seen = sym (append-nil seen)
  seen_after held (chunk ∷ chunks) seen =
      seen_after held chunks (seen ++ chunk) ∙ append_assoc seen chunk (joined chunks)

  pub whole_run-seen :
      (held : Bytes) (chunks : List Bytes)
      → (observed_all {E = E} (whole_run held chunks) begun).bytes ≡ joined chunks
  unfolding observed_all observed
  whole_run-seen held chunks = seen_after held chunks []
