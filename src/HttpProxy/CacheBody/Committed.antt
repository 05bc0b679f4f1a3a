-- ===== src/HttpProxy/CacheBody/Committed.antt =====
-- What is in place when the writer of src/http_proxy/cache_pipeline.rs has committed, and what a hit
-- then sends.
use http_cache.Body.{Bytes}
use http_cache.Errors.{Result, ok, err}
use http_cache.Cache.World.{World}
use http_cache.HttpProxy.Committing.{Job, commit_amid}
use http_cache.Cache.Backend.{Cache}
use http_cache.Cache.Sqlite.{Json, Order}
use http_cache.HttpProxy.CacheWrite.{
  Pipeline, Phase, starting, receiving, checking, awaiting, discarded, committed, Settings,
}
use http_cache.HttpProxy.CacheBody.{
  turn_at, turn, receive_chunk, take_chunk, open_temp, test_abort, await_end, settle, finish_file,
  remove_temp, phase_of, pass, Caching,
}
use http_cache.Prelude.{
  ◌≢◌, ◌==◌, [], ◌∷◌, Bool, true, false, Bool-cases, inl, inr, ◌&&◌, refl, arith, if◌then◌else◌,
  ltb, none, some, Option, ◌≡◌, ℕ, List,
}

module _ (json : Json) (order : Order) (cache : Cache) (job : Job) (settings : Settings) where
  open settings use {max_object_size_bytes}

  -- The turn in which the writer commits is a commit of its files that succeeds.
  pub record HasCommitted (p : Pipeline) (w : World) (c : Caching) : Type 0 where
    pub done : (commit_amid json order cache job p.written p.size w).0 ≡ ok true
    pub world : c.world ≡ (commit_amid json order cache job p.written p.size w).1
    pub written : c.pipeline.written ≡ p.written
    pub size : c.pipeline.size ≡ p.size

  committed_ok : (r : Result Bool) → phase_of r ≡ committed → r ≡ ok true
  committed_ok (ok true) h = refl
  committed_ok (ok false) h = cc
  committed_ok (err e) h = cc

  remove_temp-phase :
      {A : Type 0} (p : Pipeline) (w : World)
      → (remove_temp json order cache job settings p w).pipeline.phase ≡ committed
      → A
  unfolding remove_temp
  remove_temp-phase p w h = cc

  finish_file-HasCommitted :
      (p : Pipeline) (w : World)
      → (finish_file json order cache job settings p w).pipeline.phase ≡ committed
      → HasCommitted p w (finish_file json order cache job settings p w)
  unfolding finish_file
  finish_file-HasCommitted p w h =
      elim (Bool-cases (ltb 0 max_object_size_bytes && ltb max_object_size_bytes p.size)) [
        | inl too_large ↦ remove_temp-phase p w (rw too_large at h)
        | inr small ↦ rw small (record {
          done = committed_ok _ (rw small at h);
          world = refl;
          written = refl;
          size = refl;
        })
      ]

  settle-HasCommitted :
      (clean : Bool) (announced : Option ℕ) (p : Pipeline) (w : World)
      → (settle json order cache job settings clean announced p w).pipeline.phase ≡ committed
      → HasCommitted p w (settle json order cache job settings clean announced p w)
  settle-HasCommitted clean (some expected) p w h = elim (Bool-cases (p.size == expected)) [
    | inl met ↦ rw met (finish_file-HasCommitted p w (rw met at h))
    | inr missed ↦ remove_temp-phase p w (rw missed at h)
  ]
  settle-HasCommitted true none p w h = finish_file-HasCommitted p w h
  settle-HasCommitted false none p w h = remove_temp-phase p w h

  await_end-HasCommitted :
      (completion : Option Bool) (p : Pipeline) (w : World)
      → p.phase ≡ awaiting
      → (await_end json order cache job settings completion p w).pipeline.phase ≡ committed
      → HasCommitted p w (await_end json order cache job settings completion p w)
  await_end-HasCommitted (some clean) p w at_end h =
      settle-HasCommitted clean settings.content_length p w h
  await_end-HasCommitted none p w at_end h = go p.completion_tx h
    where
      go :
          (waits : Bool)
          → (if waits
              then pass json order cache job settings p w
              else settle json order cache job settings false settings.content_length p
                  w).pipeline.phase
            ≡ committed
          → HasCommitted p w (
              if waits
              then pass json order cache job settings p w
              else settle json order cache job settings false settings.content_length p w)
      go true h = cc
      go false h = settle-HasCommitted false settings.content_length p w h

  take_chunk-goes_on :
      {A : Type 0} (held chunk : Bytes) (p : Pipeline) (w : World)
      → p.phase ≡ receiving
      → (take_chunk json order cache job settings held chunk p w).pipeline.phase ≡ committed
      → A
  unfolding take_chunk remove_temp
  take_chunk-goes_on held chunk p w at_loop h = ground arith

  receive_chunk-goes_on :
      {A : Type 0} (held : Bytes) (queue : List Bytes) (p : Pipeline) (w : World)
      → p.phase ≡ receiving
      → (receive_chunk json order cache job settings held queue p w).pipeline.phase ≡ committed
      → A
  receive_chunk-goes_on held [] p w at_loop h = ground arith
  receive_chunk-goes_on held (chunk ∷ rest) p w at_loop h =
      take_chunk-goes_on held chunk (record p { queue = rest }) w at_loop h

  open_temp-goes_on :
      {A : Type 0} (p : Pipeline) (w : World)
      → (open_temp json order cache job settings p w).pipeline.phase ≡ committed
      → A
  unfolding open_temp
  open_temp-goes_on p w h = ground arith

  test_abort-goes_on :
      {A : Type 0} (p : Pipeline) (w : World)
      → (test_abort json order cache job settings p w).pipeline.phase ≡ committed
      → A
  unfolding test_abort remove_temp
  test_abort-goes_on p w h = ground arith

  turn_at-HasCommitted :
      (phase : Phase) (held : Bytes) (p : Pipeline) (w : World)
      → p.phase ≡ phase
      → p.phase ≢ committed
      → (turn_at json order cache job settings phase held p w).pipeline.phase ≡ committed
      → HasCommitted p w (turn_at json order cache job settings phase held p w)
  turn_at-HasCommitted starting held p w e new h = open_temp-goes_on p w h
  turn_at-HasCommitted receiving held p w e new h = receive_chunk-goes_on held p.queue p w e h
  turn_at-HasCommitted checking held p w e new h = test_abort-goes_on p w h
  turn_at-HasCommitted awaiting held p w e new h = await_end-HasCommitted p.completion p w e h
  turn_at-HasCommitted discarded held p w e new h = absurd (new h)
  turn_at-HasCommitted committed held p w e new h = absurd (new h)

  pub turn-HasCommitted :
      (held : Bytes) (p : Pipeline) (w : World)
      → p.phase ≢ committed
      → (turn json order cache job settings held p w).pipeline.phase ≡ committed
      → HasCommitted p w (turn json order cache job settings held p w)
  unfolding turn
  turn-HasCommitted held p w = turn_at-HasCommitted p.phase held p w refl
