-- ===== src/HttpProxy/CacheBody/Simulated.antt =====
-- The writer of src/http_proxy/cache_pipeline.rs with its files does what CacheWrite says of it, with
-- the outcome of each call for what CacheWrite leaves open.
use http_cache.Errors.{Result, ok, err, ProxyError}
use http_cache.Body.{Bytes}
use http_cache.Cache.World.{World, succeeds}
use http_cache.HttpProxy.Committing.{Job, commit_amid}
use http_cache.Cache.Backend.{Cache}
use http_cache.Cache.Sqlite.{Json, Order}
use http_cache.HttpProxy.CacheWrite.{
  Pipeline, Phase, starting, receiving, checking, awaiting, discarded, committed, resume, receive,
  write_chunk, decide, commit, await_completion, run_writer, Settings,
}
use http_cache.HttpProxy.CacheBody.Runs.{Event, polled, dropped, takes_turn, elsewhere, step, steps}
use http_cache.HttpProxy.CacheWrite.Streams
use http_cache.HttpProxy.CacheWrite.Streams.{Stream, observe, observe_all}
use http_cache.HttpProxy.CacheBody.{
  turn_at, turn, receive_chunk, take_chunk, open_temp, test_abort, await_end, settle, finish_file,
  remove_temp, phase_of, pass, Caching,
}
use http_cache.Prelude.{
  is_some, ◌∙◌, ap, ◌==◌, [], ◌∷◌, Bool, true, false, Bool-cases, inl, inr, ◌&&◌, refl, arith,
  if◌then◌else◌, ltb, ◌≡◌, List, none, some, Option, ℕ,
}

module _ (json : Json) (order : Order) (cache : Cache) (job : Job) (settings : Settings) where
  open settings use {max_object_size_bytes}

  -- One outcome of its calls with which the writer of CacheWrite goes the same way.
  abbrev pub Resumes : Caching → (Bool → Pipeline) → Type 0
  Resumes c outcome = (fine : Bool) × (c.pipeline ≡ outcome fine)

  opens :
      (p : Pipeline) (w : World)
      → Resumes
          (open_temp json order cache job settings p w)
          (λ fine. resume settings fine starting p)
  unfolding open_temp
  opens p w = (
    succeeds w.faults,
    elim (Bool-cases (succeeds w.faults)) [ inl fine ↦ rw fine refl | inr failed ↦ rw failed refl ],
  )

  took :
      (held chunk : Bytes) (p : Pipeline) (w : World)
      → Resumes
          (take_chunk json order cache job settings held chunk p w)
          (λ fine. write_chunk settings fine chunk p)
  unfolding take_chunk write_chunk remove_temp
  took held chunk p w = (succeeds w.faults, ground arith)

  received :
      (held : Bytes) (queue : List Bytes) (p : Pipeline) (w : World)
      → Resumes
          (receive_chunk json order cache job settings held queue p w)
          (λ fine. receive settings fine queue p)
  received held [] p w = (true, refl)
  received held (chunk ∷ rest) p w = took held chunk (record p { queue = rest }) w

  tested :
      (p : Pipeline) (w : World)
      → Resumes
          (test_abort json order cache job settings p w)
          (λ fine. resume settings fine checking p)
  unfolding test_abort remove_temp
  tested p w = (true, ground arith)

  abbrev kept : Result Bool → Bool
  kept (ok done) = done
  kept (err e) = false

  ended_as :
      (p : Pipeline) (too_large : Bool) (r : Result Bool) (w w' : World)
      → (if too_large
          then remove_temp json order cache job settings p w
          else pass json order cache job settings (record p { phase = phase_of r }) w').pipeline
        ≡ (if too_large
            then record p { phase = discarded }
            else if kept r
            then record p { phase = committed }
            else record p { phase = discarded })
  unfolding remove_temp
  ended_as p true r w w' = refl
  ended_as p false (ok true) w w' = refl
  ended_as p false (ok false) w w' = refl
  ended_as p false (err e) w w' = refl

  finished :
      (p : Pipeline) (w : World)
      → Resumes (finish_file json order cache job settings p w) (λ fine. commit settings fine p)
  unfolding finish_file commit
  finished p w =
      let (r, w') = commit_amid json order cache job p.written p.size w in
      (kept r, ended_as p (ltb 0 max_object_size_bytes && ltb max_object_size_bytes p.size) r w w')

  settled :
      (clean : Bool) (announced : Option ℕ) (p : Pipeline) (w : World)
      → Resumes
          (settle json order cache job settings clean announced p w)
          (λ fine. decide settings fine clean announced p)
  unfolding remove_temp
  settled clean (some expected) p w = elim (Bool-cases (p.size == expected)) [
    | inl met ↦ rw met (finished p w)
    | inr missed ↦ rw missed (true, refl)
  ]
  settled true none p w = finished p w
  settled false none p w = (true, refl)

  unless :
      (waits : Bool) (p : Pipeline) (w : World)
      → Resumes
          (if waits
            then pass json order cache job settings p w
            else settle json order cache job settings false settings.content_length p w)
          (λ fine. if waits then p else decide settings fine false settings.content_length p)
  unless true p w = (true, refl)
  unless false p w = settled false settings.content_length p w

  awaited :
      (completion : Option Bool) (p : Pipeline) (w : World)
      → Resumes
          (await_end json order cache job settings completion p w)
          (λ fine. await_completion settings fine completion p)
  awaited (some clean) p w = settled clean settings.content_length p w
  awaited none p w = unless p.completion_tx p w

  turned :
      (phase : Phase) (held : Bytes) (p : Pipeline) (w : World)
      → Resumes
          (turn_at json order cache job settings phase held p w)
          (λ fine. resume settings fine phase p)
  turned starting held p w = opens p w
  turned receiving held p w = received held p.queue p w
  turned checking held p w = tested p w
  turned awaiting held p w = awaited p.completion p w
  turned discarded held p w = (true, refl)
  turned committed held p w = (true, refl)

  pub turn_resumes :
      (held : Bytes) (p : Pipeline) (w : World)
      → Resumes (turn json order cache job settings held p w) (λ fine. run_writer settings fine p)
  unfolding turn run_writer
  turn_resumes held p w = turned p.phase held p w

-- What the reader of the body sees of an event.
unfoldable pub observed : {E : Type 0} → Event E → Stream → Stream
observed {E} (polled sent poll) s = observe {E = E} (Streams.polled sent poll) s
observed {E} dropped s = observe {E = E} Streams.dropped s
observed (takes_turn held) s = s
observed (elsewhere rows files faults) s = s

unfoldable pub observed_all : {E : Type 0} → List (Event E) → Stream → Stream
observed_all [] s = s
observed_all (event ∷ events) s = observed_all events (observed event s)

same_stream : (E : Type 0) (fine : Bool) (s : Stream) → s ≡ observe {E = E} (Streams.resumed fine) s
unfolding observe
same_stream E fine s = elim (Bool-cases (is_some s.ended)) [
  | inl over ↦ rw over refl
  | inr going ↦ rw going refl
]

module _ {E : Type 0} (from : E → ProxyError) (json : Json) (order : Order) (cache : Cache)
    (job : Job) (settings : Settings) where
  -- A run of CacheWrite that ends in the same pipeline, and shows the reader the same.
  pub record Simulates (events : List (Event E)) (c : Caching) : Type 0 where
    pub abstract : List (Streams.Event E)
    pub pipeline :
        (steps from json order cache job settings events c).pipeline
        ≡ Streams.steps from settings abstract c.pipeline
    pub stream : (s : Stream) → observed_all events s ≡ observe_all abstract s

  -- Every run of the two tasks over the files and the cache is a run of CacheWrite: it ends in the
  -- same pipeline, and shows the reader the same.
  pub steps-Simulates : (events : List (Event E)) (c : Caching) → Simulates events c
  unfolding steps step observed observed_all observe_all Streams.steps Streams.step
  steps-Simulates [] c = record { abstract = []; pipeline = refl; stream = λ s. refl }
  steps-Simulates (polled sent poll ∷ events) c =
      let next =
        steps-Simulates events (step from json order cache job settings (polled sent poll) c) in
      record {
        abstract = Streams.polled sent poll ∷ next.abstract;
        pipeline = next.pipeline;
        stream = λ s. next.stream (observe (Streams.polled sent poll) s);
      }
  steps-Simulates (dropped ∷ events) c =
      let next = steps-Simulates events (step from json order cache job settings dropped c) in
      record {
        abstract = Streams.dropped ∷ next.abstract;
        pipeline = next.pipeline;
        stream = λ s. next.stream (observe Streams.dropped s);
      }
  steps-Simulates (takes_turn held ∷ events) c =
      let next =
        steps-Simulates events (step from json order cache job settings (takes_turn held) c) in
      let (fine, same) = turn_resumes json order cache job settings held c.pipeline c.world in
      record {
        abstract = Streams.resumed fine ∷ next.abstract;
        pipeline = next.pipeline ∙ ap (Streams.steps from settings next.abstract) same;
        stream = λ s. next.stream s ∙ ap (observe_all next.abstract) (same_stream E fine s);
      }
  steps-Simulates (elsewhere rows files faults ∷ events) c =
      let next =
        steps-Simulates events
          (step from json order cache job settings (elsewhere rows files faults) c) in
      record { abstract = next.abstract; pipeline = next.pipeline; stream = next.stream }
