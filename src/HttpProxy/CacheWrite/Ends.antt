-- ===== src/HttpProxy/CacheWrite/Ends.antt =====
-- The writer of src/http_proxy/cache_pipeline.rs does not wait for ever: once the tee is gone, it
-- ends, and with it the permit that it holds is given back.
use http_cache.Body.{Bytes}
use http_cache.Errors.{ProxyError}
use http_cache.Prelude.{
  refl, none, some, [], ◌∷◌, inl, inr, false, ◌≡◌, ℕ, Bool, ◌⊎◌, ◌+◌, length, arith, ◌≤◌, Option,
  List, ◌-◌, map, ap,
}
use http_cache.HttpProxy.CacheWrite.Streams.{step, resumed, dropped, steps}
use http_cache.HttpProxy.CacheWrite.{
  Phase, Pipeline, Settings, starting, receiving, checking, awaiting, discarded, committed,
  drop_tee, finish, run_writer, resume, receive, write_chunk, commit, await_completion, decide,
}

abbrev pub HasEnded : Phase → Type 0
HasEnded phase = (phase ≡ discarded) ⊎ (phase ≡ committed)

-- How often the writer is resumed at most, when the tee is gone.
abbrev turns : Phase → ℕ → ℕ
turns starting chunks = chunks + 4
turns receiving chunks = chunks + 3
turns checking chunks = 2
turns awaiting chunks = 1
turns discarded chunks = 0
turns committed chunks = 0

abbrev turns_left : Pipeline → ℕ
turns_left p = turns p.phase (length p.queue)

abbrev IsAlone : Pipeline → Type 0
IsAlone p = (p.tx ≡ false) × (p.completion_tx ≡ false)

drop_tee-IsAlone : (p : Pipeline) → IsAlone (drop_tee p) × ((drop_tee p).queue ≡ p.queue)
unfolding drop_tee finish
drop_tee-IsAlone p = ground arith

module _ (settings : Settings) (ok : Bool) where
  -- A turn of a writer that is left alone leaves it so, and one turn fewer.
  abbrev Advances : ℕ → Pipeline → Type 0
  Advances turns p = IsAlone p × (turns_left p ≤ turns - 1)

  commit-Advances : (p : Pipeline) → IsAlone p → Advances 1 (commit settings ok p)
  unfolding commit
  commit-Advances p alone = ground arith

  decide-Advances :
      (clean : Bool) (expected : Option ℕ) (p : Pipeline)
      → IsAlone p
      → Advances 1 (decide settings ok clean expected p)
  decide-Advances clean expected p alone = ground (arith, commit-Advances p alone)

  await-Advances :
      (completion : Option Bool) (p : Pipeline)
      → IsAlone p
      → Advances 1 (await_completion settings ok completion p)
  await-Advances (some clean) p alone = decide-Advances clean settings.content_length p alone
  await-Advances none p alone =
      ground (arith, decide-Advances false settings.content_length p alone)

  write_chunk-Advances :
      (chunk : Bytes) (p : Pipeline)
      → IsAlone p
      → p.phase ≡ receiving
      → Advances (length p.queue + 4) (write_chunk settings ok chunk p)
  unfolding write_chunk
  write_chunk-Advances chunk p alone at = ground arith

  receive-Advances :
      (queue : List Bytes) (p : Pipeline)
      → IsAlone p
      → p.phase ≡ receiving
      → Advances (length queue + 3) (receive settings ok queue p)
  receive-Advances [] p alone at = ground arith
  receive-Advances (chunk ∷ rest) p alone at =
      let (still, fewer) = write_chunk-Advances chunk (record p { queue = rest }) alone at in
      (still, omega arith)

  resume-Advances :
      (phase : Phase) (p : Pipeline)
      → IsAlone p
      → p.phase ≡ phase
      → Advances (turns phase (length p.queue)) (resume settings ok phase p)
  resume-Advances starting p alone at = ground arith
  resume-Advances receiving p alone at = receive-Advances p.queue p alone at
  resume-Advances checking p alone at = ground arith
  resume-Advances awaiting p alone at = await-Advances p.completion p alone
  resume-Advances discarded p alone at = ground arith
  resume-Advances committed p alone at = ground arith

  run_writer-Advances :
      (p : Pipeline) → IsAlone p → Advances (turns_left p) (run_writer settings ok p)
  unfolding run_writer
  run_writer-Advances p alone = resume-Advances p.phase p alone refl

ended : (phase : Phase) (chunks : ℕ) → turns phase chunks ≤ 0 → HasEnded phase
ended starting chunks h = absurd (omega arith)
ended receiving chunks h = absurd (omega arith)
ended checking chunks h = absurd (omega arith)
ended awaiting chunks h = absurd (omega arith)
ended discarded chunks h = inl refl
ended committed chunks h = inr refl

at_most : (phase : Phase) (chunks : ℕ) → turns phase chunks ≤ chunks + 4
at_most phase chunks = ground arith

module _ {E : Type 0} (from : E → ProxyError) (settings : Settings) where
  resumed-HasEnded :
      (oks : List Bool) (p : Pipeline)
      → IsAlone p
      → turns_left p ≤ length oks
      → HasEnded (steps from settings (map resumed oks) p).phase
  unfolding steps step
  resumed-HasEnded [] p alone enough = ended p.phase (length p.queue) enough
  resumed-HasEnded (ok ∷ oks) p alone enough =
      let (still, fewer) = run_writer-Advances settings ok p alone in
      resumed-HasEnded oks (run_writer settings ok p) still (omega arith)

  -- Wherever the tee and the writer stand when the tee is dropped, the writer ends: it has committed
  -- or discarded after at most four more turns than there are chunks left in the channel, whichever
  -- of its file and store calls succeed.
  pub dropped-HasEnded :
      (oks : List Bool) (p : Pipeline)
      → length p.queue + 4 ≤ length oks
      → HasEnded (steps from settings (dropped ∷ map resumed oks) p).phase
  unfolding steps step
  dropped-HasEnded oks p enough =
      let (alone, same) = drop_tee-IsAlone p in
      let bound = at_most (drop_tee p).phase (length (drop_tee p).queue) in
      let e : length (drop_tee p).queue ≡ length p.queue = ap length same in
      resumed-HasEnded oks (drop_tee p) alone (omega arith)
