-- ===== src/HttpProxy/CacheWrite/Writer.antt =====
-- Every step of the writer keeps what `Agrees` states.
use mathlib.Core.List.{append_assoc}
use http_cache.HttpProxy.CacheWrite.Streams.{Stream, Agrees, joined, fits}
use http_cache.Prelude.{
  List, [], ◌∷◌, ◌++◌, some, none, Bool, true, false, length, arith, refl, ◌≡◌, ℕ, ◌%◌,
  if◌then◌else◌, length-append, ◌+◌,
}
use http_cache.Prelude.Words.{u64_mod}
use http_cache.Body.{Bytes}
use http_cache.HttpProxy.CacheWrite.{
  Phase, Pipeline, Settings, starting, receiving, checking, awaiting, discarded, committed,
  run_writer, resume, commit, receive, write_chunk,
}

grown :
    (size written chunk : ℕ)
    → size ≡ written % u64_mod
    → (size + chunk) % u64_mod ≡ (written + chunk) % u64_mod
grown size written chunk e = omega arith

choose :
    (settings : Settings) (s : Stream) (b : Bool) (p q : Pipeline)
    → (b ≡ true → Agrees settings p s)
    → (b ≡ false → Agrees settings q s)
    → Agrees settings (if b then p else q) s
choose settings s true p q f g = f refl
choose settings s false p q f g = g refl

module _ (settings : Settings) (ok : Bool) (p : Pipeline) (s : Stream)
    (a : Agrees settings p s) where
  starting-Agrees : p.phase ≡ starting → Agrees settings (resume settings ok starting p) s
  starting-Agrees at = ground arith

  checking-Agrees : p.phase ≡ checking → Agrees settings (resume settings ok checking p) s
  checking-Agrees at = ground arith

  commit-Agrees :
      p.phase ≡ awaiting
      → fits settings.content_length p.size ≡ true
      → (settings.content_length ≡ none → p.completion ≡ some true)
      → Agrees settings (commit settings ok p) s
  unfolding commit
  commit-Agrees at fit done = ground arith

  awaiting-Agrees : p.phase ≡ awaiting → Agrees settings (resume settings ok awaiting p) s
  unfolding commit
  awaiting-Agrees at = ground arith

  idle-Agrees : p.queue ≡ [] → p.phase ≡ receiving → Agrees settings (receive settings ok [] p) s
  idle-Agrees none_left at = ground arith

  -- The four outcomes of a round.
  module _ (chunk : Bytes) (rest : List Bytes) where
    abbrev stopped : Pipeline
    stopped = record p { queue = rest; phase = checking }

    abbrev outgrown : Pipeline
    outgrown = record p { queue = rest; abort_flag = true; phase = checking }

    abbrev grown_size : ℕ
    grown_size = (p.size + length chunk) % u64_mod

    abbrev wrote : Pipeline
    wrote = record p { queue = rest; size = grown_size; written = p.written ++ chunk }

    abbrev broken : Pipeline
    broken = record p { queue = rest; size = grown_size; abort_flag = true; phase = discarded }

    wrote-Agrees : p.queue ≡ chunk ∷ rest → p.phase ≡ receiving → Agrees settings wrote s
    unfolding joined
    wrote-Agrees front at = ground (
      arith,
      append_assoc p.written chunk (joined rest),
      length-append p.written chunk,
      grown p.size (length p.written) (length chunk),
    )

    write_chunk-Agrees :
        p.queue ≡ chunk ∷ rest
        → p.phase ≡ receiving
        → Agrees settings (receive settings ok (chunk ∷ rest) p) s
    unfolding write_chunk
    write_chunk-Agrees front at =
        choose settings s p.abort_flag stopped _ (λ e. ground arith)
          (λ e.
            choose settings s _ outgrown _ (λ f. ground arith)
              (λ f.
                choose settings s ok wrote broken (λ g. wrote-Agrees front at) (λ g. ground arith)))

  receive-Agrees :
      (queue : List Bytes)
      → p.queue ≡ queue
      → p.phase ≡ receiving
      → Agrees settings (receive settings ok queue p) s
  receive-Agrees [] front at = idle-Agrees front at
  receive-Agrees (chunk ∷ rest) front at = write_chunk-Agrees chunk rest front at

  resume-Agrees : (phase : Phase) → p.phase ≡ phase → Agrees settings (resume settings ok phase p) s
  resume-Agrees starting at = starting-Agrees at
  resume-Agrees receiving at = receive-Agrees p.queue refl at
  resume-Agrees checking at = checking-Agrees at
  resume-Agrees awaiting at = awaiting-Agrees at
  resume-Agrees discarded at = a
  resume-Agrees committed at = a

  pub run_writer-Agrees : Agrees settings (run_writer settings ok p) s
  unfolding run_writer
  run_writer-Agrees = resume-Agrees p.phase refl
