-- ===== src/HttpProxy/CacheWrite/Streams.antt =====
-- The tee and the writer of src/http_proxy/cache_pipeline.rs as one sequence of events, and what the
-- reader of the body sees of it.
use http_cache.Prelude.{◌⊎◌, ◌==◌}
use mathlib.Core.List.{append_assoc, append-nil}
use http_cache.Prelude.{
  List, [], ◌∷◌, ◌++◌, Option, some, none, Bool, true, false, not, ◌||◌, is_some, length, sym, ap,
  ◌≡◌, ◌∙◌, ℕ, ◌≤◌, ◌<◌, ◌%◌, if◌then◌else◌,
}
use http_cache.Prelude.Words.{u64_mod}
use http_cache.Body.{Bytes, Poll, ready_frame, ready_err, ready_none, pending, data_ref}
use http_cache.Errors.{ProxyError}
use http_cache.HttpProxy.CacheWrite.{
  Sent, Phase, Pipeline, Settings, checking, awaiting, committed, poll_frame, drop_tee, run_writer,
}

pub data Event (E : Type 0) : Type 0 where
  polled : Sent → Poll E → Event E
  dropped : Event E
  resumed : Bool → Event E

-- The body as its reader sees it, and how it ended: `true` at its end, `false` at an error or when
-- it was dropped.
pub record Stream : Type 0 where
  pub bytes : Bytes
  pub ended : Option Bool

abbrev pub begun : Stream
begun = record { bytes = []; ended = none }

abbrev pub see_bytes : Option Bytes → Stream → Stream
see_bytes none s = s
see_bytes (some chunk) s = record s { bytes = s.bytes ++ chunk }

abbrev pub see : {E : Type 0} → Event E → Stream → Stream
see (polled sent (ready_frame frame)) s = see_bytes (data_ref frame) s
see (polled sent (ready_err e)) s = record s { ended = some false }
see (polled sent ready_none) s = record s { ended = some true }
see (polled sent pending) s = s
see dropped s = record s { ended = some false }
see (resumed ok) s = s

-- Nothing that comes after the end is part of the body.
unfoldable pub observe : {E : Type 0} → Event E → Stream → Stream
observe event s = if is_some s.ended then s else see event s

unfoldable pub observe_all : {E : Type 0} → List (Event E) → Stream → Stream
observe_all [] s = s
observe_all (event ∷ events) s = observe_all events (observe event s)

unfoldable pub joined : List Bytes → Bytes
joined [] = []
joined (chunk ∷ chunks) = chunk ++ joined chunks

pub joined-append :
    (chunks : List Bytes) (chunk : Bytes) → joined (chunks ++ (chunk ∷ [])) ≡ joined chunks ++ chunk
unfolding joined
joined-append [] chunk = append-nil chunk
joined-append (c ∷ chunks) chunk =
    ap (λ t. c ++ t) (joined-append chunks chunk) ∙ sym (append_assoc c (joined chunks) chunk)

abbrev pub fits : Option ℕ → ℕ → Bool
fits none size = true
fits (some expected) size = size == expected

-- The writer has passed its test of the abort flag.
abbrev pub settled : Phase → Bool
settled awaiting = true
settled committed = true
settled _ = false

abbrev pub intact : Pipeline → Bool
intact p = not p.abort_flag || settled p.phase

abbrev pub past_loop : Phase → Bool
past_loop checking = true
past_loop phase = settled phase

module _ {E : Type 0} (from : E → ProxyError) (settings : Settings) where
  open settings use {content_length, max_object_size_bytes, require_content_length}

  unfoldable pub step : Event E → Pipeline → Pipeline
  unfolding poll_frame drop_tee run_writer
  step (polled sent poll) p = (poll_frame from sent poll p).0
  step dropped p = drop_tee p
  step (resumed ok) p = run_writer settings ok p

  unfoldable pub steps : List (Event E) → Pipeline → Pipeline
  steps [] p = p
  steps (event ∷ events) p = steps events (step event p)

-- How the two tasks stand to what the reader saw: while nothing was given up, what was written and
-- what waits in the channel are the bytes seen; the sender is held until the end of the body; a
-- completion says how the body ended; behind the loop the channel is empty; the size counts what
-- was written, while nothing was given up; and a committed writer has passed its tests.
abbrev pub Agrees : Settings → Pipeline → Stream → Type 0
Agrees settings p s =
    (intact p ≡ true → s.bytes ≡ p.written ++ joined p.queue)
    × (p.completion_tx ≡ p.tx)
    × (p.tx ≡ true → s.ended ≡ none)
    × (intact p ≡ true → p.tx ≡ false → is_some s.ended ≡ true)
    × ((p.completion ≡ none) ⊎ (s.ended ≡ p.completion))
    × (past_loop p.phase ≡ true → intact p ≡ true → (p.queue ≡ []) × (p.tx ≡ false))
    × (intact p ≡ true → p.size ≡ length p.written % u64_mod)
    × (p.phase ≡ committed → fits settings.content_length p.size ≡ true)
    × (p.phase ≡ committed → settings.content_length ≡ none → p.completion ≡ some true)
    × (p.phase ≡ committed
        → 0 < settings.max_object_size_bytes
        → p.size ≤ settings.max_object_size_bytes)
    × (settled p.phase ≡ true
        → settings.require_content_length ≡ true
        → is_some settings.content_length ≡ true)
