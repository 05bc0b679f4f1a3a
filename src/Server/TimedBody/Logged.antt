-- ===== src/Server/TimedBody/Logged.antt =====
-- What `TimedBody` of src/server.rs passes on and logs.
use http_cache.Prelude.Words.{u64_mod}
use http_cache.Errors.{ProxyError}
use http_cache.Prelude.{
  refl, [], ◌∷◌, List, Option, ℕ, map, ◌≡◌, ap, none, true, false, All, ◌+◌, ◌<◌, ◌++◌, ◌≢◌, ◌%◌,
  arith, ◌∙◌, length, some,
}
use http_cache.Server.TimedBody.{
  Completed, TimedBody, new, as_millis, or_now, note_first_byte, log_complete, poll_frame, poll_all,
}
use mathlib.Core.Option
use mathlib.Core.List.{append-nil}
use http_cache.Body.{
  Poll, ready_none, ready_frame, ready_err, pending, data_frame, trailers, payload,
}

abbrev pub outs_of : List (ℕ × Poll ProxyError) → List (Poll ProxyError)
outs_of = map (λ p. p.1)

pass_on :
    (polls : List (ℕ × Poll ProxyError)) (b : TimedBody) → (poll_all polls b).0 ≡ outs_of polls
unfolding poll_all poll_frame
pass_on [] b = refl
pass_on ((t, ready_frame f) ∷ polls) b = ap (◌∷◌ (ready_frame f)) (pass_on polls _)
pass_on ((t, ready_err e) ∷ polls) b = ap (◌∷◌ (ready_err e)) (pass_on polls _)
pass_on ((t, ready_none) ∷ polls) b = ap (◌∷◌ ready_none) (pass_on polls _)
pass_on ((t, pending) ∷ polls) b = ap (◌∷◌ pending) (pass_on polls _)

-- The end of the body is not among the polls.
abbrev pub IsUnended : List (ℕ × Poll ProxyError) → Type 0
IsUnended = All (λ p. p.1 ≢ ready_none)

-- When the first frame or error came.
abbrev pub first_of : List (ℕ × Poll ProxyError) → Option ℕ
first_of [] = none
first_of ((t, ready_frame f) ∷ polls) = some t
first_of ((t, ready_err e) ∷ polls) = some t
first_of ((t, _) ∷ polls) = first_of polls

-- The time that the body notes.
abbrev noted : Option ℕ → List (ℕ × Poll ProxyError) → Option ℕ
noted seen [] = seen
noted seen ((t, ready_frame f) ∷ polls) = noted (or_now t seen) polls
noted seen ((t, ready_err e) ∷ polls) = noted (or_now t seen) polls
noted seen ((t, _) ∷ polls) = noted seen polls

noted_once :
    (first : ℕ) (polls : List (ℕ × Poll ProxyError)) → noted (some first) polls ≡ some first
noted_once first [] = refl
noted_once first ((t, ready_frame f) ∷ polls) = noted_once first polls
noted_once first ((t, ready_err e) ∷ polls) = noted_once first polls
noted_once first ((t, ready_none) ∷ polls) = noted_once first polls
noted_once first ((t, pending) ∷ polls) = noted_once first polls

noted_lem : (polls : List (ℕ × Poll ProxyError)) → noted none polls ≡ first_of polls
noted_lem [] = refl
noted_lem ((t, ready_frame f) ∷ polls) = noted_once t polls
noted_lem ((t, ready_err e) ∷ polls) = noted_once t polls
noted_lem ((t, ready_none) ∷ polls) = noted_lem polls
noted_lem ((t, pending) ∷ polls) = noted_lem polls

-- The body after polls that do not reach the end.
abbrev after : TimedBody → List (ℕ × Poll ProxyError) → TimedBody
after b front = record b {
  ttfb = noted b.ttfb front;
  bytes = (b.bytes + payload (outs_of front)) % u64_mod;
}

summed : (x y z : ℕ) → ((x + y) % u64_mod + z) % u64_mod ≡ (x + (y + z)) % u64_mod
summed x y z = omega arith

logs_front :
    (front rest : List (ℕ × Poll ProxyError)) (b : TimedBody)
    → IsUnended front
    → b.bytes < u64_mod
    → (poll_all (front ++ rest) b).1 ≡ (poll_all rest (after b front)).1
unfolding poll_all poll_frame note_first_byte
logs_front [] rest b u small = let e : (b.bytes + 0) % u64_mod ≡ b.bytes = omega arith in simp e
logs_front ((t, ready_frame (data_frame d)) ∷ front) rest b u small =
    logs_front front rest _ u.1 (omega arith)
    ∙ rw (summed b.bytes (length d) (payload (outs_of front))) refl
logs_front ((t, ready_frame trailers) ∷ front) rest b u small = logs_front front rest _ u.1 small
logs_front ((t, ready_err e) ∷ front) rest b u small = logs_front front rest _ u.1 small
logs_front ((t, ready_none) ∷ front) rest b u small = absurd (u.0 refl)
logs_front ((t, pending) ∷ front) rest b u small = logs_front front rest _ u.1 small

-- Once the line is logged, no other is.
logged_once :
    (polls : List (ℕ × Poll ProxyError)) (b : TimedBody)
    → b.logged ≡ true
    → (poll_all polls b).1 ≡ []
unfolding poll_all poll_frame note_first_byte log_complete
logged_once [] b e = refl
logged_once ((t, ready_frame (data_frame d)) ∷ polls) b e = logged_once polls _ e
logged_once ((t, ready_frame trailers) ∷ polls) b e = logged_once polls _ e
logged_once ((t, ready_err f) ∷ polls) b e = logged_once polls _ e
logged_once ((t, ready_none) ∷ polls) b e = ground (arith, logged_once polls b e)
logged_once ((t, pending) ∷ polls) b e = logged_once polls _ e

at_end :
    (t sent : ℕ) (polls : List (ℕ × Poll ProxyError)) (b : TimedBody)
    → b.logged ≡ false
    → b.bytes ≡ sent
    → (poll_all ((t, ready_none) ∷ polls) b).1
      ≡ record {
        log_status = b.status;
        duration_ms = as_millis t;
        ttfb_ms = Option.map as_millis b.ttfb;
        log_bytes = sent;
      }
        ∷ []
unfolding poll_all poll_frame log_complete
at_end t sent polls b e f = ground (arith, logged_once polls (record b { logged = true }) refl)

both :
    (r : List (Poll ProxyError) × List Completed) (outs : List (Poll ProxyError))
    (lines : List Completed)
    → r.0 ≡ outs
    → r.1 ≡ lines
    → r ≡ (outs, lines)
both (outs', lines') outs lines e f = rw (e, f)

-- However a response's body is polled, every poll yields what the wrapped body's does. Nothing is
-- logged until its end is polled: not at an error, and not when the reader goes away. With the
-- first poll of its end exactly one line is: it has the status, the time until then, the time until
-- the first frame or error, and the bytes of the payload, as a u64.
pub poll_all-IsLogged :
    (status t : ℕ) (front rest : List (ℕ × Poll ProxyError))
    → IsUnended front
    → ((poll_all front (new status)) ≡ (outs_of front, []))
      × (poll_all (front ++ ((t, ready_none) ∷ rest)) (new status) ≡ (
        outs_of (front ++ ((t, ready_none) ∷ rest)),
        record {
          log_status = status;
          duration_ms = as_millis t;
          ttfb_ms = Option.map as_millis (first_of front);
          log_bytes = payload (outs_of front) % u64_mod;
        }
            ∷ [],
      ))
unfolding new poll_all
poll_all-IsLogged status t front rest u = (
  both (poll_all front (new status)) (outs_of front) [] (pass_on front (new status))
      (rw⁻¹ (append-nil front) (logs_front front [] (new status) u (omega arith) ∙ refl)),
  both (poll_all (front ++ ((t, ready_none) ∷ rest)) (new status)) _ _ (pass_on _ (new status)) (
      logs_front front ((t, ready_none) ∷ rest) (new status) u (omega arith)
      ∙ (at_end t (payload (outs_of front) % u64_mod) rest (after (new status) front) refl
            (omega arith)
          ∙ rw (noted_lem front) refl)),
)
