-- ===== src/Server/TimedBody.antt =====
-- src/server.rs: `TimedBody`, which passes a response's body on and logs its completion. The wrapped
-- body stands for what its polls yield; a Duration is a number of nanoseconds.
pub mod Logged
use mathlib.Core.Option
use http_cache.Prelude.Words.{u64_mod}
use http_cache.Errors.{ProxyError}
use http_cache.Body.{ready_none, pending, ready_err, Bytes, Poll, ready_frame, data_ref, ready_err}
use http_cache.Prelude.{
  none, some, [], ◌∷◌, true, false, ℕ, Option, List, Bool, ◌/◌, if◌then◌else◌, ◌+◌, length, ◌++◌,
  ◌%◌,
}

-- The line "request completed", less the span that it stands in.
pub record Completed : Type 0 where
  pub log_status : ℕ
  pub duration_ms : ℕ
  pub ttfb_ms : Option ℕ
  pub log_bytes : ℕ

pub record TimedBody : Type 0 where
  pub ttfb : Option ℕ
  pub bytes : ℕ  -- u64
  pub status : ℕ
  pub logged : Bool

unfoldable pub new : ℕ → TimedBody
new status = record { ttfb = none; bytes = 0; status = status; logged = false }

-- `as_millis`
abbrev pub as_millis : ℕ → ℕ
as_millis nanos = nanos / 1_000_000

abbrev pub or_now : ℕ → Option ℕ → Option ℕ
or_now elapsed none = some elapsed
or_now elapsed (some first) = some first

unfoldable pub note_first_byte : ℕ → TimedBody → TimedBody
note_first_byte elapsed b = record b { ttfb = or_now elapsed b.ttfb }

-- The body, and the lines that are logged.
unfoldable pub log_complete : ℕ → TimedBody → TimedBody × List Completed
log_complete elapsed b = if b.logged then (b, []) else (
  record b { logged = true },
  record {
    log_status = b.status;
    duration_ms = as_millis elapsed;
    ttfb_ms = Option.map as_millis b.ttfb;
    log_bytes = b.bytes;
  }
      ∷ [],
)

-- `self.bytes += data.len() as u64`, which wraps in a release build.
abbrev pub count_data : Option Bytes → TimedBody → TimedBody
count_data none b = b
count_data (some data_bytes) b = record b { bytes = (b.bytes + length data_bytes) % u64_mod }

-- One poll, so many nanoseconds after the start of the request.
unfoldable pub poll_frame :
    ℕ → Poll ProxyError → TimedBody → TimedBody × Poll ProxyError × List Completed
unfolding note_first_byte log_complete
poll_frame elapsed (ready_frame frame) b =
    (count_data (data_ref frame) (note_first_byte elapsed b), ready_frame frame, [])
poll_frame elapsed (ready_err e) b = (note_first_byte elapsed b, ready_err e, [])
poll_frame elapsed ready_none b =
    let (b', lines) = log_complete elapsed b in (b', ready_none, lines)
poll_frame elapsed pending b = (b, pending, [])

-- What the connection sees of a sequence of polls, and the log.
unfoldable pub poll_all :
    List (ℕ × Poll ProxyError) → TimedBody → List (Poll ProxyError) × List Completed
poll_all [] b = ([], [])
poll_all ((elapsed, poll) ∷ polls) b =
    let (b', out, lines) = poll_frame elapsed poll b in
    let (outs, more) = poll_all polls b' in (out ∷ outs, lines ++ more)
