-- ===== src/Obs.antt =====
-- src/obs.rs: what `init_tracing` sets up, over the parsers of the tracing and chrono_tz crates, and
-- `TeeWriter`, which writes the log of dev mode to two sinks.
pub mod Teed
use http_cache.Config.Warnings.{is_dev}
use http_cache.Body.{Bytes}
use http_cache.Prelude.{
  none, some, inl, inr, Bool, Str, ℕ, Option, codes, take, ◌⊎◌, if◌then◌else◌, ◌++◌, is_empty,
  length, trim, ◌&&◌,
}
use mathlib.Core.Option.{get_or}
use http_cache.Config.{dev, prod, pretty, json, EnvMode, LoggingFormat, LoggingConfig, TimeConfig}

-- `Filter` is tracing's EnvFilter and `Tz` a time zone.
pub record Tracing (Filter Tz : Type 0) : Type 0 where
  pub filter : Filter
  pub with_target : Bool
  pub zone : Tz
  pub teed : Bool  -- to stderr and the file, and not to the default writer alone
  pub format : LoggingFormat

abbrev pub default_level : EnvMode → Str
default_level dev = codes "debug"
default_level prod = codes "info"

abbrev pub level_of : EnvMode → LoggingConfig → Str
level_of env logging = if is_empty (trim logging.level) then default_level env else logging.level

module _ {Filter Tz : Type 0} (try_new : Str → Option Filter) (new_filter : Str → Filter)
    (from_str : Str → Option Tz) (utc : Tz) where
  unfoldable pub init_tracing : EnvMode → LoggingConfig → TimeConfig → Bool → Tracing Filter Tz
  init_tracing env logging time log_dir_made = record {
    filter = get_or (try_new (level_of env logging)) (new_filter (default_level env));
    with_target = is_dev env;
    zone = get_or (from_str time.timezone) utc;
    teed = is_dev env && log_dir_made;
    format = logging.format;
  }

-- What each sink has taken.
pub record TeeWriter : Type 0 where
  pub left : Bytes
  pub right : Bytes

-- How `write_all` on a sink goes: all of the buffer is taken, or a part of it and then an error.
pub data Taken : Type 0 where
  whole : Taken
  broken_off : ℕ → Str → Taken

abbrev pub taken_of : Taken → Bytes → Bytes
taken_of whole buf = buf
taken_of (broken_off n message) buf = take n buf

-- `write`: the error of the first sink that fails, or the length of the buffer.
unfoldable pub write : Taken → Taken → Bytes → TeeWriter → TeeWriter × (Str ⊎ ℕ)
write (broken_off n message) r buf t =
    (record t { left = t.left ++ taken_of (broken_off n message) buf }, inl message)
write whole (broken_off n message) buf t = (
  record { left = t.left ++ buf; right = t.right ++ taken_of (broken_off n message) buf },
  inl message,
)
write whole whole buf t =
    (record { left = t.left ++ buf; right = t.right ++ buf }, inr (length buf))

-- `flush`: the error of the first sink that fails, or none.
unfoldable pub flush : Option Str → Option Str → Option Str
flush (some message) r = some message
flush none r = r
