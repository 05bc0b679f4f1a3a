-- ===== src/Cache/Control.antt =====
-- src/cache.rs: `parse_cache_control`, the directives of a `Cache-Control` header that the cache
-- heeds.
pub mod Directives
use http_cache.Prelude.{
  ℕ, List, [], ◌∷◌, Option, none, some, Bool, true, false, map, Str, codes, eq_ignore_ascii_case,
  strip_prefix, split, trim, if◌then◌else◌,
}
use http_cache.Prelude.Decimal.{parse_u64}

pub record CacheControl : Type 0 where
  pub no_store : Bool
  pub no_cache : Bool
  pub max_age : Option ℕ  -- u64

abbrev pub no_directives : CacheControl
no_directives = record { no_store = false; no_cache = false; max_age = none }

-- `if let Ok(age) = rest.parse::<u64>()`: an age that is no u64 is passed over.
unfoldable pub set_max_age : CacheControl → Option ℕ → CacheControl
set_max_age control none = control
set_max_age control (some age) = record control { max_age = some age }

unfoldable pub read_max_age : CacheControl → Option Str → CacheControl
unfolding set_max_age
read_max_age control none = control
read_max_age control (some rest) = set_max_age control (parse_u64 rest)

-- One round of the loop, on a part without its surrounding blanks.
unfoldable pub read_part : CacheControl → Str → CacheControl
unfolding read_max_age
read_part control part =
    if eq_ignore_ascii_case part (codes "no-store")
    then record control { no_store = true }
    else if eq_ignore_ascii_case part (codes "no-cache")
    then record control { no_cache = true }
    else read_max_age control (strip_prefix (codes "max-age=") part)

unfoldable pub read_parts : CacheControl → List Str → CacheControl
unfolding read_part
read_parts control [] = control
read_parts control (part ∷ parts) = read_parts (read_part control part) parts

unfoldable pub parse_cache_control : Str → CacheControl
unfolding read_parts
parse_cache_control value = read_parts no_directives (map trim (split b',' value))
