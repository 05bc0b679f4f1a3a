-- ===== src/Tests/UnitTests.antt =====
-- The unit tests of the files of src/, as what they assert of the definitions that model those files.
mod Policies
mod Configs
mod Requests
mod HeaderNames
mod Bodies
mod Upstreams
mod Caches
use http_cache.Errors.{Result, ok, err, to_string}
use http_cache.Prelude.{Bool, true, false, Str, [], ◌∷◌, ◌||◌, is_some, strip_prefix}

-- `text.contains(part)`
unfoldable pub includes : Str → Str → Bool
unfolding strip_prefix
includes part [] = is_some (strip_prefix part [])
includes part (c ∷ text) = is_some (strip_prefix part (c ∷ text)) || includes part text

-- `assert!(result.unwrap_err().to_string().contains(part))`
unfoldable pub fails_with : {A : Type 0} → Str → Result A → Bool
unfolding includes to_string
fails_with part (ok a) = false
fails_with part (err e) = includes part (to_string e)
