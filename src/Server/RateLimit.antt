-- ===== src/Server/RateLimit.antt =====
-- src/server.rs: `IpRateLimiter`, a fixed window of one second for each client address.
pub mod Windows
use http_cache.Prelude.{
  ℕ, suc, ◌+◌, ◌%◌, List, [], ◌∷◌, Bool, true, false, Option, none, some, leb, ◌==◌, if◌then◌else◌,
}

-- An address is read only through its equality: it stands as a number.
abbrev pub IpAddr : Type 0
IpAddr = ℕ

pub record RateWindow : Type 0 where
  pub second : ℕ  -- u64
  pub count : ℕ  -- u32

-- The `HashMap` behind the mutex.
pub record IpRateLimiter : Type 0 where
  pub windows : List (IpAddr × RateWindow)

abbrev pub default_limiter : IpRateLimiter
default_limiter = record { windows = [] }

-- `windows.get(&ip)`
unfoldable pub window_of : IpAddr → List (IpAddr × RateWindow) → Option RateWindow
window_of ip [] = none
window_of ip ((j, w) ∷ m) = if j == ip then some w else window_of ip m

-- The write through the entry of the address, which inserts it if it is absent.
unfoldable pub set_window :
    IpAddr → RateWindow → List (IpAddr × RateWindow) → List (IpAddr × RateWindow)
set_window ip v [] = (ip, v) ∷ []
set_window ip v ((j, w) ∷ m) = if j == ip then (j, v) ∷ m else (j, w) ∷ set_window ip v m

-- `entry(ip).or_insert(..)`, then the reset when the second has changed.
unfoldable pub current_window : Option RateWindow → ℕ → RateWindow
current_window none now_second = record { second = now_second; count = 0 }
current_window (some w) now_second =
    if w.second == now_second then w else record { second = now_second; count = 0 }

-- `allow`, at the second that the clock shows.
unfoldable pub allow : IpRateLimiter → ℕ → IpAddr → ℕ → IpRateLimiter × Bool
unfolding window_of set_window current_window
allow limiter now_second client_ip per_ip_rps =
    let entry = current_window (window_of client_ip limiter.windows) now_second in
    if leb per_ip_rps entry.count
    then (record { windows = set_window client_ip entry limiter.windows }, false)
    else (
      record {
        windows =
            set_window client_ip (record entry { count = (entry.count + 1) % 4294967296 })
              limiter.windows;
      },
      true,
    )
