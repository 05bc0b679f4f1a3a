-- ===== src/Server/RateLimit/Windows.antt =====
-- The quota of src/server.rs, `IpRateLimiter::allow`: exact within a second, and apart for each
-- client address.
use Prim.Native.Nat.{min}
use http_cache.Prelude.{
  ltb→lt, ◌∙◌, ==_iff, inl, inr, ℕ, suc, ◌+◌, ◌-◌, ◌%◌, ◌≤◌, ◌<◌, ◌≡◌, refl, ◌≢◌, List, [], ◌∷◌,
  Option, none, some, arith, ltb, ◌==◌, if◌then◌else◌, Bool-cases, ◌&&◌,
}
use http_cache.Server.RateLimit.{
  IpAddr, RateWindow, IpRateLimiter, window_of, set_window, current_window, allow,
}

pub window_of-set_window :
    (ip j : IpAddr) (v : RateWindow) (m : List (IpAddr × RateWindow))
    → window_of j (set_window ip v m) ≡ (if ip == j then some v else window_of j m)
unfolding window_of set_window
window_of-set_window ip j v [] = refl
window_of-set_window ip j v ((i, w) ∷ m) = ground (arith, window_of-set_window ip j v m)

-- How many requests of the address count against its quota in the given second.
abbrev used_in : Option RateWindow → ℕ → ℕ
used_in none second = 0
used_in (some w) second = if w.second == second then w.count else 0

abbrev pub used : IpRateLimiter → IpAddr → ℕ → ℕ
used limiter ip second = used_in (window_of ip limiter.windows) second

-- A call is allowed when the quota is not used up, and then counts one more.
allow_self :
    (l : IpRateLimiter) (t : ℕ) (ip : IpAddr) (rps : ℕ)
    → rps < 4294967296
    → ((allow l t ip rps).1 ≡ ltb (used l ip t) rps)
      × (used (allow l t ip rps).0 ip t
          ≡ (if ltb (used l ip t) rps then suc (used l ip t) else used l ip t))
unfolding allow current_window
allow_self l t ip rps h =
    let entry = current_window (window_of ip l.windows) t in
    ground (
      arith,
      window_of-set_window ip ip entry l.windows,
      window_of-set_window ip ip (record entry { count = (entry.count + 1) % 4294967296 })
          l.windows,
    )

-- A call of one address changes no other's window.
pub allow_other :
    (l : IpRateLimiter) (t : ℕ) (ip other : IpAddr) (rps : ℕ)
    → ip ≢ other
    → window_of other (allow l t ip rps).0.windows ≡ window_of other l.windows
unfolding allow
allow_other l t ip other rps h =
    let entry = current_window (window_of ip l.windows) t in
    ground (
      arith,
      window_of-set_window ip other entry l.windows,
      window_of-set_window ip other (record entry { count = (entry.count + 1) % 4294967296 })
          l.windows,
    )

-- The answers to a sequence of calls in one second, each from some address.
abbrev pub Calls : Type 0
Calls = List IpAddr

-- How many calls of the address the limiter grants when all the calls fall in one second.
unfoldable pub granted : IpRateLimiter → ℕ → ℕ → IpAddr → Calls → ℕ
granted l t rps ip [] = 0
granted l t rps ip (caller ∷ calls) =
    let rest = granted (allow l t caller rps).0 t rps ip calls in
    if caller == ip && (allow l t caller rps).1 then suc rest else rest

abbrev pub requests : IpAddr → Calls → ℕ
requests ip [] = 0
requests ip (caller ∷ calls) =
    let rest = requests ip calls in if caller == ip then suc rest else rest

used_other :
    (l : IpRateLimiter) (t : ℕ) (caller ip : IpAddr) (rps : ℕ)
    → caller ≢ ip
    → used (allow l t caller rps).0 ip t ≡ used l ip t
used_other l t caller ip rps h = rw (allow_other l t caller ip rps h)

granted_self :
    (l : IpRateLimiter) (t rps : ℕ) (ip caller : IpAddr)
    → rps < 4294967296
    → caller ≡ ip
    → ((allow l t caller rps).1 ≡ ltb (used l ip t) rps)
      × (used (allow l t caller rps).0 ip t
          ≡ (if ltb (used l ip t) rps then suc (used l ip t) else used l ip t))
granted_self l t rps ip caller h e = rw e (allow_self l t ip rps h)

-- One call's share of the quota.
quota_step :
    (rps before after rest n : ℕ)
    → after ≡ (if ltb before rps then suc before else before)
    → before ≤ rps
    → (after ≤ rps → rest ≡ min (rps - after) n)
    → (if ltb before rps then suc rest else rest) ≡ min (rps - before) (suc n)
quota_step rps before after rest n e h ih = elim (Bool-cases (ltb before rps)) [
  | inl room ↦
      let below = ltb→lt before rps room in
      rw room (let f : after ≡ suc before = e ∙ rw room in omega (arith, ih (omega arith)))
  | inr full ↦ rw full (
      let f : after ≡ before = e ∙ rw full in
      let g : rps ≤ before = ground arith in omega (arith, ih (omega arith)))
]

-- Within one second an address is granted exactly as many of its calls as its remaining quota
-- allows, whatever other addresses call in between: the smaller of the quota left and the calls.
pub granted-min :
    (l : IpRateLimiter) (t rps : ℕ) (ip : IpAddr) (calls : Calls)
    → rps < 4294967296
    → used l ip t ≤ rps
    → granted l t rps ip calls ≡ min (rps - used l ip t) (requests ip calls)
unfolding granted
granted-min l t rps ip [] h u = omega arith
granted-min l t rps ip (caller ∷ calls) h u =
    let ih = granted-min (allow l t caller rps).0 t rps ip calls h in
    elim (Bool-cases (caller == ip)) [
      | inl same ↦
          let (answer, after) = granted_self l t rps ip caller h ((==_iff caller ip).0 same) in
          rw (same, answer) (quota_step rps (used l ip t) _ _ (requests ip calls) after u ih)
      | inr different ↦
          let e = used_other l t caller ip rps (λ e. let f = (==_iff caller ip).1 e in cc) in
          rw different (rw e at ih u)
    ]
