-- ===== src/Config/Warnings.antt =====
-- src/config.rs: `Config::startup_warnings`, and what the warnings say of the policy.
use http_cache.Prelude.Members.{keep_sound, keep_complete}
use http_cache.Policy.Decisions.{contains_sound, contains_complete, check-Permits}
use http_cache.Errors.{ok}
use http_cache.Policy.{contains, check, new}
use http_cache.Prelude.Decimal.{to_decimal}
use http_cache.Config.{EnvMode, PolicyConfig, Config}
use mathlib.Core.List.{Memᴰ}
use http_cache.Config.{dev, prod, EnvMode}
use http_cache.Prelude.{
  refl, List, [], ◌∷◌, ℕ, Bool, Str, true, keep, ◌≡◌, ◌↔◌, codes, false, ◌&&◌, ◌++◌, ◌==◌, not, ◌≢◌,
  is_empty, subst, ◌<◌, ap, arith, is_empty_iff,
}

-- `{:?}` on a list of numbers.
abbrev join_ports : List ℕ → Str
join_ports [] = []
join_ports (port ∷ []) = to_decimal port
join_ports (port ∷ q ∷ ports) = to_decimal port ++ (codes ", " ++ join_ports (q ∷ ports))

abbrev pub debug_ports : List ℕ → Str
debug_ports ports = codes "[" ++ (join_ports ports ++ codes "]")

abbrev pub is_dev : EnvMode → Bool
is_dev dev = true
is_dev prod = false

unfoldable pub overlapping_ports : PolicyConfig → List ℕ
overlapping_ports policy = keep (contains policy.denied_ports) policy.allowed_ports

-- `if condition { warnings.push(..) }`
abbrev pub push_if : Bool → Str → List Str → List Str
push_if true warning warnings = warning ∷ warnings
push_if false warning warnings = warnings

unfoldable pub startup_warnings : Config → List Str
unfolding overlapping_ports
startup_warnings config =
    let overlapping = overlapping_ports config.policy in
    push_if (is_dev config.env.mode && config.caching.enabled)
      (codes
        "dev mode clears .cache on startup, so cached objects are not persistent across restarts")
      (push_if (config.caching.enabled && config.caching.cache_channel_capacity_chunks == 0)
        (codes
          "caching is enabled but cache_channel_capacity_chunks is 0, so cache writes will be skipped")
        (push_if (config.caching.enabled && config.caching.max_entries == 0)
          (codes
            "caching is enabled but max_entries is 0, so no SQLite LRU eviction limit is enforced")
          (push_if (not (is_empty overlapping))
            (codes "policy.allowed_ports and policy.denied_ports overlap; denied ports win: "
              ++ debug_ports overlapping)
            [])))

overlap_sound :
    (policy : PolicyConfig) (port : ℕ)
    → Memᴰ port (overlapping_ports policy)
    → Memᴰ port policy.allowed_ports × Memᴰ port policy.denied_ports
unfolding overlapping_ports
overlap_sound policy port i =
    let (allowed, denied) = keep_sound (contains policy.denied_ports) policy.allowed_ports port i in
    (allowed, contains_sound policy.denied_ports port denied)

overlap_complete :
    (policy : PolicyConfig) (port : ℕ)
    → Memᴰ port policy.allowed_ports
    → Memᴰ port policy.denied_ports
    → Memᴰ port (overlapping_ports policy)
unfolding overlapping_ports
overlap_complete policy port allowed denied =
    keep_complete (contains policy.denied_ports) policy.allowed_ports port allowed
      (contains_complete policy.denied_ports port denied)

-- The ports that the warning on overlapping ports names are exactly those both allowed and denied,
-- and the policy made from the configuration refuses each of them for every host.
pub overlapping_ports_lem :
    (policy : PolicyConfig) (port : ℕ)
    → (Memᴰ port (overlapping_ports policy)
        ↔ (Memᴰ port policy.allowed_ports × Memᴰ port policy.denied_ports))
      × (Memᴰ port (overlapping_ports policy) → (host : Str) → check (new policy) host port ≢ ok tt)
unfolding new
overlapping_ports_lem policy port = (
  (overlap_sound policy port, λ (allowed, denied). overlap_complete policy port allowed denied),
  λ i host passes.
      ((check-Permits (new policy) host port).0 passes).port_not_denied
        (overlap_sound policy port i).1,
)

-- A configuration that nothing is to be warned of.
pub record IsQuiet (config : Config) : Type 0 where
  pub not_cleared : config.env.mode ≡ dev → config.caching.enabled ≡ false
  pub channel : config.caching.enabled ≡ true → 0 < config.caching.cache_channel_capacity_chunks
  pub limit : config.caching.enabled ≡ true → 0 < config.caching.max_entries
  pub no_overlap :
      (port : ℕ) → Memᴰ port config.policy.allowed_ports → ¬ Memᴰ port config.policy.denied_ports

no_member {ℓ} : {A : Type ℓ} (xs : List A) → ((a : A) → ¬ Memᴰ a xs) → xs ≡ []
no_member [] h = refl
no_member (x ∷ xs) h = absurd (h x (Memᴰ.head refl))

dev_of : (mode : EnvMode) → (mode ≡ dev → is_dev mode ≡ true) × (is_dev mode ≡ true → mode ≡ dev)
dev_of dev = (λ e. refl, λ e. refl)
dev_of prod = (λ e. ap is_dev e, λ e. cc)

IsQuiet-sound : (config : Config) → startup_warnings config ≡ [] → IsQuiet config
unfolding startup_warnings
IsQuiet-sound config h = record {
  not_cleared = λ e. let f = (dev_of config.env.mode).0 e in ground arith;
  channel = λ e. ground arith;
  limit = λ e. ground arith;
  no_overlap = λ port allowed denied.
      let e : overlapping_ports config.policy ≡ [] = (is_empty_iff _).0 (ground arith) in
      elim (subst (Memᴰ port) e (overlap_complete config.policy port allowed denied)) [ ];
}

IsQuiet-complete : (config : Config) → IsQuiet config → startup_warnings config ≡ []
unfolding startup_warnings
IsQuiet-complete config q =
    let none_overlaps : overlapping_ports config.policy ≡ [] = no_member _ (λ port i.
      let (allowed, denied) = overlap_sound config.policy port i in
      q.no_overlap port allowed denied) in
    ground (arith, none_overlaps, (dev_of config.env.mode).1, q.not_cleared, q.channel, q.limit)

-- `startup_warnings` is empty exactly if the cache is off in dev mode, a cache that is on has a
-- channel capacity and a limit of entries, and no port is both allowed and denied.
pub startup_warnings-IsQuiet : (config : Config) → (startup_warnings config ≡ []) ↔ IsQuiet config
startup_warnings-IsQuiet config = (IsQuiet-sound config, IsQuiet-complete config)
