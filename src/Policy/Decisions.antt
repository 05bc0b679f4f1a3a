-- ===== src/Policy/Decisions.antt =====
-- What `check` of src/policy.rs decides, stated by the lists and not by its tests.
use http_cache.Prelude.Decimal.{to_decimal}
use mathlib.Core.List.{Memᴰ}
use http_cache.Prelude.{
  map, subst, ℕ, ◌≡◌, refl, ◌↔◌, ◌⊎◌, inl, inr, Bool, true, false, not, ◌&&◌, List, [], ◌∷◌, arith,
  any, is_empty, ==_iff, ==_refl, any-Memᴰ, any_of_Memᴰ, Str, ◌==◌, ◌≢◌, to_ascii_lowercase, codes,
  ◌++◌, is_empty_iff,
}
use http_cache.Errors.{ok, Result, err, policy_denied}
use http_cache.Prelude.TextLaws.{to_ascii_lowercase_idem}
use http_cache.Config.{PolicyConfig}
use http_cache.Policy.{new, PolicyEngine, domain_matches, contains, check_lower, check}
use http_cache.Policy.Domains.{Covers, domain_matches-Covers}

-- Some pattern of the list covers the domain.
abbrev pub Listed : List Str → Str → Type 0
Listed patterns domain = (p : Str) × Memᴰ p patterns × Covers p domain

Listed-sound : (ps : List Str) (d : Str) → any (λ p. domain_matches p d) ps ≡ true → Listed ps d
Listed-sound ps d h =
    let (p, i, e) = any-Memᴰ (λ p. domain_matches p d) ps h in
    (p, i, (domain_matches-Covers p d).0 e)

Listed-complete : (ps : List Str) (d : Str) → Listed ps d → any (λ p. domain_matches p d) ps ≡ true
Listed-complete ps d (p, i, c) =
    any_of_Memᴰ (λ p. domain_matches p d) ps p i ((domain_matches-Covers p d).1 c)

pub contains_sound : (ports : List ℕ) (port : ℕ) → contains ports port ≡ true → Memᴰ port ports
contains_sound ports port h =
    let (p, i, e) = any-Memᴰ (λ p. p == port) ports h in
    subst (λ q. Memᴰ q ports) ((==_iff p port).0 e) i

pub contains_complete : (ports : List ℕ) (port : ℕ) → Memᴰ port ports → contains ports port ≡ true
contains_complete ports port i = any_of_Memᴰ (λ p. p == port) ports port i (==_refl port)

-- What an engine lets through: a host that no denied pattern covers and, if there are allowed
-- patterns, one of them does; and likewise for the port.
pub record Permits (engine : PolicyEngine) (host : Str) (port : ℕ) : Type 0 where
  pub host_not_denied : ¬ Listed engine.denied_domains host
  pub host_allowed : (engine.allowed_domains ≡ []) ⊎ Listed engine.allowed_domains host
  pub port_not_denied : ¬ Memᴰ port engine.denied_ports
  pub port_allowed : (engine.allowed_ports ≡ []) ⊎ Memᴰ port engine.allowed_ports

false_of_not : (b : Bool) → ¬ (b ≡ true) → b ≡ false
false_of_not true h = absurd (h refl)
false_of_not false h = refl

-- The four tests of `check` in the order of the code.
check_lower_tests :
    (engine : PolicyEngine) (host : Str) (port : ℕ)
    → check_lower engine host port ≡ ok tt
    → (any (λ p. domain_matches p host) engine.denied_domains ≡ false)
      × ((is_empty engine.allowed_domains ≡ true)
          ⊎ (any (λ p. domain_matches p host) engine.allowed_domains ≡ true))
      × (contains engine.denied_ports port ≡ false)
      × ((is_empty engine.allowed_ports ≡ true) ⊎ (contains engine.allowed_ports port ≡ true))
unfolding check_lower
check_lower_tests engine host port h = ground arith

allowed_sound :
    {A : Type 0} {B : Type 0} (xs : List A) (b : Bool)
    → (b ≡ true → B)
    → (is_empty xs ≡ true) ⊎ (b ≡ true)
    → (xs ≡ []) ⊎ B
allowed_sound xs b f (inl e) = inl ((is_empty_iff xs).0 e)
allowed_sound xs b f (inr e) = inr (f e)

allowed_complete :
    {A : Type 0} {B : Type 0} (xs : List A) (b : Bool)
    → (B → b ≡ true)
    → (xs ≡ []) ⊎ B
    → (not (is_empty xs) && not b) ≡ false
allowed_complete xs b f (inl e) = rw e
allowed_complete xs b f (inr x) = ground (arith, f x)

lower_sound :
    (engine : PolicyEngine) (host : Str) (port : ℕ)
    → check_lower engine host port ≡ ok tt
    → Permits engine host port
lower_sound engine host port h =
    let (denied, allowed, port_denied, port_ok) = check_lower_tests engine host port h in
    record {
      host_not_denied = λ l. let e = Listed-complete _ host l in cc;
      host_allowed = allowed_sound engine.allowed_domains _ (Listed-sound _ host) allowed;
      port_not_denied = λ m. let e = contains_complete _ port m in cc;
      port_allowed = allowed_sound engine.allowed_ports _ (contains_sound _ port) port_ok;
    }

module _ (engine : PolicyEngine) (host : Str) (port : ℕ) where
  open engine use {allowed_domains, denied_domains, allowed_ports, denied_ports}

  not_denied :
      ¬ Listed denied_domains host → any (λ p. domain_matches p host) denied_domains ≡ false
  not_denied h = false_of_not _ (λ e. h (Listed-sound _ host e))

  host_passes :
      (allowed_domains ≡ []) ⊎ Listed allowed_domains host
      → (not (is_empty allowed_domains) && not (any (λ p. domain_matches p host) allowed_domains))
        ≡ false
  host_passes = allowed_complete allowed_domains _ (Listed-complete _ host)

  port_not_denied : ¬ Memᴰ port denied_ports → contains denied_ports port ≡ false
  port_not_denied h = false_of_not _ (λ e. h (contains_sound _ port e))

  port_passes :
      (allowed_ports ≡ []) ⊎ Memᴰ port allowed_ports
      → (not (is_empty allowed_ports) && not (contains allowed_ports port)) ≡ false
  port_passes = allowed_complete allowed_ports _ (contains_complete _ port)

  lower_complete : Permits engine host port → check_lower engine host port ≡ ok tt
  unfolding check_lower
  lower_complete h = rw (
    not_denied h.host_not_denied,
    host_passes h.host_allowed,
    port_not_denied h.port_not_denied,
    port_passes h.port_allowed,
  )

-- `check` accepts exactly what the lists permit for the host in lower case: no denied pattern
-- covers it, an allowed one does unless there are none, and likewise for the port.
pub check-Permits :
    (engine : PolicyEngine) (host : Str) (port : ℕ)
    → (check engine host port ≡ ok tt) ↔ Permits engine (to_ascii_lowercase host) port
unfolding check
check-Permits engine host port =
    (lower_sound engine (to_ascii_lowercase host) port, lower_complete engine _ port)

-- The error of each refusal, given what the earlier tests found.
pub record Refusals (engine : PolicyEngine) (host : Str) (port : ℕ) (r : Result (Unit {0}))
    : Type 0 where
  pub host_denied :
      Listed engine.denied_domains host → r ≡ err (policy_denied (codes "domain denied: " ++ host))
  pub host_not_allowed :
      ¬ Listed engine.denied_domains host
      → engine.allowed_domains ≢ []
      → ¬ Listed engine.allowed_domains host
      → r ≡ err (policy_denied (codes "domain not allowed: " ++ host))
  pub port_denied :
      ¬ Listed engine.denied_domains host
      → (engine.allowed_domains ≡ []) ⊎ Listed engine.allowed_domains host
      → Memᴰ port engine.denied_ports
      → r ≡ err (policy_denied (codes "port denied: " ++ to_decimal port))
  pub port_not_allowed :
      ¬ Listed engine.denied_domains host
      → (engine.allowed_domains ≡ []) ⊎ Listed engine.allowed_domains host
      → ¬ Memᴰ port engine.denied_ports
      → engine.allowed_ports ≢ []
      → ¬ Memᴰ port engine.allowed_ports
      → r ≡ err (policy_denied (codes "port not allowed: " ++ to_decimal port))

nonempty {ℓ} : {A : Type ℓ} (xs : List A) → xs ≢ [] → is_empty xs ≡ false
nonempty xs h = false_of_not _ (λ e. h ((is_empty_iff xs).0 e))

check_lower-Refusals :
    (engine : PolicyEngine) (host : Str) (port : ℕ)
    → Refusals engine host port (check_lower engine host port)
unfolding check_lower
check_lower-Refusals engine host port = record {
  host_denied = λ l. rw (Listed-complete _ host l);
  host_not_allowed = λ d n l. rw (
    not_denied engine host port d,
    nonempty _ n,
    false_of_not _ (λ e. l (Listed-sound _ host e)),
  );
  port_denied = λ d a m.
      rw
        (not_denied engine host port d, host_passes engine host port a, contains_complete _ port m);
  port_not_allowed = λ d a m n l. rw (
    not_denied engine host port d,
    host_passes engine host port a,
    port_not_denied engine host port m,
    nonempty _ n,
    false_of_not _ (λ e. l (contains_sound _ port e)),
  );
}

-- Every refusal names the first test that failed, in the order denied host, host not allowed,
-- denied port, port not allowed: a denied entry wins over an allowed one.
pub check-Refusals :
    (engine : PolicyEngine) (host : Str) (port : ℕ)
    → Refusals engine (to_ascii_lowercase host) port (check engine host port)
unfolding check
check-Refusals engine host port = check_lower-Refusals engine (to_ascii_lowercase host) port

map_idem :
    (ps : List Str) → map to_ascii_lowercase (map to_ascii_lowercase ps) ≡ map to_ascii_lowercase ps
map_idem [] = refl
map_idem (p ∷ ps) = cc (to_ascii_lowercase_idem p, map_idem ps)

abbrev pub lowered : PolicyConfig → PolicyConfig
lowered config = record config {
  allowed_domains = map to_ascii_lowercase config.allowed_domains;
  denied_domains = map to_ascii_lowercase config.denied_domains;
}

-- The case of ASCII letters matters neither in the configured patterns nor in the host: an engine
-- made from the lists in lower case gives the host in lower case the same answer.
pub check-new_case :
    (config : PolicyConfig) (host : Str) (port : ℕ)
    → check (new (lowered config)) (to_ascii_lowercase host) port ≡ check (new config) host port
unfolding check new
check-new_case config host port =
    rw (
      to_ascii_lowercase_idem host,
      map_idem config.allowed_domains,
      map_idem config.denied_domains,
    )
