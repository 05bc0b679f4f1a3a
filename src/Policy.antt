-- ===== src/Policy.antt =====
-- src/policy.rs: the allow and deny lists for upstream hosts and ports.
pub mod Domains
pub mod Decisions
use http_cache.Prelude.{
  ℕ, List, map, Bool, true, not, ◌&&◌, ◌++◌, some, none, any, is_empty, ltb, ◌==◌, if◌then◌else◌,
  Str, codes, str_eq, len, to_ascii_lowercase, strip_prefix, ends_with,
}
use http_cache.Prelude.Decimal.{to_decimal}
use http_cache.Config.{PolicyConfig}
use http_cache.Errors.{Result, ok, err, policy_denied}

pub record PolicyEngine : Type 0 where
  pub allowed_domains : List Str
  pub denied_domains : List Str
  pub allowed_ports : List ℕ  -- u16
  pub denied_ports : List ℕ  -- u16

unfoldable pub new : PolicyConfig → PolicyEngine
new config = record {
  allowed_domains = map to_ascii_lowercase config.allowed_domains;
  denied_domains = map to_ascii_lowercase config.denied_domains;
  allowed_ports = config.allowed_ports;
  denied_ports = config.denied_ports;
}

unfoldable pub domain_matches : Str → Str → Bool
domain_matches pattern_text domain =
    if str_eq pattern_text (codes "*")
    then true
    else elim (strip_prefix (codes "*.") pattern_text) [
      | some suffix ↦
          let dotted = codes "." ++ suffix in
          ends_with domain dotted && ltb (len dotted) (len domain)
      | none ↦ str_eq pattern_text domain
    ]

-- `ports.contains(&port)`
abbrev pub contains : List ℕ → ℕ → Bool
contains ports port = any (λ p. p == port) ports

-- The guards of `check`, on a host in lower case.
pub check_lower : PolicyEngine → Str → ℕ → Result (Unit {0})
check_lower engine host port =
    if any (λ p. domain_matches p host) denied_domains
    then err (policy_denied (codes "domain denied: " ++ host))
    else if not (is_empty allowed_domains) && not (any (λ p. domain_matches p host) allowed_domains)
    then err (policy_denied (codes "domain not allowed: " ++ host))
    else if contains denied_ports port
    then err (policy_denied (codes "port denied: " ++ to_decimal port))
    else if not (is_empty allowed_ports) && not (contains allowed_ports port)
    then err (policy_denied (codes "port not allowed: " ++ to_decimal port))
    else ok tt
  where
    open engine use {allowed_domains, denied_domains, allowed_ports, denied_ports}

unfoldable pub check : PolicyEngine → Str → ℕ → Result (Unit {0})
unfolding check_lower
check engine host port = check_lower engine (to_ascii_lowercase host) port
