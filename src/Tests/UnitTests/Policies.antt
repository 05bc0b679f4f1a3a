-- ===== src/Tests/UnitTests/Policies.antt =====
-- The unit tests of src/policy.rs.
use http_cache.Tests.UnitTests.{fails_with}
use http_cache.Config.{PolicyConfig}
use http_cache.Policy.{domain_matches, check, new}
use http_cache.Prelude.{
  ◌≡◌, refl, [], ◌∷◌, true, false, codes, str_eq, strip_prefix, ends_with, len, to_ascii_lowercase,
}

abbrev DomainMatchingSupportsWildcards : Type 0
DomainMatchingSupportsWildcards =
    (domain_matches (codes "*") (codes "example.com") ≡ true)
    × (domain_matches (codes "example.com") (codes "example.com") ≡ true)
    × (domain_matches (codes "example.com") (codes "api.example.com") ≡ false)
    × (domain_matches (codes "*.example.com") (codes "api.example.com") ≡ true)
    × (domain_matches (codes "*.example.com") (codes "example.com") ≡ false)

domain_matching_supports_wildcards : DomainMatchingSupportsWildcards
unfolding domain_matches str_eq strip_prefix ends_with len
domain_matching_supports_wildcards = (refl, refl, refl, refl, refl)

abbrev blocked : PolicyConfig
blocked = record {
  allowed_domains = codes "*" ∷ [];
  denied_domains = codes "blocked.example.com" ∷ [];
  allowed_ports = 80 ∷ [];
  denied_ports = [];
}

abbrev DeniedDomainTakesPrecedence : Type 0
DeniedDomainTakesPrecedence =
    fails_with (codes "domain denied") (check (new blocked) (codes "blocked.example.com") 80) ≡ true

denied_domain_takes_precedence : DeniedDomainTakesPrecedence
unfolding check new domain_matches str_eq strip_prefix ends_with len to_ascii_lowercase fails_with
denied_domain_takes_precedence = refl

abbrev no_tls : PolicyConfig
no_tls = record {
  allowed_domains = codes "*" ∷ [];
  denied_domains = [];
  allowed_ports = 80 ∷ 443 ∷ [];
  denied_ports = 443 ∷ [];
}

abbrev DeniedPortTakesPrecedence : Type 0
DeniedPortTakesPrecedence =
    fails_with (codes "port denied") (check (new no_tls) (codes "example.com") 443) ≡ true

denied_port_takes_precedence : DeniedPortTakesPrecedence
unfolding check new domain_matches str_eq strip_prefix ends_with len to_ascii_lowercase fails_with
denied_port_takes_precedence = refl
