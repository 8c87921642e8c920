-- ===== src/Tests/Guard.antt =====
-- Targets and addresses that the guard of URLs sees.
use scrape_kdl.Common.Outcome.{ok}
use scrape_kdl.Common.Text.{codes, equal}
use scrape_kdl.Common.{true, false, ◌||◌, List, [], ◌∷◌, none, ◌≡◌, refl, arith}
use scrape_kdl.Executor.Builtins.Arguments.{fails}
use scrape_kdl.Executor.Builtins.Library.{Url}
use scrape_kdl.Executor.Guard.Policy.{
  AllPlain, IsPublic, PublicHost, PlainHost, reject_non_public_addr-IsPublic,
  reject_non_public_addr-zone, public_internet_url_policy-PublicHost,
}
use scrape_kdl.Executor.Guard.{
  Addr, ipv4, ipv6, dotted, grouped, contains, unmap, is_loopback, is_private,
  is_link_local_unicast, is_multicast, is_unspecified, is_global_unicast, is_in, not_public,
  reject_unmapped, reject_non_public_addr, Resolver, classify_public_target,
  public_internet_url_policy,
}

-- 93.184.216.34.
abbrev example_addr : Addr
example_addr = ipv4 (dotted 93 184 216 34)

reject_non_public_addr-IsPublic_example : IsPublic (unmap example_addr)
unfolding reject_non_public_addr unmap reject_unmapped is_in contains is_global_unicast is_loopback
    is_private is_link_local_unicast is_multicast is_unspecified
reject_non_public_addr-IsPublic_example =
    reject_non_public_addr-IsPublic example_addr (omega arith) refl

-- 2002:7f00:1:: with the zone "lo", which stands for 127.0.0.1.
abbrev tunnelled : Addr
tunnelled = ipv6 (grouped 0x2002 0x7F00 1 0) (codes "lo")

reject_non_public_addr-zone_example :
    (reject_non_public_addr tunnelled ≡ ok tt)
    × (reject_non_public_addr (ipv6 (grouped 0x2002 0x7F00 1 0) []) ≡ fails not_public)
reject_non_public_addr-zone_example =
    reject_non_public_addr-zone (grouped 0x2002 0x7F00 1 0) b'l' (codes "o") refl

abbrev example_resolver : Resolver
example_resolver = record { parse_addr = λ host. none; lookup = λ host. ok (example_addr ∷ []) }

abbrev example_url : Url
example_url = record {
  scheme = codes "https";
  has_user = false;
  host = codes "example.com";
  hostname = codes "example.com";
  raw_query = [];
  escaped_path = codes "/";
}

plain_addresses : (addresses : List Addr) → addresses ≡ example_addr ∷ [] → AllPlain addresses
plain_addresses addresses e = rw e (omega arith, tt)

example_host-PlainHost : PlainHost example_resolver (codes "example.com")
example_host-PlainHost = (λ a e. absurd cc, λ addresses e. plain_addresses addresses cc)

public_internet_url_policy-PublicHost_example :
    ((equal (codes "https") (codes "http") || equal (codes "https") (codes "https")) ≡ true)
    × (false ≡ false)
    × (equal (codes "example.com") [] ≡ false)
    × PublicHost example_resolver (codes "example.com") none
unfolding public_internet_url_policy classify_public_target reject_non_public_addr unmap
    reject_unmapped is_in contains is_global_unicast is_loopback is_private is_link_local_unicast
    is_multicast is_unspecified equal
public_internet_url_policy-PublicHost_example =
    public_internet_url_policy-PublicHost example_resolver example_url example_host-PlainHost refl
