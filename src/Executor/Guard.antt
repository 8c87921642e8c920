-- ===== src/Executor/Guard.antt =====
-- internal/executor/urlguard.go: the guard of URLs, with the addresses and prefixes of `net/netip` as
-- numbers, and internal/executor/policy.go: `enforceURLPolicy`. The text of an error is its format.
pub mod Public
pub mod Policy
use scrape_kdl.Common.Outcome.{Outcome, ok, err, ◌>>=◌, ◌>>◌, check}
use scrape_kdl.Common.Text.{Bytes, codes, equal}
use scrape_kdl.Common.{
  ℕ, ◌-◌, ◌*◌, ◌+◌, ◌/◌, ◌%◌, ◌^◌, Bool, true, false, not, ◌&&◌, ◌||◌, List, [], ◌∷◌, any, Option,
  none, some, ◌==◌, if◌then◌else◌,
}
use scrape_kdl.Executor.Builtins.Arguments.{Result, fails}
use scrape_kdl.Executor.Builtins.Library.{Url}
use scrape_kdl.Executor.Output.Recovery.{no_path, Failure, execution, other_error, text_of}

-- An address of 32 bits, or of 128 bits with a zone, which is empty in most.
pub data Addr : Type 0 where
  ipv4 : ℕ → Addr
  ipv6 : ℕ → (zone : Bytes) → Addr

pub data Prefix : Type 0 where
  prefix4 prefix6 : (base bits : ℕ) → Prefix

-- The address `a.b.c.d`, and the one whose first four groups of 16 bits are given.
abbrev pub dotted : ℕ → ℕ → ℕ → ℕ → ℕ
dotted a b c d = ((a * 256 + b) * 256 + c) * 256 + d

abbrev pub grouped : ℕ → ℕ → ℕ → ℕ → ℕ
grouped a b c d = (((a * 65536 + b) * 65536 + c) * 65536 + d) * 18446744073709551616

-- `Prefix.Contains`: an address with a zone is in no prefix.
unfoldable pub contains : Prefix → Addr → Bool
contains (prefix4 base bits) (ipv4 n) = n / 2 ^ (32 - bits) == base / 2 ^ (32 - bits)
contains (prefix6 base bits) (ipv6 n []) = n / 2 ^ (128 - bits) == base / 2 ^ (128 - bits)
contains _ _ = false

-- `Addr.Unmap`.
unfoldable pub unmap : Addr → Addr
unmap (ipv4 n) = ipv4 n
unmap (ipv6 n zone) = if n / 4294967296 == 0xFFFF then ipv4 (n % 4294967296) else ipv6 n zone

-- The methods of `Addr` on an address that is not mapped.
unfoldable pub is_loopback : Addr → Bool
is_loopback (ipv4 n) = n / 16777216 == 127
is_loopback (ipv6 n zone) = n == 1

unfoldable pub is_private : Addr → Bool
is_private (ipv4 n) = n / 16777216 == 10 || n / 1048576 == 2753 || n / 65536 == 49320
is_private (ipv6 n zone) = n / 2 ^ 121 == 126

unfoldable pub is_link_local_unicast : Addr → Bool
is_link_local_unicast (ipv4 n) = n / 65536 == 43518
is_link_local_unicast (ipv6 n zone) = n / 2 ^ 118 == 1018

unfoldable pub is_multicast : Addr → Bool
is_multicast (ipv4 n) = n / 268435456 == 14
is_multicast (ipv6 n zone) = n / 2 ^ 120 == 255

unfoldable pub is_unspecified : Addr → Bool
unfolding equal
is_unspecified (ipv4 n) = n == 0
is_unspecified (ipv6 n zone) = n == 0 && equal zone []

abbrev is_broadcast : Addr → Bool
is_broadcast (ipv4 n) = n == 4294967295
is_broadcast (ipv6 n zone) = false

unfoldable pub is_global_unicast : Addr → Bool
unfolding is_unspecified is_loopback is_multicast is_link_local_unicast
is_global_unicast a =
    not (is_unspecified a)
    && not (is_broadcast a)
    && not (is_loopback a)
    && not (is_multicast a)
    && not (is_link_local_unicast a)

abbrev pub globally_reachable_special_prefixes : List Prefix
globally_reachable_special_prefixes =
    prefix4 (dotted 192 0 0 9) 32
    ∷ prefix4 (dotted 192 0 0 10) 32
    ∷ prefix6 (grouped 0x2001 1 0 0 + 1) 128
    ∷ prefix6 (grouped 0x2001 1 0 0 + 2) 128
    ∷ prefix6 (grouped 0x2001 1 0 0 + 3) 128
    ∷ prefix6 (grouped 0x2001 3 0 0) 32
    ∷ prefix6 (grouped 0x2001 4 0x112 0) 48
    ∷ prefix6 (grouped 0x2001 0x20 0 0) 28
    ∷ prefix6 (grouped 0x2001 0x30 0 0) 28
    ∷ []

abbrev pub non_public_special_prefixes : List Prefix
non_public_special_prefixes =
    prefix4 (dotted 0 0 0 0) 8
    ∷ prefix4 (dotted 10 0 0 0) 8
    ∷ prefix4 (dotted 100 64 0 0) 10
    ∷ prefix4 (dotted 127 0 0 0) 8
    ∷ prefix4 (dotted 169 254 0 0) 16
    ∷ prefix4 (dotted 172 16 0 0) 12
    ∷ prefix4 (dotted 192 0 0 0) 24
    ∷ prefix4 (dotted 192 0 2 0) 24
    ∷ prefix4 (dotted 192 88 99 0) 24
    ∷ prefix4 (dotted 192 168 0 0) 16
    ∷ prefix4 (dotted 198 18 0 0) 15
    ∷ prefix4 (dotted 198 51 100 0) 24
    ∷ prefix4 (dotted 203 0 113 0) 24
    ∷ prefix4 (dotted 240 0 0 0) 4
    ∷ prefix6 (grouped 0x64 0xFF9B 1 0) 48
    ∷ prefix6 (grouped 0x100 0 0 0) 64
    ∷ prefix6 (grouped 0x100 0 0 1) 64
    ∷ prefix6 (grouped 0x2001 0 0 0) 23
    ∷ prefix6 (grouped 0x2001 0xDB8 0 0) 32
    ∷ prefix6 (grouped 0x2002 0 0 0) 16
    ∷ prefix6 (grouped 0x3FFF 0 0 0) 20
    ∷ prefix6 (grouped 0x5F00 0 0 0) 16
    ∷ prefix6 (grouped 0xFC00 0 0 0) 7
    ∷ []

unfoldable pub is_in : List Prefix → Addr → Bool
unfolding contains
is_in prefixes a = any (λ p. contains p a) prefixes

abbrev pub is_special : Addr → Bool
is_special a =
    not (is_global_unicast a)
    || is_loopback a
    || is_private a
    || is_link_local_unicast a
    || is_multicast a
    || is_unspecified a

abbrev pub not_public : Bytes
not_public = codes "address %s is not a public internet address"

-- `rejectNonPublicAddr`, behind `Unmap`.
unfoldable pub reject_unmapped : Addr → Result (Unit {0})
unfolding is_in is_global_unicast is_loopback is_private is_link_local_unicast is_multicast
    is_unspecified
reject_unmapped a =
    if is_in globally_reachable_special_prefixes a
    then ok tt
    else if is_in non_public_special_prefixes a
    then fails not_public
    else if is_special a
    then fails not_public
    else ok tt

unfoldable pub reject_non_public_addr : Addr → Result (Unit {0})
unfolding unmap reject_unmapped
reject_non_public_addr a = reject_unmapped (unmap a)

-- What the guard asks of `net`: `netip.ParseAddr` and `LookupNetIP`.
pub record Resolver : Type 0 where
  pub parse_addr : Bytes → Option Addr
  pub lookup : Bytes → Outcome Bytes (List Addr)

abbrev pub reject_each : List Addr → Result (Unit {0})
reject_each [] = ok tt
reject_each (a ∷ rest) = reject_non_public_addr a >> reject_each rest

module _ (resolver : Resolver) where
  abbrev pub vetted : Bytes → Option Addr → Result Bytes
  vetted host (some a) = reject_non_public_addr a >> ok []
  vetted host none = ok host

  -- `classifyPublicTarget`.
  unfoldable pub classify_public_target : Url → Result Bytes
  unfolding equal reject_non_public_addr
  classify_public_target target = do
    check (equal target.scheme (codes "http") || equal target.scheme (codes "https"))
        (other_error (codes "scheme %q is not allowed"))
    check (not target.has_user) (other_error (codes "userinfo URLs are not allowed"))
    check (not (equal target.hostname [])) (other_error (codes "URL has no host"))
    vetted target.hostname (resolver.parse_addr target.hostname)

  abbrev pub reject_resolved : Outcome Bytes (List Addr) → Result (Unit {0})
  reject_resolved (err e) = fails (codes "resolve host %q: %w")
  reject_resolved (ok []) = fails (codes "resolve host %q: no addresses")
  reject_resolved (ok (a ∷ rest)) = reject_each (a ∷ rest)

  abbrev pub resolved : Bytes → Result (Unit {0})
  resolved [] = ok tt
  resolved (c ∷ host) = reject_resolved (resolver.lookup (c ∷ host))

  -- `publicInternetURLPolicy`.
  unfoldable pub public_internet_url_policy : Url → Result (Unit {0})
  unfolding classify_public_target
  public_internet_url_policy target = classify_public_target target >>= resolved

-- `enforceURLPolicy`, with `url.Parse`.
abbrev pub by_policy : Result (Unit {0}) → Result (Unit {0})
by_policy (ok passed) = ok passed
by_policy (err e) = err (execution (codes "E_URL_POLICY") (text_of e) no_path)

abbrev pub enforce_parsed : (Url → Result (Unit {0})) → Outcome Bytes Url → Result (Unit {0})
enforce_parsed policy (err e) =
    err (execution (codes "E_URL_INVALID") (text_of (other_error e)) no_path)
enforce_parsed policy (ok u) = by_policy (policy u)

unfoldable pub enforce_url_policy :
    (parse : Bytes → Outcome Bytes Url)
    → (target : Bytes) → Option (Url → Result (Unit {0}))
    → Result (Unit {0})
enforce_url_policy parse target none = ok tt
enforce_url_policy parse target (some policy) = enforce_parsed policy (parse target)
