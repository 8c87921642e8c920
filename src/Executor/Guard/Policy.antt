-- ===== src/Executor/Guard/Policy.antt =====
-- The targets that the guard of URLs lets through.
use scrape_kdl.Common.Outcome.{Outcome, ok, err, ◌>>=◌, ◌>>◌, check}
use scrape_kdl.Common.Text.{Bytes, codes, equal}
use scrape_kdl.Common.{
  ℕ, ◌/◌, ◌%◌, ◌^◌, ◌<◌, Bool, true, false, not, ◌||◌, List, [], ◌∷◌, Option, none, some, ◌==◌, ◌≡◌,
  ◌⊎◌, inl, inr, refl, arith, Bool-cases,
}
use scrape_kdl.Executor.Builtins.Arguments.{Result, fails}
use scrape_kdl.Executor.Builtins.Library.{Url}
use scrape_kdl.Executor.Guard.Public.{
  Inside, Outside, reachable4, reachable6, blocks4, blocks6, accepted4, accepted6,
}
use scrape_kdl.Executor.Guard.{
  Addr, ipv4, ipv6, globally_reachable_special_prefixes, non_public_special_prefixes, contains,
  unmap, is_loopback, is_private, is_link_local_unicast, is_multicast, is_unspecified,
  is_global_unicast, is_in, not_public, reject_unmapped, reject_non_public_addr, Resolver,
  reject_each, vetted, classify_public_target, reject_resolved, resolved,
  public_internet_url_policy,
}
use scrape_kdl.Executor.Output.Recovery.{Failure}

-- An address in the range of its kind, without a zone.
abbrev pub IsPlain : Addr → Type 0
IsPlain (ipv4 n) = n < 4294967296
IsPlain (ipv6 n zone) = (n < 2 ^ 128) × (zone ≡ [])

-- An address outside all the blocks that are not public, or in one of the exceptions.
abbrev pub IsPublic : Addr → Type 0
IsPublic (ipv4 n) = Inside n reachable4 ⊎ Outside n blocks4
IsPublic (ipv6 n zone) = Inside n reachable6 ⊎ Outside n blocks6

-- An address without a zone that rejectNonPublicAddr accepts is public: it lies outside every block
-- of loopback, private, link-local, multicast, documentation and other special addresses, or in
-- one of the exceptions, all as ranges of numbers; a mapped IPv4 address counts as itself.
pub reject_non_public_addr-IsPublic :
    (a : Addr) → IsPlain a → reject_non_public_addr a ≡ ok tt → IsPublic (unmap a)
unfolding reject_non_public_addr unmap
reject_non_public_addr-IsPublic (ipv4 n) plain h = accepted4 n plain h
reject_non_public_addr-IsPublic (ipv6 n zone) (small, plain) h =
    elim (Bool-cases (n / 4294967296 == 0xFFFF)) [
      | inl e ↦ rw e (accepted4 (n % 4294967296) (omega arith) (rw e at h))
      | inr e ↦ rw e (accepted6 n small (rw (e, plain) at h))
    ]

accepted_zone :
    (n c : ℕ) (zone : Bytes) → n / 2 ^ 112 ≡ 0x2002 → reject_unmapped (ipv6 n (c ∷ zone)) ≡ ok tt
unfolding reject_unmapped is_in contains is_global_unicast is_multicast is_loopback is_unspecified
    is_link_local_unicast is_private equal
accepted_zone n c zone h =
    let loops : (n == 1) ≡ false = ground arith in
    let links : (n / 2 ^ 118 == 1018) ≡ false = ground arith in
    let many : (n / 2 ^ 120 == 255) ≡ false = ground arith in
    let unique : (n / 2 ^ 121 == 126) ≡ false = ground arith in
    let unset : (n == 0) ≡ false = ground arith in rw (loops, links, many, unique, unset) refl

exceptions_miss :
    (n : ℕ) → n / 2 ^ 112 ≡ 0x2002 → is_in globally_reachable_special_prefixes (ipv6 n []) ≡ false
unfolding is_in contains
exceptions_miss n h = ground arith

special_holds :
    (n : ℕ) → n / 2 ^ 112 ≡ 0x2002 → is_in non_public_special_prefixes (ipv6 n []) ≡ true
unfolding is_in contains
special_holds n h = ground arith

refused_plain : (n : ℕ) → n / 2 ^ 112 ≡ 0x2002 → reject_unmapped (ipv6 n []) ≡ fails not_public
unfolding reject_unmapped
refused_plain n h = rw (exceptions_miss n h, special_holds n h) refl

-- With a zone the special prefixes do not apply, since Prefix.Contains refuses such addresses: every
-- address of 2002::/16 that has one is accepted, and refused without it.
pub reject_non_public_addr-zone :
    (n c : ℕ) (zone : Bytes)
    → n / 2 ^ 112 ≡ 0x2002
    → (reject_non_public_addr (ipv6 n (c ∷ zone)) ≡ ok tt)
      × (reject_non_public_addr (ipv6 n []) ≡ fails not_public)
unfolding reject_non_public_addr unmap reject_unmapped
reject_non_public_addr-zone n c zone h =
    let six : (n / 4294967296 == 0xFFFF) ≡ false = ground arith in
    rw six (accepted_zone n c zone h, refused_plain n h)

abbrev pub AllPlain : List Addr → Type 0
AllPlain [] = Unit
AllPlain (a ∷ rest) = IsPlain a × AllPlain rest

abbrev pub AllPublic : List Addr → Type 0
AllPublic [] = Unit
AllPublic (a ∷ rest) = IsPublic (unmap a) × AllPublic rest

first_ok :
    {A : Type 0} (first : Result (Unit {0})) (rest : Result A) (x : A)
    → (first >> rest) ≡ ok x
    → (first ≡ ok tt) × (rest ≡ ok x)
first_ok (ok a) rest x h = (refl, h)
first_ok (err e) rest x h = absurd cc

test_ok : (test : Bool) (e : Failure) → check test e ≡ ok tt → test ≡ true
test_ok true e h = refl
test_ok false e h = absurd cc

reject_each-AllPublic :
    (addresses : List Addr)
    → AllPlain addresses
    → reject_each addresses ≡ ok tt
    → AllPublic addresses
reject_each-AllPublic [] plain h = tt
reject_each-AllPublic (a ∷ rest) (plain, others) h =
    let (here, behind) = first_ok (reject_non_public_addr a) (reject_each rest) tt h in
    (reject_non_public_addr-IsPublic a plain here, reject_each-AllPublic rest others behind)

module _ (resolver : Resolver) where
  -- The address that a host is, or those that it resolves to, have no zone.
  abbrev pub PlainHost : Bytes → Type 0
  PlainHost host =
      ((a : Addr) → resolver.parse_addr host ≡ some a → IsPlain a)
      × ((addresses : List Addr) → resolver.lookup host ≡ ok addresses → AllPlain addresses)

  -- The host is a public address, or a name for public addresses only, of which there is one.
  abbrev pub PublicHost : Bytes → Option Addr → Type 0
  PublicHost host (some a) = IsPublic (unmap a)
  PublicHost host none =
      (a : Addr) × (rest : List Addr) × (resolver.lookup host ≡ ok (a ∷ rest))
      × AllPublic (a ∷ rest)

  resolved-AllPublic :
      (host : Bytes) (answer : Outcome Bytes (List Addr))
      → PlainHost host
      → resolver.lookup host ≡ answer
      → reject_resolved resolver answer ≡ ok tt
      → PublicHost host none
  resolved-AllPublic host (err e) plain at h = absurd cc
  resolved-AllPublic host (ok []) plain at h = absurd cc
  resolved-AllPublic host (ok (a ∷ rest)) plain at h =
      (a, rest, at, reject_each-AllPublic (a ∷ rest) (plain.1 (a ∷ rest) at) h)

  vetted-PublicHost :
      (host : Bytes) (o : Option Addr)
      → PlainHost host
      → equal host [] ≡ false
      → resolver.parse_addr host ≡ o
      → (vetted resolver host o >>= resolved resolver) ≡ ok tt
      → PublicHost host o
  unfolding equal
  vetted-PublicHost [] o plain named at h = absurd cc
  vetted-PublicHost (c ∷ host) none plain named at h =
      resolved-AllPublic (c ∷ host) (resolver.lookup (c ∷ host)) plain refl h
  vetted-PublicHost (c ∷ host) (some a) plain named at h =
      reject_non_public_addr-IsPublic a (plain.0 a at) (vetted_ok (reject_non_public_addr a) h)
    where
      vetted_ok : (r : Result (Unit {0})) → ((r >> ok []) >>= resolved resolver) ≡ ok tt → r ≡ ok tt
      vetted_ok (ok a) k = refl
      vetted_ok (err e) k = absurd cc

  guarded :
      (test : Bool) (e : Failure) (rest : Result Bytes)
      → ((check test e >> rest) >>= resolved resolver) ≡ ok tt
      → (test ≡ true) × ((rest >>= resolved resolver) ≡ ok tt)
  guarded true e rest h = (refl, h)
  guarded false e rest h = absurd cc

  -- A target that publicInternetURLPolicy lets through is an HTTP or HTTPS URL with a host and
  -- without userinfo, whose host is a public address, or a name that resolves to at least one
  -- address and to public ones only, where no address of the host, or that it resolves to, has a
  -- zone.
  pub public_internet_url_policy-PublicHost :
      (target : Url)
      → PlainHost target.hostname
      → public_internet_url_policy resolver target ≡ ok tt
      → ((equal target.scheme (codes "http") || equal target.scheme (codes "https")) ≡ true)
        × (target.has_user ≡ false)
        × (equal target.hostname [] ≡ false)
        × PublicHost target.hostname (resolver.parse_addr target.hostname)
  unfolding public_internet_url_policy classify_public_target
  public_internet_url_policy-PublicHost target plain h =
      let (web, users) =
        guarded (equal target.scheme (codes "http") || equal target.scheme (codes "https")) _ _ h in
      let (alone, hosts) = guarded (not target.has_user) _ _ users in
      let (named, host) = guarded (not (equal target.hostname [])) _ _ hosts in
      let present : equal target.hostname [] ≡ false = ground (arith, named) in
      (
        web,
        ground (arith, alone),
        present,
        vetted-PublicHost target.hostname (resolver.parse_addr target.hostname) plain present refl
            host,
      )
