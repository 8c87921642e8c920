-- ===== src/Executor/Guard/Public.antt =====
-- What the guard of URLs lets through.
use scrape_kdl.Common.Outcome.{ok}
use scrape_kdl.Common.Text.{equal}
use scrape_kdl.Common.{
  ℕ, ◌+◌, ◌/◌, ◌^◌, ◌<◌, ◌≤◌, true, false, ◌&&◌, ◌||◌, List, [], ◌∷◌, any, leb, ◌==◌, ◌≡◌, ◌⊎◌, inl,
  inr, arith, Bool-cases,
}
use scrape_kdl.Executor.Builtins.Arguments.{fails}
use scrape_kdl.Executor.Guard.{
  Addr, ipv4, ipv6, Prefix, prefix6, dotted, grouped, contains, is_loopback, is_link_local_unicast,
  is_multicast, is_unspecified, is_global_unicast, is_special, globally_reachable_special_prefixes,
  non_public_special_prefixes, is_in, not_public, reject_unmapped,
}

-- The numbers of the addresses that belong together, from the first to the last.
abbrev pub Outside : ℕ → List (ℕ × ℕ) → Type 0
Outside n [] = Unit
Outside n ((first, last) ∷ blocks) = ((n < first) ⊎ (last < n)) × Outside n blocks

abbrev pub blocks4 : List (ℕ × ℕ)
blocks4 =
    (dotted 0 0 0 0, dotted 0 255 255 255)
    ∷ (dotted 10 0 0 0, dotted 10 255 255 255)
    ∷ (dotted 100 64 0 0, dotted 100 127 255 255)
    ∷ (dotted 127 0 0 0, dotted 127 255 255 255)
    ∷ (dotted 169 254 0 0, dotted 169 254 255 255)
    ∷ (dotted 172 16 0 0, dotted 172 31 255 255)
    ∷ (dotted 192 0 0 0, dotted 192 0 0 255)
    ∷ (dotted 192 0 2 0, dotted 192 0 2 255)
    ∷ (dotted 192 88 99 0, dotted 192 88 99 255)
    ∷ (dotted 192 168 0 0, dotted 192 168 255 255)
    ∷ (dotted 198 18 0 0, dotted 198 19 255 255)
    ∷ (dotted 198 51 100 0, dotted 198 51 100 255)
    ∷ (dotted 203 0 113 0, dotted 203 0 113 255)
    ∷ (dotted 224 0 0 0, dotted 239 255 255 255)
    ∷ (dotted 240 0 0 0, dotted 255 255 255 255)
    ∷ []

-- The last address that begins with these groups.
abbrev pub grouped_end : ℕ → ℕ → ℕ → ℕ → ℕ
grouped_end a b c d = grouped a b c d + 18446744073709551615

abbrev pub blocks6 : List (ℕ × ℕ)
blocks6 =
    (0, 1)
    ∷ (grouped 0x64 0xFF9B 1 0, grouped_end 0x64 0xFF9B 1 0xFFFF)
    ∷ (grouped 0x100 0 0 0, grouped_end 0x100 0 0 1)
    ∷ (grouped 0x2001 0 0 0, grouped_end 0x2001 0x1FF 0xFFFF 0xFFFF)
    ∷ (grouped 0x2001 0xDB8 0 0, grouped_end 0x2001 0xDB8 0xFFFF 0xFFFF)
    ∷ (grouped 0x2002 0 0 0, grouped_end 0x2002 0xFFFF 0xFFFF 0xFFFF)
    ∷ (grouped 0x3FFF 0 0 0, grouped_end 0x3FFF 0xFFF 0xFFFF 0xFFFF)
    ∷ (grouped 0x5F00 0 0 0, grouped_end 0x5F00 0xFFFF 0xFFFF 0xFFFF)
    ∷ (grouped 0xFC00 0 0 0, grouped_end 0xFDFF 0xFFFF 0xFFFF 0xFFFF)
    ∷ (grouped 0xFE80 0 0 0, grouped_end 0xFEBF 0xFFFF 0xFFFF 0xFFFF)
    ∷ (grouped 0xFF00 0 0 0, grouped_end 0xFFFF 0xFFFF 0xFFFF 0xFFFF)
    ∷ []

-- The exceptions.
abbrev pub Inside : ℕ → List (ℕ × ℕ) → Type 0
Inside n [] = ⊥
Inside n ((first, last) ∷ blocks) = ((first ≤ n) × (n ≤ last)) ⊎ Inside n blocks

abbrev pub reachable4 : List (ℕ × ℕ)
reachable4 = (dotted 192 0 0 9, dotted 192 0 0 10) ∷ []

abbrev pub reachable6 : List (ℕ × ℕ)
reachable6 =
    (grouped 0x2001 1 0 0 + 1, grouped 0x2001 1 0 0 + 3)
    ∷ (grouped 0x2001 3 0 0, grouped_end 0x2001 3 0xFFFF 0xFFFF)
    ∷ (grouped 0x2001 4 0x112 0, grouped_end 0x2001 4 0x112 0xFFFF)
    ∷ (grouped 0x2001 0x20 0 0, grouped_end 0x2001 0x3F 0xFFFF 0xFFFF)
    ∷ []

-- The tests that fail, one by one.
abbrev AllFalse : List Prefix → Addr → Type 0
AllFalse [] a = Unit
AllFalse (p ∷ ps) a = (contains p a ≡ false) × AllFalse ps a

none_in : (ps : List Prefix) (a : Addr) → any (λ p. contains p a) ps ≡ false → AllFalse ps a
none_in [] a h = tt
none_in (p ∷ ps) a h = (ground (arith, h), none_in ps a (ground (arith, h)))

-- How an address comes to be accepted.
accepted :
    (a : Addr)
    → reject_unmapped a ≡ ok tt
    → (is_in globally_reachable_special_prefixes a ≡ true)
      ⊎ (is_in non_public_special_prefixes a ≡ false) × (is_special a ≡ false)
unfolding reject_unmapped
accepted a h = elim (Bool-cases (is_in globally_reachable_special_prefixes a)) [
  | inl e ↦ inl e
  | inr e ↦ elim (Bool-cases (is_in non_public_special_prefixes a)) [
    | inl f ↦ absurd (refused (rw (e, f) at h))
    | inr f ↦ elim (Bool-cases (is_special a)) [
      | inl g ↦ absurd (refused (rw (e, f, g) at h))
      | inr g ↦ inr (f, g)
    ]
  ]
]
  where
    refused : fails {A = Unit {0}} not_public ≡ ok tt → ⊥
    refused k = cc

pub accepted4 :
    (n : ℕ)
    → n < 4294967296
    → reject_unmapped (ipv4 n) ≡ ok tt
    → Inside n reachable4 ⊎ Outside n blocks4
unfolding is_in contains is_global_unicast is_multicast
accepted4 n h k = elim (accepted (ipv4 n) k) [
  | inl e ↦ inl (inl (ground (arith, e), ground (arith, e)))
  | inr (f, g) ↦
      let fs = none_in non_public_special_prefixes (ipv4 n) f in
      let plain : (n / 268435456 == 14) ≡ false = ground (arith, g) in
      inr (
        (
          ground (arith, fs.0),
          (
            ground (arith, fs.1.0),
            (
              ground (arith, fs.1.1.0),
              (
                ground (arith, fs.1.1.1.0),
                (
                  ground (arith, fs.1.1.1.1.0),
                  (
                    ground (arith, fs.1.1.1.1.1.0),
                    (
                      ground (arith, fs.1.1.1.1.1.1.0),
                      (
                        ground (arith, fs.1.1.1.1.1.1.1.0),
                        (
                          ground (arith, fs.1.1.1.1.1.1.1.1.0),
                          (
                            ground (arith, fs.1.1.1.1.1.1.1.1.1.0),
                            (
                              ground (arith, fs.1.1.1.1.1.1.1.1.1.1.0),
                              (
                                ground (arith, fs.1.1.1.1.1.1.1.1.1.1.1.0),
                                (
                                  ground (arith, fs.1.1.1.1.1.1.1.1.1.1.1.1.0),
                                  (
                                    ground (arith, plain),
                                    (ground (arith, fs.1.1.1.1.1.1.1.1.1.1.1.1.1.0, h), tt),
                                  ),
                                ),
                              ),
                            ),
                          ),
                        ),
                      ),
                    ),
                  ),
                ),
              ),
            ),
          ),
        ))
]

covered :
    (n : ℕ)
    → ((leb (grouped 0x2001 1 0 0 + 1) n && leb n (grouped 0x2001 1 0 0 + 3))
        || (leb (grouped 0x2001 3 0 0) n && leb n (grouped_end 0x2001 3 0xFFFF 0xFFFF))
        || (leb (grouped 0x2001 4 0x112 0) n && leb n (grouped_end 0x2001 4 0x112 0xFFFF))
        || (leb (grouped 0x2001 0x20 0 0) n && leb n (grouped_end 0x2001 0x3F 0xFFFF 0xFFFF)))
      ≡ true
    → Inside n reachable6
covered n h =
    elim (Bool-cases (leb (grouped 0x2001 1 0 0 + 1) n && leb n (grouped 0x2001 1 0 0 + 3))) [
      | inl a ↦ inl (ground (arith, a), ground (arith, a))
      | inr a ↦
          elim (Bool-cases
            (leb (grouped 0x2001 3 0 0) n && leb n (grouped_end 0x2001 3 0xFFFF 0xFFFF))) [
              | inl b ↦ inr (inl (ground (arith, b), ground (arith, b)))
              | inr b ↦
                  elim (Bool-cases (
                    leb (grouped 0x2001 4 0x112 0) n
                    && leb n (grouped_end 0x2001 4 0x112 0xFFFF))) [
                      | inl c ↦ inr (inr (inl (ground (arith, c), ground (arith, c))))
                      | inr c ↦
                          inr (
                            inr
                              (inr (inl (ground (arith, h, a, b, c), ground (arith, h, a, b, c)))))
                    ]
            ]
    ]

-- The blocks, one by one.
module _ (n : ℕ) where
  local_nat :
      contains (prefix6 (grouped 0x64 0xFF9B 1 0) 48) (ipv6 n []) ≡ false
      → (n < grouped 0x64 0xFF9B 1 0) ⊎ (grouped_end 0x64 0xFF9B 1 0xFFFF < n)
  unfolding contains
  local_nat h = ground (arith, h)

  protocols :
      contains (prefix6 (grouped 0x2001 0 0 0) 23) (ipv6 n []) ≡ false
      → (n < grouped 0x2001 0 0 0) ⊎ (grouped_end 0x2001 0x1FF 0xFFFF 0xFFFF < n)
  unfolding contains
  protocols h = ground (arith, h)

  documentation :
      contains (prefix6 (grouped 0x2001 0xDB8 0 0) 32) (ipv6 n []) ≡ false
      → (n < grouped 0x2001 0xDB8 0 0) ⊎ (grouped_end 0x2001 0xDB8 0xFFFF 0xFFFF < n)
  unfolding contains
  documentation h = ground (arith, h)

  six_to_four :
      contains (prefix6 (grouped 0x2002 0 0 0) 16) (ipv6 n []) ≡ false
      → (n < grouped 0x2002 0 0 0) ⊎ (grouped_end 0x2002 0xFFFF 0xFFFF 0xFFFF < n)
  unfolding contains
  six_to_four h = ground (arith, h)

  documentation_2 :
      contains (prefix6 (grouped 0x3FFF 0 0 0) 20) (ipv6 n []) ≡ false
      → (n < grouped 0x3FFF 0 0 0) ⊎ (grouped_end 0x3FFF 0xFFF 0xFFFF 0xFFFF < n)
  unfolding contains
  documentation_2 h = ground (arith, h)

  segment_routing :
      contains (prefix6 (grouped 0x5F00 0 0 0) 16) (ipv6 n []) ≡ false
      → (n < grouped 0x5F00 0 0 0) ⊎ (grouped_end 0x5F00 0xFFFF 0xFFFF 0xFFFF < n)
  unfolding contains
  segment_routing h = ground (arith, h)

  unique_local :
      contains (prefix6 (grouped 0xFC00 0 0 0) 7) (ipv6 n []) ≡ false
      → (n < grouped 0xFC00 0 0 0) ⊎ (grouped_end 0xFDFF 0xFFFF 0xFFFF 0xFFFF < n)
  unfolding contains
  unique_local h = ground (arith, h)

  discard :
      contains (prefix6 (grouped 0x100 0 0 0) 64) (ipv6 n []) ≡ false
      → contains (prefix6 (grouped 0x100 0 0 1) 64) (ipv6 n []) ≡ false
      → (n < grouped 0x100 0 0 0) ⊎ (grouped_end 0x100 0 0 1 < n)
  unfolding contains
  discard h k = ground (arith, h, k)

  tests_outside :
      n < 2 ^ 128
      → is_special (ipv6 n []) ≡ false
      → ((n < 0) ⊎ (1 < n))
        × ((n < grouped 0xFE80 0 0 0) ⊎ (grouped_end 0xFEBF 0xFFFF 0xFFFF 0xFFFF < n))
        × ((n < grouped 0xFF00 0 0 0) ⊎ (grouped_end 0xFFFF 0xFFFF 0xFFFF 0xFFFF < n))
  unfolding is_global_unicast is_multicast is_loopback is_unspecified is_link_local_unicast equal
  tests_outside h g =
      let loops : (n == 1) ≡ false = ground (arith, g) in
      let unset : (n == 0) ≡ false = ground (arith, g) in
      let links : (n / 2 ^ 118 == 1018) ≡ false = ground (arith, g) in
      let many : (n / 2 ^ 120 == 255) ≡ false = ground (arith, g) in
      (ground (arith, loops, unset), ground (arith, links), ground (arith, many, h))

reachable_ranges :
    (n : ℕ)
    → is_in globally_reachable_special_prefixes (ipv6 n []) ≡ true
    → ((leb (grouped 0x2001 1 0 0 + 1) n && leb n (grouped 0x2001 1 0 0 + 3))
        || (leb (grouped 0x2001 3 0 0) n && leb n (grouped_end 0x2001 3 0xFFFF 0xFFFF))
        || (leb (grouped 0x2001 4 0x112 0) n && leb n (grouped_end 0x2001 4 0x112 0xFFFF))
        || (leb (grouped 0x2001 0x20 0 0) n && leb n (grouped_end 0x2001 0x3F 0xFFFF 0xFFFF)))
      ≡ true
unfolding is_in contains
reachable_ranges n e = ground (arith, e)

pub accepted6 :
    (n : ℕ)
    → n < 2 ^ 128
    → reject_unmapped (ipv6 n []) ≡ ok tt
    → Inside n reachable6 ⊎ Outside n blocks6
unfolding contains is_in
accepted6 n h k = elim (accepted (ipv6 n []) k) [
  | inl e ↦ inl (covered n (reachable_ranges n e))
  | inr (f, g) ↦
      let fs = none_in non_public_special_prefixes (ipv6 n []) f in
      let (low, links, many) = tests_outside n h g in
      inr (
        (
          low,
          (
            local_nat n (fs.1.1.1.1.1.1.1.1.1.1.1.1.1.1.0),
            (
              discard n (fs.1.1.1.1.1.1.1.1.1.1.1.1.1.1.1.0) (fs.1.1.1.1.1.1.1.1.1.1.1.1.1.1.1.1.0),
              (
                protocols n (fs.1.1.1.1.1.1.1.1.1.1.1.1.1.1.1.1.1.0),
                (
                  documentation n (fs.1.1.1.1.1.1.1.1.1.1.1.1.1.1.1.1.1.1.0),
                  (
                    six_to_four n (fs.1.1.1.1.1.1.1.1.1.1.1.1.1.1.1.1.1.1.1.0),
                    (
                      documentation_2 n (fs.1.1.1.1.1.1.1.1.1.1.1.1.1.1.1.1.1.1.1.1.0),
                      (
                        segment_routing n (fs.1.1.1.1.1.1.1.1.1.1.1.1.1.1.1.1.1.1.1.1.1.0),
                        (
                          unique_local n (fs.1.1.1.1.1.1.1.1.1.1.1.1.1.1.1.1.1.1.1.1.1.1.0),
                          (links, (many, tt)),
                        ),
                      ),
                    ),
                  ),
                ),
              ),
            ),
          ),
        ))
]
