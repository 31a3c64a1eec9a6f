-- ===== src/Net/Intervals.antt =====
-- Networks as intervals of addresses: when two share an address, and when one lies in another.
use innernet.Prelude.{
  ◌≡◌, ◌⊎◌, inl, inr, Bool, true, false, ◌||◌, arith, nat_eq, string_eq, option_eq,
}
use innernet.Net.{IpAddr, v4, v6, ◌≤ip◌, IpNetwork, Ipnetwork, IpnetworkLaws}

le_ip-trans : (a b c : IpAddr) → a ≤ip b → b ≤ip c → a ≤ip c
le_ip-trans (v4 a) (v4 b) (v4 c) p q = omega arith
le_ip-trans (v6 a) (v6 b) (v6 c) p q = omega arith
le_ip-trans (v4 a) (v6 b) c p q = elim p [ ]
le_ip-trans (v6 a) (v4 b) c p q = elim p [ ]
le_ip-trans (v4 a) (v4 b) (v6 c) p q = elim q [ ]
le_ip-trans (v6 a) (v6 b) (v4 c) p q = elim q [ ]

-- Of two lower bounds of one address the larger is at most that address and above the other.
le_ip-total : (a b c : IpAddr) → a ≤ip c → b ≤ip c → (a ≤ip b) ⊎ (b ≤ip a)
le_ip-total (v4 a) (v4 b) (v4 c) p q = omega arith
le_ip-total (v6 a) (v6 b) (v6 c) p q = omega arith
le_ip-total (v4 a) b (v6 c) p q = elim p [ ]
le_ip-total (v6 a) b (v4 c) p q = elim p [ ]
le_ip-total (v4 a) (v6 b) (v4 c) p q = elim q [ ]
le_ip-total (v6 a) (v4 b) (v6 c) p q = elim q [ ]

module _ (net : Ipnetwork) where
  -- No address is in both networks.
  abbrev pub Disjoint : IpNetwork → IpNetwork → Type 0
  Disjoint n m = (a : IpAddr) → net.contains_ip n a ≡ true → net.contains_ip m a ≡ true → ⊥

  -- Every address of `n` is one of `m`.
  abbrev pub Within : IpNetwork → IpNetwork → Type 0
  Within n m = (a : IpAddr) → net.contains_ip n a ≡ true → net.contains_ip m a ≡ true

  -- The test of `DatabaseCidr::create` on a sibling.
  abbrev pub overlaps : IpNetwork → IpNetwork → Bool
  overlaps cidr sibling =
      net.contains_ip cidr (net.network sibling)
      || (net.contains_ip cidr (net.broadcast sibling)
          || (net.contains_ip sibling (net.network cidr)
              || net.contains_ip sibling (net.broadcast cidr)))

  module _ (laws : IpnetworkLaws net) where
    pub subnet-Within : (n m : IpNetwork) → net.is_subnet_of n m ≡ true → Within n m
    subnet-Within n m h a i =
        let (lo, hi) = (laws.subnet_iff n m).0 h in
        let (p, q) = (laws.contains_iff n a).0 i in
        (laws.contains_iff m a).1 (le_ip-trans _ _ _ lo p, le_ip-trans _ _ _ q hi)

    -- Two networks share an address only if the first address of one lies in the other.
    pub overlaps_of_shared :
        (n m : IpNetwork) (a : IpAddr)
        → net.contains_ip n a ≡ true
        → net.contains_ip m a ≡ true
        → overlaps n m ≡ true
    overlaps_of_shared n m a i j =
        let (p, q) = (laws.contains_iff n a).0 i in
        let (r, s) = (laws.contains_iff m a).0 j in
        elim (le_ip-total (net.network n) (net.network m) a p r) [
          | inl below ↦
              let k : net.contains_ip n (net.network m) ≡ true =
                (laws.contains_iff n _).1 (below, le_ip-trans _ _ _ r q) in
              ground arith
          | inr above ↦
              let k : net.contains_ip m (net.network n) ≡ true =
                (laws.contains_iff m _).1 (above, le_ip-trans _ _ _ p s) in
              ground arith
        ]

    pub Disjoint-of_overlaps : (n m : IpNetwork) → overlaps n m ≡ false → Disjoint n m
    Disjoint-of_overlaps n m h a i j =
        let k : overlaps n m ≡ true = overlaps_of_shared n m a i j in cc (h, k)

    pub overlaps_comm : (n m : IpNetwork) → overlaps n m ≡ true → overlaps m n ≡ true
    overlaps_comm n m h = ground arith
