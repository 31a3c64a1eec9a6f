-- ===== src/Net/Ipv4.antt =====
-- A concrete instance of the interface to `ipnetwork`, on addresses of 32 (and 128) bits, at which
-- the theorems are applied.
use innernet.Prelude.{
  ℕ, zero, suc, ◌+◌, ◌-◌, ◌*◌, ◌/◌, ◌^◌, ◌<◌, ◌≡◌, ap, ◌∙◌, ◌↔◌, inl, inr, Bool, true, false, not,
  ◌&&◌, ◌||◌, none, some, List, [], ◌∷◌, arith, ltb, leb, if◌then◌else◌, ◌==◌, nat_eq, string_eq,
  option_eq, In,
}
use innernet.Net.{IpAddr, v4, v6, ◌≤ip◌, IpNetwork, Ipnetwork, IpnetworkLaws, ip_eq}

abbrev leb_ip : IpAddr → IpAddr → Bool
leb_ip (v4 a) (v4 b) = leb a b
leb_ip (v6 a) (v6 b) = leb a b
leb_ip _ _ = false

leb_ip_iff : (a b : IpAddr) → (leb_ip a b ≡ true) ↔ (a ≤ip b)
leb_ip_iff (v4 a) (v4 b) = ground arith
leb_ip_iff (v4 a) (v6 b) = ground arith
leb_ip_iff (v6 a) (v4 b) = ground arith
leb_ip_iff (v6 a) (v6 b) = ground arith

abbrev width : IpAddr → ℕ
width (v4 _) = 32
width (v6 _) = 128

-- The first address of the block of `size` addresses, and the last.
abbrev first : ℕ → IpAddr → IpAddr
first size (v4 a) = v4 (a / size * size)
first size (v6 a) = v6 (a / size * size)

abbrev last : ℕ → IpAddr → IpAddr
last size (v4 a) = v4 (a / size * size + (size - 1))
last size (v6 a) = v6 (a / size * size + (size - 1))

block : IpNetwork → ℕ
block n = 2 ^ (width n.ip - n.prefix)

first-le-last : (size : ℕ) (a : IpAddr) → first size a ≤ip last size a
first-le-last size (v4 a) = omega arith
first-le-last size (v6 a) = omega arith

within : IpAddr → IpAddr → IpAddr → Bool
within lo hi a = leb_ip lo a && leb_ip a hi

within_iff : (lo hi a : IpAddr) → (within lo hi a ≡ true) ↔ ((lo ≤ip a) × (a ≤ip hi))
unfolding within
within_iff lo hi a =
    let (p, p') = leb_ip_iff lo a in
    let (q, q') = leb_ip_iff a hi in
    ((λ h. (p (ground arith), q (ground arith))), λ h. ground (arith, p' h.0, q' h.1))

enclosed_iff :
    (lo hi lo' hi' : IpAddr)
    → ((leb_ip lo' lo && leb_ip hi hi') ≡ true) ↔ ((lo' ≤ip lo) × (hi ≤ip hi'))
enclosed_iff lo hi lo' hi' =
    let (p, p') = leb_ip_iff lo' lo in
    let (q, q') = leb_ip_iff hi hi' in
    ((λ h. (p (ground arith), q (ground arith))), λ h. ground (arith, p' h.0, q' h.1))

upward : ℕ → (ℕ → IpAddr) → ℕ → List IpAddr
upward zero f a = []
upward (suc k) f a = f a ∷ upward k f (a + 1)

abbrev addresses : ℕ → IpAddr → List IpAddr
addresses size (v4 a) = upward size v4 (a / size * size)
addresses size (v6 a) = upward size v6 (a / size * size)

-- An item of `upward` is one of the `size` numbers from `base` on.
upward-In :
    (size : ℕ) (f : ℕ → IpAddr) (base : ℕ) (a : IpAddr)
    → In a (upward size f base)
    → (i : ℕ) × (i < size) × (a ≡ f (base + i))
unfolding upward
upward-In zero f base a h = elim h [ ]
upward-In (suc size) f base a (inl e) =
    let same : base ≡ base + 0 = omega arith in (0, omega arith, e ∙ ap f same)
upward-In (suc size) f base a (inr h) =
    let (i, lt, e) = upward-In size f (base + 1) a h in
    let same : base + 1 + i ≡ base + (suc i) = omega arith in
    (suc i, omega (arith, lt), e ∙ ap f same)

addresses-within :
    (size : ℕ) (ip a : IpAddr)
    → In a (addresses size ip)
    → within (first size ip) (last size ip) a ≡ true
unfolding within
addresses-within size (v4 n) a h =
    let (i, lt, e) = upward-In size v4 (n / size * size) a h in rw e (ground (arith, lt))
addresses-within size (v6 n) a h =
    let (i, lt, e) = upward-In size v6 (n / size * size) a h in rw e (ground (arith, lt))

unfoldable pub ipv4 : Ipnetwork
unfolding block within upward
ipv4 = record {
  new = λ a p. if leb p (width a) then some (record { ip = a; prefix = p }) else none;
  network = λ n. first (block n) n.ip;
  broadcast = λ n. last (block n) n.ip;
  contains_ip = λ n a. within (first (block n) n.ip) (last (block n) n.ip) a;
  is_subnet_of = λ n m.
      leb_ip (first (block m) m.ip) (first (block n) n.ip)
      && leb_ip (last (block n) n.ip) (last (block m) m.ip);
  is_assignable = λ n a.
      within (first (block n) n.ip) (last (block n) n.ip) a
      && (ltb (width n.ip) (n.prefix + 2)
          || not (a == first (block n) n.ip) && not (a == last (block n) n.ip));
  iter = λ n. addresses (block n) n.ip;
  max_prefix = λ n. width n.ip;
}

pub ipv4_laws : IpnetworkLaws ipv4
unfolding ipv4
ipv4_laws = record {
  network-le-broadcast = λ n. first-le-last (block n) n.ip;
  contains_iff = λ n a. within_iff (first (block n) n.ip) (last (block n) n.ip) a;
  subnet_iff = λ n m.
      enclosed_iff (first (block n) n.ip) (last (block n) n.ip) (first (block m) m.ip)
        (last (block m) m.ip);
  iter-contains = λ n a h. addresses-within (block n) n.ip a h;
}
