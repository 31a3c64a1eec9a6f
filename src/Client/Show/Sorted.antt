-- ===== src/Client/Show/Sorted.antt =====
-- The order in which `show` prints the peers of a device.
use innernet.Prelude.{
  ◌≤◌, ◌<◌, ◌≡◌, refl, ap, ◌∙◌, subst, ◌⊎◌, inl, inr, true, false, none, some, List, [], ◌∷◌, map,
  arith, Bool-cases, Option-cases, length, In, All,
}
use mathlib.Core.List.{Perm}
use mathlib.Core.List.Perm
use innernet.Net.{IpAddr, v4, v6}
use innernet.Shared.{Peer}
use innernet.Wg.{Base64, PeerInfo}
use innernet.Client.Show.Texts.{shown, panicked}
use innernet.Client.Show.Sort.{known, recent, ip_leb, key_leb, insert, sort, keyed, sort_by_key}

abbrev Pair : Type 0
Pair = PeerInfo × IpAddr

ip_leb_total : (a b : IpAddr) → ip_leb a b ≡ false → ip_leb b a ≡ true
ip_leb_total (v4 x) (v4 y) h = ground (arith, h)
ip_leb_total (v4 x) (v6 y) h = ground (arith, h)
ip_leb_total (v6 x) (v4 y) h = refl
ip_leb_total (v6 x) (v6 y) h = ground (arith, h)

ip_leb_trans : (a b c : IpAddr) → ip_leb a b ≡ true → ip_leb b c ≡ true → ip_leb a c ≡ true
ip_leb_trans (v4 x) (v4 y) (v4 z) h k = ground (arith, h, k)
ip_leb_trans (v4 x) b (v6 z) h k = refl
ip_leb_trans (v4 x) (v6 y) (v4 z) h k = ground (arith, h, k)
ip_leb_trans (v6 x) (v4 y) c h k = ground (arith, h)
ip_leb_trans (v6 x) (v6 y) (v4 z) h k = ground (arith, k)
ip_leb_trans (v6 x) (v6 y) (v6 z) h k = ground (arith, h, k)

-- The later handshake, or the same and the lower address.
abbrev pub IsBefore : Pair → Pair → Type 0
IsBefore a b = (recent b.0 < recent a.0) ⊎ ((recent a.0 ≡ recent b.0) × (ip_leb a.1 b.1 ≡ true))

key_leb-IsBefore : (a b : Pair) → key_leb a b ≡ true → IsBefore a b
key_leb-IsBefore a b h = ground (arith, h)

key_leb_total : (a b : Pair) → key_leb a b ≡ false → IsBefore b a
key_leb_total a b h = ground (arith, h, ip_leb_total a.1 b.1)

IsBefore-trans : (a b c : Pair) → IsBefore a b → IsBefore b c → IsBefore a c
IsBefore-trans a b c (inl h) (inl k) = inl (omega (arith, h, k))
IsBefore-trans a b c (inl h) (inr k) = inl (omega (arith, h, k.0))
IsBefore-trans a b c (inr h) (inl k) = inl (omega (arith, h.0, k))
IsBefore-trans a b c (inr h) (inr k) = inr (h.0 ∙ k.0, ip_leb_trans a.1 b.1 c.1 h.1 k.1)

-- Each peer stands before all after it.
abbrev pub IsOrdered : List Pair → Type 0
IsOrdered [] = Unit
IsOrdered (a ∷ rest) = All (IsBefore a) rest × IsOrdered rest

insert-perm : (a : Pair) (l : List Pair) → Perm (insert a l) (a ∷ l)
unfolding insert
insert-perm a [] = Perm.refl (a ∷ [])
insert-perm a (b ∷ l) = elim (Bool-cases (key_leb a b)) [
  | inl below ↦ rw below (Perm.refl (a ∷ b ∷ l))
  | inr above ↦ rw above (Perm.trans (Perm.cons b (insert-perm a l)) (Perm.swap a b l))
]

insert-All : (P : Pair → Type 0) (a : Pair) (l : List Pair) → P a → All P l → All P (insert a l)
unfolding insert
insert-All P a [] h k = (h, k)
insert-All P a (b ∷ l) h k = elim (Bool-cases (key_leb a b)) [
  | inl below ↦ rw below (h, k)
  | inr above ↦ rw above (k.0, insert-All P a l h k.1)
]

All-map : (P Q : Pair → Type 0) (l : List Pair) → ((a : Pair) → P a → Q a) → All P l → All Q l
All-map P Q [] f h = tt
All-map P Q (a ∷ l) f h = (f a h.0, All-map P Q l f h.1)

insert-IsOrdered : (a : Pair) (l : List Pair) → IsOrdered l → IsOrdered (insert a l)
unfolding insert
insert-IsOrdered a [] h = (tt, tt)
insert-IsOrdered a (b ∷ l) h = elim (Bool-cases (key_leb a b)) [
  | inl below ↦
      let before = key_leb-IsBefore a b below in
      rw below
        ((before, All-map (IsBefore b) (IsBefore a) l (λ c. IsBefore-trans a b c before) h.0), h)
  | inr above ↦
      rw above (insert-All (IsBefore b) a l (key_leb_total a b above) h.0, insert-IsOrdered a l h.1)
]

sort-IsOrdered : (l : List Pair) → IsOrdered (sort l)
unfolding sort
sort-IsOrdered [] = tt
sort-IsOrdered (a ∷ l) = insert-IsOrdered a (sort l) (sort-IsOrdered l)

sort-perm : (l : List Pair) → Perm (sort l) l
unfolding sort
sort-perm [] = Perm.refl []
sort-perm (a ∷ l) = Perm.trans (insert-perm a (sort l)) (Perm.cons a (sort-perm l))

sort-All : (P : Pair → Type 0) (l : List Pair) → All P l → All P (sort l)
unfolding sort
sort-All P [] h = tt
sort-All P (a ∷ l) h = insert-All P a (sort l) h.0 (sort-All P l h.1)

module _ (base64 : Base64) where
  -- A peer with the address that the store has for its key.
  abbrev pub IsKeyed : List Peer → Pair → Type 0
  IsKeyed peers a = (p : Peer) × (known base64 peers a.0 ≡ some p) × (a.1 ≡ p.ip)

  keyed-cases :
      (peers : List Peer) (ds : List PeerInfo)
      → ((keyed base64 peers ds ≡ none) × (d : PeerInfo) × In d ds × (known base64 peers d ≡ none))
        ⊎ ((pairs : List Pair) × (keyed base64 peers ds ≡ some pairs)
            × (map (λ a. a.0) pairs ≡ ds)
            × All (IsKeyed peers) pairs)
  unfolding keyed
  keyed-cases peers [] = inr ([], refl, refl, tt)
  keyed-cases peers (d ∷ ds) = elim (Option-cases (known base64 peers d)) [
    | inl missing ↦ inl (ground (arith, missing), d, inl refl, missing)
    | inr (p, found) ↦ elim (keyed-cases peers ds) [
      | inl (e, d', i, missing) ↦ inl (ground (arith, found, e), d', inr i, missing)
      | inr (pairs, e, same, all) ↦ inr (
        (d, p.ip) ∷ pairs,
        ground (arith, found, e),
        ap (λ l. d ∷ l) same,
        ((p, found, refl), all),
      )
    ]
  ]

  -- Of fewer than two peers the order stays. Of more, one that the store does not know is a panic;
  -- or else the peers that are shown are those of the device, each as often, and none stands before a
  -- peer with a later handshake, nor, of the same handshake, before a peer with a lower address.
  pub sort_by_key-cases :
      (peers : List Peer) (ds : List PeerInfo)
      → ((length ds < 2) × (sort_by_key base64 peers ds ≡ shown ds))
        ⊎ ((2 ≤ length ds)
            × (sort_by_key base64 peers ds ≡ panicked)
            × (d : PeerInfo) × In d ds
            × (known base64 peers d ≡ none))
        ⊎ ((pairs : List Pair) × (sort_by_key base64 peers ds ≡ shown (map (λ a. a.0) pairs))
            × Perm (map (λ a. a.0) pairs) ds
            × All (IsKeyed peers) pairs
            × IsOrdered pairs)
  unfolding sort_by_key
  sort_by_key-cases peers [] = inl (omega arith, refl)
  sort_by_key-cases peers (d ∷ []) = inl (omega arith, refl)
  sort_by_key-cases peers (d ∷ d' ∷ ds) = elim (keyed-cases peers (d ∷ d' ∷ ds)) [
    | inl (e, u, i, m) ↦ inr (inl (omega arith, ground (arith, e), u, i, m))
    | inr (pairs, e, same, all) ↦ inr (
        inr (
          sort pairs,
          ground (arith, e),
          subst (λ l. Perm (map (λ a. a.0) (sort pairs)) l) same
              (Perm.map (λ a. a.0) (sort-perm pairs)),
          sort-All (IsKeyed peers) pairs all,
          sort-IsOrdered pairs,
        ))
  ]
