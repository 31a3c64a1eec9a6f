-- ===== src/Shared/Prompts/Offers.antt =====
-- The address that the dialog for a new peer offers.
use innernet.Prelude.{
  ℕ, zero, suc, ◌≡◌, sym, subst, ◌⊎◌, inl, inr, Bool, true, false, none, some, List, [], ◌∷◌, arith,
  Bool-cases, Option-cases, ◌==◌, nat_eq, string_eq, option_eq, In, any, filter, In-filter,
}
use innernet.Net.{IpAddr, Ipnetwork, ip_eq}
use innernet.Wg.{Base64, KeyPair}
use innernet.Shared.{Cidr, Peer, PeerContents}
use innernet.Shared.Tree.{CidrTree, leaves}
use innernet.Shared.Prompts.{
  chosen, nth, choose_cidr, PeerAnswers, first_free, available_ip, peer_request, add_peer,
}

abbrev pub is_taken : List Peer → IpAddr → Bool
is_taken peers ip = any (λ p. p.ip == ip) peers

first_free-some :
    (net : Ipnetwork) (peers : List Peer) (ips : List IpAddr) (ip : IpAddr)
    → first_free net peers ips ≡ some ip
    → In ip ips × (is_taken peers ip ≡ false)
unfolding first_free
first_free-some net peers [] ip h = ground arith
first_free-some net peers (x ∷ ips) ip h = elim (Bool-cases (is_taken peers x)) [
  | inl taken ↦
      let (i, free) = first_free-some net peers ips ip (ground (arith, taken, h)) in (inr i, free)
  | inr free ↦
      let e : x ≡ ip = ground (arith, free, h) in
      (inl (sym e), subst (λ a. is_taken peers a ≡ false) e free)
]

first_free-none :
    (net : Ipnetwork) (peers : List Peer) (ips : List IpAddr)
    → first_free net peers ips ≡ none
    → (ip : IpAddr) → In ip ips
    → is_taken peers ip ≡ true
unfolding first_free
first_free-none net peers [] h ip i = elim i [ ]
first_free-none net peers (x ∷ ips) h ip i = elim (Bool-cases (is_taken peers x)) [
  | inr free ↦ ground (arith, free, h)
  | inl taken ↦ elim i [
    | inl e ↦ subst (λ a. is_taken peers a ≡ true) (sym e) taken
    | inr j ↦ first_free-none net peers ips (ground (arith, taken, h)) ip j
  ]
]

pub nth-In : {A : Type 0} (xs : List A) (index : ℕ) {x : A} → nth xs index ≡ some x → In x xs
unfolding nth
nth-In [] index h = ground arith
nth-In (y ∷ xs) zero h = inl (let e : y ≡ _ = ground arith in sym e)
nth-In (y ∷ xs) (suc index) h = inr (nth-In xs index h)

-- An address is offered exactly where some address of the network that may be assigned is no peer's,
-- and the one that is offered is such an address.
pub available_ip-free :
    (net : Ipnetwork) (peers : List Peer) (cidr : Cidr)
    → ((ip : IpAddr) × (available_ip net peers cidr ≡ some ip)
        × In ip (net.iter cidr.cidr)
        × (net.is_assignable cidr.cidr ip ≡ true)
        × (is_taken peers ip ≡ false))
      ⊎ ((available_ip net peers cidr ≡ none)
          × ((ip : IpAddr)
              → In ip (net.iter cidr.cidr)
              → net.is_assignable cidr.cidr ip ≡ true
              → is_taken peers ip ≡ true))
unfolding available_ip
available_ip-free net peers cidr =
    let candidates = filter (net.is_assignable cidr.cidr) (net.iter cidr.cidr) in
    elim (Option-cases (first_free net peers candidates)) [
      | inl e ↦ inr (
        e,
        λ ip i a.
            first_free-none net peers candidates e ip
              ((In-filter (net.is_assignable cidr.cidr) (net.iter cidr.cidr) ip).1 (i, a)),
      )
      | inr (ip, e) ↦
          let (i, free) = first_free-some net peers candidates ip e in
          let (j, a) = (In-filter (net.is_assignable cidr.cidr) (net.iter cidr.cidr) ip).0 i in
          inl (ip, e, j, a, free)
    ]

-- A peer that the dialog makes with the address that it offers.
pub add_peer-offered :
    (net : Ipnetwork) (base64 : Base64) (peers : List Peer) (tree : CidrTree)
    (answers : PeerAnswers) (contents : PeerContents) (pair : KeyPair)
    → answers.own_ip ≡ none
    → add_peer net base64 peers tree answers ≡ chosen (contents, pair)
    → (cidr : Cidr) × In cidr (leaves tree)
      × ((ip : IpAddr) × (available_ip net peers cidr ≡ some ip)
          × (contents ≡ peer_request base64 answers cidr ip))
unfolding add_peer choose_cidr
add_peer-offered net base64 peers tree answers contents pair own h =
    elim (Option-cases (nth (leaves tree) answers.cidr_index)) [
      | inl e ↦ ground (arith, e, h)
      | inr (cidr, e) ↦ elim (Option-cases (available_ip net peers cidr)) [
        | inl a ↦ ground (arith, e, a, h)
        | inr (ip, a) ↦ elim (Bool-cases answers.confirm) [
          | inl c ↦ (
            cidr,
            nth-In (leaves tree) answers.cidr_index e,
            (ip, a, ground (arith, e, a, c, own, h)),
          )
          | inr c ↦ ground (arith, e, a, c, h)
        ]
      ]
    ]
