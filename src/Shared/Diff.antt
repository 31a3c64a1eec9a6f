-- ===== src/Shared/Diff.antt =====
-- shared/src/lib.rs: what a peer asks of the interface, and what changes for one that is configured.
use innernet.Prelude.{
  ℕ, ◌≡◌, refl, sym, ◌≢◌, ◌↔◌, ◌⊎◌, inl, inr, Bool, true, false, not, ◌&&◌, Option, none, some, [],
  ◌∷◌, arith, if◌then◌else◌, Bool-cases, Option-cases, PartialEq, ◌==◌, ==_iff, nat_eq, string_eq,
  option_eq,
}
use innernet.Net.{SocketAddr, is_ipv4, socket_eq}
use innernet.Wg.{Base64, PeerConfig, from_base64, to_base64}
use innernet.Wg.PeerBuilder
use innernet.Wg.PeerBuilder.{PeerConfigBuilder, set_some}
use innernet.Shared.{Peer, PeerDiff}

-- `From<&Peer> for PeerConfigBuilder`; `none` is the panic of `unwrap` on a key that is no base64.
unfoldable pub peer_builder : Base64 → Peer → Option PeerConfigBuilder
peer_builder base64 peer = elim (from_base64 base64 peer.public_key) [
  | none ↦ none
  | some key ↦
      let b0 =
        PeerBuilder.add_allowed_ip (PeerBuilder.replace_allowed_ips (PeerBuilder.new key)) peer.ip
          (if is_ipv4 peer.ip then 32 else 128) in
      let b1 = if peer.is_disabled then PeerBuilder.remove b0 else b0 in
      let b2 =
        set_some PeerBuilder.set_persistent_keepalive_interval peer.persistent_keepalive_interval
          b1 in
      some (set_some PeerBuilder.set_endpoint peer.endpoint b2)
]

-- `From<&PeerDiff> for PeerConfigBuilder`
unfoldable pub diff_builder : Base64 → PeerDiff → Option PeerConfigBuilder
diff_builder base64 peer = elim (from_base64 base64 peer.public_key) [
  | none ↦ none
  | some key ↦
      let b0 = PeerBuilder.new key in
      let b1 = if peer.is_disabled then PeerBuilder.remove b0 else b0 in
      let b2 =
        set_some PeerBuilder.set_persistent_keepalive_interval peer.persistent_keepalive_interval
          b1 in
      some (set_some PeerBuilder.set_endpoint peer.endpoint b2)
]

-- A value that is wanted, where it is not there.
abbrev pub wanted : {A : Type 0} ⦃e : PartialEq A⦄ → Option A → Option A → Option A
wanted there here = if there == here then none else here

-- `Peer::diff`; the outer `none` is the panic of its assertion.
unfoldable pub diff : Base64 → Peer → PeerConfig → Option (Option PeerDiff)
diff base64 self peer =
    let endpoint_diff = wanted peer.endpoint self.endpoint in
    let keepalive_diff =
      wanted peer.persistent_keepalive_interval self.persistent_keepalive_interval in
    if not (self.public_key == to_base64 base64 peer.public_key)
    then none
    else if (endpoint_diff == none) && (keepalive_diff == none)
    then some none
    else some (
        some (record {
          public_key = self.public_key;
          endpoint = endpoint_diff;
          persistent_keepalive_interval = keepalive_diff;
          is_disabled = self.is_disabled;
        }))

wanted-some :
    {A : Type 0} ⦃e : PartialEq A⦄ (there here : Option A) (a : A)
    → (wanted there here ≡ some a) ↔ ((here ≡ some a) × (here ≢ there))
wanted-some there here a = elim (Bool-cases (there == here)) [
  | inl t ↦
      let same = (==_iff there here).0 t in
      rw t ((λ h. cc h), λ (h, differ). absurd (differ (sym same)))
  | inr f ↦ rw f (
    (λ h. (h, λ same. let t = (==_iff there here).1 (sym same) in ground (arith, t, f))),
    λ h. h.0,
  )
]

wanted-none :
    {A : Type 0} ⦃e : PartialEq A⦄ (there here : Option A)
    → wanted there here ≡ none
    → (here ≡ none) ⊎ (here ≡ there)
wanted-none there here h = elim (Bool-cases (there == here)) [
  | inl t ↦ inr (sym ((==_iff there here).0 t))
  | inr f ↦ inl (let k : here ≡ none = rw f at h in k)
]

-- The builder that `peer_builder` makes of a peer, or none.
abbrev pub IsDescribed : Base64 → Peer → Type 0
IsDescribed base64 peer =
    ((from_base64 base64 peer.public_key ≡ none) × (peer_builder base64 peer ≡ none))
    ⊎ ((b : PeerConfigBuilder) × (peer_builder base64 peer ≡ some b)
        × (from_base64 base64 peer.public_key ≡ some b.public_key)
        × (b.allowed_ips
            ≡ record { address = peer.ip; cidr = if is_ipv4 peer.ip then 32 else 128 } ∷ [])
        × (b.replace_allowed_ips ≡ true)
        × (b.endpoint ≡ peer.endpoint)
        × (b.persistent_keepalive_interval ≡ peer.persistent_keepalive_interval)
        × (b.remove_me ≡ peer.is_disabled)
        × (b.preshared_key ≡ none))

-- The builder of a peer, if its key is one, names that key, lists just the peer's address, for which
-- it replaces all others, sets the endpoint and the keepalive interval that the peer has, and removes
-- the peer if it is disabled. If the key is none, there is no builder.
pub peer_builder_describes : (base64 : Base64) (peer : Peer) → IsDescribed base64 peer
unfolding peer_builder PeerBuilder.new PeerBuilder.replace_allowed_ips PeerBuilder.add_allowed_ip
    PeerBuilder.remove PeerBuilder.set_persistent_keepalive_interval PeerBuilder.set_endpoint
peer_builder_describes base64 peer = elim (Option-cases (from_base64 base64 peer.public_key)) [
  | inl no_key ↦ inl (no_key, ground (arith, no_key))
  | inr (key, is_key) ↦ inr (
    record {
      public_key = key;
      preshared_key = none;
      endpoint = peer.endpoint;
      persistent_keepalive_interval = peer.persistent_keepalive_interval;
      allowed_ips = record { address = peer.ip; cidr = if is_ipv4 peer.ip then 32 else 128 } ∷ [];
      replace_allowed_ips = true;
      remove_me = peer.is_disabled;
    },
    ground (
      arith,
      is_key,
      Bool-cases peer.is_disabled,
      Option-cases peer.endpoint,
      Option-cases peer.persistent_keepalive_interval,
    ),
    is_key,
    refl,
    refl,
    refl,
    refl,
    refl,
    refl,
  )
]

-- The three ways in which `diff` ends.
abbrev pub IsCompared : Base64 → Peer → PeerConfig → Type 0
IsCompared base64 self peer =
    ((self.public_key ≢ to_base64 base64 peer.public_key) × (diff base64 self peer ≡ none))
    ⊎ (((self.public_key ≡ to_base64 base64 peer.public_key)
          × (diff base64 self peer ≡ some none)
          × ((self.endpoint ≡ none) ⊎ (self.endpoint ≡ peer.endpoint))
          × ((self.persistent_keepalive_interval ≡ none)
              ⊎ (self.persistent_keepalive_interval ≡ peer.persistent_keepalive_interval)))
        ⊎ ((self.public_key ≡ to_base64 base64 peer.public_key)
            × ((d : PeerDiff) × (diff base64 self peer ≡ some (some d))
                × (d.public_key ≡ self.public_key)
                × (d.is_disabled ≡ self.is_disabled)
                × ((a : SocketAddr)
                    → (d.endpoint ≡ some a)
                      ↔ ((self.endpoint ≡ some a) × (self.endpoint ≢ peer.endpoint)))
                × ((k : ℕ)
                    → (d.persistent_keepalive_interval ≡ some k) ↔ (
                        (self.persistent_keepalive_interval ≡ some k)
                        × (self.persistent_keepalive_interval
                            ≢ peer.persistent_keepalive_interval)))
                × ((d.endpoint ≢ none) ⊎ (d.persistent_keepalive_interval ≢ none)))))

-- A configured peer of the same key needs no change exactly when each of endpoint and keepalive
-- interval either agrees or is one that the peer has none of; otherwise the difference names the key
-- and just the values that differ. Of another key, the comparison panics.
pub diff-cases : (base64 : Base64) (self : Peer) (peer : PeerConfig) → IsCompared base64 self peer
unfolding diff
diff-cases base64 self peer =
    let there = peer.endpoint in
    let keepalive = peer.persistent_keepalive_interval in
    elim (Bool-cases (self.public_key == to_base64 base64 peer.public_key)) [
      | inr other ↦ inl (
        (λ e.
            let t = (==_iff self.public_key (to_base64 base64 peer.public_key)).1 e in
            ground (arith, t, other)),
        ground (arith, other),
      )
      | inl t ↦
          let named = (==_iff self.public_key (to_base64 base64 peer.public_key)).0 t in
          let quiet : Bool =
            (wanted there self.endpoint == none)
            && (wanted keepalive self.persistent_keepalive_interval == none) in
          elim (Bool-cases quiet) [
            | inl q ↦
                let no_endpoint = (==_iff (wanted there self.endpoint) none).0 (ground arith) in
                let no_keepalive =
                  (==_iff (wanted keepalive self.persistent_keepalive_interval) none).0
                    (ground arith) in
                inr (
                  inl (
                    named,
                    ground (arith, t, q),
                    wanted-none there self.endpoint no_endpoint,
                    wanted-none keepalive self.persistent_keepalive_interval no_keepalive,
                  ))
            | inr loud ↦ inr (
                inr (
                  named,
                  (
                    record {
                      public_key = self.public_key;
                      endpoint = wanted there self.endpoint;
                      persistent_keepalive_interval =
                          wanted keepalive self.persistent_keepalive_interval;
                      is_disabled = self.is_disabled;
                    },
                    ground (arith, t, loud),
                    refl,
                    refl,
                    wanted-some there self.endpoint,
                    wanted-some keepalive self.persistent_keepalive_interval,
                    differs (wanted there self.endpoint)
                        (wanted keepalive self.persistent_keepalive_interval) loud,
                  ),
                ))
          ]
    ]
  where
    differs :
        {A B : Type 0} ⦃e : PartialEq A⦄ ⦃f : PartialEq B⦄ (o : Option A) (m : Option B)
        → ((o == none) && (m == none)) ≡ false
        → (o ≢ none) ⊎ (m ≢ none)
    differs (some a) m h = inl (λ k. cc k)
    differs none (some b) h = inr (λ k. cc k)
    differs none none h = ground (arith, h)
