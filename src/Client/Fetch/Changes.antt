-- ===== src/Client/Fetch/Changes.antt =====
-- Which builder `fetch` makes of a peer that the server names, in terms of that peer and of the one on
-- the interface.
use innernet.Prelude.{
  ℕ, ◌≡◌, refl, sym, ap, ◌∙◌, ◌≢◌, ◌↔◌, ◌⊎◌, inl, inr, Bool, true, false, Option, none, some, List,
  [], ◌∷◌, arith, if◌then◌else◌, Option-cases, ◌==◌, ==_iff, nat_eq, string_eq, option_eq, In, find,
  find-some, find-none,
}
use innernet.Net.{SocketAddr, is_ipv4}
use innernet.Wg.{Base64, Key, PeerInfo, from_base64, to_base64}
use innernet.Wg.PeerBuilder as PeerBuilder
use innernet.Wg.PeerBuilder.{PeerConfigBuilder}
use innernet.Shared.{Peer, PeerDiff}
use innernet.Shared.Diff.{peer_builder, diff_builder, diff-cases}
use innernet.Client.Fetch.{change}

-- A peer that is to be added, of a key that was read.
abbrev pub addition : Peer → Key → PeerConfigBuilder
addition p key = record {
  public_key = key;
  preshared_key = none;
  endpoint = p.endpoint;
  persistent_keepalive_interval = p.persistent_keepalive_interval;
  allowed_ips = record { address = p.ip; cidr = if is_ipv4 p.ip then 32 else 128 } ∷ [];
  replace_allowed_ips = true;
  remove_me = false;
}

-- A peer that is to have another endpoint, or another keepalive interval.
abbrev pub modification : Key → Option SocketAddr → Option ℕ → PeerConfigBuilder
modification key endpoint keepalive = record {
  public_key = key;
  preshared_key = none;
  endpoint = endpoint;
  persistent_keepalive_interval = keepalive;
  allowed_ips = [];
  replace_allowed_ips = false;
  remove_me = false;
}

-- A value that is set: one that is wanted, and is not the one there.
abbrev pub IsWanted : {A : Type 0} → Option A → Option A → Option A → Type 0
IsWanted {A} there here out = (a : A) → (out ≡ some a) ↔ ((here ≡ some a) × (here ≢ there))

IsWanted-unique :
    {A : Type 0} (there here out other : Option A)
    → IsWanted there here out
    → IsWanted there here other
    → out ≡ other
IsWanted-unique there here none none h k = refl
IsWanted-unique there here none (some a) h k = (h a).1 ((k a).0 refl)
IsWanted-unique there here (some a) other h k = sym ((k a).1 ((h a).0 refl))

IsWanted-none :
    {A : Type 0} (there here out : Option A)
    → IsWanted there here out
    → (here ≡ none) ⊎ (here ≡ there)
    → out ≡ none
IsWanted-none there here none h same = refl
IsWanted-none there here (some a) h (inl e) = let (k, _) = (h a).0 refl in ground (arith, e, k)
IsWanted-none there here (some a) h (inr e) = let (_, differ) = (h a).0 refl in absurd (differ e)

module _ (base64 : Base64) where
  -- No peer of the key is on the interface.
  abbrev pub IsAdded : List PeerInfo → Peer → PeerConfigBuilder → Type 0
  IsAdded existing p b =
      ((e : PeerInfo) → In e existing → to_base64 base64 e.config.public_key ≢ p.public_key)
      × ((key : Key) × (from_base64 base64 p.public_key ≡ some key) × (b ≡ addition p key))

  -- The first peer of the key that is on the interface has another endpoint or keepalive interval.
  abbrev pub IsModified : List PeerInfo → Peer → PeerConfigBuilder → Type 0
  IsModified existing p b =
      (e : PeerInfo) × (find
          (λ (x : PeerInfo). to_base64 base64 x.config.public_key == p.public_key) existing
        ≡ some e)
      × ((key : Key) × (from_base64 base64 p.public_key ≡ some key)
          × ((endpoint : Option SocketAddr) × (keepalive : Option ℕ) × IsWanted e.config.endpoint
                p.endpoint endpoint
              × IsWanted e.config.persistent_keepalive_interval p.persistent_keepalive_interval
                  keepalive
              × ((endpoint ≢ none) ⊎ (keepalive ≢ none))
              × (b ≡ modification key endpoint keepalive)))

  peer_builder-addition :
      (p : Peer) (key : Key)
      → p.is_disabled ≡ false
      → from_base64 base64 p.public_key ≡ some key
      → peer_builder base64 p ≡ some (addition p key)
  unfolding peer_builder PeerBuilder.new PeerBuilder.replace_allowed_ips PeerBuilder.add_allowed_ip
      PeerBuilder.set_persistent_keepalive_interval PeerBuilder.set_endpoint
  peer_builder-addition p key enabled is_key = ground (
    arith,
    is_key,
    enabled,
    Option-cases p.endpoint,
    Option-cases p.persistent_keepalive_interval,
  )

  diff_builder-modification :
      (d : PeerDiff) (key : Key)
      → d.is_disabled ≡ false
      → from_base64 base64 d.public_key ≡ some key
      → diff_builder base64 d ≡ some (modification key d.endpoint d.persistent_keepalive_interval)
  unfolding diff_builder PeerBuilder.new PeerBuilder.set_persistent_keepalive_interval
      PeerBuilder.set_endpoint
  diff_builder-modification d key enabled is_key = ground (
    arith,
    is_key,
    enabled,
    Option-cases d.endpoint,
    Option-cases d.persistent_keepalive_interval,
  )

  no_builder : (p : Peer) → from_base64 base64 p.public_key ≡ none → peer_builder base64 p ≡ none
  unfolding peer_builder
  no_builder p no_key = ground (arith, no_key)

  no_diff_builder :
      (d : PeerDiff) → from_base64 base64 d.public_key ≡ none → diff_builder base64 d ≡ none
  unfolding diff_builder
  no_diff_builder d no_key = ground (arith, no_key)

  -- What the change of an enabled peer is.
  pub change-built :
      (existing : List PeerInfo) (p : Peer) (b : PeerConfigBuilder)
      → p.is_disabled ≡ false
      → change base64 existing p ≡ some (some b)
      → IsAdded existing p b ⊎ IsModified existing p b
  unfolding change
  change-built existing p b enabled h =
      let test : PeerInfo → Bool = λ x. to_base64 base64 x.config.public_key == p.public_key in
      elim (Option-cases (find test existing)) [
        | inl unknown ↦ elim (Option-cases (from_base64 base64 p.public_key)) [
          | inl no_key ↦
              let none_made = no_builder p no_key in ground (arith, h, unknown, none_made)
          | inr (key, is_key) ↦
              let made = peer_builder-addition p key enabled is_key in
              inl (
                (λ e i same.
                    let t = (==_iff (to_base64 base64 e.config.public_key) p.public_key).1 same in
                    let f = find-none test existing e unknown i in ground (arith, t, f)),
                (key, is_key, ground (arith, h, unknown, made)),
              )
        ]
        | inr (e, found) ↦ elim (diff-cases base64 p e.config) [
          | inl (_, stops) ↦ ground (arith, h, found, stops)
          | inr (inl (_, quiet, _, _)) ↦ ground (arith, h, found, quiet)
          | inr (inr (_, (d, differs, names, disables, endpoint, keepalive, some_one))) ↦
              elim (Option-cases (from_base64 base64 p.public_key)) [
                | inl no_key ↦
                    let none_made = no_diff_builder d (ap (from_base64 base64) names ∙ no_key) in
                    ground (arith, h, found, differs, none_made)
                | inr (key, is_key) ↦
                    let made =
                      diff_builder-modification d key (disables ∙ enabled)
                        (ap (from_base64 base64) names ∙ is_key) in
                    inr (
                      e,
                      found,
                      (
                        key,
                        is_key,
                        (
                          d.endpoint,
                          d.persistent_keepalive_interval,
                          endpoint,
                          keepalive,
                          some_one,
                          ground (arith, h, found, differs, made),
                        ),
                      ),
                    )
              ]
        ]
      ]

  pub built-change :
      (existing : List PeerInfo) (p : Peer) (b : PeerConfigBuilder)
      → p.is_disabled ≡ false
      → IsAdded existing p b ⊎ IsModified existing p b
      → change base64 existing p ≡ some (some b)
  unfolding change
  built-change existing p b enabled (inl (unknown, (key, is_key, same))) =
      let test : PeerInfo → Bool = λ x. to_base64 base64 x.config.public_key == p.public_key in
      let made = peer_builder-addition p key enabled is_key in
      elim (Option-cases (find test existing)) [
        | inl missing ↦ ground (arith, missing, made, same)
        | inr (e, found) ↦
            let (i, t) = find-some test existing found in
            absurd (unknown e i ((==_iff (to_base64 base64 e.config.public_key) p.public_key).0 t))
      ]
  built-change existing p b enabled
        (inr (e, found, (key, is_key, (endpoint, keepalive, sets, keeps, some_one, same)))) =
      let test : PeerInfo → Bool = λ x. to_base64 base64 x.config.public_key == p.public_key in
      let (_, t) = find-some test existing found in
      let named = (==_iff (to_base64 base64 e.config.public_key) p.public_key).0 t in
      elim (diff-cases base64 p e.config) [
        | inl (other, _) ↦ absurd (other (sym named))
        | inr (inl (_, _, no_endpoint, no_keepalive)) ↦
            let a = IsWanted-none e.config.endpoint p.endpoint endpoint sets no_endpoint in
            let k =
              IsWanted-none e.config.persistent_keepalive_interval p.persistent_keepalive_interval
                keepalive keeps no_keepalive in
            elim some_one [ inl differ ↦ absurd (differ a) | inr differ ↦ absurd (differ k) ]
        | inr (inr (_, (d, differs, names, disables, at, alive, _))) ↦
            let made =
              diff_builder-modification d key (disables ∙ enabled)
                (ap (from_base64 base64) names ∙ is_key) in
            let a = IsWanted-unique e.config.endpoint p.endpoint d.endpoint endpoint at sets in
            let k =
              IsWanted-unique e.config.persistent_keepalive_interval p.persistent_keepalive_interval
                d.persistent_keepalive_interval keepalive alive keeps in
            ground (arith, found, differs, made, same, a, k)
      ]
