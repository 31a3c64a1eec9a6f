-- ===== src/Client/Fetch/Configures.antt =====
-- What `fetch` makes of the peers that the server names and of those on the interface.
use innernet.Prelude.{
  String, ◌≡◌, refl, sym, ap, ◌∙◌, subst, ◌≢◌, ◌↔◌, ◌⊎◌, inl, inr, Bool, true, false, Option, none,
  some, List, [], ◌∷◌, arith, Bool-cases, Option-cases, ◌==◌, ==_iff, nat_eq, string_eq, option_eq,
  In, In-append_right, any, filter, any-true, any-false,
}
use innernet.Wg.{Base64, Key, PeerInfo, from_base64, to_base64}
use innernet.Wg.PeerBuilder.{PeerConfigBuilder}
use innernet.Wg.DeviceBuilder as DeviceBuilder
use innernet.Wg.DeviceBuilder.{DeviceConfigBuilder}
use innernet.Shared.{Peer, State}
use innernet.Client.Store.{Contents}
use innernet.Client.Fetch.{
  Update, is_configured, is_stale, changes, remove_stale, with_changes, update, Fetched, saved,
  fetch,
}
use innernet.Client.Fetch.Changes.{addition, IsAdded, IsModified, change-built, built-change}
use innernet.Client.Fetch.Reconciles.{removal, update-change, saved-applied}

module _ (base64 : Base64) where
  -- The flag is up just where something is to be changed.
  abbrev IsFlagged : Update → Type 0
  IsFlagged u =
      ((u.changed ≡ false) × (u.builder.peers ≡ []))
      ⊎ ((u.changed ≡ true) × (b : PeerConfigBuilder) × In b u.builder.peers)

  remove_stale-IsFlagged :
      (peers : List Peer) (existing : List PeerInfo) (u : Update)
      → IsFlagged u
      → IsFlagged (remove_stale base64 peers existing u)
  unfolding remove_stale DeviceBuilder.remove_peer_by_key DeviceBuilder.add_peer
  remove_stale-IsFlagged peers [] u flagged = flagged
  remove_stale-IsFlagged peers (e ∷ es) u flagged = elim (Bool-cases (is_stale base64 peers e)) [
    | inl stale ↦
        let next : Update = record {
          builder = DeviceBuilder.remove_peer_by_key u.builder e.config.public_key;
          changed = true;
        } in
        let step : remove_stale base64 peers (e ∷ es) u ≡ remove_stale base64 peers es next =
          ground (arith, stale) in
        let gone = removal base64 e.config.public_key in
        rw step (
          remove_stale-IsFlagged peers es next
            (inr (refl, gone, In-append_right gone u.builder.peers (gone ∷ []) (inl refl))))
    | inr fresh ↦
        let step : remove_stale base64 peers (e ∷ es) u ≡ remove_stale base64 peers es u =
          ground (arith, fresh) in
        rw step (remove_stale-IsFlagged peers es u flagged)
  ]

  with_changes-IsFlagged : (bs : List PeerConfigBuilder) → IsFlagged (with_changes base64 bs)
  unfolding DeviceBuilder.new DeviceBuilder.add_peers
  with_changes-IsFlagged [] = inl (refl, refl)
  with_changes-IsFlagged (b ∷ bs) = inr (refl, b, inl refl)

  update-IsFlagged :
      (own : String) (existing : List PeerInfo) (peers : List Peer) (u : Update)
      → update base64 own existing peers ≡ some u
      → IsFlagged u
  unfolding update
  update-IsFlagged own existing peers u h =
      elim (Option-cases (changes base64 existing (filter (is_configured base64 own) peers))) [
        | inl panic ↦ ground (arith, h, panic)
        | inr (bs, done) ↦
            let same : remove_stale base64 peers existing (with_changes base64 bs) ≡ u =
              ground (arith, h, done) in
            subst IsFlagged same (
              remove_stale-IsFlagged peers existing (with_changes base64 bs)
                (with_changes-IsFlagged bs))
      ]

  is_configured_iff :
      (own : String) (p : Peer)
      → (is_configured base64 own p ≡ true) ↔ ((p.is_disabled ≡ false) × (p.public_key ≢ own))
  is_configured_iff own p = elim (Bool-cases (p.public_key == own)) [
    | inl t ↦
        let same = (==_iff p.public_key own).0 t in
        ((λ h. ground (arith, h, t)), λ h. absurd (h.1 same))
    | inr f ↦ (
      (λ h. (
        ground (arith, h, f),
        λ e. let t = (==_iff p.public_key own).1 e in ground (arith, t, f),
      )),
      λ h. ground (arith, f, h.0),
    )
  ]

  is_stale_iff :
      (peers : List Peer) (e : PeerInfo)
      → (is_stale base64 peers e ≡ true)
        ↔ ((p : Peer) → In p peers → p.public_key ≢ to_base64 base64 e.config.public_key)
  is_stale_iff peers e =
      let key = to_base64 base64 e.config.public_key in
      let test : Peer → Bool = λ p. p.public_key == key in
      elim (Bool-cases (any test peers)) [
        | inl t ↦
            let (p, i, named) = any-true test peers t in
            ((λ h. ground (arith, h, t)), λ h. absurd (h p i ((==_iff p.public_key key).0 named)))
        | inr f ↦ (
          (λ h p i same.
              let t = (==_iff p.public_key key).1 same in
              let g = any-false test peers p f i in ground (arith, t, g)),
          λ h. ground (arith, f),
        )
      ]

  -- Where `fetch` does not panic, the change it makes to the interface has three kinds of entry and no
  -- other. A peer that the server names, that is enabled and not the interface's own, is added with
  -- its key, just its address, its endpoint and its interval, if no peer on the interface has its key;
  -- and if one has, it is given those of endpoint and interval that are wanted and are not there, if
  -- there are any. A peer on the interface whose key the server names nowhere is removed. And the
  -- change is marked as one exactly where there is an entry.
  pub update_iff :
      (own : String) (existing : List PeerInfo) (peers : List Peer) (u : Update)
      → update base64 own existing peers ≡ some u
      → ((b : PeerConfigBuilder)
          → In b u.builder.peers ↔ (
              ((p : Peer) × In p peers
                × (p.is_disabled ≡ false)
                × (p.public_key ≢ own)
                × (IsAdded base64 existing p b ⊎ IsModified base64 existing p b))
              ⊎ ((e : PeerInfo) × In e existing
                  × ((p : Peer) → In p peers → p.public_key ≢ to_base64 base64 e.config.public_key)
                  × (b ≡ removal base64 e.config.public_key))))
        × ((u.changed ≡ true) ↔ ((b : PeerConfigBuilder) × In b u.builder.peers))
  update_iff own existing peers u h = (
    (λ b.
        let (fore, back) = update-change base64 own existing peers u h b in
        (
          (λ i. elim (fore i) [
            | inl (p, j, t, needs) ↦
                let (enabled, other) = (is_configured_iff own p).0 t in
                inl (p, j, enabled, other, change-built base64 existing p b enabled needs)
            | inr (e, j, t, same) ↦ inr (e, j, (is_stale_iff peers e).0 t, same)
          ]),
          λ s. back (elim s [
            | inl (p, j, enabled, other, made) ↦ inl (
              p,
              j,
              (is_configured_iff own p).1 (enabled, other),
              built-change base64 existing p b enabled made,
            )
            | inr (e, j, unnamed, same) ↦ inr (e, j, (is_stale_iff peers e).1 unnamed, same)
          ]),
        )),
    elim (update-IsFlagged own existing peers u h) [
      | inl (down, empty) ↦
          ((λ up. ground (arith, up, down)), λ (b, i). absurd (subst (In b) empty i))
      | inr (up, b, i) ↦ ((λ _. (b, i)), λ _. up)
    ],
  )

  fetch_changed :
      (apply_error : DeviceConfigBuilder → Option String) (hosts_error : List Peer → Option String)
      (own : String) (existing : List PeerInfo) (fetched : State) (store : Contents) (r : Fetched)
      (u : Update)
      → fetch base64 apply_error hosts_error own existing fetched store ≡ some r
      → update base64 own existing fetched.peers ≡ some u
      → u.changed ≡ true
      → apply_error u.builder ≡ none
      → r.applied ≡ some u.builder
  unfolding fetch
  fetch_changed apply_error hosts_error own existing fetched store r u h done up applies =
      elim (Option-cases (hosts_error fetched.peers)) [
        | inr (e, failed) ↦ ground (arith, h, done, up, applies, failed)
        | inl listed ↦
            let same : saved (some u.builder) fetched store ≡ r =
              ground (arith, h, done, up, applies, listed) in
            ap (λ (x : Fetched). x.applied) (sym same)
            ∙ saved-applied fetched (some u.builder) store
      ]

  -- Where `fetch` does not panic and the interface takes every configuration, an enabled peer that the
  -- server names, other than the interface's own, whose key is one and is not on the interface yet, is
  -- added: a configuration is applied, and it has an entry of that key, with just the peer's address,
  -- its endpoint and its interval, and not for removal.
  pub fetch-addition :
      (apply_error : DeviceConfigBuilder → Option String) (hosts_error : List Peer → Option String)
      (own : String) (existing : List PeerInfo) (fetched : State) (store : Contents) (r : Fetched)
      (p : Peer) (key : Key)
      → fetch base64 apply_error hosts_error own existing fetched store ≡ some r
      → ((builder : DeviceConfigBuilder) → apply_error builder ≡ none)
      → In p fetched.peers
      → p.is_disabled ≡ false
      → p.public_key ≢ own
      → ((e : PeerInfo) → In e existing → to_base64 base64 e.config.public_key ≢ p.public_key)
      → from_base64 base64 p.public_key ≡ some key
      → (builder : DeviceConfigBuilder) × (r.applied ≡ some builder)
        × In (addition p key) builder.peers
  unfolding fetch
  fetch-addition apply_error hosts_error own existing fetched store r p key h takes i enabled other
        unknown is_key =
      elim (Option-cases (update base64 own existing fetched.peers)) [
        | inl panic ↦ ground (arith, h, panic)
        | inr (u, done) ↦
            let (entries, flag) = update_iff own existing fetched.peers u done in
            let there : In (addition p key) u.builder.peers =
              (entries (addition p key)).1
                (inl (p, i, enabled, other, inl (unknown, (key, is_key, refl)))) in
            (
              u.builder,
              fetch_changed apply_error hosts_error own existing fetched store r u h done
                  (flag.1 (addition p key, there)) (takes u.builder),
              there,
            )
      ]
