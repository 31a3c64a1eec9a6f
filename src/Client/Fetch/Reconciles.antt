-- ===== src/Client/Fetch/Reconciles.antt =====
-- Which change `fetch` makes to the interface.
use innernet.Prelude.{
  String, ◌≡◌, refl, sym, ap, ◌∙◌, subst, ◌↔◌, ◌⊎◌, inl, inr, true, Option, none, some, List, [],
  ◌∷◌, arith, Bool-cases, Option-cases, In, In-append_left, In-append_right, In-append, filter,
  In-filter,
}
use innernet.Wg.{Base64, Key, PeerInfo}
use innernet.Wg.PeerBuilder
use innernet.Wg.PeerBuilder.{PeerConfigBuilder}
use innernet.Wg.DeviceBuilder
use innernet.Shared.{Peer, State}
use innernet.Client.Store.{Contents, add_peers, set_cidrs}
use innernet.Client.Fetch.{
  Change, Update, is_configured, cons_change, change, changes, is_stale, remove_stale, with_changes,
  update, fetch, Fetched, saved,
}
use innernet.Wg.DeviceBuilder.{DeviceConfigBuilder}

module _ (base64 : Base64) where
  cons_change_iff :
      (c : Change) (rest bs : Option (List PeerConfigBuilder)) (out : List PeerConfigBuilder)
      → cons_change base64 c rest ≡ some out
      → (later : List PeerConfigBuilder) × (rest ≡ some later)
        × ((b : PeerConfigBuilder) → In b out ↔ ((c ≡ some (some b)) ⊎ In b later))
  cons_change_iff none rest bs out h = ground (arith, h)
  cons_change_iff (some none) none bs out h = ground (arith, h)
  cons_change_iff (some none) (some later) bs out h =
      let same : later ≡ out = ground (arith, h) in
      (
        later,
        refl,
        λ b. (
          (λ i. inr (subst (In b) (sym same) i)),
          λ s. elim s [ inl e ↦ cc e | inr i ↦ subst (In b) same i ],
        ),
      )
  cons_change_iff (some (some a)) none bs out h = ground (arith, h)
  cons_change_iff (some (some a)) (some later) bs out h =
      let same : a ∷ later ≡ out = ground (arith, h) in
      (
        later,
        refl,
        λ b. (
          (λ i. elim (subst (In b) (sym same) i) [ inl e ↦ inl (cc e) | inr j ↦ inr j ]),
          λ s. subst (In b) same (elim s [ inl e ↦ inl (cc e) | inr i ↦ inr i ]),
        ),
      )

  -- The builders that are collected are those of the peers that need one.
  changes_iff :
      (existing : List PeerInfo) (peers : List Peer) (out : List PeerConfigBuilder)
      → changes base64 existing peers ≡ some out
      → (b : PeerConfigBuilder)
      → In b out ↔ ((p : Peer) × In p peers × (change base64 existing p ≡ some (some b)))
  unfolding changes
  changes_iff existing [] out h b =
      let same : [] ≡ out = ground (arith, h) in
      ((λ i. absurd (subst (In b) (sym same) i)), λ (p, i, e). absurd i)
  changes_iff existing (p ∷ ps) out h b =
      let (later, done, those) =
        cons_change_iff (change base64 existing p) (changes base64 existing ps) none out h in
      let rest = changes_iff existing ps later done b in
      (
        (λ i. elim ((those b).0 i) [
          | inl e ↦ (p, inl refl, e)
          | inr j ↦ let (q, k, e) = rest.0 j in (q, inr k, e)
        ]),
        λ (q, i, e). (those b).1 (elim i [
          | inl same ↦ inl (subst (λ x. change base64 existing x ≡ some (some b)) same e)
          | inr j ↦ inr (rest.1 (q, j, e))
        ]),
      )

  -- A builder that removes the peer of a key.
  abbrev pub removal : Key → PeerConfigBuilder
  removal key = record (PeerBuilder.new key) { remove_me = true }

  remove_stale_iff :
      (peers : List Peer) (existing : List PeerInfo) (u : Update) (b : PeerConfigBuilder)
      → In b (remove_stale base64 peers existing u).builder.peers ↔ (
          In b u.builder.peers
          ⊎ ((e : PeerInfo) × In e existing
              × (is_stale base64 peers e ≡ true)
              × (b ≡ removal e.config.public_key)))
  unfolding remove_stale DeviceBuilder.remove_peer_by_key DeviceBuilder.add_peer
  remove_stale_iff peers [] u b =
      ((λ i. inl i), λ s. elim s [ inl i ↦ i | inr (e, i, _, _) ↦ absurd i ])
  remove_stale_iff peers (e ∷ es) u b = elim (Bool-cases (is_stale base64 peers e)) [
    | inl stale ↦
        let next : Update = record {
          builder = DeviceBuilder.remove_peer_by_key u.builder e.config.public_key;
          changed = true;
        } in
        let rest = remove_stale_iff peers es next b in
        let step : remove_stale base64 peers (e ∷ es) u ≡ remove_stale base64 peers es next =
          ground (arith, stale) in
        rw step (
          (λ i. elim (rest.0 i) [
            | inl j ↦ elim (In-append b u.builder.peers (removal e.config.public_key ∷ []) j) [
              | inl k ↦ inl k
              | inr (inl same) ↦ inr (e, inl refl, stale, same)
              | inr (inr z) ↦ absurd z
            ]
            | inr (x, j, t, same) ↦ inr (x, inr j, t, same)
          ]),
          λ s. rest.1 (elim s [
            | inl i ↦ inl (In-append_left b u.builder.peers (removal e.config.public_key ∷ []) i)
            | inr (x, inl at_x, t, same) ↦ inl (
                In-append_right b u.builder.peers (removal e.config.public_key ∷ [])
                  (inl (same ∙ ap (λ (y : PeerInfo). removal y.config.public_key) at_x)))
            | inr (x, inr j, t, same) ↦ inr (x, j, t, same)
          ]),
        )
    | inr fresh ↦
        let rest = remove_stale_iff peers es u b in
        let step : remove_stale base64 peers (e ∷ es) u ≡ remove_stale base64 peers es u =
          ground (arith, fresh) in
        rw step (
          (λ i. elim (rest.0 i) [ inl j ↦ inl j | inr (x, j, t, same) ↦ inr (x, inr j, t, same) ]),
          λ s. rest.1 (elim s [
            | inl i ↦ inl i
            | inr (x, inl at_x, t, same) ↦
                let t' = subst (λ y. is_stale base64 peers y ≡ true) at_x t in
                ground (arith, t', fresh)
            | inr (x, inr j, t, same) ↦ inr (x, j, t, same)
          ]),
        )
  ]

  with_changes_iff :
      (bs : List PeerConfigBuilder) (b : PeerConfigBuilder)
      → In b (with_changes base64 bs).builder.peers ↔ In b bs
  unfolding DeviceBuilder.new DeviceBuilder.add_peers
  with_changes_iff [] b = ((λ i. i), λ i. i)
  with_changes_iff (c ∷ cs) b = ((λ i. i), λ i. i)

  -- The builders of an update, in terms of the change that each peer needs.
  pub update-change :
      (own : String) (existing : List PeerInfo) (peers : List Peer) (u : Update)
      → update base64 own existing peers ≡ some u
      → (b : PeerConfigBuilder)
      → In b u.builder.peers ↔ (
          ((p : Peer) × In p peers
            × (is_configured base64 own p ≡ true)
            × (change base64 existing p ≡ some (some b)))
          ⊎ ((e : PeerInfo) × In e existing
              × (is_stale base64 peers e ≡ true)
              × (b ≡ removal e.config.public_key)))
  unfolding update
  update-change own existing peers u h b =
      elim (Option-cases (changes base64 existing (filter (is_configured base64 own) peers))) [
        | inl panic ↦ ground (arith, h, panic)
        | inr (bs, done) ↦
            let same : remove_stale base64 peers existing (with_changes base64 bs) ≡ u =
              ground (arith, h, done) in
            let those = remove_stale_iff peers existing (with_changes base64 bs) b in
            let wanted = changes_iff existing (filter (is_configured base64 own) peers) bs done b in
            let first = with_changes_iff bs b in
            (
              (λ i. elim (those.0 (subst (λ (x : Update). In b x.builder.peers) (sym same) i)) [
                | inl j ↦
                    let (p, k, e) = wanted.0 (first.0 j) in
                    let (l, t) = (In-filter (is_configured base64 own) peers p).0 k in
                    inl (p, l, t, e)
                | inr stale ↦ inr stale
              ]),
              λ s.
                  subst (λ (x : Update). In b x.builder.peers) same
                    (those.1 (elim s [
                      | inl (p, l, t, e) ↦ inl (
                          first.1 (
                            wanted.1
                              (p, (In-filter (is_configured base64 own) peers p).1 (l, t), e)))
                      | inr stale ↦ inr stale
                    ])),
            )
      ]

pub saved-applied :
    (fetched : State) (a : Option DeviceConfigBuilder) (c : Contents)
    → (saved a fetched c).applied ≡ a
saved-applied fetched a c =
    elim (Option-cases (add_peers fetched.peers (set_cidrs fetched.cidrs c)).1) [
      | inl fine ↦ rw (saved, fine) refl
      | inr (e, failed) ↦ rw (saved, failed) refl
    ]

-- What `fetch` applies to the interface does not depend on what the store has pinned: the same answer
-- of the server leads to the same configuration, whichever peers the store knows, also if the store
-- then refuses the peers.
pub fetch-applied :
    (base64 : Base64) (apply_error : DeviceConfigBuilder → Option String)
    (hosts_error : List Peer → Option String) (own : String) (existing : List PeerInfo)
    (fetched : State) (store other : Contents) (r r' : Fetched)
    → fetch base64 apply_error hosts_error own existing fetched store ≡ some r
    → fetch base64 apply_error hosts_error own existing fetched other ≡ some r'
    → r.applied ≡ r'.applied
unfolding fetch
fetch-applied base64 apply_error hosts_error own existing fetched store other r r' h h' =
    elim (Option-cases (update base64 own existing fetched.peers)) [
      | inl panic ↦ ground (arith, h, panic)
      | inr (u, done) ↦ elim (Bool-cases u.changed) [
        | inr same ↦
            let e : saved none fetched store ≡ r = ground (arith, h, done, same) in
            let e' : saved none fetched other ≡ r' = ground (arith, h', done, same) in
            agree none e e'
        | inl changed ↦ elim (Option-cases (apply_error u.builder)) [
          | inr (failure, failed) ↦ ground (arith, h, h', done, changed, failed)
          | inl applied ↦ elim (Option-cases (hosts_error fetched.peers)) [
            | inr (failure, failed) ↦ ground (arith, h, h', done, changed, applied, failed)
            | inl listed ↦
                let e : saved (some u.builder) fetched store ≡ r =
                  ground (arith, h, done, changed, applied, listed) in
                let e' : saved (some u.builder) fetched other ≡ r' =
                  ground (arith, h', done, changed, applied, listed) in
                agree (some u.builder) e e'
          ]
        ]
      ]
    ]
  where
    agree :
        (a : Option DeviceConfigBuilder)
        → saved a fetched store ≡ r
        → saved a fetched other ≡ r'
        → r.applied ≡ r'.applied
    agree a e e' =
        ap (λ (x : Fetched). x.applied) (sym e)
        ∙ saved-applied fetched a store
        ∙ sym (saved-applied fetched a other)
        ∙ ap (λ (x : Fetched). x.applied) e'
