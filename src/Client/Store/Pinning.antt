-- ===== src/Client/Store/Pinning.antt =====
-- What the client's store promises of the peers that it has seen: an address keeps its key.
use innernet.Prelude.{
  String, ◌≡◌, refl, sym, ap, ◌∙◌, subst, ◌⊎◌, inl, inr, none, some, List, [], ◌∷◌, ◌++◌, arith,
  Bool-cases, Option-cases, ◌==◌, ==_iff, nat_eq, string_eq, option_eq, In, In-append_left,
  In-append_right, find, find-some, find-none, All_at, All-of, DistinctBy, DistinctBy-append,
  DistinctBy-unique,
}
use innernet.Net.{IpAddr, ip_eq}
use innernet.Shared.{Peer}
use innernet.Client.Store.{Contents, pinning_error, replace_first, add_peer, add_all, add_peers}

-- The store knows the address, with this key.
abbrev pub HasPin : IpAddr → String → List Peer → Type 0
HasPin ip key peers = (p : Peer) × In p peers × (p.ip ≡ ip) × (p.public_key ≡ key)

replace_first-In :
    (new_peer q : Peer) (peers : List Peer)
    → In q (replace_first new_peer peers)
    → (q ≡ new_peer) ⊎ In q peers
unfolding replace_first
replace_first-In new_peer q [] i = elim i [ ]
replace_first-In new_peer q (p ∷ ps) i =
    let rest = replace_first-In new_peer q ps in
    elim (Bool-cases (p.ip == new_peer.ip)) [
      | inl t ↦ elim (let k : In q (new_peer ∷ ps) = rw t at i in k) [
        | inl e ↦ inl e
        | inr j ↦ inr (inr j)
      ]
      | inr f ↦ elim (let k : In q (p ∷ replace_first new_peer ps) = rw f at i in k) [
        | inl e ↦ inr (inl e)
        | inr j ↦ elim (rest j) [ inl e ↦ inl e | inr k ↦ inr (inr k) ]
      ]
    ]

-- The first peer of the address gives way, every other one stays.
replace_first_keeps :
    (new_peer q : Peer) (peers : List Peer)
    → In q peers
    → In q (replace_first new_peer peers) ⊎ (find (λ p. p.ip == new_peer.ip) peers ≡ some q)
unfolding replace_first
replace_first_keeps new_peer q [] i = elim i [ ]
replace_first_keeps new_peer q (p ∷ ps) (inl e) = elim (Bool-cases (p.ip == new_peer.ip)) [
  | inl t ↦ inr (rw t (ap some (sym e)))
  | inr f ↦ inl (rw f (inl e))
]
replace_first_keeps new_peer q (p ∷ ps) (inr i) =
    let rest = replace_first_keeps new_peer q ps i in
    elim (Bool-cases (p.ip == new_peer.ip)) [
      | inl t ↦ inl (rw t (inr i))
      | inr f ↦ elim rest [ inl j ↦ inl (rw f (inr j)) | inr found ↦ inr (rw f found) ]
    ]

replace_first_new :
    (new_peer old : Peer) (peers : List Peer)
    → find (λ p. p.ip == new_peer.ip) peers ≡ some old
    → In new_peer (replace_first new_peer peers)
unfolding replace_first
replace_first_new new_peer old [] h = ground arith
replace_first_new new_peer old (p ∷ ps) h =
    let rest = replace_first_new new_peer old ps in
    elim (Bool-cases (p.ip == new_peer.ip)) [
      | inl t ↦ rw t (inl refl)
      | inr f ↦ rw f (inr (rest (rw f at h)))
    ]

-- What one round does.
add_peer-cases :
    (new_peer : Peer) (peers : List Peer)
    → ((find (λ p. p.ip == new_peer.ip) peers ≡ none)
        × (add_peer new_peer peers ≡ (peers ++ new_peer ∷ [], none)))
      ⊎ (((old : Peer) × (find (λ p. p.ip == new_peer.ip) peers ≡ some old)
            × (old.public_key ≡ new_peer.public_key)
            × (add_peer new_peer peers ≡ (replace_first new_peer peers, none)))
          ⊎ (add_peer new_peer peers ≡ (peers, some pinning_error)))
unfolding add_peer
add_peer-cases new_peer peers =
    elim (Option-cases (find (λ (p : Peer). p.ip == new_peer.ip) peers)) [
      | inl missing ↦ inl (missing, ground (arith, missing))
      | inr (old, found) ↦ elim (Bool-cases (old.public_key == new_peer.public_key)) [
        | inl t ↦ inr (
            inl (
              old,
              found,
              (==_iff old.public_key new_peer.public_key).0 t,
              ground (arith, found, t),
            ))
        | inr f ↦ inr (inr (ground (arith, found, f)))
      ]
    ]

-- A pin survives a round.
add_peer-HasPin :
    (new_peer : Peer) (peers : List Peer) (ip : IpAddr) (key : String)
    → HasPin ip key peers
    → HasPin ip key (add_peer new_peer peers).0
add_peer-HasPin new_peer peers ip key (p, i, at_ip, at_key) = elim (add_peer-cases new_peer peers) [
  | inl (_, done) ↦ rw done (p, In-append_left p peers (new_peer ∷ []) i, at_ip, at_key)
  | inr (inr failed) ↦ rw failed (p, i, at_ip, at_key)
  | inr (inl (old, found, same_key, done)) ↦
      rw done (elim (replace_first_keeps new_peer p peers i) [
        | inl j ↦ (p, j, at_ip, at_key)
        | inr first ↦
            let same : old ≡ p = ground (arith, found, first) in
            let (_, t) = find-some (λ (x : Peer). x.ip == new_peer.ip) peers first in
            (
              new_peer,
              replace_first_new new_peer old peers found,
              sym ((==_iff p.ip new_peer.ip).0 t) ∙ at_ip,
              sym same_key ∙ ap (λ (x : Peer). x.public_key) same ∙ at_key,
            )
      ])
]

replace_first-DistinctBy :
    (new_peer : Peer) (peers : List Peer)
    → DistinctBy (λ p. p.ip) peers
    → DistinctBy (λ p. p.ip) (replace_first new_peer peers)
unfolding replace_first
replace_first-DistinctBy new_peer [] d = tt
replace_first-DistinctBy new_peer (p ∷ ps) (other, d) =
    let rest = replace_first-DistinctBy new_peer ps d in
    elim (Bool-cases (p.ip == new_peer.ip)) [
      | inl t ↦ rw t (
        All-of _ ps (λ q i e. All_at _ ps q other i (e ∙ sym ((==_iff p.ip new_peer.ip).0 t))),
        d,
      )
      | inr f ↦ rw f (
        All-of _ (replace_first new_peer ps) (λ q i e. elim (replace_first-In new_peer q ps i) [
          | inl same ↦
              let hit = (==_iff p.ip new_peer.ip).1 (sym e ∙ ap (λ (x : Peer). x.ip) same) in
              ground (arith, hit, f)
          | inr j ↦ All_at _ ps q other j e
        ]),
        rest,
      )
    ]

add_peer-DistinctBy :
    (new_peer : Peer) (peers : List Peer)
    → DistinctBy (λ p. p.ip) peers
    → DistinctBy (λ p. p.ip) (add_peer new_peer peers).0
add_peer-DistinctBy new_peer peers d = elim (add_peer-cases new_peer peers) [
  | inl (missing, done) ↦ rw done (
      DistinctBy-append (λ (p : Peer). p.ip) peers new_peer d
        (λ q i e.
          let no = find-none (λ (p : Peer). p.ip == new_peer.ip) peers q missing i in
          let yes = (==_iff q.ip new_peer.ip).1 e in ground (arith, no, yes)))
  | inr (inr failed) ↦ rw failed d
  | inr (inl (old, found, same_key, done)) ↦ rw done (replace_first-DistinctBy new_peer peers d)
]

add_peer_added :
    (new_peer : Peer) (peers : List Peer)
    → (add_peer new_peer peers).1 ≡ none
    → In new_peer (add_peer new_peer peers).0
add_peer_added new_peer peers fine = elim (add_peer-cases new_peer peers) [
  | inl (missing, done) ↦ rw done (In-append_right new_peer peers (new_peer ∷ []) (inl refl))
  | inr (inr failed) ↦ ground (arith, failed, fine)
  | inr (inl (old, found, same_key, done)) ↦ rw done (replace_first_new new_peer old peers found)
]

-- One round of the loop, and the rest.
add_all-cases :
    (p : Peer) (ps peers : List Peer)
    → (((add_peer p peers).1 ≡ none) × (add_all (p ∷ ps) peers ≡ add_all ps (add_peer p peers).0))
      ⊎ ((e : String) × (add_all (p ∷ ps) peers ≡ ((add_peer p peers).0, some e)))
unfolding add_all
add_all-cases p ps peers = elim (Option-cases (add_peer p peers).1) [
  | inl fine ↦ inl (fine, ground (arith, fine))
  | inr (e, failed) ↦ inr (e, ground (arith, failed))
]

add_all-HasPin :
    (new_peers peers : List Peer) (ip : IpAddr) (key : String)
    → HasPin ip key peers
    → HasPin ip key (add_all new_peers peers).0
unfolding add_all
add_all-HasPin [] peers ip key pin = pin
add_all-HasPin (p ∷ ps) peers ip key pin =
    let first = add_peer-HasPin p peers ip key pin in
    let rest = add_all-HasPin ps (add_peer p peers).0 ip key first in
    elim (add_all-cases p ps peers) [
      | inl (_, done) ↦ rw done rest
      | inr (e, failed) ↦ rw failed first
    ]

add_all-DistinctBy :
    (new_peers peers : List Peer)
    → DistinctBy (λ p. p.ip) peers
    → DistinctBy (λ p. p.ip) (add_all new_peers peers).0
unfolding add_all
add_all-DistinctBy [] peers d = d
add_all-DistinctBy (p ∷ ps) peers d =
    let first = add_peer-DistinctBy p peers d in
    let rest = add_all-DistinctBy ps (add_peer p peers).0 first in
    elim (add_all-cases p ps peers) [
      | inl (_, done) ↦ rw done rest
      | inr (e, failed) ↦ rw failed first
    ]

add_all_added :
    (new_peers peers : List Peer)
    → (add_all new_peers peers).1 ≡ none
    → (n : Peer) → In n new_peers
    → HasPin n.ip n.public_key (add_all new_peers peers).0
unfolding add_all
add_all_added [] peers fine n i = elim i [ ]
add_all_added (p ∷ ps) peers fine n i =
    let later = add_all_added ps (add_peer p peers).0 in
    elim (add_all-cases p ps peers) [
      | inr (e, failed) ↦ ground (arith, failed, fine)
      | inl (ok_first, done) ↦
          let ok_rest : (add_all ps (add_peer p peers).0).1 ≡ none = rw done at fine in
          rw done (elim i [
            | inl e ↦
                subst (λ (x : Peer). HasPin x.ip x.public_key (add_all ps (add_peer p peers).0).0)
                  (sym e)
                  (add_all-HasPin ps (add_peer p peers).0 p.ip p.public_key
                    (p, add_peer_added p peers ok_first, refl, refl))
            | inr j ↦ later ok_rest n j
          ])
    ]

-- From a store whose addresses are distinct, whatever peers a server sends, and also where the call
-- fails: addresses stay distinct in the store, and an address that the store knows keeps its key.
pub add_peers-HasPin :
    (new_peers : List Peer) (contents : Contents)
    → DistinctBy (λ p. p.ip) contents.peers
    → DistinctBy (λ p. p.ip) (add_peers new_peers contents).0.peers
      × ((ip : IpAddr) (key : String)
          → HasPin ip key contents.peers
          → HasPin ip key (add_peers new_peers contents).0.peers)
unfolding add_peers
add_peers-HasPin new_peers contents d =
    (add_all-DistinctBy new_peers contents.peers d, add_all-HasPin new_peers contents.peers)

-- From a store whose addresses are distinct, if the call does not fail: every peer that was sent is
-- known afterwards by its address and key, and no stored peer of its address had another key.
pub add_peers_pinned :
    (new_peers : List Peer) (contents : Contents) (n : Peer)
    → DistinctBy (λ p. p.ip) contents.peers
    → (add_peers new_peers contents).1 ≡ none
    → In n new_peers
    → HasPin n.ip n.public_key (add_peers new_peers contents).0.peers
      × ((p : Peer) → In p contents.peers → p.ip ≡ n.ip → p.public_key ≡ n.public_key)
unfolding add_peers
add_peers_pinned new_peers contents n d fine i =
    let after = add_all-DistinctBy new_peers contents.peers d in
    let (q, j, q_ip, q_key) = add_all_added new_peers contents.peers fine n i in
    (
      (q, j, q_ip, q_key),
      λ p k at_ip.
          let (r, l, r_ip, r_key) =
            add_all-HasPin new_peers contents.peers p.ip p.public_key (p, k, refl, refl) in
          let same : r ≡ q =
            DistinctBy-unique (λ (x : Peer). x.ip) (add_all new_peers contents.peers).0 r q after l
              j (r_ip ∙ at_ip ∙ sym q_ip) in
          sym r_key ∙ ap (λ (x : Peer). x.public_key) same ∙ q_key,
    )
