-- ===== src/Server/Db/Peers/Preserves.antt =====
-- The statements that change rows of `peers` keep the database well formed.
use innernet.Prelude.{
  ℕ, String, ◌≡◌, sym, ap, ◌∙◌, subst, ◌≢◌, inl, inr, true, false, not, ◌&&◌, List, map, arith,
  if◌then◌else◌, Bool-cases, ◌==◌, ==_iff, nat_eq, string_eq, option_eq, In, any, any_of_In,
  In-map_inv, DistinctBy-map, DistinctBy-unique,
}
use innernet.Net.{IpAddr, Ipnetwork, ip_eq}
use innernet.Shared.{Cidr, Peer, PeerContents}
use innernet.Server.Db.{PeerRow, Connection, Packages}
use innernet.Server.Db.Invariant.{ArePeers, WellFormed}
use innernet.Server.Db.Peers.{
  updated_contents, set_row, renames_onto, update, disable, to_redeem, redeem, is_valid_name,
}

-- A change of rows that keeps what a peer is, and keeps names and keys apart.
module _ (net : Ipnetwork) (cidrs : List Cidr) (peers : List PeerRow) (f : PeerRow → PeerRow)
    (same_id : (p : PeerRow) → (f p).id ≡ p.id) (same_ip : (p : PeerRow) → (f p).ip ≡ p.ip)
    (same_cidr : (p : PeerRow) → (f p).cidr_id ≡ p.cidr_id)
    (apart_names : (p q : PeerRow)
      → In p peers
      → In q peers
      → (f p).name ≡ (f q).name
      → p.name ≡ q.name)
    (apart_keys : (p q : PeerRow)
      → In p peers
      → In q peers
      → (f p).public_key ≡ (f q).public_key
      → p.public_key ≡ q.public_key) where
  ArePeers-map : ArePeers net cidrs peers → ArePeers net cidrs (map f peers)
  ArePeers-map a = record {
    ids =
        DistinctBy-map (λ (p : PeerRow). p.id) f peers
          (λ p q _ _ e. sym (same_id p) ∙ (e ∙ same_id q)) a.ids;
    names = DistinctBy-map (λ (p : PeerRow). p.name) f peers apart_names a.names;
    ips =
        DistinctBy-map (λ (p : PeerRow). p.ip) f peers
          (λ p q _ _ e. sym (same_ip p) ∙ (e ∙ same_ip q)) a.ips;
    keys = DistinctBy-map (λ (p : PeerRow). p.public_key) f peers apart_keys a.keys;
    homes = λ q i.
        let (p, j, e) = In-map_inv f peers q i in
        let (c, k, here, inside, free) = a.homes p j in
        let ip : q.ip ≡ p.ip = ap (λ (x : PeerRow). x.ip) e ∙ same_ip p in
        let home : q.cidr_id ≡ p.cidr_id = ap (λ (x : PeerRow). x.cidr_id) e ∙ same_cidr p in
        (
          c,
          k,
          here ∙ sym home,
          subst (λ (x : IpAddr). net.contains_ip c.cidr x ≡ true) (sym ip) inside,
          subst (λ (x : IpAddr). net.is_assignable c.cidr x ≡ true) (sym ip) free,
        );
  }

module _ (net : Ipnetwork) (id : ℕ) (conn : Connection) (w : WellFormed net conn) where
  same_row : (p q : PeerRow) → In p conn.peers → In q conn.peers → p.id ≡ id → q.id ≡ id → p ≡ q
  same_row p q i j e f =
      DistinctBy-unique (λ (x : PeerRow). x.id) conn.peers p q w.members.ids i j (e ∙ sym f)

  abbrev disabled : PeerRow → PeerRow
  disabled p = if p.id == id then record p { is_disabled = true } else p

  disable-ArePeers : ArePeers net conn.cidrs (map disabled conn.peers)
  disable-ArePeers =
      ArePeers-map net conn.cidrs conn.peers disabled (λ p. ground arith) (λ p. ground arith)
        (λ p. ground arith) (λ p q i j e. ground arith) (λ p q i j e. ground arith) w.members

  module _ (new : PeerContents) (free : renames_onto id new.name conn.peers ≡ false) where
    abbrev changed : PeerRow → PeerRow
    changed p = if p.id == id then set_row new p else p

    other_name :
        (p q : PeerRow)
        → In p conn.peers
        → In q conn.peers
        → p.id ≡ id
        → q.id ≢ id
        → q.name ≢ new.name
    other_name p q i j here away same =
        let hit =
          any_of_In (λ (x : PeerRow). x.id == id) conn.peers p i ((==_iff p.id id).1 here) in
        let clash =
          any_of_In (λ (x : PeerRow). not (x.id == id) && (x.name == new.name)) conn.peers q j
            (ground (arith, (==_iff q.name new.name).1 same)) in
        ground arith

    changed_names :
        (p q : PeerRow)
        → In p conn.peers
        → In q conn.peers
        → (changed p).name ≡ (changed q).name
        → p.name ≡ q.name
    changed_names p q i j e = elim (Bool-cases (p.id == id)) [
      | inl a ↦ elim (Bool-cases (q.id == id)) [
        | inl b ↦ ap (λ (x : PeerRow). x.name) (same_row p q i j (ground arith) (ground arith))
        | inr b ↦ absurd (
            other_name p q i j (ground arith) (ground arith)
              (let k : (set_row new p).name ≡ q.name = ground arith in sym k))
      ]
      | inr a ↦ elim (Bool-cases (q.id == id)) [
        | inl b ↦ absurd (other_name q p j i (ground arith) (ground arith) (ground arith))
        | inr b ↦ ground arith
      ]
    ]

    update-ArePeers : ArePeers net conn.cidrs (map changed conn.peers)
    update-ArePeers =
        ArePeers-map net conn.cidrs conn.peers changed (λ p. ground arith) (λ p. ground arith)
          (λ p. ground arith) changed_names (λ p q i j e. ground arith) w.members

  module _ (pubkey : String)
      (free : any (λ p. not (p.id == id) && (p.public_key == pubkey)) conn.peers ≡ false) where
    abbrev redeemed : PeerRow → PeerRow
    redeemed p = if to_redeem id p then record p { is_redeemed = true; public_key = pubkey } else p

    other_key : (q : PeerRow) → In q conn.peers → q.id ≢ id → q.public_key ≢ pubkey
    other_key q j away same =
        let clash =
          any_of_In (λ (x : PeerRow). not (x.id == id) && (x.public_key == pubkey)) conn.peers q j
            (ground (arith, (==_iff q.public_key pubkey).1 same)) in
        cc (clash, free)

    redeemed_keys :
        (p q : PeerRow)
        → In p conn.peers
        → In q conn.peers
        → (redeemed p).public_key ≡ (redeemed q).public_key
        → p.public_key ≡ q.public_key
    redeemed_keys p q i j e = elim (Bool-cases (p.id == id)) [
      | inl a ↦ elim (Bool-cases (q.id == id)) [
        | inl b ↦
            ap (λ (x : PeerRow). x.public_key) (same_row p q i j (ground arith) (ground arith))
        | inr b ↦ ground (arith, other_key q j (ground arith))
      ]
      | inr a ↦ ground (arith, other_key p i (ground arith))
    ]

    redeem-ArePeers : ArePeers net conn.cidrs (map redeemed conn.peers)
    redeem-ArePeers =
        ArePeers-map net conn.cidrs conn.peers redeemed (λ p. ground arith) (λ p. ground arith)
          (λ p. ground arith) (λ p q i j e. ground arith) redeemed_keys w.members

-- Disabling a peer keeps a well formed database well formed.
pub disable-WellFormed :
    (net : Ipnetwork) (id : ℕ) (conn : Connection)
    → WellFormed net conn
    → WellFormed net (disable id conn).0
unfolding disable
disable-WellFormed net id conn w =
    elim (Bool-cases (any (λ (p : PeerRow). p.id == id) conn.peers)) [
      | inl there ↦
          rw there
            (record { tree = w.tree; members = disable-ArePeers net id conn w; links = w.links })
      | inr absent ↦ rw absent w
    ]

-- Changing a peer keeps a well formed database well formed, whatever the request asks for.
pub update-WellFormed :
    (pk : Packages) (self : Peer) (contents : PeerContents) (conn : Connection)
    → WellFormed pk.net conn
    → WellFormed pk.net (update pk self contents conn).0
unfolding update
update-WellFormed pk self contents conn w =
    let new = updated_contents self.contents contents in
    elim (Bool-cases (is_valid_name pk contents.name)) [
      | inr invalid ↦ rw invalid w
      | inl valid ↦ rw valid (elim (Bool-cases (renames_onto self.id new.name conn.peers)) [
        | inl taken ↦ rw taken w
        | inr free ↦ rw free (record {
          tree = w.tree;
          members = update-ArePeers pk.net self.id conn w new free;
          links = w.links;
        })
      ])
    ]

-- Redeeming an invitation, with whatever key, keeps a well formed database well formed.
pub redeem-WellFormed :
    (net : Ipnetwork) (self : Peer) (pubkey : String) (conn : Connection)
    → WellFormed net conn
    → WellFormed net (redeem self pubkey conn).0
unfolding redeem
redeem-WellFormed net self pubkey conn w = elim (Bool-cases (any (to_redeem self.id) conn.peers)) [
  | inr none_open ↦ rw none_open w
  | inl open_one ↦
      rw open_one
        (elim (Bool-cases
          (any (λ (p : PeerRow). not (p.id == self.id) && (p.public_key == pubkey)) conn.peers)) [
            | inl taken ↦ rw taken w
            | inr free ↦ rw free (record {
              tree = w.tree;
              members = redeem-ArePeers net self.id conn w pubkey free;
              links = w.links;
            })
          ])
]
