-- ===== src/Server/Tests.antt =====
-- The theorems on the server at the example network.
use innernet.Prelude.{
  ℕ, ◌≡◌, refl, subst, ◌≢◌, ◌↔◌, ◌⊎◌, inl, inr, true, false, some, List, [], ◌∷◌, arith, In,
}
use innernet.Net.{v4}
use innernet.Net.Ipv4.{ipv4}
use innernet.Shared.{CidrContents, Peer, PeerContents}
use innernet.Server.Example.{
  packages, packages_laws, humans, alice, bob, database, database-WellFormed, peer_contents,
  network,
}
use innernet.Server.Db.{Result, unauthorized, not_found, ok, err, PeerRow, Connection}
use innernet.Server.Db.Invariant.{WellFormed}
use innernet.Server.Db.Cidrs
use innernet.Server.Db.Cidrs.Preserves.{create_cidr-WellFormed}
use innernet.Server.Db.Peers
use innernet.Server.Db.Peers.{from_row}
use innernet.Server.Db.Peers.Creates.{create_peer-WellFormed}
use innernet.Server.Db.Peers.Preserves.{redeem-WellFormed}
use innernet.Server.Db.Peers.Effects.{IsUpdated, Pointwise, update-IsSamePeer, redeem_once}
use innernet.Server.Db.Access.{
  get_all_allowed_peers, allowed_rows, parent_of, associated, push, push_all, children, descend,
}
use innernet.Server.Db.Access.Up.{Above, self, up}
use innernet.Server.Db.Access.Sees.{Sees}
use innernet.Server.Db.Access.Allowed.{get_all_allowed_peers_iff}
use innernet.Server.Db.Access.Symmetry.{IsLeaf, get_all_allowed_peers_symm}
use innernet.Server.Session.{get_session}
use innernet.Server.Session.Laws.{MayAct, get_session_iff}

abbrev laptops : CidrContents
laptops = record { name = "laptops"; cidr = network 256 25; parent = some 3 }

create_cidr-WellFormed_example : WellFormed ipv4 (Cidrs.create packages laptops database).0
create_cidr-WellFormed_example =
    create_cidr-WellFormed packages packages_laws laptops database database-WellFormed

abbrev carol : PeerContents
carol = peer_contents "carol" 258 3 false false

create_peer-WellFormed_example : WellFormed ipv4 (Peers.create packages carol database).0
create_peer-WellFormed_example =
    create_peer-WellFormed packages packages_laws carol database database-WellFormed

closest_found : Cidrs.closest_parent packages (network 256 25) database.cidrs ≡ some humans
unfolding Cidrs.closest_parent Cidrs.longest_prefix ipv4
closest_found = refl

get_all_allowed_peers_iff_example :
    (shown : List Peer) × (get_all_allowed_peers (from_row bob) database ≡ some shown)
    × ((q : Peer)
        → In q shown ↔ (
            (p : PeerRow) × In p database.peers
            × (q ≡ from_row p)
            × (p.is_disabled ≡ false)
            × (p.is_redeemed ≡ true)
            × Sees database (from_row bob).cidr_id p.cidr_id))
get_all_allowed_peers_iff_example =
    get_all_allowed_peers_iff ipv4 database (from_row bob) database-WellFormed

-- No CIDR of the example lies below another than the root.
robots-IsLeaf : IsLeaf database 4
robots-IsLeaf c (inl e) h = ground (arith, e)
robots-IsLeaf c (inr (inl e)) h = ground (arith, e)
robots-IsLeaf c (inr (inr (inl e))) h = ground (arith, e)
robots-IsLeaf c (inr (inr (inr (inl e)))) h = ground (arith, e)
robots-IsLeaf c (inr (inr (inr (inr z)))) h = absurd z

-- Above the root lies nothing, and above the humans only the root.
root_top : ¬ Above database.cidrs 2 1
root_top above = outside_root 1 above refl
  where
    outside_root : (id : ℕ) → Above database.cidrs 2 id → id ≢ 1
    outside_root id (self c i e same) is_root = omega (arith, same, is_root)
    outside_root id (up c p (inl e) named parent above) is_root = ground (arith, e)
    outside_root id (up c p (inr (inl e)) named parent above) is_root = ground (arith, e)
    outside_root id (up c p (inr (inr (inl e))) named parent above) is_root = ground (arith, e)
    outside_root id (up c p (inr (inr (inr (inl e)))) named parent above) is_root =
        ground (arith, e)
    outside_root id (up c p (inr (inr (inr (inr z)))) named parent above) is_root = absurd z

humans_not_infra : ¬ Above database.cidrs 2 3
humans_not_infra above = outside_humans 3 above refl
  where
    at_root : (p : ℕ) → Above database.cidrs 2 p → p ≢ 1
    at_root p above' is_root = root_top (subst (Above database.cidrs 2) is_root above')

    outside_humans : (id : ℕ) → Above database.cidrs 2 id → id ≢ 3
    outside_humans id (self c i e same) is_three = omega (arith, same, is_three)
    outside_humans id (up c p (inl e) named parent above') is_three = ground (arith, e)
    outside_humans id (up c p (inr (inl e)) named parent above') is_three = ground (arith, e)
    outside_humans id (up c p (inr (inr (inl e))) named parent above') is_three =
        at_root p above' (ground (arith, e))
    outside_humans id (up c p (inr (inr (inr (inl e)))) named parent above') is_three =
        ground (arith, e)
    outside_humans id (up c p (inr (inr (inr (inr z)))) named parent above') is_three = absurd z

get_session_iff_example :
    ((s : Peer)
      → (get_session (some (v4 257)) true true database ≡ ok s) ↔ (
          (p : PeerRow) × In p database.peers
          × (some (v4 257) ≡ some p.ip)
          × MayAct true true p
          × (s ≡ from_row p)))
    × ((get_session (some (v4 257)) true true database ≡ err unauthorized)
        ⊎ ((s : Peer) × (get_session (some (v4 257)) true true database ≡ ok s)))
get_session_iff_example =
    get_session_iff ipv4 database (some (v4 257)) true true database-WellFormed

abbrev bob_redeemed : PeerRow
bob_redeemed = record bob { is_redeemed = true; public_key = "key" }

abbrev redeemed : Connection
redeemed = record database { peers = alice ∷ bob_redeemed ∷ [] }

redeems : Peers.redeem (from_row bob) "key" database ≡ (redeemed, ok (from_row bob_redeemed))
unfolding Peers.redeem from_row
redeems = refl

redeemed-WellFormed : WellFormed ipv4 redeemed
redeemed-WellFormed =
    subst (λ (r : Connection × Result Peer). WellFormed ipv4 r.0) redeems
      (redeem-WellFormed ipv4 (from_row bob) "key" database database-WellFormed)

abbrev both : List Peer
both = from_row alice ∷ from_row bob_redeemed ∷ []

-- Who is told of whom, after that.
told :
    (get_all_allowed_peers (from_row bob_redeemed) redeemed ≡ some both)
    × (get_all_allowed_peers (from_row alice) redeemed ≡ some both)
unfolding get_all_allowed_peers allowed_rows parent_of associated push push_all children descend
    from_row
told = (refl, refl)

get_all_allowed_peers_symm_example : In (from_row bob_redeemed) both
get_all_allowed_peers_symm_example =
    get_all_allowed_peers_symm ipv4 redeemed bob_redeemed alice both both redeemed-WellFormed
      (inr (inl refl)) (inl refl) (refl, refl) robots-IsLeaf humans_not_infra told.0 told.1
      (inl refl)

redeem_once_example : Peers.redeem (from_row bob) "other" redeemed ≡ (redeemed, err not_found)
redeem_once_example =
    redeem_once (from_row bob) (from_row bob_redeemed) (from_row bob) "key" "other" database
      redeemed redeems refl

abbrev robert : PeerContents
robert = record ((from_row bob).contents) { name = "robert"; is_disabled = true; ip = v4 0 }

abbrev renamed : Connection
renamed = record database {
  peers = alice ∷ record bob { name = "robert"; is_disabled = true } ∷ [];
}

updates :
    Peers.update packages (from_row bob) robert database
    ≡ (renamed, ok (from_row (record bob { name = "robert"; is_disabled = true })))
unfolding Peers.update Peers.is_valid_name from_row
updates = refl

update-IsSamePeer_example :
    (Peers.is_valid_name packages "robert" ≡ true)
    × (renamed.cidrs ≡ database.cidrs)
    × (renamed.associations ≡ database.associations)
    × Pointwise (IsUpdated (from_row bob).id robert) database.peers renamed.peers
unfolding from_row
update-IsSamePeer_example =
    update-IsSamePeer packages (from_row bob)
      (from_row (record bob { name = "robert"; is_disabled = true })) robert database renamed
      updates
