-- ===== src/Client/Store.antt =====
-- client/src/data_store.rs: the peers and CIDRs that a client keeps, less the file they are kept in.
pub mod Pinning
use innernet.Prelude.{
  String, Option, none, some, List, [], ◌∷◌, ◌++◌, if◌then◌else◌, ◌==◌, nat_eq, string_eq,
  option_eq, find,
}
use innernet.Net.{IpAddr, ip_eq}
use innernet.Shared.{Cidr, Peer}

-- `Contents::V1`
pub record Contents : Type 0 where
  pub peers : List Peer
  pub cidrs : List Cidr

-- What a file without readable contents stands for.
unfoldable pub no_contents : Contents
no_contents = record { peers = []; cidrs = [] }

abbrev pub pinning_error : String
pinning_error = "PINNING ERROR: New peer has same IP but different public key."

-- `*existing_peer = new_peer`, for the first peer of that address.
unfoldable pub replace_first : Peer → List Peer → List Peer
replace_first new_peer [] = []
replace_first new_peer (p ∷ ps) =
    let rest = replace_first new_peer ps in if p.ip == new_peer.ip then new_peer ∷ ps else p ∷ rest

-- One round of the loop of `add_peers`.
unfoldable pub add_peer : Peer → List Peer → List Peer × Option String
add_peer new_peer peers = elim (find (λ p. p.ip == new_peer.ip) peers) [
  | none ↦ (peers ++ new_peer ∷ [], none)
  | some existing_peer ↦
      if existing_peer.public_key == new_peer.public_key
      then (replace_first new_peer peers, none)
      else (peers, some pinning_error)
]

-- The peers after the loop, and its error; what was added before an error stays.
unfoldable pub add_all : List Peer → List Peer → List Peer × Option String
add_all [] peers = (peers, none)
add_all (p ∷ ps) peers =
    let first = add_peer p peers in
    let rest = add_all ps first.0 in elim first.1 [ none ↦ rest | some e ↦ (first.0, some e) ]

unfoldable pub add_peers : List Peer → Contents → Contents × Option String
add_peers new_peers contents =
    let r = add_all new_peers contents.peers in (record contents { peers = r.0 }, r.1)

unfoldable pub set_cidrs : List Cidr → Contents → Contents
set_cidrs new_cidrs contents = record contents { cidrs = new_cidrs }
