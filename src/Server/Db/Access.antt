-- ===== src/Server/Db/Access.antt =====
-- server/src/db/peer.rs, `get_all_allowed_peers`: the recursive query of the peers that a peer may
-- talk to. A recursive table expression takes rows from a queue, one at a time; `UNION` keeps out a
-- row that was in the queue before, `UNION ALL` does not. With too little fuel the result is `none`.
pub mod Up
pub mod Sees
pub mod Allowed
pub mod Symmetry
pub mod Pushes
pub mod Measure
pub mod Down
use innernet.Prelude.{
  ℕ, zero, suc, ◌+◌, ◌*◌, Bool, not, ◌&&◌, Option, none, some, List, [], ◌∷◌, ◌++◌, map,
  if◌then◌else◌, ◌==◌, nat_eq, string_eq, option_eq, length, find, filter, contains,
}
use innernet.Shared.{Cidr, Association, Peer}
use innernet.Server.Db.Peers.{from_row}
use innernet.Server.Db.{PeerRow, Connection}

-- The CIDR `infra`, whose id the query writes as a literal.
abbrev pub infra_cidr_id : ℕ
infra_cidr_id = 2

-- parent_of: the CIDR and those above it (UNION ALL). The next rows are those whose id is the parent
-- of the row that is taken from the queue.
unfoldable pub parent_of : ℕ → List Cidr → Option ℕ → Option (List ℕ)
parent_of zero cidrs id = none
parent_of (suc fuel) cidrs none = some []
parent_of (suc fuel) cidrs (some id) = elim (find (λ c. c.id == id) cidrs) [
  | none ↦ some []
  | some c ↦ elim (parent_of fuel cidrs c.parent) [ none ↦ none | some above ↦ some (c.id ∷ above) ]
]

-- associated: the CIDRs at the other end of an association with one of those.
unfoldable pub associated : List ℕ → List Association → List ℕ
associated ids [] = []
associated ids (a ∷ rest) =
    let later = associated ids rest in
    let second = if contains a.cidr_id_1 ids then a.cidr_id_2 ∷ later else later in
    if contains a.cidr_id_2 ids then a.cidr_id_1 ∷ second else second

-- The queue of a UNION: the rows still to take, and every row that was ever put in.
pub record Queue : Type 0 where
  pub pending : List ℕ
  pub seen : List ℕ

unfoldable pub push : Queue → ℕ → Queue
push q id =
    if contains id q.seen then q else record { pending = q.pending ++ id ∷ []; seen = id ∷ q.seen }

unfoldable pub push_all : Queue → List ℕ → Queue
push_all q [] = q
push_all q (id ∷ ids) = push_all (push q id) ids

unfoldable pub children : List Cidr → ℕ → List ℕ
children cidrs id = map (λ c. c.id) (filter (λ c. c.parent == some id) cidrs)

-- associated_subcidrs: what is reached from the start downwards.
unfoldable pub descend : ℕ → List Cidr → Queue → Option (List ℕ)
descend zero cidrs q = none
descend (suc fuel) cidrs q = elim q.pending [
  | [] ↦ some q.seen
  | id ∷ rest ↦
      descend fuel cidrs (push_all (record { pending = rest; seen = q.seen }) (children cidrs id))
]

abbrev pub start : ℕ → List ℕ → Queue
start cidr_id ids = push_all (record { pending = []; seen = [] }) (cidr_id ∷ infra_cidr_id ∷ ids)

-- WHERE peers.is_disabled = 0 AND peers.is_redeemed = 1
abbrev pub is_shown : List ℕ → PeerRow → Bool
is_shown ids p = contains p.cidr_id ids && (not p.is_disabled && p.is_redeemed)

unfoldable pub allowed_rows : ℕ → ℕ → ℕ → Connection → Option (List PeerRow)
allowed_rows up down cidr_id conn = elim (parent_of up conn.cidrs (some cidr_id)) [
  | none ↦ none
  | some above ↦
      elim (descend down conn.cidrs (start cidr_id (associated above conn.associations))) [
        | none ↦ none
        | some ids ↦ some (filter (is_shown ids) conn.peers)
      ]
]

-- Enough for the two recursive tables: an id falls on the way up, and on the way down a CIDR enters
-- the queue once.
abbrev pub up_fuel : ℕ → ℕ
up_fuel cidr_id = cidr_id + 2

abbrev pub down_fuel : Connection → ℕ
down_fuel conn = 3 + 2 * length conn.associations + length conn.cidrs

unfoldable pub get_all_allowed_peers : Peer → Connection → Option (List Peer)
get_all_allowed_peers self conn =
    elim (allowed_rows (up_fuel self.cidr_id) (down_fuel conn) self.cidr_id conn) [
      | none ↦ none
      | some rows ↦ some (map from_row rows)
    ]
