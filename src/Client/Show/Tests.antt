-- ===== src/Client/Show/Tests.antt =====
-- The tree of a network with two peers.
use innernet.Prelude.{
  ℕ, ◌≤◌, ◌<◌, ◌≡◌, refl, ◌↔◌, inl, inr, true, false, none, some, List, [], ◌∷◌, arith, In, All,
  All_at,
}
use innernet.Net.{v4}
use innernet.Shared.{Peer, Cidr}
use innernet.Shared.Tree.{CidrTree, children}
use innernet.Client.Show.{Row, cidr_row, peer_row, for_each, print_tree}
use innernet.Client.Show.Tree.{IsAged, Under, printed, print_tree-Under}

abbrev root : Cidr
root = record {
  id = 1;
  contents = record { name = "net"; cidr = record { ip = v4 0; prefix = 16 }; parent = none };
}

abbrev humans : Cidr
humans = record {
  id = 2;
  contents = record { name = "humans"; cidr = record { ip = v4 0; prefix = 24 }; parent = some 1 };
}

abbrev net : CidrTree
net = record { cidrs = humans ∷ root ∷ []; contents = root }

abbrev peer : ℕ → ℕ → Peer
peer id cidr_id = record {
  id = id;
  contents = record {
    name = "peer";
    ip = v4 id;
    cidr_id = cidr_id;
    public_key = "key";
    endpoint = none;
    persistent_keepalive_interval = none;
    is_admin = false;
    is_disabled = false;
    is_redeemed = true;
  };
}

abbrev peers : List Peer
peers = peer 1 1 ∷ peer 2 2 ∷ []

rows :
    print_tree 2 net peers 1
    ≡ some
        (cidr_row 1 root ∷ cidr_row 2 humans ∷ peer_row 2 (peer 2 2) ∷ peer_row 1 (peer 1 1) ∷ [])
unfolding print_tree for_each children
rows = refl

net-IsAged : IsAged net.cidrs
net-IsAged c d i j =
    All_at (λ c'. d.parent ≡ some c'.id → c'.id < d.id) net.cidrs c
      (All_at (λ d'. All (λ c'. d'.parent ≡ some c'.id → c'.id < d'.id) net.cidrs) net.cidrs d
        (
          (λ e. ground (arith, e), (λ e. omega arith, tt)),
          ((λ e. ground (arith, e), (λ e. ground (arith, e), tt)), tt),
        )
        j)
      i

net_most : (c : Cidr) → In c net.cidrs → c.id ≤ 2
net_most c i = All_at (λ c. c.id ≤ 2) net.cidrs c (omega arith, (omega arith, tt)) i

print_tree-Under_example :
    (rows : List Row) × (print_tree 2 net peers 1 ≡ some rows)
    × ((p : Peer) → In p (printed rows) ↔ (In p peers × Under net p))
print_tree-Under_example =
    print_tree-Under 2 2 net peers 1 net-IsAged net_most (inr (inl refl)) (omega arith)
