-- ===== src/Shared/Tree/Tests.antt =====
-- The tree of a small network.
use innernet.Prelude.{◌≡◌, refl, ◌≢◌, ◌↔◌, none, some, [], ◌∷◌, In}
use innernet.Net.{v4}
use innernet.Shared.{Cidr}
use innernet.Shared.Tree.{CidrTree, new, leaves, leaves_iff, least_prefix, leaves_from}

abbrev root : Cidr
root = record {
  id = 1;
  contents = record { name = "net"; cidr = record { ip = v4 0; prefix = 16 }; parent = none };
}

abbrev humans : Cidr
humans = record {
  id = 2;
  contents = record { name = "humans"; cidr = record { ip = v4 0; prefix = 24 }; parent = some 1 };
}

abbrev net : CidrTree
net = record { cidrs = humans ∷ root ∷ []; contents = root }

root_found : new (humans ∷ root ∷ []) ≡ some net
unfolding new least_prefix
root_found = refl

one_leaf : leaves net ≡ humans ∷ []
unfolding leaves leaves_from
one_leaf = refl

leaves_iff_example :
    In humans (leaves net)
    ↔ (In humans net.cidrs × ((d : Cidr) → In d net.cidrs → d.parent ≢ some humans.id))
leaves_iff_example = leaves_iff net humans
