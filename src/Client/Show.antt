-- ===== src/Client/Show.antt =====
-- client/src/main.rs: the tree that `show` prints of a network, line by line.
pub mod Tree
pub mod Tests
pub mod Texts
pub mod Sort
pub mod Sorted
pub mod Devices
pub mod DeviceTests
use innernet.Prelude.{
  ℕ, zero, suc, ◌+◌, Option, none, some, List, [], ◌∷◌, ◌++◌, map, ◌==◌, nat_eq, string_eq,
  option_eq, filter,
}
use innernet.Shared.{Peer, Cidr}
use innernet.Shared.Tree.{CidrTree, children}

-- A line, at its level of indentation.
pub data Row : Type 0 where
  cidr_row : ℕ → Cidr → Row
  peer_row : ℕ → Peer → Row

-- The loop over the children; a child that is never done is none.
unfoldable pub for_each : (CidrTree → Option (List Row)) → List CidrTree → Option (List Row)
for_each print [] = some []
for_each print (child ∷ rest) =
    let later = for_each print rest in
    elim (print child) [
      | none ↦ none
      | some rows ↦ elim later [ none ↦ none | some more ↦ some (rows ++ more) ]
    ]

-- The peers of the CIDR itself.
abbrev pub own : CidrTree → List Peer → List Peer
own cidr peers = filter (λ p. p.cidr_id == cidr.contents.id) peers

-- The recursion has no bound of its own: on a CIDR that is below itself it does not end, which is
-- `none` whatever the fuel.
unfoldable pub print_tree : ℕ → CidrTree → List Peer → ℕ → Option (List Row)
unfolding for_each
print_tree zero cidr peers level = none
print_tree (suc n) cidr peers level =
    elim (for_each (λ child. print_tree n child peers (level + 1)) (children cidr)) [
      | none ↦ none
      | some inner ↦
          some (cidr_row level cidr.contents ∷ (inner ++ map (peer_row level) (own cidr peers)))
    ]
