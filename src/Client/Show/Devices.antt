-- ===== src/Client/Show/Devices.antt =====
-- client/src/main.rs: `show`, from the devices and stores that it reads.
use innernet.Prelude.{
  ℕ, String, Bool, true, false, Option, none, some, List, [], ◌∷◌, ◌==◌, nat_eq, string_eq,
  option_eq, find,
}
use innernet.Shared.{Peer}
use innernet.Wg.{Base64, Key, PeerInfo, DeviceInfo, to_base64}
use innernet.Shared.Tree.{CidrTree, new}
use innernet.Client.Store.{Contents}
use innernet.Client.Show.{Row, print_tree}
use innernet.Client.Show.Texts.{
  Printed, shown, failed, panicked, InterfaceRow, PeerRow, print_interface, print_peer,
}
use innernet.Client.Show.Sort.{known, sort_by_key}

module _ (base64 : Base64) where
  -- The loop that prints, over the peers in their order.
  unfoldable pub print_peers : ℕ → List Peer → Bool → List PeerInfo → Printed (List PeerRow)
  unfolding print_peer
  print_peers now peers short [] = shown []
  print_peers now peers short (peer ∷ rest) =
      let later = print_peers now peers short rest in
      elim (known base64 peers peer) [
        | none ↦ failed
        | some our_peer ↦ elim (print_peer base64 now our_peer peer short) [
          | failed ↦ failed
          | panicked ↦ panicked
          | shown row ↦ elim later [
            | shown rows ↦ shown (row ∷ rows)
            | failed ↦ failed
            | panicked ↦ panicked
          ]
        ]
      ]

  -- The peer that is this device: with no key, the first comparison is a panic.
  abbrev pub find_me : Option Key → List Peer → Printed Peer
  find_me key [] = failed
  find_me none (p ∷ peers) = panicked
  find_me (some key) peers = elim (find (λ p. p.public_key == to_base64 base64 key) peers) [
    | none ↦ failed
    | some me ↦ shown me
  ]

-- What is printed of a device under its own line.
pub data Listing : Type 0 where
  tree_rows : Option (List Row) → Listing
  peer_rows : List PeerRow → Listing

-- `none` is the panic of `CidrTree::new`.
abbrev pub shown_tree : ℕ → Option CidrTree → List Peer → Printed Listing
shown_tree n none peers = panicked
shown_tree n (some cidr_tree) peers = shown (tree_rows (print_tree n cidr_tree peers 1))

module _ (base64 : Base64) where
  unfoldable pub list_peers : ℕ → ℕ → Bool → Bool → Contents → List PeerInfo → Printed Listing
  unfolding print_peers
  list_peers n now short true store sorted = shown_tree n (new store.cidrs) store.peers
  list_peers n now short false store sorted =
      elim (print_peers base64 now store.peers short sorted) [
        | shown rows ↦ shown (peer_rows rows)
        | failed ↦ failed
        | panicked ↦ panicked
      ]

  abbrev pub and_show : {A B : Type 0} → Printed A → (A → Printed B) → Printed B
  and_show (shown a) next = next a
  and_show failed next = failed
  and_show panicked next = panicked

  -- One round of the loop of `show`.
  unfoldable pub show_device :
      ℕ → ℕ → Bool → Bool → DeviceInfo → Contents → Printed (InterfaceRow × Listing)
  unfolding print_interface sort_by_key list_peers
  show_device n now short as_tree device_info store =
      and_show (find_me base64 device_info.public_key store.peers) λ me.
        and_show (print_interface base64 device_info me short) λ row.
          and_show (sort_by_key base64 store.peers device_info.peers) λ sorted.
            and_show (list_peers n now short as_tree store sorted) λ rows. shown (row, rows)

  -- The loop over the interfaces that have a device and a store that can be read.
  unfoldable pub show :
      ℕ
      → ℕ
      → Bool
      → Bool
      → (String → Option (DeviceInfo × Contents))
      → List String
      → Printed (List (InterfaceRow × Listing))
  unfolding show_device
  show n now short as_tree opened [] = shown []
  show n now short as_tree opened (name ∷ names) =
      let later = show n now short as_tree opened names in
      elim (opened name) [
        | none ↦ later
        | some device ↦
            and_show (show_device n now short as_tree device.0 device.1)
              λ first. and_show later λ rest. shown (first ∷ rest)
      ]
