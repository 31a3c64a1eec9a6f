-- ===== src/Client/Show/DeviceTests.antt =====
-- A device with two peers, and what is printed of it.
use innernet.Prelude.{
  ℕ, ◌≤◌, ◌<◌, String, ◌≡◌, refl, ◌⊎◌, true, false, Option, none, some, List, [], ◌∷◌, map,
  if◌then◌else◌, ◌==◌, nat_eq, string_eq, option_eq, length, In, All,
}
use mathlib.Core.List.{Perm}
use innernet.Net.{v4}
use innernet.Shared.{Peer}
use innernet.Wg.{Base64, Key, PeerInfo, DeviceInfo, to_base64}
use innernet.Client.Store.{Contents}
use innernet.Client.Show.Texts.{
  shown, panicked, seconds_ago, minutes_ago, hours_ago, bare, kib, human_duration, human_size,
  long_row, print_interface, print_peer, ago, transfer,
}
use innernet.Client.Show.Sort.{known, sort_by_key, keyed, sort, insert}
use innernet.Client.Show.Sorted.{IsKeyed, IsOrdered, sort_by_key-cases}
use innernet.Client.Show.Devices.{peer_rows, print_peers, show_device, list_peers}

abbrev base64 : Base64
base64 = record {
  encode = λ bytes. elim bytes [ [] ↦ "" | b ∷ rest ↦ if b == 1 then "one" else "two" ];
  decode = λ text. none;
}

abbrev key : ℕ → Key
key n = record { bytes = n ∷ [] }

abbrev info : ℕ → Option ℕ → PeerInfo
info n at = record {
  config = record {
    public_key = key n;
    preshared_key = none;
    endpoint = none;
    persistent_keepalive_interval = none;
    allowed_ips = [];
  };
  stats = record { last_handshake_time = at; rx_bytes = 0; tx_bytes = 3000 };
}

abbrev device : DeviceInfo
device = record {
  name = "wg0";
  public_key = some (key 1);
  private_key = none;
  fwmark = none;
  listen_port = some 51820;
  peers = info 1 none ∷ info 2 (some 5000000000) ∷ [];
  linked_name = none;
}

abbrev peer : ℕ → String → Peer
peer id public_key = record {
  id = id;
  contents = record {
    name = "peer";
    ip = v4 id;
    cidr_id = 1;
    public_key = public_key;
    endpoint = none;
    persistent_keepalive_interval = none;
    is_admin = false;
    is_disabled = false;
    is_redeemed = true;
  };
}

abbrev peers : List Peer
peers = peer 1 "one" ∷ peer 2 "two" ∷ []

abbrev store : Contents
store = record { peers = peers; cidrs = [] }

minutes : human_duration 3599 ≡ minutes_ago 59 59
unfolding human_duration
minutes = refl

hours : human_duration 3600 ≡ hours_ago 1 0
unfolding human_duration
hours = refl

-- The latest handshake is first.
latest_first :
    show_device base64 0 8000000000 false false device store
    ≡ shown (
      record { name = "wg0"; public_key = "one"; listen_port = some 51820; me = peer 1 "one" },
      peer_rows (
          long_row (peer 2 "two") (some (seconds_ago 3)) (some ((0, bare), (3000, kib)))
          ∷ long_row (peer 1 "one") none (some ((0, bare), (3000, kib)))
          ∷ []),
    )
unfolding show_device print_interface sort_by_key keyed sort insert list_peers print_peers
    print_peer ago transfer human_duration human_size to_base64
latest_first = refl

-- Two peers of which the store knows one.
unknown_panics : sort_by_key base64 (peer 1 "one" ∷ []) device.peers ≡ panicked
unfolding sort_by_key keyed to_base64
unknown_panics = refl

sort_by_key-cases_example :
    ((length device.peers < 2) × (sort_by_key base64 peers device.peers ≡ shown device.peers))
    ⊎ ((2 ≤ length device.peers)
        × (sort_by_key base64 peers device.peers ≡ panicked)
        × (d : PeerInfo) × In d device.peers
        × (known base64 peers d ≡ none))
    ⊎ ((pairs : List _) × (sort_by_key base64 peers device.peers ≡ shown (map (λ a. a.0) pairs))
        × Perm (map (λ a. a.0) pairs) device.peers
        × All (IsKeyed base64 peers) pairs
        × IsOrdered pairs)
sort_by_key-cases_example = sort_by_key-cases base64 peers device.peers
