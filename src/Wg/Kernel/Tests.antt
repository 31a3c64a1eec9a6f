-- ===== src/Wg/Kernel/Tests.antt =====
-- The kernel backend at an interface `wg0` with a peer of each family.
use innernet.Prelude.{
  ℕ, suc, ◌≡◌, refl, true, false, none, some, List, [], ◌∷◌, map, arith, reverse,
}
use innernet.Net.{v4, v6}
use innernet.Wg.{zero_key}
use innernet.Wg.PeerBuilder.{PeerConfigBuilder}
use innernet.Wg.DeviceBuilder.{DeviceConfigBuilder}
use innernet.Wg.Kernel.{Heap, encode_peers, parse_peers}
use innernet.Wg.Kernel.Pointers.{Pointer}
use innernet.Wg.Kernel.Device.{
  WgDevice, Code, success, WgctrlSys, io_result, empty_heap, then_parse, encode_name, apply,
  from_wg_device, parse_device_name-encode_name, done,
}
use innernet.Wg.Kernel.Encodes.{described, parse_peers-encode_peers}
use innernet.Wg.Kernel.Applies.{device_info, apply-hands}
use innernet.Wg.Kernel.Enumerate.{enumerate, block_of, enumerate-block_of}

abbrev peer_at : ℕ → PeerConfigBuilder
peer_at n = record {
  public_key = record { bytes = n ∷ [] };
  preshared_key = none;
  endpoint = some (record { ip = v6 n; port = 51820 });
  persistent_keepalive_interval = some 25;
  allowed_ips = record { address = v4 n; cidr = 32 } ∷ record { address = v6 n; cidr = 128 } ∷ [];
  replace_allowed_ips = true;
  remove_me = false;
}

abbrev peers : List PeerConfigBuilder
peers = peer_at 7 ∷ peer_at 8 ∷ []

abbrev wg0 : List ℕ
wg0 = 119 ∷ 103 ∷ 48 ∷ []

parse_peers-encode_peers_example :
    (let r : Heap × Pointer × Pointer = encode_peers peers empty_heap none none in
      parse_peers r.0 r.1 r.2)
    ≡ some (reverse (map described peers))
parse_peers-encode_peers_example = parse_peers-encode_peers peers empty_heap

parse_device_name-encode_name_example : then_parse (encode_name wg0) ≡ some wg0
parse_device_name-encode_name_example = parse_device_name-encode_name wg0 refl

-- A kernel that counts what it is asked.
abbrev sys : WgctrlSys ℕ
sys = record {
  wg_add_device = λ name k. (suc k, success);
  wg_set_device = λ device heap k. (suc k, success);
  wg_get_device = λ name k. none;
  wg_del_device = λ name k. (suc k, success);
}

abbrev config : DeviceConfigBuilder
config = record {
  public_key = none;
  private_key = some zero_key;
  fwmark = none;
  listen_port = some 51820;
  peers = peers;
  replaces_peers = false;
}

apply-hands_example :
    (raw : WgDevice) × (heap : Heap) × (from_wg_device (λ bytes. "wg0") heap raw
      ≡ some (device_info config "wg0"))
    × (apply sys config wg0 0
        ≡ (let r : ℕ × Code = sys.wg_set_device raw heap 1 in (r.0, io_result r.1)))
apply-hands_example =
    apply-hands sys (λ bytes. "wg0") config wg0 0 refl (omega arith) (λ e. ground (arith, e))

enumerate-block_of_example : enumerate (some (block_of (wg0 ∷ wg0 ∷ []))) ≡ done (wg0 ∷ wg0 ∷ [])
enumerate-block_of_example =
    enumerate-block_of (wg0 ∷ wg0 ∷ [])
      ((λ e. ground (arith, e), refl), ((λ e. ground (arith, e), refl), tt))
