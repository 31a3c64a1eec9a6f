-- ===== src/Client/Example.antt =====
-- Keys, peers and a device for the theorems on the client.
use innernet.Prelude.{
  ℕ, String, true, false, none, some, List, [], ◌∷◌, if◌then◌else◌, ◌==◌, nat_eq, string_eq,
  option_eq,
}
use innernet.Net.{v4}
use innernet.Wg.{Base64, Key, PeerInfo}
use innernet.Shared.{Peer}

abbrev pub key_of : ℕ → Key
key_of n = record {
  bytes =
      n ∷ 0 ∷ 0 ∷ 0 ∷ 0 ∷ 0 ∷ 0 ∷ 0 ∷ 0 ∷ 0 ∷ 0 ∷ 0 ∷ 0 ∷ 0 ∷ 0 ∷ 0 ∷ 0 ∷ 0 ∷ 0 ∷ 0 ∷ 0 ∷ 0 ∷ 0 ∷ 0
      ∷ 0 ∷ 0 ∷ 0 ∷ 0 ∷ 0 ∷ 0 ∷ 0 ∷ 0 ∷ [];
}

-- A text for each of three keys.
abbrev text_of : List ℕ → String
text_of [] = ""
text_of (n ∷ _) = if n == 1 then "one" else if n == 2 then "two" else "three"

abbrev pub base64 : Base64
base64 = record {
  encode = text_of;
  decode = λ s.
      if s == "one"
      then some (key_of 1).bytes
      else if s == "two"
      then some (key_of 2).bytes
      else if s == "three"
      then some (key_of 3).bytes
      else none;
}

abbrev pub peer_at : ℕ → String → Peer
peer_at ip public_key = record {
  id = ip;
  contents = record {
    name = public_key;
    ip = v4 ip;
    cidr_id = 3;
    public_key = public_key;
    endpoint = some (record { ip = v4 99; port = 51820 });
    persistent_keepalive_interval = some 25;
    is_admin = false;
    is_disabled = false;
    is_redeemed = true;
  };
}

-- A peer on the interface, with no endpoint.
abbrev pub on_device : ℕ → PeerInfo
on_device n = record {
  config = record {
    public_key = key_of n;
    preshared_key = none;
    endpoint = none;
    persistent_keepalive_interval = some 25;
    allowed_ips = [];
  };
  stats = record { last_handshake_time = none; rx_bytes = 0; tx_bytes = 0 };
}
