-- ===== src/Client/Tests.antt =====
-- The theorems on the client, and on what it shares with the server, at small examples.
use innernet.Prelude.{
  String, ◌≡◌, refl, ◌≢◌, ◌↔◌, ◌⊎◌, inl, inr, true, false, Option, none, some, List, [], ◌∷◌, arith,
  ◌==◌, ==_iff, nat_eq, string_eq, option_eq, In, All_at, DistinctBy,
}
use innernet.Net.{IpAddr, v4}
use innernet.Wg.{PeerInfo, from_base64, to_base64}
use innernet.Wg.PeerBuilder
use innernet.Wg.PeerBuilder.{PeerConfigBuilder}
use innernet.Wg.DeviceBuilder
use innernet.Wg.DeviceBuilder.{DeviceConfigBuilder}
use innernet.Shared.{Peer, State}
use innernet.Shared.Diff.{peer_builder, diff_builder, diff, IsCompared, diff-cases}
use innernet.Client.Example.{key_of, base64, peer_at, on_device}
use innernet.Client.Store.{
  Contents, pinning_error, add_peers, add_all, add_peer, replace_first, set_cidrs,
}
use innernet.Client.Store.Pinning.{HasPin, add_peers-HasPin, add_peers_pinned}
use innernet.Client.Fetch.{Update, change, changes, remove_stale, update, Fetched, fetch}
use innernet.Client.Fetch.Reconciles.{removal, fetch-applied}
use innernet.Client.Fetch.Changes.{addition, IsAdded, IsModified}
use innernet.Client.Fetch.Configures.{update_iff, fetch-addition}

diff-cases_example : IsCompared base64 (peer_at 7 "one") (on_device 1).config
diff-cases_example = diff-cases base64 (peer_at 7 "one") (on_device 1).config

abbrev known : Contents
known = record { peers = peer_at 7 "one" ∷ []; cidrs = [] }

-- The second peer has the address of the first, and another key.
abbrev sent : List Peer
sent = peer_at 8 "two" ∷ peer_at 7 "three" ∷ []

add_peers-HasPin_example :
    DistinctBy (λ p. p.ip) (add_peers sent known).0.peers
    × ((ip : IpAddr) (key : String)
        → HasPin ip key known.peers
        → HasPin ip key (add_peers sent known).0.peers)
add_peers-HasPin_example = add_peers-HasPin sent known (tt, tt)

abbrev moved : List Peer
moved = peer_at 8 "two" ∷ peer_at 7 "one" ∷ []

all_added : (add_peers moved known).1 ≡ none
unfolding add_peers add_all add_peer replace_first
all_added = refl

add_peers_pinned_example :
    HasPin (v4 7) "one" (add_peers moved known).0.peers
    × ((p : Peer) → In p known.peers → p.ip ≡ v4 7 → p.public_key ≡ "one")
add_peers_pinned_example =
    add_peers_pinned moved known (peer_at 7 "one") (tt, tt) all_added (inr (inl refl))

abbrev device : List PeerInfo
device = on_device 1 ∷ on_device 3 ∷ []

-- The server names the first peer, with an endpoint, and a new one; not the third.
abbrev named : List Peer
named = peer_at 7 "one" ∷ peer_at 8 "two" ∷ []

abbrev b_one : PeerConfigBuilder
b_one = record {
  public_key = key_of 1;
  preshared_key = none;
  endpoint = some (record { ip = v4 99; port = 51820 });
  persistent_keepalive_interval = none;
  allowed_ips = [];
  replace_allowed_ips = false;
  remove_me = false;
}

abbrev b_two : PeerConfigBuilder
b_two = record {
  public_key = key_of 2;
  preshared_key = none;
  endpoint = some (record { ip = v4 99; port = 51820 });
  persistent_keepalive_interval = some 25;
  allowed_ips = record { address = v4 8; cidr = 32 } ∷ [];
  replace_allowed_ips = true;
  remove_me = false;
}

abbrev b_three : PeerConfigBuilder
b_three = record {
  public_key = key_of 3;
  preshared_key = none;
  endpoint = none;
  persistent_keepalive_interval = none;
  allowed_ips = [];
  replace_allowed_ips = false;
  remove_me = true;
}

abbrev updated : Update
updated = record {
  builder = record {
    public_key = none;
    private_key = none;
    fwmark = none;
    listen_port = none;
    peers = b_one ∷ b_two ∷ b_three ∷ [];
    replaces_peers = false;
  };
  changed = true;
}

updates : update base64 "own" device named ≡ some updated
unfolding update changes change remove_stale peer_builder diff diff_builder from_base64 to_base64
    PeerBuilder.new PeerBuilder.replace_allowed_ips PeerBuilder.add_allowed_ip PeerBuilder.remove
    PeerBuilder.set_persistent_keepalive_interval PeerBuilder.set_endpoint DeviceBuilder.new
    DeviceBuilder.add_peers DeviceBuilder.add_peer DeviceBuilder.remove_peer_by_key
updates = refl

update_iff_example :
    ((b : PeerConfigBuilder)
      → In b updated.builder.peers ↔ (
          ((p : Peer) × In p named
            × (p.is_disabled ≡ false)
            × (p.public_key ≢ "own")
            × (IsAdded base64 device p b ⊎ IsModified base64 device p b))
          ⊎ ((e : PeerInfo) × In e device
              × ((p : Peer) → In p named → p.public_key ≢ to_base64 base64 e.config.public_key)
              × (b ≡ removal base64 e.config.public_key))))
    × ((true ≡ true) ↔ ((b : PeerConfigBuilder) × In b updated.builder.peers))
update_iff_example = update_iff base64 "own" device named updated updates

differ : (a b : String) → (a == b) ≡ false → a ≢ b
differ a b h e = let t = (==_iff a b).1 e in ground (arith, t, h)

two_unknown : (e : PeerInfo) → In e device → to_base64 base64 e.config.public_key ≢ "two"
unfolding to_base64
two_unknown e i =
    All_at (λ (x : PeerInfo). to_base64 base64 x.config.public_key ≢ "two") device e
      (differ "one" "two" refl, (differ "three" "two" refl, tt)) i

two_is_key : from_base64 base64 "two" ≡ some (key_of 2)
unfolding from_base64
two_is_key = refl

abbrev answer : State
answer = record { peers = named; cidrs = [] }

-- A store that has pinned another key for the address of the second peer.
abbrev contradicting : Contents
contradicting = record { peers = peer_at 8 "three" ∷ []; cidrs = [] }

abbrev fetched_into : Contents → Option Fetched
fetched_into store = fetch base64 (λ builder. none) (λ peers. none) "own" device answer store

abbrev first_time : Fetched
first_time = record {
  applied = some updated.builder;
  store = record { peers = named; cidrs = [] };
  written = true;
  error = none;
}

abbrev refused_after : Fetched
refused_after = record {
  applied = some updated.builder;
  store = record { peers = peer_at 8 "three" ∷ peer_at 7 "one" ∷ []; cidrs = [] };
  written = false;
  error = some pinning_error;
}

fetches :
    (fetched_into (record { peers = []; cidrs = [] }) ≡ some first_time)
    × (fetched_into contradicting ≡ some refused_after)
unfolding fetch update changes change remove_stale peer_builder diff diff_builder from_base64
    to_base64 PeerBuilder.new PeerBuilder.replace_allowed_ips PeerBuilder.add_allowed_ip
    PeerBuilder.remove PeerBuilder.set_persistent_keepalive_interval PeerBuilder.set_endpoint
    DeviceBuilder.new DeviceBuilder.add_peers DeviceBuilder.add_peer
    DeviceBuilder.remove_peer_by_key add_peers add_all add_peer replace_first set_cidrs
fetches = (refl, refl)

fetch-applied_example : first_time.applied ≡ refused_after.applied
fetch-applied_example =
    fetch-applied base64 (λ builder. none) (λ peers. none) "own" device answer
      (record { peers = []; cidrs = [] }) contradicting first_time refused_after fetches.0 fetches.1

fetch-addition_example :
    (builder : DeviceConfigBuilder) × (first_time.applied ≡ some builder)
    × In (addition (peer_at 8 "two") (key_of 2)) builder.peers
fetch-addition_example =
    fetch-addition base64 (λ builder. none) (λ peers. none) "own" device answer
      (record { peers = []; cidrs = [] }) first_time (peer_at 8 "two") (key_of 2) fetches.0
      (λ builder. refl) (inr (inl refl)) refl (differ "two" "own" refl) two_unknown two_is_key
