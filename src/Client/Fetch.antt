-- ===== src/Client/Fetch.antt =====
-- client/src/main.rs, `fetch`: from the peers that the server names and those on the interface, the
-- change of the interface. The steps before it (bringing the interface up, asking the server, reading
-- the device) are its arguments.
pub mod Reconciles
pub mod Changes
pub mod Configures
use innernet.Prelude.{
  String, Bool, true, false, not, ◌&&◌, Option, none, some, List, [], ◌∷◌, if◌then◌else◌, ◌==◌,
  nat_eq, string_eq, option_eq, any, find, filter,
}
use innernet.Wg.{Base64, PeerInfo, to_base64}
use innernet.Wg.PeerBuilder.{PeerConfigBuilder}
use innernet.Wg.DeviceBuilder
use innernet.Wg.DeviceBuilder.{DeviceConfigBuilder}
use innernet.Shared.{Peer, PeerDiff, State}
use innernet.Shared.Diff.{peer_builder, diff, diff_builder}
use innernet.Client.Store.{Contents, set_cidrs, add_peers}

-- `none` stands for a panic, `some none` for no change.
abbrev pub Change : Type 0
Change = Option (Option PeerConfigBuilder)

-- `device_config_builder` and `device_config_changed`.
pub record Update : Type 0 where
  pub builder : DeviceConfigBuilder
  pub changed : Bool

module _ (base64 : Base64) where
  abbrev pub has_key : String → PeerInfo → Bool
  has_key public_key p = to_base64 base64 p.config.public_key == public_key

  abbrev pub built : Option PeerConfigBuilder → Change
  built none = none
  built (some builder) = some (some builder)

  abbrev pub from_diff : Option (Option PeerDiff) → Change
  from_diff none = none
  from_diff (some none) = some none
  from_diff (some (some d)) = built (diff_builder base64 d)

  unfoldable pub change : List PeerInfo → Peer → Change
  change existing_peers peer = elim (find (has_key peer.public_key) existing_peers) [
    | some existing_peer ↦ from_diff (diff base64 peer existing_peer.config)
    | none ↦ built (peer_builder base64 peer)
  ]

  abbrev pub is_configured : String → Peer → Bool
  is_configured interface_public_key peer =
      not peer.is_disabled && not (peer.public_key == interface_public_key)

  abbrev pub cons_change :
      Change → Option (List PeerConfigBuilder) → Option (List PeerConfigBuilder)
  cons_change none rest = none
  cons_change (some none) rest = rest
  cons_change (some (some b)) none = none
  cons_change (some (some b)) (some bs) = some (b ∷ bs)

  -- `.filter(…).filter_map(…).collect()`
  unfoldable pub changes : List PeerInfo → List Peer → Option (List PeerConfigBuilder)
  changes existing_peers [] = some []
  changes existing_peers (p ∷ ps) =
      cons_change (change existing_peers p) (changes existing_peers ps)

  -- `peers.iter().find(|p| p.public_key == public_key).is_none()`
  abbrev pub is_stale : List Peer → PeerInfo → Bool
  is_stale peers existing =
      not (any (λ p. p.public_key == to_base64 base64 existing.config.public_key) peers)

  unfoldable pub remove_stale : List Peer → List PeerInfo → Update → Update
  remove_stale peers [] u = u
  remove_stale peers (e ∷ es) u = remove_stale peers es (
      if is_stale peers e
      then record {
        builder = DeviceBuilder.remove_peer_by_key u.builder e.config.public_key;
        changed = true;
      }
      else u)

  abbrev pub with_changes : List PeerConfigBuilder → Update
  with_changes [] = record { builder = DeviceBuilder.new; changed = false }
  with_changes (b ∷ bs) = record {
    builder = DeviceBuilder.add_peers DeviceBuilder.new (b ∷ bs);
    changed = true;
  }

  unfoldable pub update : String → List PeerInfo → List Peer → Option Update
  update interface_public_key existing_peers peers =
      elim (changes existing_peers (filter (is_configured interface_public_key) peers)) [
        | none ↦ none
        | some bs ↦ some (remove_stale peers existing_peers (with_changes bs))
      ]

-- How `fetch` ends: the configuration that is applied, if any, the contents of the store in memory,
-- whether they are written, and an error.
pub record Fetched : Type 0 where
  pub applied : Option DeviceConfigBuilder
  pub store : Contents
  pub written : Bool
  pub error : Option String

abbrev pub saved : Option DeviceConfigBuilder → State → Contents → Fetched
saved applied fetched store =
    let r = add_peers fetched.peers (set_cidrs fetched.cidrs store) in
    elim r.1 [
      | none ↦ record { applied = applied; store = r.0; written = true; error = none }
      | some e ↦ record { applied = applied; store = r.0; written = false; error = some e }
    ]

-- The part of `fetch` after the interface is read; `apply_error` and `hosts_error` are the failures
-- of `apply` and of `update_hosts_file`, if they fail. `none` is a panic.
unfoldable pub fetch :
    Base64
    → (DeviceConfigBuilder → Option String)
    → (List Peer → Option String)
    → String
    → List PeerInfo
    → State
    → Contents
    → Option Fetched
fetch base64 apply_error hosts_error interface_public_key existing_peers fetched store =
    elim (update base64 interface_public_key existing_peers fetched.peers) [
      | none ↦ none
      | some u ↦ some (
          if u.changed
          then elim (apply_error u.builder) [
            | some e ↦ record { applied = none; store = store; written = false; error = some e }
            | none ↦ elim (hosts_error fetched.peers) [
              | some e ↦ record {
                applied = some u.builder;
                store = store;
                written = false;
                error = some e;
              }
              | none ↦ saved (some u.builder) fetched store
            ]
          ]
          else saved none fetched store)
    ]
