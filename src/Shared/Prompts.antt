-- ===== src/Shared/Prompts.antt =====
-- shared/src/prompts.rs: what the dialogs offer, and what they make of the answers. The answers are
-- arguments: the index of a selection, a text, a confirmation. A dialog that fails ends the command
-- with an error, before any request is sent, and is left out.
pub mod Offers
use innernet.Prelude.{
  ℕ, zero, suc, String, Bool, false, not, ◌&&◌, ◌||◌, Option, none, some, List, [], ◌∷◌, ltb,
  if◌then◌else◌, ◌==◌, nat_eq, string_eq, option_eq, any, filter,
}
use Prim.Native.String.{len}
use innernet.Net.{IpAddr, SocketAddr, IpNetwork, Ipnetwork, ip_eq}
use innernet.Wg.{Base64, KeyPair, to_base64}
use innernet.Shared.{
  Cidr, CidrContents, Association, Peer, PeerContents, persistent_keepalive_interval_secs,
}
use innernet.Shared.Tree.{CidrTree, leaves}
use innernet.Shared.InterfaceConfig.{InterfaceConfig, InterfaceInfo}

abbrev pub peer_name_regex : String
peer_name_regex = "^([a-z0-9]-?)*[a-z0-9]$"

module _ (is_match : String → String → Bool) where
  unfoldable pub is_valid_hostname : String → Bool
  is_valid_hostname name = ltb (len name) 64 && is_match peer_name_regex name

  -- `none` is `Ok(())`.
  unfoldable pub hostname_validator : String → Option String
  unfolding is_valid_hostname
  hostname_validator name = if is_valid_hostname name then none else some "not a valid hostname"

-- What a dialog ends in: a choice, none, a panic, or an error.
pub data Prompt (A : Type 0) : Type 0 where
  chosen : A → Prompt A
  declined panicked : Prompt A
  error : Prompt A

-- `&items[index]`
unfoldable pub nth : {A : Type 0} → List A → ℕ → Option A
nth [] index = none
nth (x ∷ xs) zero = some x
nth (x ∷ xs) (suc index) = nth xs index

abbrev pub confirmed : {A : Type 0} → Bool → A → Prompt A
confirmed confirm a = if confirm then chosen a else declined

-- The dialogs on an item of a list.
abbrev pub on_item : {A B : Type 0} → Option A → (A → Prompt B) → Prompt B
on_item none f = panicked
on_item (some a) f = f a

unfoldable pub choose_cidr : List Cidr → ℕ → Option Cidr
unfolding nth
choose_cidr cidrs index = nth cidrs index

unfoldable pub add_cidr : List Cidr → ℕ → String → IpNetwork → Bool → Prompt CidrContents
unfolding choose_cidr
add_cidr cidrs index name cidr confirm = on_item (choose_cidr cidrs index) λ parent_cidr.
    confirmed confirm (record { name = name; cidr = cidr; parent = some parent_cidr.id })

-- Every association is shown with the names of its CIDRs; one whose CIDR is missing is a panic.
abbrev pub is_shown : List Cidr → Association → Bool
is_shown cidrs association =
    any (λ c. c.id == association.cidr_id_1) cidrs && any (λ c. c.id == association.cidr_id_2) cidrs

unfoldable pub choose_association : List Association → List Cidr → ℕ → Option Association
unfolding nth
choose_association associations cidrs index =
    if any (λ a. not (is_shown cidrs a)) associations then none else nth associations index

unfoldable pub add_association : List Cidr → ℕ → ℕ → Bool → Prompt (Cidr × Cidr)
unfolding choose_cidr
add_association cidrs index1 index2 confirm =
    on_item (choose_cidr cidrs index1)
      λ cidr1. on_item (choose_cidr cidrs index2) λ cidr2. confirmed confirm (cidr1, cidr2)

unfoldable pub delete_association : List Association → List Cidr → ℕ → Bool → Prompt Association
unfolding choose_association
delete_association associations cidrs index confirm =
    on_item (choose_association associations cidrs index)
      λ association. confirmed confirm association

-- What the dialog for a new peer is told: `own_ip` is none where the offered address is taken.
pub record PeerAnswers : Type 0 where
  pub cidr_index : ℕ
  pub own_ip : Option IpAddr
  pub name : String
  pub is_admin : Bool
  pub keypair : KeyPair
  pub confirm : Bool

abbrev pub or_own : Option IpAddr → IpAddr → IpAddr
or_own none offered = offered
or_own (some own) offered = own

unfoldable pub peer_request : Base64 → PeerAnswers → Cidr → IpAddr → PeerContents
peer_request base64 answers cidr ip = record {
  name = answers.name;
  ip = ip;
  cidr_id = cidr.id;
  public_key = to_base64 base64 answers.keypair.public;
  endpoint = none;
  persistent_keepalive_interval = some persistent_keepalive_interval_secs;
  is_admin = answers.is_admin;
  is_disabled = false;
  is_redeemed = false;
}

module _ (net : Ipnetwork) where
  -- The loop over the candidates.
  unfoldable pub first_free : List Peer → List IpAddr → Option IpAddr
  first_free peers [] = none
  first_free peers (ip ∷ candidate_ips) =
      let rest = first_free peers candidate_ips in
      if any (λ p. p.ip == ip) peers then rest else some ip

  unfoldable pub available_ip : List Peer → Cidr → Option IpAddr
  unfolding first_free
  available_ip peers cidr =
      first_free peers (filter (net.is_assignable cidr.cidr) (net.iter cidr.cidr))

  unfoldable pub add_peer :
      Base64 → List Peer → CidrTree → PeerAnswers → Prompt (PeerContents × KeyPair)
  unfolding available_ip choose_cidr peer_request
  add_peer base64 peers cidr_tree answers =
      on_item (choose_cidr (leaves cidr_tree) answers.cidr_index) λ cidr.
        on_item (available_ip peers cidr) λ ip.
          confirmed answers.confirm
            (peer_request base64 answers cidr (or_own answers.own_ip ip), answers.keypair)

abbrev pub is_eligible : Bool → Peer → Bool
is_eligible enable peer = enable && peer.is_disabled || not enable && not peer.is_disabled

unfoldable pub enable_or_disable_peer : List Peer → Bool → ℕ → Bool → Prompt Peer
unfolding nth
enable_or_disable_peer peers enable index confirm =
    on_item (nth (filter (is_eligible enable) peers) index) λ peer. confirmed confirm peer

-- The invitation of a new peer, before it is written to a file. `none` is the error of
-- `IpNetwork::new`.
abbrev pub with_server : (SocketAddr → InterfaceConfig) → Option SocketAddr → Prompt InterfaceConfig
with_server f none = panicked
with_server f (some endpoint) = chosen (f endpoint)

unfoldable pub peer_invitation :
    Ipnetwork → Base64 → String → Peer → Peer → Cidr → KeyPair → SocketAddr → Prompt InterfaceConfig
peer_invitation net base64 network_name peer server_peer root_cidr keypair server_api_addr =
    elim (net.new peer.ip root_cidr.cidr.prefix) [
      | none ↦ error
      | some address ↦
          with_server
            (λ endpoint. record {
              interface = record {
                network_name = network_name;
                address = address;
                private_key = to_base64 base64 keypair.private;
                listen_port = none;
              };
              server = record {
                public_key = server_peer.public_key;
                external_endpoint = endpoint;
                internal_endpoint = server_api_addr;
              };
            })
            server_peer.endpoint
    ]

-- `answer` is none where the offered port is taken.
unfoldable pub set_listen_port : InterfaceInfo → Bool → Option ℕ → Bool → Prompt (Option ℕ)
set_listen_port interface unset answer confirm =
    let offered : ℕ = elim interface.listen_port [ none ↦ 51820 | some port ↦ port ] in
    let given : ℕ = elim answer [ none ↦ offered | some port ↦ port ] in
    let listen_port : Option ℕ = if unset then none else some given in
    if listen_port == interface.listen_port then declined else confirmed confirm listen_port

unfoldable pub override_endpoint : Bool → SocketAddr → Bool → Prompt (Option SocketAddr)
override_endpoint unset asked confirm = confirmed confirm (if unset then none else some asked)
