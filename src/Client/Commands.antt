-- ===== src/Client/Commands.antt =====
-- client/src/main.rs: the commands that ask the server for a change. The configuration of the
-- interface was read; the answers to the dialogs are arguments.
pub mod Deletes
pub mod Rows
pub mod Enables
use innernet.Prelude.{
  ℕ, String, Bool, not, ◌&&◌, Option, none, some, List, [], ◌∷◌, if◌then◌else◌, ◌==◌, nat_eq,
  string_eq, option_eq, find,
}
use innernet.Net.{IpNetwork, Ipnetwork, SocketAddr}
use innernet.Wg.{Base64, KeyPair}
use innernet.Shared.{
  Peer, PeerContents, Cidr, CidrContents, Association, AssociationContents, EndpointContents,
  of_option,
}
use innernet.Shared.Tree as Tree
use innernet.Shared.Commands as Interfaces
use innernet.Wg.DeviceBuilder.{DeviceConfigBuilder}
use innernet.Shared.Tree.{CidrTree}
use innernet.Shared.InterfaceConfig.{InterfaceConfig}
use innernet.Shared.Prompts as Prompts
use innernet.Shared.Prompts.{Prompt, chosen, declined, panicked, error, PeerAnswers}
use innernet.Server.Api.{Reply}
use innernet.Server.Api.Routes.{Request}
use innernet.Client.Http.{
  Answer, got, failed, gave_up, Command, ◌>>=◌, finish, no_forms, as_peers, as_cidrs,
  as_associations, as_unit, as_new_peer, as_new_cidr, http_get, http_delete, http_post, http_put,
}

-- What follows a dialog: nothing is asked where it is declined.
abbrev pub after_prompt :
    {S A : Type 0} → Prompt A → (A → Command S (Unit {0})) → Command S (Unit {0})
after_prompt (chosen a) f s = f a s
after_prompt declined f s = (s, got tt)
after_prompt panicked f s = (s, gave_up)
after_prompt error f s = (s, failed)

-- `prompts::add_cidr(&cidrs)?` is sent as it is, also where it is `None`.
abbrev pub posted : {A : Type 0} → Prompt A → Option A
posted (chosen a) = some a
posted _ = none

-- `peers.iter().find(|p| p.id == 1).unwrap()`
abbrev pub on_some : {S A B : Type 0} → Option A → (A → Command S B) → Command S B
on_some none f s = (s, gave_up)
on_some (some a) f s = f a s

abbrev pub invited : {S : Type 0} → Prompt InterfaceConfig → Command S (Option InterfaceConfig)
invited (chosen invitation) s = (s, got (some invitation))
invited declined s = (s, got none)
invited panicked s = (s, gave_up)
invited error s = (s, failed)

-- What a command leaves on the client: the configuration file, and a change of the interface.
pub record Changed : Type 0 where
  pub config : InterfaceConfig
  pub applied : Option DeviceConfigBuilder
  pub answer : Answer (Unit {0})

abbrev pub unchanged : InterfaceConfig → Answer (Unit {0}) → Changed
unchanged config answer = record { config = config; applied = none; answer = answer }

abbrev pub with_port : Option ℕ → InterfaceConfig → InterfaceConfig
with_port port config = record config {
  interface = record (config.interface) { listen_port = port };
}

abbrev pub needs_port : Bool → InterfaceConfig → Bool
needs_port unset config = not unset && (config.interface.listen_port == none)

abbrev pub change_port : (DeviceConfigBuilder → Bool) → Option ℕ → InterfaceConfig → Changed
change_port accepts port config =
    let change = Interfaces.set_listen_port port in
    if accepts change
    then record { config = with_port port config; applied = some change; answer = got tt }
    else unchanged config failed

unfoldable pub set_listen_port :
    (DeviceConfigBuilder → Bool) → Bool → Option ℕ → Bool → InterfaceConfig → Changed
unfolding Prompts.set_listen_port
set_listen_port accepts unset answer confirm config =
    elim (Prompts.set_listen_port config.interface unset answer confirm) [
      | chosen port ↦ change_port accepts port config
      | declined ↦ unchanged config (got tt)
      | panicked ↦ unchanged config gave_up
      | error ↦ unchanged config failed
    ]

-- `show` writes a number into a path.
module _ {S : Type 0} (ask : Request → S → S × Reply) (local : Option SocketAddr)
    (show : ℕ → String) where
  unfoldable pub add_cidr : ℕ → String → IpNetwork → Bool → Command S (Unit {0})
  unfolding http_get http_post Prompts.add_cidr
  add_cidr index name cidr confirm =
      http_get ask local as_cidrs ("admin" ∷ "cidrs" ∷ []) >>= λ cidrs.
      http_post ask local as_new_cidr ("admin" ∷ "cidrs" ∷ [])
        (record no_forms { as_cidr = posted (Prompts.add_cidr cidrs index name cidr confirm) })
      >>= λ _. finish tt

  unfoldable pub add_association : ℕ → ℕ → Bool → Command S (Unit {0})
  unfolding http_get http_post Prompts.add_association
  add_association index1 index2 confirm =
      http_get ask local as_cidrs ("admin" ∷ "cidrs" ∷ []) >>= λ cidrs.
      after_prompt (Prompts.add_association cidrs index1 index2 confirm) λ pair.
        http_post ask local as_unit ("admin" ∷ "associations" ∷ []) (record no_forms {
          as_association = some (record { cidr_id_1 = pair.0.id; cidr_id_2 = pair.1.id });
        })

  unfoldable pub delete_association : ℕ → Bool → Command S (Unit {0})
  unfolding http_get http_delete Prompts.delete_association
  delete_association index confirm =
      http_get ask local as_cidrs ("admin" ∷ "cidrs" ∷ []) >>= λ cidrs.
      http_get ask local as_associations ("admin" ∷ "associations" ∷ []) >>= λ associations.
      after_prompt (Prompts.delete_association associations cidrs index confirm)
        λ association. http_delete ask local ("admin" ∷ "associations" ∷ show association.id ∷ [])

  unfoldable pub enable_or_disable_peer : Bool → ℕ → Bool → Command S (Unit {0})
  unfolding http_get http_put Prompts.enable_or_disable_peer
  enable_or_disable_peer enable index confirm =
      http_get ask local as_peers ("admin" ∷ "peers" ∷ []) >>= λ peers.
      after_prompt (Prompts.enable_or_disable_peer peers enable index confirm) λ peer.
        http_put ask local ("admin" ∷ "peers" ∷ show peer.id ∷ [])
          (record no_forms { as_peer = some (record (peer.contents) { is_disabled = not enable }) })

  -- What `override_endpoint` sends, once the port is settled.
  unfoldable pub put_endpoint : Bool → SocketAddr → Bool → Command S (Unit {0})
  unfolding http_put Prompts.override_endpoint
  put_endpoint unset asked confirm =
      after_prompt (Prompts.override_endpoint unset asked confirm) λ endpoint.
        http_put ask local ("user" ∷ "endpoint" ∷ [])
          (record no_forms { as_endpoint = some (of_option endpoint) })

  -- The configuration afterwards, and the change of the interface, come with the answer.
  unfoldable pub override_endpoint :
      (DeviceConfigBuilder → Bool)
      → Bool
      → Option ℕ
      → Bool
      → SocketAddr
      → Bool
      → InterfaceConfig
      → S
      → Changed × (S × Answer (Unit {0}))
  unfolding put_endpoint set_listen_port
  override_endpoint accepts unset port confirm_port asked confirm config s =
      let first : Changed =
        if needs_port unset config
        then set_listen_port accepts unset port confirm_port config
        else unchanged config (got tt) in
      (first, ((λ t. (t, first.answer)) >>= (λ _. put_endpoint unset asked confirm)) s)

  -- The invitation that is written to a file, if any.
  abbrev create_peer :
      Ipnetwork
      → Base64
      → String
      → SocketAddr
      → List Peer
      → CidrTree
      → Prompt (PeerContents × KeyPair)
      → Command S (Option InterfaceConfig)
  create_peer net base64 network server peers tree declined s = (s, got none)
  create_peer net base64 network server peers tree panicked s = (s, gave_up)
  create_peer net base64 network server peers tree error s = (s, failed)
  create_peer net base64 network server peers tree (chosen (contents, keypair)) s =
      (http_post ask local as_new_peer ("admin" ∷ "peers" ∷ [])
            (record no_forms { as_peer = some contents })
          >>= λ peer. on_some (find (λ p. p.id == 1) peers) λ server_peer. invited (
              Prompts.peer_invitation net base64 network peer server_peer tree.contents keypair
                server))
        s

  unfoldable pub add_peer :
      Ipnetwork → Base64 → String → SocketAddr → PeerAnswers → Command S (Option InterfaceConfig)
  unfolding http_get http_post Prompts.add_peer Prompts.peer_invitation
  add_peer net base64 network server answers =
      http_get ask local as_cidrs ("admin" ∷ "cidrs" ∷ []) >>= λ cidrs.
      http_get ask local as_peers ("admin" ∷ "peers" ∷ []) >>= λ peers.
      on_some (Tree.new cidrs) λ tree.
        create_peer net base64 network server peers tree
          (Prompts.add_peer net base64 peers tree answers)

  -- The lines that are printed: an association and the names of its CIDRs.
  abbrev named : List Cidr → Association → Option (ℕ × String × String)
  named cidrs association = elim (find (λ c. c.id == association.cidr_id_1) cidrs) [
    | none ↦ none
    | some one ↦ elim (find (λ c. c.id == association.cidr_id_2) cidrs) [
      | none ↦ none
      | some two ↦ some (association.id, one.name, two.name)
    ]
  ]

  abbrev all_named : List Cidr → List Association → Option (List (ℕ × String × String))
  all_named cidrs [] = some []
  all_named cidrs (a ∷ associations) = elim (named cidrs a) [
    | none ↦ none
    | some line ↦ elim (all_named cidrs associations) [
      | none ↦ none
      | some lines ↦ some (line ∷ lines)
    ]
  ]

  unfoldable pub list_associations : Command S (List (ℕ × String × String))
  unfolding http_get
  list_associations = http_get ask local as_cidrs ("admin" ∷ "cidrs" ∷ []) >>= λ cidrs.
      http_get ask local as_associations ("admin" ∷ "associations" ∷ []) >>= λ associations.
      on_some (all_named cidrs associations) finish
