-- ===== src/Server/Db/Peers/Offered.antt =====
-- A peer that the dialog of shared/src/prompts.rs makes, at the server.
use innernet.Prelude.{
  String, ◌≡◌, refl, sym, ap, ◌∙◌, subst, inl, inr, true, false, ◌||◌, none, some, List, [], ◌∷◌,
  ◌++◌, map, arith, ◌==◌, ==_iff, nat_eq, string_eq, option_eq, In, any, find, any_of_In, find-key,
}
use innernet.Net.{ip_eq}
use innernet.Wg.{Base64, KeyPair, to_base64}
use innernet.Shared.{Cidr, PeerContents}
use innernet.Shared.Tree.{CidrTree, leaves_iff}
use innernet.Shared.Prompts.{
  chosen, PeerAnswers, peer_request, add_peer, hostname_validator, is_valid_hostname,
}
use innernet.Shared.Prompts.Offers.{is_taken, available_ip-free, add_peer-offered}
use innernet.Server.Db.{ok, Connection, Packages, PackagesLaws}
use innernet.Server.Db.Invariant.{WellFormed}
use innernet.Server.Db.Cidrs
use innernet.Server.Db.Peers.{from_row, admissible, insert, create, is_valid_name}
use innernet.Server.Db.Peers.Creates.{new_row}

-- A name that the dialog lets pass is one that the server takes.
valid_names :
    (pk : Packages) (name : String)
    → hostname_validator pk.is_match name ≡ none
    → is_valid_name pk name ≡ true
unfolding hostname_validator is_valid_hostname is_valid_name
valid_names pk name h = ground arith

-- Where a list of peers as the server sends it is asked for an address.
not_taken :
    (peers : List _) (ip : _) → is_taken (map from_row peers) ip ≡ any (λ p. p.ip == ip) peers
unfolding from_row
not_taken [] ip = refl
not_taken (p ∷ peers) ip = ap (λ b. (p.ip == ip) || b) (not_taken peers ip)

-- What passes every check is inserted.
create_admitted :
    (pk : Packages) (contents : PeerContents) (conn : Connection) (cidr : Cidr)
    → WellFormed pk.net conn
    → In cidr conn.cidrs
    → contents.cidr_id ≡ cidr.id
    → is_valid_name pk contents.name ≡ true
    → pk.net.contains_ip cidr.cidr contents.ip ≡ true
    → pk.net.is_assignable cidr.cidr contents.ip ≡ true
    → any (λ p. p.name == contents.name) conn.peers ≡ false
    → any (λ p. p.ip == contents.ip) conn.peers ≡ false
    → any (λ p. p.public_key == contents.public_key) conn.peers ≡ false
    → pk.read_fails conn ≡ false
    → pk.write_fails conn ≡ false
    → create pk contents conn ≡ (
      record conn { peers = conn.peers ++ new_row pk contents conn ∷ [] },
      ok (record { id = (new_row pk contents conn).id; contents = contents }),
    )
unfolding create insert admissible Cidrs.get
create_admitted pk contents conn cidr wf i at valid inside assignable name ip key read write =
    let found : find (λ (c : Cidr). c.id == contents.cidr_id) conn.cidrs ≡ some cidr =
      subst (λ k. find (λ (c : Cidr). c.id == k) conn.cidrs ≡ some cidr) (sym at)
        (find-key (λ (c : Cidr). c.id) conn.cidrs cidr wf.tree.ids i) in
    let known : any (λ (c : Cidr). c.id == contents.cidr_id) conn.cidrs ≡ true =
      any_of_In (λ (c : Cidr). c.id == contents.cidr_id) conn.cidrs cidr i
        ((==_iff cidr.id contents.cidr_id).1 (sym at)) in
    ground (arith, found, known, valid, inside, assignable, name, ip, key, read, write)

-- A peer that the dialog makes from what the server sent, with the address that is offered and a name
-- that the dialog lets pass, is added by a server whose tables have not changed since and can be read
-- and written, provided that its name and its new key are no other peer's.
pub offered_peer_created :
    (pk : Packages) (base64 : Base64) (conn : Connection) (tree : CidrTree) (answers : PeerAnswers)
    (contents : PeerContents) (pair : KeyPair)
    → PackagesLaws pk
    → WellFormed pk.net conn
    → tree.cidrs ≡ conn.cidrs
    → answers.own_ip ≡ none
    → hostname_validator pk.is_match answers.name ≡ none
    → any (λ p. p.name == answers.name) conn.peers ≡ false
    → any (λ p. p.public_key == to_base64 base64 answers.keypair.public) conn.peers ≡ false
    → pk.read_fails conn ≡ false
    → pk.write_fails conn ≡ false
    → add_peer pk.net base64 (map from_row conn.peers) tree answers ≡ chosen (contents, pair)
    → create pk contents conn ≡ (
      record conn { peers = conn.peers ++ new_row pk contents conn ∷ [] },
      ok (record { id = (new_row pk contents conn).id; contents = contents }),
    )
unfolding peer_request
offered_peer_created pk base64 conn tree answers contents pair laws wf same own valid new_name
      new_key read write h =
    let (cidr, leaf, (ip, offered, made)) =
      add_peer-offered pk.net base64 (map from_row conn.peers) tree answers contents pair own h in
    let listed : In cidr conn.cidrs =
      subst (λ cs. In cidr cs) same ((leaves_iff tree cidr).0 leaf).0 in
    elim (available_ip-free pk.net (map from_row conn.peers) cidr) [
      | inr (gone, _) ↦ ground (arith, gone, offered)
      | inl (ip', e, i, assignable, free) ↦
          let here : ip' ≡ ip = ground (arith, e, offered) in
          subst
            (λ c. create pk c conn ≡ (
              record conn { peers = conn.peers ++ new_row pk c conn ∷ [] },
              ok (record { id = (new_row pk c conn).id; contents = c }),
            ))
            (sym made)
            (create_admitted pk (peer_request base64 answers cidr ip) conn cidr wf listed refl
              (valid_names pk answers.name valid)
              (laws.net_laws.iter-contains cidr.cidr ip
                (subst (λ a. In a (pk.net.iter cidr.cidr)) here i))
              (subst (λ a. pk.net.is_assignable cidr.cidr a ≡ true) here assignable) new_name
              (sym (not_taken conn.peers ip)
                ∙ subst (λ a. is_taken (map from_row conn.peers) a ≡ false) here free)
              new_key read write)
    ]
