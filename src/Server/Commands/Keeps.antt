-- ===== src/Server/Commands/Keeps.antt =====
-- What the commands of the server leave of the database.
use innernet.Prelude.{
  ℕ, String, ◌≡◌, refl, sym, ap, ◌∙◌, subst, ◌⊎◌, inl, inr, Bool, true, false, Option, none, some,
  map, arith, Bool-cases, Option-cases,
}
use innernet.Net.{IpNetwork, SocketAddr}
use innernet.Wg.{Base64, KeyPair}
use innernet.Wg.DeviceBuilder
use innernet.Wg.DeviceBuilder.{DeviceConfigBuilder}
use innernet.Shared.{Peer, PeerContents, CidrContents}
use innernet.Shared.Diff.{peer_builder}
use innernet.Shared.Tree as Tree
use innernet.Shared.Prompts as Prompts
use innernet.Shared.Prompts.{Prompt, chosen, declined, panicked, error, PeerAnswers}
use innernet.Server.Db.{Result-cases, Connection, Packages, PackagesLaws}
use innernet.Server.Db.Invariant.{WellFormed}
use innernet.Server.Db.Cidrs
use innernet.Server.Db.Cidrs.Preserves.{create_cidr-WellFormed}
use innernet.Server.Db.Peers
use innernet.Server.Db.Peers.{from_row}
use innernet.Server.Db.Peers.Creates.{create_peer-WellFormed}
use innernet.Server.Commands.{Ended, add_cidr, add_peer, announce, invite, create_and_invite}

Prompt-cases :
    {A : Type 0} (p : Prompt A)
    → ((a : A) × (p ≡ chosen a)) ⊎ ((p ≡ declined) ⊎ ((p ≡ panicked) ⊎ (p ≡ error)))
Prompt-cases (chosen a) = inl (a, refl)
Prompt-cases declined = inr (inl refl)
Prompt-cases panicked = inr (inr (inl refl))
Prompt-cases error = inr (inr (inr refl))

module _ (pk : Packages) where
  add_cidr-conn :
      (index : ℕ) (name : String) (cidr : IpNetwork) (confirm : Bool) (conn : Connection)
      → ((add_cidr pk index name cidr confirm conn).conn ≡ conn)
        ⊎ ((form : CidrContents) × ((add_cidr pk index name cidr confirm conn).conn
              ≡ (Cidrs.create pk form conn).0))
  unfolding add_cidr
  add_cidr-conn index name cidr confirm conn =
      elim (Prompt-cases (Prompts.add_cidr conn.cidrs index name cidr confirm)) [
        | inr (inl e) ↦ inl (ground (arith, e))
        | inr (inr (inl e)) ↦ inl (ground (arith, e))
        | inr (inr (inr e)) ↦ inl (ground (arith, e))
        | inl (form, e) ↦ inr (
          form,
          elim (Result-cases (Cidrs.create pk form conn).1) [
            | inl (c, r) ↦ ground (arith, e, r)
            | inr (x, r) ↦ ground (arith, e, r)
          ],
        )
      ]

  module _ (base64 : Base64) (accepts : DeviceConfigBuilder → Bool) where
    invite-conn :
        (interface : String) (address : SocketAddr) (tree : Tree.CidrTree) (keypair : KeyPair)
        (peer : Peer) (conn : Connection) (applied : Option DeviceConfigBuilder)
        → (invite pk base64 accepts interface address tree keypair peer conn applied).conn ≡ conn
    invite-conn interface address tree keypair peer conn applied =
        elim (Result-cases (Peers.get 1 conn)) [
          | inl (p, e) ↦ ground (arith, e)
          | inr (x, e) ↦ ground (arith, e)
        ]

    announce-conn :
        (is_up : Bool) (peer : Peer) (conn : Connection) (next : Option DeviceConfigBuilder → Ended)
        → ((a : Option DeviceConfigBuilder) → (next a).conn ≡ conn)
        → (announce pk base64 accepts is_up peer conn next).conn ≡ conn
    announce-conn false peer conn next h = h none
    announce-conn true peer conn next h = elim (Option-cases (peer_builder base64 peer)) [
      | inl e ↦ ground (arith, e)
      | inr (b, e) ↦
          let change = DeviceBuilder.add_peer DeviceBuilder.new b in
          elim (Bool-cases (accepts change)) [
            | inl yes' ↦ ground (arith, e, yes', h (some change))
            | inr no' ↦ ground (arith, e, no')
          ]
    ]

    create_and_invite-conn :
        (is_up : Bool) (interface : String) (address : SocketAddr) (tree : Tree.CidrTree)
        (request : PeerContents × KeyPair) (conn : Connection)
        → (create_and_invite pk base64 accepts is_up interface address tree request conn).conn
          ≡ (Peers.create pk request.0 conn).0
    create_and_invite-conn is_up interface address tree request conn =
        elim (Result-cases (Peers.create pk request.0 conn).1) [
          | inr (x, e) ↦ ground (arith, e)
          | inl (peer, e) ↦
              let r = Peers.create pk request.0 conn in
              ground (
                arith,
                e,
                announce-conn is_up peer r.0
                    (λ applied.
                      invite pk base64 accepts interface address tree request.1 peer r.0 applied)
                    (λ applied. invite-conn interface address tree request.1 peer r.0 applied),
              )
        ]

    add_peer-conn :
        (is_up : Bool) (interface : String) (address : SocketAddr) (answers : PeerAnswers)
        (conn : Connection)
        → let r : Ended = add_peer pk base64 accepts is_up interface address answers conn in
          (r.conn ≡ conn) ⊎ ((form : PeerContents) × (r.conn ≡ (Peers.create pk form conn).0))
    unfolding add_peer
    add_peer-conn is_up interface address answers conn = elim (Option-cases (Tree.new conn.cidrs)) [
      | inl e ↦ inl (ground (arith, e))
      | inr (tree, t) ↦
          elim (Prompt-cases
            (Prompts.add_peer pk.net base64 (map from_row conn.peers) tree answers)) [
              | inr (inl e) ↦ inl (ground (arith, t, e))
              | inr (inr (inl e)) ↦ inl (ground (arith, t, e))
              | inr (inr (inr e)) ↦ inl (ground (arith, t, e))
              | inl (request, e) ↦
                  let step : add_peer pk base64 accepts is_up interface address answers conn
                      ≡ create_and_invite pk base64 accepts is_up interface address tree request
                          conn =
                    ground (arith, t, e) in
                  inr (
                    request.0,
                    ap (λ (r : Ended). r.conn) step
                        ∙ create_and_invite-conn is_up interface address tree request conn,
                  )
            ]
    ]

    -- The commands `add-cidr` and `add-peer` of the server keep a well formed database well formed,
    -- also where foreign keys are off, whatever is answered to their dialogs and however they end.
    pub commands-WellFormed :
        (laws : PackagesLaws pk) (conn : Connection)
        → WellFormed pk.net conn
        → ((index : ℕ) (name : String) (cidr : IpNetwork) (confirm : Bool)
            → WellFormed pk.net (add_cidr pk index name cidr confirm conn).conn)
          × ((is_up : Bool) (interface : String) (address : SocketAddr) (answers : PeerAnswers)
              → WellFormed pk.net
                  (add_peer pk base64 accepts is_up interface address answers conn).conn)
    commands-WellFormed laws conn wf = (
      (λ index name cidr confirm. elim (add_cidr-conn index name cidr confirm conn) [
        | inl same ↦ subst (WellFormed pk.net) (sym same) wf
        | inr (form, made) ↦
            subst (WellFormed pk.net) (sym made) (create_cidr-WellFormed pk laws form conn wf)
      ]),
      λ is_up interface address answers. elim (add_peer-conn is_up interface address answers conn) [
        | inl same ↦ subst (WellFormed pk.net) (sym same) wf
        | inr (form, made) ↦
            subst (WellFormed pk.net) (sym made) (create_peer-WellFormed pk laws form conn wf)
      ],
    )
