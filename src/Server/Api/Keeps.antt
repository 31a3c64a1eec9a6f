-- ===== src/Server/Api/Keeps.antt =====
-- Statements, and the ways in which handlers are put together, that keep the database well formed.
use innernet.Prelude.{ℕ, String, ◌≡◌, inl, inr, Bool, true, false, arith, if◌then◌else◌}
use innernet.Shared.{Peer, PeerContents, CidrContents, AssociationContents}
use innernet.Server.Db.{Result, ok, err, Connection, Packages, PackagesLaws}
use innernet.Server.Db.Invariant.{WellFormed}
use innernet.Server.Db.Cidrs
use innernet.Server.Db.Cidrs.Checks
use innernet.Server.Db.Cidrs.Preserves as CidrsKeep
use innernet.Server.Db.Peers
use innernet.Server.Db.Peers.Creates
use innernet.Server.Db.Peers.Preserves as PeersKeep
use innernet.Server.Db.Associations
use innernet.Server.Db.Associations.Preserves as AssociationsKeep
use innernet.Server.Api.{ServerState, Reply, rejected, Handler, after, execute, query}
use innernet.Server.Api.Routes.{admitted}

-- What holds between requests: the database is well formed, and foreign keys are on.
pub record IsSound (pk : Packages) (conn : Connection) : Type 0 where
  pub well_formed : WellFormed pk.net conn
  pub checked : conn.foreign_keys ≡ true

module _ (pk : Packages) (laws : PackagesLaws pk) where
  -- A statement, and a handler, that keep it so.
  abbrev pub KeepsStatement : {A : Type 0} → (Connection → Connection × Result A) → Type 0
  KeepsStatement statement = (conn : Connection) → IsSound pk conn → IsSound pk (statement conn).0

  abbrev pub Keeps : Handler → Type 0
  Keeps handler = (s : ServerState) → IsSound pk s.conn → IsSound pk (handler s).0.conn

  pub create_cidr-Keeps : (contents : CidrContents) → KeepsStatement (Cidrs.create pk contents)
  create_cidr-Keeps contents conn v = record {
    well_formed = CidrsKeep.create_cidr-WellFormed pk laws contents conn v.well_formed;
    checked = elim (Checks.create-cases pk contents conn) [
      | inl (e, failed) ↦ rw failed v.checked
      | inr (_, _, done) ↦ rw done v.checked
    ];
  }

  pub create_peer-Keeps : (contents : PeerContents) → KeepsStatement (Peers.create pk contents)
  create_peer-Keeps contents conn v = record {
    well_formed = Creates.create_peer-WellFormed pk laws contents conn v.well_formed;
    checked = elim (Creates.create-cases pk contents conn) [
      | inl (e, failed) ↦ rw failed v.checked
      | inr (_, _, done) ↦ rw done v.checked
    ];
  }

  pub create_association-Keeps :
      (contents : AssociationContents) → KeepsStatement (Associations.create pk contents)
  unfolding Associations.create
  create_association-Keeps contents conn v = record {
    well_formed =
        AssociationsKeep.create_association-WellFormed pk laws contents conn v.checked
          v.well_formed;
    checked = ground arith;
  }

  pub delete_cidr-Keeps : (id : ℕ) → KeepsStatement (Cidrs.delete id)
  unfolding Cidrs.delete
  delete_cidr-Keeps id conn v = record {
    well_formed = CidrsKeep.delete_cidr-WellFormed pk.net id conn v.checked v.well_formed;
    checked = ground arith;
  }

  pub delete_association-Keeps : (id : ℕ) → KeepsStatement (Associations.delete id)
  unfolding Associations.delete
  delete_association-Keeps id conn v = record {
    well_formed = AssociationsKeep.delete_association-WellFormed pk.net id conn v.well_formed;
    checked = v.checked;
  }

  pub update-Keeps :
      (self : Peer) (contents : PeerContents) → KeepsStatement (Peers.update pk self contents)
  unfolding Peers.update
  update-Keeps self contents conn v = record {
    well_formed = PeersKeep.update-WellFormed pk self contents conn v.well_formed;
    checked = ground arith;
  }

  pub disable-Keeps : (id : ℕ) → KeepsStatement (Peers.disable id)
  unfolding Peers.disable
  disable-Keeps id conn v = record {
    well_formed = PeersKeep.disable-WellFormed pk.net id conn v.well_formed;
    checked = ground arith;
  }

  pub redeem-Keeps : (self : Peer) (pubkey : String) → KeepsStatement (Peers.redeem self pubkey)
  unfolding Peers.redeem
  redeem-Keeps self pubkey conn v = record {
    well_formed = PeersKeep.redeem-WellFormed pk.net self pubkey conn v.well_formed;
    checked = ground arith;
  }

  -- The ways in which handlers are put together.
  pub after-Keeps :
      {A : Type 0} (r : Result A) (next : A → Handler)
      → ((a : A) → Keeps (next a))
      → Keeps (after r next)
  after-Keeps (ok a) next k = k a
  after-Keeps (err e) next k = λ s v. v

  pub execute-Keeps :
      {A : Type 0} (statement : Connection → Connection × Result A) (next : A → Handler)
      → KeepsStatement statement
      → ((a : A) → Keeps (next a))
      → Keeps (execute statement next)
  execute-Keeps statement next k n s v =
      after-Keeps (statement s.conn).1 next n (record s { conn = (statement s.conn).0 })
        (k s.conn v)

  pub query-Keeps :
      {A : Type 0} (read : Connection → Result A) (next : A → Handler)
      → ((a : A) → Keeps (next a))
      → Keeps (query read next)
  query-Keeps read next n s v = after-Keeps (read s.conn) next n s v

  pub choice-Keeps :
      (b : Bool) (h k : Handler)
      → Keeps h
      → Keeps k
      → (s : ServerState) → IsSound pk s.conn
      → IsSound pk (if b then h s else k s).0.conn
  choice-Keeps true h k p q s v = p s v
  choice-Keeps false h k p q s v = q s v

  pub admitted-Keeps :
      (session : Connection → Result Peer) (next : Peer → Handler)
      → ((p : Peer) → Keeps (next p))
      → Keeps (admitted session next)
  admitted-Keeps session next k s v = settled (session s.conn)
    where
      settled :
          (r : Result Peer)
          → IsSound pk (
              let t : ServerState × Reply = elim r [
                | ok peer ↦ next peer s
                | err e ↦ (s, rejected e)
              ] in
              t.0.conn)
      settled (ok p) = k p s v
      settled (err e) = v
