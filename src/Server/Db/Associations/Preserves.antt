-- ===== src/Server/Db/Associations/Preserves.antt =====
-- The statements of `DatabaseAssociation` keep the database well formed.
use innernet.Prelude.{
  ℕ, ◌≡◌, sym, ap, ◌∙◌, subst, inl, inr, Bool, true, not, ◌&&◌, List, [], ◌∷◌, ◌++◌, map, arith,
  Bool-cases, ◌==◌, ==_iff, nat_eq, string_eq, option_eq, In, In-append, any, filter, any-true,
  any-false, In-filter, In-map, DistinctBy-append, DistinctBy-filter,
}
use innernet.Shared.{Cidr, Association, AssociationContents}
use innernet.Server.Db.{Connection, Packages, PackagesLaws}
use innernet.Server.Db.Invariant.{HasCidr, AreAssociations, WellFormed}
use innernet.Server.Db.Associations.{accepted, create, delete}
use innernet.Net.{Ipnetwork}

module _ (pk : Packages) (laws : PackagesLaws pk) (contents : AssociationContents)
    (conn : Connection) (l : AreAssociations conn.cidrs conn.associations)
    (on : conn.foreign_keys ≡ true) (fits : accepted contents conn ≡ true) where
  abbrev row : Association
  row = record { id = pk.next_rowid (map (λ a. a.id) conn.associations); contents = contents }

  abbrev rows : List Association
  rows = conn.associations ++ row ∷ []

  end_of : (id : ℕ) → any (λ (c : Cidr). c.id == id) conn.cidrs ≡ true → HasCidr conn.cidrs id
  end_of id h =
      let (c, i, e) = any-true (λ (x : Cidr). x.id == id) conn.cidrs h in
      (c, i, (==_iff c.id id).0 e)

  new_pair :
      (a : Association)
      → In a conn.associations
      → a.cidr_id_1 ≡ contents.cidr_id_1
      → a.cidr_id_2 ≡ contents.cidr_id_2
      → ⊥
  new_pair a i e f =
      let miss =
        any-false
          (λ (x : Association).
            (x.cidr_id_1 == contents.cidr_id_1) && (x.cidr_id_2 == contents.cidr_id_2))
          conn.associations a (ground arith) i in
      ground arith

  pairs' :
      (a b : Association)
      → In a rows
      → In b rows
      → a.cidr_id_1 ≡ b.cidr_id_1
      → a.cidr_id_2 ≡ b.cidr_id_2
      → a.id ≡ b.id
  pairs' a b i j e f = elim (In-append a conn.associations (row ∷ []) i) [
    | inl old ↦ elim (In-append b conn.associations (row ∷ []) j) [
      | inl old' ↦ l.pairs a b old old' e f
      | inr (inl s) ↦ absurd (
          new_pair a old (e ∙ ap (λ (x : Association). x.cidr_id_1) s)
            (f ∙ ap (λ (x : Association). x.cidr_id_2) s))
      | inr (inr z) ↦ absurd z
    ]
    | inr (inl s) ↦ elim (In-append b conn.associations (row ∷ []) j) [
      | inl old' ↦ absurd (
          new_pair b old' (sym e ∙ ap (λ (x : Association). x.cidr_id_1) s)
            (sym f ∙ ap (λ (x : Association). x.cidr_id_2) s))
      | inr (inl t) ↦ ap (λ (x : Association). x.id) (s ∙ sym t)
      | inr (inr z) ↦ absurd z
    ]
    | inr (inr z) ↦ absurd z
  ]

  create-AreAssociations : AreAssociations conn.cidrs rows
  create-AreAssociations = record {
    ids =
        DistinctBy-append (λ (a : Association). a.id) conn.associations row l.ids
          (λ a i e. omega (
            arith,
            laws.next_rowid-above (map (λ x. x.id) conn.associations) a.id
                (In-map (λ x. x.id) conn.associations a i),
            e,
          ));
    firsts = λ a i. elim (In-append a conn.associations (row ∷ []) i) [
      | inl j ↦ l.firsts a j
      | inr (inl e) ↦
          subst (λ (x : Association). HasCidr conn.cidrs x.cidr_id_1) (sym e)
            (end_of contents.cidr_id_1 (ground arith))
      | inr (inr z) ↦ absurd z
    ];
    seconds = λ a i. elim (In-append a conn.associations (row ∷ []) i) [
      | inl j ↦ l.seconds a j
      | inr (inl e) ↦
          subst (λ (x : Association). HasCidr conn.cidrs x.cidr_id_2) (sym e)
            (end_of contents.cidr_id_2 (ground arith))
      | inr (inr z) ↦ absurd z
    ];
    pairs = pairs';
  }

-- With foreign keys on, creating an association keeps a well formed database well formed, whichever
-- CIDRs the request names.
pub create_association-WellFormed :
    (pk : Packages) (laws : PackagesLaws pk) (contents : AssociationContents) (conn : Connection)
    → conn.foreign_keys ≡ true
    → WellFormed pk.net conn
    → WellFormed pk.net (create pk contents conn).0
unfolding create
create_association-WellFormed pk laws contents conn on w =
    elim (Bool-cases (accepted contents conn)) [
      | inl fits ↦ rw fits (record {
        tree = w.tree;
        members = w.members;
        links = create-AreAssociations pk laws contents conn w.links on fits;
      })
      | inr no_fit ↦ rw no_fit w
    ]

pub delete_association-WellFormed :
    (net : Ipnetwork) (id : ℕ) (conn : Connection)
    → WellFormed net conn
    → WellFormed net (delete id conn).0
unfolding delete
delete_association-WellFormed net id conn w =
    let test : Association → Bool = λ a. not (a.id == id) in
    let old = λ (a : Association) (i : In a (filter test conn.associations)).
      ((In-filter test conn.associations a).0 i).0 in
    record {
      tree = w.tree;
      members = w.members;
      links = record {
        ids = DistinctBy-filter (λ (a : Association). a.id) test conn.associations w.links.ids;
        firsts = λ a i. w.links.firsts a (old a i);
        seconds = λ a i. w.links.seconds a (old a i);
        pairs = λ a b i j. w.links.pairs a b (old a i) (old b j);
      };
    }
