-- ===== src/Server/Db/Cidrs/Preserves.antt =====
-- `DatabaseCidr::create` and `delete` keep the database well formed.
use innernet.Prelude.{
  ℕ, ◌<◌, ◌≡◌, sym, ap, ◌∙◌, subst, ◌≢◌, inl, inr, Bool, true, false, not, ◌||◌, some, List, [],
  ◌∷◌, ◌++◌, map, arith, Bool-cases, ◌==◌, ==_iff, nat_eq, string_eq, option_eq, In, In-append_left,
  In-append, any, filter, any-false, In-filter, In-map, filter-not-any, DistinctBy-append,
  DistinctBy-filter, fresh_key,
}
use innernet.Net.{Ipnetwork, network_eq}
use innernet.Net.Intervals.{overlaps, Disjoint, subnet-Within, Disjoint-of_overlaps}
use innernet.Shared.{Cidr, CidrContents, Association}
use innernet.Server.Db.{ok, PeerRow, Connection, Packages, PackagesLaws}
use innernet.Server.Db.Invariant.{
  HasParent, AreDisjoint, IsCidrTree, ArePeers, AreAssociations, WellFormed, ArePeers-mono,
  AreAssociations-mono,
}
use innernet.Server.Db.Cidrs.{
  check_parent, admissible, accepted, create, delete, is_referenced, is_restricted,
}
use innernet.Server.Db.Cidrs.Checks.{
  check_parent-IsClosest, admissible-parts, new_row, create-cases,
}

module _ (pk : Packages) (laws : PackagesLaws pk) (contents : CidrContents) (conn : Connection)
    (tree : IsCidrTree pk.net conn.cidrs) (good : admissible pk contents conn ≡ ok tt)
    (fits : accepted pk contents conn ≡ true) where
  abbrev row : Cidr
  row = new_row pk contents conn

  abbrev cidrs' : List Cidr
  cidrs' = conn.cidrs ++ row ∷ []

  newest : (c : Cidr) → In c conn.cidrs → c.id < row.id
  newest c i = laws.next_rowid-above (map (λ d. d.id) conn.cidrs) c.id (In-map _ conn.cidrs c i)

  old_parents : (c : Cidr) → In c conn.cidrs → HasParent pk.net cidrs' c
  old_parents c i p e =
      let (d, j, same, older, within) = tree.parents c i p e in
      (d, In-append_left d conn.cidrs (row ∷ []) j, same, older, within)

  -- Its parent is the closest, whose network encloses that of the new row.
  new_parent : HasParent pk.net cidrs' row
  new_parent p e =
      let checked : check_parent pk contents (some p) conn ≡ ok tt =
        subst (λ o. check_parent pk contents o conn ≡ ok tt) e
          (admissible-parts pk contents conn good).1 in
      let (d, i, same, encloses, _) = check_parent-IsClosest pk contents p conn checked in
      (
        d,
        In-append_left d conn.cidrs (row ∷ []) i,
        same,
        newest d i,
        subnet-Within pk.net laws.net_laws contents.cidr d.cidr encloses,
      )

  no_overlap :
      (c : Cidr)
      → In c conn.cidrs
      → c.parent ≡ contents.parent
      → Disjoint pk.net contents.cidr c.cidr
  no_overlap c i same =
      let quiet = (admissible-parts pk contents conn good).2 in
      let sibling =
        (In-filter (λ current. current.parent == contents.parent) conn.cidrs c).1
          (i, (==_iff c.parent contents.parent).1 same) in
      Disjoint-of_overlaps pk.net laws.net_laws contents.cidr c.cidr (
        any-false (λ (s : Cidr). overlaps pk.net contents.cidr s.cidr)
          (filter (λ current. current.parent == contents.parent) conn.cidrs) c quiet sibling)

  siblings' : (c d : Cidr) → In c cidrs' → In d cidrs' → AreDisjoint pk.net c d
  siblings' c d i j same differ = elim (In-append c conn.cidrs (row ∷ []) i) [
    | inl old ↦ elim (In-append d conn.cidrs (row ∷ []) j) [
      | inl old' ↦ tree.siblings c d old old' same differ
      | inr (inl e) ↦ λ a p q.
          no_overlap c old (same ∙ ap (λ (x : Cidr). x.parent) e) a
            (subst (λ (x : Cidr). pk.net.contains_ip x.cidr a ≡ true) e q) p
      | inr (inr z) ↦ absurd z
    ]
    | inr (inl e) ↦ elim (In-append d conn.cidrs (row ∷ []) j) [
      | inl old' ↦ λ a p q.
          no_overlap d old' (sym same ∙ ap (λ (x : Cidr). x.parent) e) a
            (subst (λ (x : Cidr). pk.net.contains_ip x.cidr a ≡ true) e p) q
      | inr (inl e') ↦ absurd (differ (ap (λ (x : Cidr). x.id) (e ∙ sym e')))
      | inr (inr z) ↦ absurd z
    ]
    | inr (inr z) ↦ absurd z
  ]

  create-IsCidrTree : IsCidrTree pk.net cidrs'
  create-IsCidrTree = record {
    ids =
        DistinctBy-append (λ (c : Cidr). c.id) conn.cidrs row tree.ids
          (λ c i e. omega (arith, newest c i, e));
    names =
        DistinctBy-append (λ (c : Cidr). c.name) conn.cidrs row tree.names
          (fresh_key (λ (c : Cidr). c.name) conn.cidrs contents.name (ground arith));
    networks =
        DistinctBy-append (λ (c : Cidr). c.cidr) conn.cidrs row tree.networks
          (fresh_key (λ (c : Cidr). c.cidr) conn.cidrs contents.cidr (ground arith));
    parents = λ c i. elim (In-append c conn.cidrs (row ∷ []) i) [
      | inl old ↦ old_parents c old
      | inr (inl e) ↦ subst (HasParent pk.net cidrs') (sym e) new_parent
      | inr (inr z) ↦ absurd z
    ];
    siblings = siblings';
  }

-- Creating a CIDR keeps a well formed database well formed, whatever the request asks for.
pub create_cidr-WellFormed :
    (pk : Packages) (laws : PackagesLaws pk) (contents : CidrContents) (conn : Connection)
    → WellFormed pk.net conn
    → WellFormed pk.net (create pk contents conn).0
create_cidr-WellFormed pk laws contents conn w = elim (create-cases pk contents conn) [
  | inl (e, failed) ↦ rw failed w
  | inr (good, fits, done) ↦ rw done (record {
    tree = create-IsCidrTree pk laws contents conn w.tree good fits;
    members =
        ArePeers-mono pk.net conn.cidrs (conn.cidrs ++ new_row pk contents conn ∷ []) conn.peers
          (λ p c i j e. In-append_left c conn.cidrs (new_row pk contents conn ∷ []) j) w.members;
    links =
        AreAssociations-mono conn.cidrs (conn.cidrs ++ new_row pk contents conn ∷ [])
          conn.associations
          (λ a c i j e. In-append_left c conn.cidrs (new_row pk contents conn ∷ []) j) w.links;
  })
]

module _ (net : Ipnetwork) (id : ℕ) (conn : Connection) (w : WellFormed net conn) where
  abbrev remaining : List Cidr
  remaining = filter (λ c. not (c.id == id)) conn.cidrs

  kept : (c : Cidr) → In c conn.cidrs → c.id ≢ id → In c remaining
  kept c i differ = (In-filter (λ c'. not (c'.id == id)) conn.cidrs c).1 (i, ground arith)

  -- Where nothing refers to the row, or the row is not there, each row still has what it refers to.
  module _ (unused : is_referenced id conn ≡ false) where
    delete-IsCidrTree : IsCidrTree net remaining
    delete-IsCidrTree =
        let test : Cidr → Bool = λ c. not (c.id == id) in
        let old = λ (c : Cidr) (i : In c remaining). ((In-filter test conn.cidrs c).0 i).0 in
        record {
          ids = DistinctBy-filter (λ (c : Cidr). c.id) test conn.cidrs w.tree.ids;
          names = DistinctBy-filter (λ (c : Cidr). c.name) test conn.cidrs w.tree.names;
          networks = DistinctBy-filter (λ (c : Cidr). c.cidr) test conn.cidrs w.tree.networks;
          parents = λ c i p e.
              let (d, j, same, older, within) = w.tree.parents c (old c i) p e in
              let free =
                any-false (λ (x : Cidr). x.parent == some id) conn.cidrs c (ground arith)
                  (old c i) in
              (
                d,
                kept d j
                    (λ k. cc (free, (==_iff c.parent (some id)).1 (e ∙ ap some (sym same ∙ k)))),
                same,
                older,
                within,
              );
          siblings = λ c d i j. w.tree.siblings c d (old c i) (old d j);
        }

    delete-ArePeers : ArePeers net remaining conn.peers
    delete-ArePeers =
        ArePeers-mono net conn.cidrs remaining conn.peers
          (λ p c i j e.
            let free = any-false (λ (x : PeerRow). x.cidr_id == id) conn.peers p (ground arith) i in
            kept c j (λ k. ground arith))
          w.members

    delete-AreAssociations : AreAssociations remaining conn.associations
    delete-AreAssociations =
        AreAssociations-mono conn.cidrs remaining conn.associations
          (λ a c i j e.
            let free =
              any-false (λ (x : Association). (x.cidr_id_1 == id) || (x.cidr_id_2 == id))
                conn.associations a (ground arith) i in
            kept c j (λ k. ground arith))
          w.links

-- With foreign keys on, deleting a CIDR, or trying to, leaves a well formed database well formed.
pub delete_cidr-WellFormed :
    (net : Ipnetwork) (id : ℕ) (conn : Connection)
    → conn.foreign_keys ≡ true
    → WellFormed net conn
    → WellFormed net (delete id conn).0
unfolding delete
delete_cidr-WellFormed net id conn on w =
    elim (Bool-cases (any (λ (c : Cidr). c.id == id) conn.cidrs)) [
      | inr absent ↦ rw (absent, filter-not-any (λ (c : Cidr). c.id == id) conn.cidrs absent) w
      | inl there ↦ elim (Bool-cases (is_referenced id conn)) [
        | inl used ↦ let stop : is_restricted id conn ≡ true = ground arith in rw stop w
        | inr unused ↦
            let go_on : is_restricted id conn ≡ false = ground arith in
            rw go_on (record {
              tree = delete-IsCidrTree net id conn w unused;
              members = delete-ArePeers net id conn w unused;
              links = delete-AreAssociations net id conn w unused;
            })
      ]
    ]
