-- ===== src/Server/Db/Access/Symmetry.antt =====
-- Two peers can only talk if each is told of the other.
use innernet.Prelude.{
  ℕ, ◌≡◌, refl, sym, ap, ◌∙◌, subst, ◌≢◌, ◌⊎◌, inl, inr, true, false, some, List, arith, In,
}
use innernet.Net.{Ipnetwork}
use innernet.Shared.{Cidr, Peer}
use innernet.Server.Db.{PeerRow, Connection}
use innernet.Server.Db.Peers.{from_row}
use innernet.Server.Db.Invariant.{WellFormed}
use innernet.Server.Db.Access.{infra_cidr_id, get_all_allowed_peers}
use innernet.Server.Db.Access.Up.{Above, self, up}
use innernet.Server.Db.Access.Sees.{Linked, forth, back, Sees, its_own, infra, linked, below}
use innernet.Server.Db.Access.Allowed.{get_all_allowed_peers_iff}

-- No CIDR has this one for its parent.
abbrev pub IsLeaf : Connection → ℕ → Type 0
IsLeaf conn id = (c : Cidr) → In c conn.cidrs → c.parent ≢ some id

module _ (conn : Connection) where
  Linked-symm : {x y : ℕ} → Linked conn x y → Linked conn y x
  Linked-symm (forth a i e f) = back a i f e
  Linked-symm (back a i e f) = forth a i f e

  -- What sees a CIDR sees all below it.
  Sees-down : {own x id : ℕ} → Sees conn own x → Above conn.cidrs x id → Sees conn own id
  Sees-down {own} s (self c i e same) = subst (Sees conn own) same s
  Sees-down s (up c p i e e' above) = below c p i e' e (Sees-down s above)

  -- Only a leaf itself lies at or below a leaf.
  leaf-Above : {x id : ℕ} → IsLeaf conn x → Above conn.cidrs x id → x ≡ id
  leaf-Above leaf (self c i e same) = same
  leaf-Above {x} leaf (up c p i e e' above) =
      absurd (leaf c i (e' ∙ ap some (sym (leaf-Above leaf above))))

  -- The reasons for which one CIDR sees another: it lies above, or the infra CIDR does, or an
  -- association joins two that lie above them.
  abbrev Reason : ℕ → ℕ → Type 0
  Reason own id =
      Above conn.cidrs own id
      ⊎ (Above conn.cidrs infra_cidr_id id
          ⊎ ((a b : ℕ) × Above conn.cidrs a own × Linked conn a b × Above conn.cidrs b id))

  module _ (net : Ipnetwork) (w : WellFormed net conn) where
    reason :
        {own id : ℕ} (c : Cidr) → In c conn.cidrs → c.id ≡ id → Sees conn own id → Reason own id
    reason c i e (its_own same) = inl (self c i e (sym same))
    reason c i e (infra same) = inr (inl (self c i e (sym same)))
    reason {id} c i e (linked above at link) = inr (inr (above, id, at, link, self c i e refl))
    reason c i e (below d p j e' same s) =
        let (r, k, named, _, _) = w.tree.parents d j p e' in
        elim (reason r k named s) [
          | inl a ↦ inl (up d p j same e' a)
          | inr (inl a) ↦ inr (inl (up d p j same e' a))
          | inr (inr (a, b, at, link, under)) ↦ inr (inr (a, b, at, link, up d p j same e' under))
        ]

-- A leaf that sees a CIDR outside the subtree of the infra CIDR is seen from there.
Sees-symm :
    (net : Ipnetwork) (conn : Connection) (c d : Cidr)
    → WellFormed net conn
    → In c conn.cidrs
    → In d conn.cidrs
    → IsLeaf conn c.id
    → ¬ Above conn.cidrs infra_cidr_id d.id
    → Sees conn c.id d.id
    → Sees conn d.id c.id
Sees-symm net conn c d w i j leaf outside s = elim (reason conn net w d j refl s) [
  | inl above ↦ its_own (leaf-Above conn leaf above)
  | inr (inl under) ↦ absurd (outside under)
  | inr (inr (a, b, at, link, under)) ↦ Sees-down conn (linked b under (Linked-symm conn link)) at
]

-- In a well formed database, let the peers p and q be enabled and redeemed, the CIDR of p a leaf, and
-- that of q not at or below the infra CIDR. If p is told of q, then q is told of p.
pub get_all_allowed_peers_symm :
    (net : Ipnetwork) (conn : Connection) (p q : PeerRow) (ps qs : List Peer)
    → WellFormed net conn
    → In p conn.peers
    → In q conn.peers
    → (p.is_disabled ≡ false) × (p.is_redeemed ≡ true)
    → IsLeaf conn p.cidr_id
    → ¬ Above conn.cidrs infra_cidr_id q.cidr_id
    → get_all_allowed_peers (from_row p) conn ≡ some ps
    → get_all_allowed_peers (from_row q) conn ≡ some qs
    → In (from_row q) ps
    → In (from_row p) qs
unfolding from_row
get_all_allowed_peers_symm net conn p q ps qs w i j (enabled, redeemed) leaf outside told_p told_q
      k =
    let (ps', done_p, those_p) = get_all_allowed_peers_iff net conn (from_row p) w in
    let (qs', done_q, those_q) = get_all_allowed_peers_iff net conn (from_row q) w in
    let same_p : ps ≡ ps' = ground (arith, told_p, done_p) in
    let same_q : qs' ≡ qs = ground (arith, told_q, done_q) in
    let (r, l, e, _, _, sees) = (those_p (from_row q)).0 (subst (In (from_row q)) same_p k) in
    let home : q.cidr_id ≡ r.cidr_id = ap (λ (x : Peer). x.cidr_id) e in
    let (c, at_c, is_c, _, _) = w.members.homes p i in
    let (d, at_d, is_d, _, _) = w.members.homes q j in
    let back =
      Sees-symm net conn c d w at_c at_d (subst (IsLeaf conn) (sym is_c) leaf)
        (subst (λ x. ¬ Above conn.cidrs infra_cidr_id x) (sym is_d) outside)
        (subst (Sees conn c.id) (sym (is_d ∙ home))
          (subst (λ x. Sees conn x r.cidr_id) (sym is_c) sees)) in
    subst (In (from_row p)) same_q (
      (those_q (from_row p)).1 (
        p,
        i,
        refl,
        enabled,
        redeemed,
        subst (Sees conn q.cidr_id) is_c (subst (λ x. Sees conn x c.id) is_d back),
      ))
