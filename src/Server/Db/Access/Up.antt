-- ===== src/Server/Db/Access/Up.antt =====
-- The table `parent_of`: it ends, and holds the CIDR and those above it.
use innernet.Prelude.{
  ℕ, zero, suc, ◌+◌, ◌≤◌, ◌≡◌, sym, ◌∙◌, subst, ◌↔◌, inl, inr, none, some, List, [], ◌∷◌, arith,
  Option-cases, ◌==◌, ==_iff, nat_eq, string_eq, option_eq, In, find, find-some, DistinctBy,
  find-key,
}
use innernet.Net.{Ipnetwork}
use innernet.Shared.{Cidr}
use innernet.Server.Db.Invariant.{HasParent}
use innernet.Server.Db.Access.{parent_of}

-- `above` is the second CIDR, or lies above it in the tree.
pub data Above (cidrs : List Cidr) (above : ℕ) : ℕ → Type 0 where
  self : {own : ℕ} (c : Cidr) → In c cidrs → c.id ≡ own → above ≡ own → Above cidrs above own
  up :
      {own : ℕ} (c : Cidr) (p : ℕ)
      → In c cidrs
      → c.id ≡ own
      → c.parent ≡ some p
      → Above cidrs above p
      → Above cidrs above own

-- Ids fall on the way up, so fuel above the first id is enough.
pub parent_of-total :
    (net : Ipnetwork) (cidrs : List Cidr)
    → ((c : Cidr) → In c cidrs → HasParent net cidrs c)
    → (fuel id : ℕ) → id + 2 ≤ fuel
    → (l : List ℕ) × (parent_of fuel cidrs (some id) ≡ some l)
unfolding parent_of
parent_of-total net cidrs parents zero id h = absurd (omega arith)
parent_of-total net cidrs parents (suc zero) id h = absurd (omega arith)
parent_of-total net cidrs parents (suc (suc fuel)) id h =
    elim (Option-cases (find (λ (c : Cidr). c.id == id) cidrs)) [
      | inl missing ↦ ([], rw (missing, parent_of))
      | inr (c, found) ↦
          let (i, e) = find-some (λ (x : Cidr). x.id == id) cidrs found in
          let same : c.id ≡ id = (==_iff c.id id).0 e in
          elim (Option-cases c.parent) [
            | inl root ↦ (c.id ∷ [], ground (arith, found, root))
            | inr (p, e') ↦
                let (d, _, named, older, _) = parents c i p e' in
                let (l, r) =
                  parent_of-total net cidrs parents (suc fuel) p
                    (omega (arith, named, older, same, h)) in
                (c.id ∷ l, ground (arith, found, e', r))
          ]
    ]

module _ (cidrs : List Cidr) where
  parent_of-none : (fuel : ℕ) (l : List ℕ) → parent_of fuel cidrs none ≡ some l → l ≡ []
  unfolding parent_of
  parent_of-none zero l h = ground arith
  parent_of-none (suc fuel) l h = ground arith

  parent_of_sound :
      (fuel id : ℕ) (l : List ℕ) (a : ℕ)
      → parent_of fuel cidrs (some id) ≡ some l
      → In a l
      → Above cidrs a id
  unfolding parent_of
  parent_of_sound zero id l a h i = ground arith
  parent_of_sound (suc fuel) id l a h i =
      elim (Option-cases (find (λ (c : Cidr). c.id == id) cidrs)) [
        | inl missing ↦ let nil : l ≡ [] = ground arith in absurd (subst (In a) nil i)
        | inr (c, found) ↦
            let (j, e) = find-some (λ (x : Cidr). x.id == id) cidrs found in
            let same : c.id ≡ id = (==_iff c.id id).0 e in
            elim (Option-cases (parent_of fuel cidrs c.parent)) [
              | inl stuck ↦ ground arith
              | inr (above, rest) ↦
                  let cons : l ≡ c.id ∷ above = ground arith in
                  elim (subst (In a) cons i) [
                    | inl here ↦ self c j same (here ∙ same)
                    | inr k ↦ elim (Option-cases c.parent) [
                      | inl root ↦
                          let nil : above ≡ [] =
                            parent_of-none fuel above
                              (subst (λ o. parent_of fuel cidrs o ≡ some above) root rest) in
                          absurd (subst (In a) nil k)
                      | inr (p, e') ↦ up c p j same e' (
                          parent_of_sound fuel p above a
                            (subst (λ o. parent_of fuel cidrs o ≡ some above) e' rest) k)
                    ]
                  ]
            ]
      ]

  module _ (ids : DistinctBy (λ (c : Cidr). c.id) cidrs) where
    find-id :
        (c : Cidr) (id : ℕ)
        → In c cidrs
        → c.id ≡ id
        → find (λ (x : Cidr). x.id == id) cidrs ≡ some c
    find-id c id i e =
        subst (λ k. find (λ (x : Cidr). x.id == k) cidrs ≡ some c) e
          (find-key (λ (x : Cidr). x.id) cidrs c ids i)

    parent_of_complete :
        (fuel id : ℕ) (l : List ℕ) (a : ℕ)
        → parent_of fuel cidrs (some id) ≡ some l
        → Above cidrs a id
        → In a l
    unfolding parent_of
    parent_of_complete zero id l a h w = ground arith
    parent_of_complete (suc fuel) id l a h (self c i e same) =
        let found = find-id c id i e in
        elim (Option-cases (parent_of fuel cidrs c.parent)) [
          | inl stuck ↦ ground arith
          | inr (above, rest) ↦
              let cons : l ≡ c.id ∷ above = ground arith in
              subst (In a) (sym cons) (inl (same ∙ sym e))
        ]
    parent_of_complete (suc fuel) id l a h (up c p i e e' w) =
        let found = find-id c id i e in
        elim (Option-cases (parent_of fuel cidrs c.parent)) [
          | inl stuck ↦ ground arith
          | inr (above, rest) ↦
              let cons : l ≡ c.id ∷ above = ground arith in
              subst (In a) (sym cons) (
                inr (
                  parent_of_complete fuel p above a
                    (subst (λ o. parent_of fuel cidrs o ≡ some above) e' rest) w))
        ]

    -- `parent_of` holds the CIDR and those above it, and nothing else.
    pub parent_of_iff :
        (fuel id : ℕ) (l : List ℕ) (a : ℕ)
        → parent_of fuel cidrs (some id) ≡ some l
        → In a l ↔ Above cidrs a id
    parent_of_iff fuel id l a h = (parent_of_sound fuel id l a h, parent_of_complete fuel id l a h)
