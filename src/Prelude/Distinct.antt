-- ===== src/Prelude/Distinct.antt =====
-- Lists whose items differ in a key, such as the UNIQUE columns of a table.
use innernet.Prelude.Tests.{Bool-cases, PartialEq, ◌==◌, ==_iff}
use innernet.Prelude.Lists.{
  In, All, All_at, All-of, any, any-false, filter, In-filter, In-append, In-map_inv, find,
}
use mathlib.Core.Path.{◌≡◌, refl, sym, ◌∙◌, ap}
use mathlib.Core.Logic.{◌≢◌, inl, inr}
use mathlib.Core.Bool.{Bool, true, false}
use mathlib.Core.Option.{some}
use mathlib.Core.List.{List, [], ◌∷◌, ◌++◌, map}

module _ {A K : Type 0} (key : A → K) where
  abbrev pub DistinctBy : List A → Type 0
  DistinctBy [] = Unit
  DistinctBy (x ∷ xs) = All (λ y. key y ≢ key x) xs × DistinctBy xs

  pub DistinctBy-append :
      (xs : List A) (y : A)
      → DistinctBy xs
      → ((x : A) → In x xs → key x ≢ key y)
      → DistinctBy (xs ++ y ∷ [])
  DistinctBy-append [] y _ fresh = (tt, tt)
  DistinctBy-append (x ∷ xs) y (other, d) fresh = (
    All-of _ (xs ++ y ∷ []) (λ a i. elim (In-append a xs (y ∷ []) i) [
      | inl j ↦ All_at _ xs a other j
      | inr (inl e) ↦ λ same. fresh x (inl refl) (sym same ∙ ap key e)
      | inr (inr j) ↦ absurd j
    ]),
    DistinctBy-append xs y d (λ a i. fresh a (inr i)),
  )

  pub DistinctBy-filter : (p : A → Bool) (xs : List A) → DistinctBy xs → DistinctBy (filter p xs)
  DistinctBy-filter p [] d = tt
  DistinctBy-filter p (x ∷ xs) (other, d) = elim (Bool-cases (p x)) [
    | inl e ↦ rw e (
      All-of _ (filter p xs) (λ a i. All_at _ xs a other ((In-filter p xs a).0 i).0),
      DistinctBy-filter p xs d,
    )
    | inr e ↦ rw e (DistinctBy-filter p xs d)
  ]

  -- A change of the items that keeps their keys apart.
  pub DistinctBy-map :
      (f : A → A) (xs : List A)
      → ((x y : A) → In x xs → In y xs → key (f x) ≡ key (f y) → key x ≡ key y)
      → DistinctBy xs
      → DistinctBy (map f xs)
  DistinctBy-map f [] keep d = tt
  DistinctBy-map f (x ∷ xs) keep (other, d) = (
    All-of _ (map f xs) (λ b i.
        let (a, j, e) = In-map_inv f xs b i in
        λ same. All_at _ xs a other j (keep a x (inr j) (inl refl) (ap key (sym e) ∙ same))),
    DistinctBy-map f xs (λ a b i j. keep a b (inr i) (inr j)) d,
  )

  -- Two items with one key are one item.
  pub DistinctBy-unique :
      (xs : List A) (a b : A) → DistinctBy xs → In a xs → In b xs → key a ≡ key b → a ≡ b
  DistinctBy-unique [] a b d i j e = elim i [ ]
  DistinctBy-unique (x ∷ xs) a b d (inl e) (inl f) _ = e ∙ sym f
  DistinctBy-unique (x ∷ xs) a b (other, d) (inl e) (inr j) same =
      absurd (All_at _ xs b other j (sym same ∙ ap key e))
  DistinctBy-unique (x ∷ xs) a b (other, d) (inr i) (inl f) same =
      absurd (All_at _ xs a other i (same ∙ ap key f))
  DistinctBy-unique (x ∷ xs) a b (other, d) (inr i) (inr j) same =
      DistinctBy-unique xs a b d i j same

module _ {A : Type 0} {K : Type 0} ⦃e : PartialEq K⦄ (key : A → K) where
  -- The test of a UNIQUE column passed: no item has the key.
  pub fresh_key :
      (xs : List A) (k : K) → any (λ x. key x == k) xs ≡ false → (x : A) → In x xs → key x ≢ k
  fresh_key xs k h x i same =
      let hit : (key x == k) ≡ true = (==_iff (key x) k).1 same in
      cc (any-false (λ y. key y == k) xs x h i, hit)

  -- A row is found by a key that is unique.
  pub find-key :
      (xs : List A) (a : A) → DistinctBy key xs → In a xs → find (λ x. key x == key a) xs ≡ some a
  find-key [] a d i = elim i [ ]
  find-key (x ∷ xs) a d (inl s) = rw s (let hit = (==_iff (key x) (key x)).1 refl in rw hit)
  find-key (x ∷ xs) a (other, d) (inr i) = elim (Bool-cases (key x == key a)) [
    | inl hit ↦ absurd (All_at _ xs a other i (sym ((==_iff (key x) (key a)).0 hit)))
    | inr miss ↦ rw miss (find-key xs a d i)
  ]
