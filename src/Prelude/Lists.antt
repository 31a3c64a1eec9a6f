-- ===== src/Prelude/Lists.antt =====
-- Lists measured by native numbers, membership and quantifiers by recursion, `find` and `filter`
-- by a Boolean test.
use Prim.Native.Nat.{ℕ, suc, ◌+◌}
use mathlib.Core.Path.{◌≡◌, refl, ap, sym}
use mathlib.Core.Logic.{◌↔◌, ◌⊎◌, inl, inr}
use mathlib.Core.Bool.{Bool, true, false, not, ◌||◌}
use mathlib.Core.Option.{Option, none, some}
use mathlib.Core.List.{List, [], ◌∷◌, ◌++◌, map}
use native.Mathlib.Omega.{arith}
use innernet.Prelude.Tests.{if◌then◌else◌, Bool-cases, PartialEq, ◌==◌, ==_iff}

module _ {ℓ} {A : Type ℓ} where
  abbrev pub length : List A → ℕ
  length [] = 0
  length (x ∷ xs) = suc (length xs)

  pub length-append : (xs ys : List A) → length (xs ++ ys) ≡ length xs + length ys
  length-append [] ys = omega arith
  length-append (x ∷ xs) ys = omega (arith, length-append xs ys)

  abbrev pub any : (A → Bool) → List A → Bool
  any p [] = false
  any p (x ∷ xs) = p x || any p xs

  abbrev pub find : (A → Bool) → List A → Option A
  find p [] = none
  find p (x ∷ xs) = if p x then some x else find p xs

  abbrev pub filter : (A → Bool) → List A → List A
  filter p [] = []
  filter p (x ∷ xs) = if p x then x ∷ filter p xs else filter p xs

module _ {A : Type 0} where
  -- `a` is an item of the list: one of the positions, as data.
  abbrev pub In : A → List A → Type 0
  In a [] = ⊥
  In a (x ∷ xs) = (a ≡ x) ⊎ In a xs

  pub In-append_left : (a : A) (xs ys : List A) → In a xs → In a (xs ++ ys)
  In-append_left a [] ys h = elim h [ ]
  In-append_left a (x ∷ xs) ys (inl e) = inl e
  In-append_left a (x ∷ xs) ys (inr h) = inr (In-append_left a xs ys h)

  pub In-append_right : (a : A) (xs ys : List A) → In a ys → In a (xs ++ ys)
  In-append_right a [] ys h = h
  In-append_right a (x ∷ xs) ys h = inr (In-append_right a xs ys h)

  pub In-append : (a : A) (xs ys : List A) → In a (xs ++ ys) → In a xs ⊎ In a ys
  In-append a [] ys h = inr h
  In-append a (x ∷ xs) ys (inl e) = inl (inl e)
  In-append a (x ∷ xs) ys (inr h) = elim (In-append a xs ys h) [
    | inl l ↦ inl (inr l)
    | inr r ↦ inr r
  ]

  pub any-true : (p : A → Bool) (xs : List A) → any p xs ≡ true → (a : A) × In a xs × (p a ≡ true)
  any-true p [] h = ground arith
  any-true p (x ∷ xs) h = elim (Bool-cases (p x)) [
    | inl e ↦ (x, inl refl, e)
    | inr e ↦ let (a, i, q) = any-true p xs (rw e at h) in (a, inr i, q)
  ]

  pub any-false : (p : A → Bool) (xs : List A) (a : A) → any p xs ≡ false → In a xs → p a ≡ false
  any-false p [] a h i = elim i [ ]
  any-false p (x ∷ xs) a h (inl e) = rw e (ground arith)
  any-false p (x ∷ xs) a h (inr i) = any-false p xs a (ground arith) i

  pub any_of_In : (p : A → Bool) (xs : List A) (a : A) → In a xs → p a ≡ true → any p xs ≡ true
  any_of_In p [] a i q = elim i [ ]
  any_of_In p (x ∷ xs) a (inl e) q = ground arith
  any_of_In p (x ∷ xs) a (inr i) q = ground (arith, any_of_In p xs a i q)

  pub find-some : (p : A → Bool) (xs : List A) {a : A} → find p xs ≡ some a → In a xs × (p a ≡ true)
  find-some p [] h = ground arith
  find-some p (x ∷ xs) {a} h = elim (Bool-cases (p x)) [
    | inl e ↦ let same : x ≡ a = ground arith in (inl (sym same), rw same at e)
    | inr e ↦ let (i, q) = find-some p xs {a = a} (rw e at h) in (inr i, q)
  ]

  pub find-none : (p : A → Bool) (xs : List A) (a : A) → find p xs ≡ none → In a xs → p a ≡ false
  find-none p [] a h i = elim i [ ]
  find-none p (x ∷ xs) a h (inl e) = rw e (ground arith)
  find-none p (x ∷ xs) a h (inr i) = find-none p xs a (ground arith) i

  pub In-filter :
      (p : A → Bool) (xs : List A) (a : A) → In a (filter p xs) ↔ (In a xs × (p a ≡ true))
  In-filter p xs a = (fore xs, λ h. back xs h.0 h.1)
    where
      fore : (l : List A) → In a (filter p l) → In a l × (p a ≡ true)
      fore [] h = elim h [ ]
      fore (x ∷ l) h = elim (Bool-cases (p x)) [
        | inl e ↦ elim (let k : (a ≡ x) ⊎ In a (filter p l) = rw e at h in k) [
          | inl s ↦ (inl s, rw s e)
          | inr i ↦ let (j, q) = fore l i in (inr j, q)
        ]
        | inr e ↦ let (j, q) = fore l (rw e at h) in (inr j, q)
      ]

      back : (l : List A) → In a l → p a ≡ true → In a (filter p l)
      back [] i q = elim i [ ]
      back (x ∷ l) (inl s) q = let e : p x ≡ true = rw (← s) q in rw e (inl s)
      back (x ∷ l) (inr i) q = elim (Bool-cases (p x)) [
        | inl e ↦ rw e (inr (back l i q))
        | inr e ↦ rw e (back l i q)
      ]

module _ {κ} {A : Type 0} where
  abbrev pub All : (A → Type κ) → List A → Type κ
  All P [] = Unit
  All P (x ∷ xs) = P x × All P xs

  pub All_at : (P : A → Type κ) (xs : List A) (a : A) → All P xs → In a xs → P a
  All_at P [] a h i = elim i [ ]
  All_at P (x ∷ xs) a (h, hs) (inl e) = rw e h
  All_at P (x ∷ xs) a (h, hs) (inr i) = All_at P xs a hs i

  pub All-of : (P : A → Type κ) (xs : List A) → ((a : A) → In a xs → P a) → All P xs
  All-of P [] h = tt
  All-of P (x ∷ xs) h = (h x (inl refl), All-of P xs (λ a i. h a (inr i)))

  pub All-append : (P : A → Type κ) (xs ys : List A) → All P xs → All P ys → All P (xs ++ ys)
  All-append P [] ys _ k = k
  All-append P (x ∷ xs) ys (h, hs) k = (h, All-append P xs ys hs k)

module _ {A B : Type 0} where
  pub In-map : (f : A → B) (xs : List A) (a : A) → In a xs → In (f a) (map f xs)
  In-map f [] a i = elim i [ ]
  In-map f (x ∷ xs) a (inl e) = inl (ap f e)
  In-map f (x ∷ xs) a (inr i) = inr (In-map f xs a i)

  pub In-map_inv :
      (f : A → B) (xs : List A) (b : B) → In b (map f xs) → (a : A) × In a xs × (b ≡ f a)
  In-map_inv f [] b i = elim i [ ]
  In-map_inv f (x ∷ xs) b (inl e) = (x, inl refl, e)
  In-map_inv f (x ∷ xs) b (inr i) = let (a, j, e) = In-map_inv f xs b i in (a, inr j, e)

module _ {A : Type 0} ⦃e : PartialEq A⦄ where
  abbrev pub contains : A → List A → Bool
  contains a [] = false
  contains a (x ∷ xs) = (a == x) || contains a xs

  pub contains_iff : (a : A) (xs : List A) → (contains a xs ≡ true) ↔ In a xs
  contains_iff a [] = ((λ h. ground arith), λ h. elim h [ ])
  contains_iff a (x ∷ xs) = (
    (λ h. elim (Bool-cases (a == x)) [
      | inl s ↦ inl ((==_iff a x).0 s)
      | inr d ↦ inr ((contains_iff a xs).0 (rw d at h))
    ]),
    (λ h. elim h [
      | inl s ↦ rw ((==_iff a x).1 s)
      | inr i ↦ elim (Bool-cases (a == x)) [ inl s ↦ rw s | inr d ↦ rw d ((contains_iff a xs).1 i) ]
    ]),
  )

module _ {A : Type 0} where
  -- Where no item passes the test, dropping those that pass changes nothing.
  pub filter-not-any :
      (p : A → Bool) (xs : List A) → any p xs ≡ false → filter (λ x. not (p x)) xs ≡ xs
  filter-not-any p [] h = refl
  filter-not-any p (x ∷ xs) h = elim (Bool-cases (p x)) [
    | inl e ↦ ground arith
    | inr e ↦ rw (e, filter-not-any p xs (ground arith))
  ]
