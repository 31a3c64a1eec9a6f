-- ===== src/Wg/Kernel/Pointers.antt =====
-- wgctrl-rs/src/backends/kernel.rs: lists that are linked by pointers, as the C library has them. A
-- pointer is null or an address; what a program has put on the heap is a list of cells, a cell's
-- address its position.
use innernet.Prelude.{
  ℕ, zero, suc, ◌≤◌, ◌<◌, ◌≡◌, refl, ◌⊎◌, inl, inr, true, false, Option, none, some, List, [], ◌∷◌,
  ◌++◌, arith, if◌then◌else◌, Bool-cases, Option-cases, ◌==◌, nat_eq, string_eq, option_eq, length,
  length-append,
}

abbrev pub Pointer : Type 0
Pointer = Option ℕ

-- `&*pointer`: `none` where nothing lies at the address.
unfoldable pub deref : {A : Type 0} → List A → ℕ → Option A
deref [] address = none
deref (cell ∷ cells) zero = some cell
deref (cell ∷ cells) (suc address) = deref cells address

-- `if last.is_null() { last = first }`
abbrev pub or_first : Pointer → ℕ → Pointer
or_first none address = some address
or_first (some last) address = some last

deref-append :
    {A : Type 0} (cells more : List A) (address : ℕ) {cell : A}
    → deref cells address ≡ some cell
    → deref (cells ++ more) address ≡ some cell
unfolding deref
deref-append [] more address h = ground arith
deref-append (c ∷ cells) more zero h = h
deref-append (c ∷ cells) more (suc address) h = deref-append cells more address h

deref-length :
    {A : Type 0} (cells : List A) (cell : A) → deref (cells ++ cell ∷ []) (length cells) ≡ some cell
unfolding deref
deref-length [] cell = refl
deref-length (c ∷ cells) cell = deref-length cells cell

abbrev cons_some : {A : Type 0} → A → Option (List A) → Option (List A)
cons_some x none = none
cons_some x (some xs) = some (x ∷ xs)

-- The loops of `parse_peers` and `parse_allowed_ips`, on `fuel` turns: `none` is a fault, a panic of
-- the conversion, or a loop that has not come to the last cell.
unfoldable pub walk :
    {A B : Type 0}
    → (A → Option B)
    → (A → Pointer)
    → ℕ
    → List A
    → Pointer
    → Pointer
    → Option (List B)
unfolding deref
walk read next zero cells current last = none
walk read next (suc fuel) cells none last = none
walk read next (suc fuel) cells (some address) last = elim (deref cells address) [
  | none ↦ none
  | some cell ↦ elim (read cell) [
    | none ↦ none
    | some x ↦ elim (last == some address) [
      | true ↦ some (x ∷ [])
      | false ↦ cons_some x (walk read next fuel cells (next cell) last)
    ]
  ]
]

-- A list without a loop has no more turns than cells.
unfoldable pub parse :
    {A B : Type 0} → (A → Option B) → (A → Pointer) → List A → Pointer → Pointer → Option (List B)
unfolding walk
parse read next cells none last = some []
parse read next cells (some first) last = walk read next (length cells) cells (some first) last

module _ {A B : Type 0} (read : A → Option B) (next : A → Pointer) where
  walk-null :
      (fuel : ℕ) (cells : List A) (last : Pointer) → walk read next fuel cells none last ≡ none
  unfolding walk
  walk-null zero cells last = refl
  walk-null (suc fuel) cells last = refl

  -- More fuel, and more cells, change nothing of a list that was walked to its end.
  walk-append :
      (fuel more_fuel : ℕ) (cells more : List A) (current last : Pointer) (xs : List B)
      → fuel ≤ more_fuel
      → walk read next fuel cells current last ≡ some xs
      → walk read next more_fuel (cells ++ more) current last ≡ some xs
  unfolding walk
  walk-append zero more_fuel cells more current last xs le h = ground arith
  walk-append (suc fuel) zero cells more current last xs le h = absurd (omega (arith, le))
  walk-append (suc fuel) (suc more_fuel) cells more none last xs le h = ground arith
  walk-append (suc fuel) (suc more_fuel) cells more (some address) last xs le h =
      elim (Option-cases (deref cells address)) [
        | inl e ↦ ground (arith, e)
        | inr (c, e) ↦ elim (Option-cases (read c)) [
          | inl r ↦ ground (arith, e, r)
          | inr (x, r) ↦ elim (Bool-cases (last == some address)) [
            | inl q ↦ ground (arith, e, r, q, deref-append cells more address e)
            | inr q ↦ elim (Option-cases (walk read next fuel cells (next c) last)) [
              | inl w ↦ ground (arith, e, r, q, w)
              | inr (ys, w) ↦ ground (
                arith,
                e,
                r,
                q,
                w,
                deref-append cells more address e,
                walk-append fuel more_fuel cells more (next c) last ys (omega (arith, le)) w,
              )
            ]
          ]
        ]
      ]

  pub parse-append :
      (cells more : List A) (first last : Pointer) (xs : List B)
      → parse read next cells first last ≡ some xs
      → parse read next (cells ++ more) first last ≡ some xs
  unfolding parse
  parse-append cells more none last xs h = h
  parse-append cells more (some first) last xs h =
      walk-append (length cells) (length (cells ++ more)) cells more (some first) last xs
        (omega (arith, length-append cells more)) h

  -- From its first cell to its last, a linked list holds `xs`.
  pub record Holds (cells : List A) (first last : Pointer) (xs : List B) : Type 0 where
    pub fits : length xs ≤ length cells
    pub linked :
        ((xs ≡ []) × (first ≡ none) × (last ≡ none))
        ⊎ ((final : ℕ) × (last ≡ some final)
            × (final < length cells)
            × ((fuel : ℕ) → length xs ≤ fuel → walk read next fuel cells first last ≡ some xs))

  pub Holds-nil : (cells : List A) → Holds cells none none []
  Holds-nil cells = record { fits = omega arith; linked = inl (refl, refl, refl) }

  -- A turn of the loop at the cell that was made last.
  walk-push :
      (fuel : ℕ) (cells : List A) (cell : A) (x : B) (last : Pointer)
      → read cell ≡ some x
      → walk read next (suc fuel) (cells ++ cell ∷ []) (some (length cells)) last ≡ (
          if last == some (length cells)
          then some (x ∷ [])
          else cons_some x (walk read next fuel (cells ++ cell ∷ []) (next cell) last))
  unfolding walk
  walk-push fuel cells cell x last r = ground (arith, r, deref-length cells cell)

  single :
      (cells : List A) (cell : A) (x : B)
      → read cell ≡ some x
      → (fuel : ℕ) → 1 ≤ fuel
      → walk read next fuel (cells ++ cell ∷ []) (some (length cells)) (some (length cells))
        ≡ some (x ∷ [])
  single cells cell x r zero enough = absurd (omega (arith, enough))
  single cells cell x r (suc fuel) enough =
      ground (arith, walk-push fuel cells cell x (some (length cells)) r)

  longer :
      (cells : List A) (first : Pointer) (final : ℕ) (xs : List B) (cell : A) (x : B)
      → final < length cells
      → ((fuel : ℕ) → length xs ≤ fuel → walk read next fuel cells first (some final) ≡ some xs)
      → read cell ≡ some x
      → next cell ≡ first
      → (fuel : ℕ) → suc (length xs) ≤ fuel
      → walk read next fuel (cells ++ cell ∷ []) (some (length cells)) (some final) ≡ some (x ∷ xs)
  longer cells first final xs cell x lt w r n zero enough = absurd (omega (arith, enough))
  longer cells first final xs cell x lt w r n (suc fuel) enough = ground (
    arith,
    walk-push fuel cells cell x (some final) r,
    lt,
    n,
    walk-append fuel fuel cells (cell ∷ []) first (some final) xs (omega arith)
        (w fuel (omega (arith, enough))),
  )

  pub Holds-push :
      (cells : List A) (first last : Pointer) (xs : List B) (cell : A) (x : B)
      → Holds cells first last xs
      → read cell ≡ some x
      → next cell ≡ first
      → Holds (cells ++ cell ∷ []) (some (length cells)) (or_first last (length cells)) (x ∷ xs)
  Holds-push cells first last xs cell x h r n = record {
    fits = omega (arith, h.fits, length-append cells (cell ∷ []));
    linked = elim h.linked [
      | inl (e, f, l) ↦ inr (
        length cells,
        rw l refl,
        omega (arith, length-append cells (cell ∷ [])),
        rw (e, l) (single cells cell x r),
      )
      | inr (final, l, lt, w) ↦ inr (
        final,
        rw l refl,
        omega (arith, lt, length-append cells (cell ∷ [])),
        rw l (longer cells first final xs cell x lt (rw l at w) r n),
      )
    ];
  }

  pub parse-Holds :
      (cells : List A) (first last : Pointer) (xs : List B)
      → Holds cells first last xs
      → parse read next cells first last ≡ some xs
  unfolding parse
  parse-Holds cells first last xs h = elim h.linked [
    | inl (e, f, l) ↦ ground (arith, e, f)
    | inr (final, l, lt, w) ↦ walked first (w (length cells) h.fits)
  ]
    where
      walked :
          (p : Pointer)
          → walk read next (length cells) cells p last ≡ some xs
          → parse read next cells p last ≡ some xs
      walked none h = ground (arith, walk-null (length cells) cells last, h)
      walked (some p) h = h

walk-read :
    {A B : Type 0} (read read' : A → Option B) (next : A → Pointer)
    → ((cell : A) (x : B) → read cell ≡ some x → read' cell ≡ some x)
    → (fuel : ℕ) (cells : List A) (current last : Pointer) (xs : List B)
    → walk read next fuel cells current last ≡ some xs
    → walk read' next fuel cells current last ≡ some xs
unfolding walk
walk-read read read' next more zero cells current last xs h = ground arith
walk-read read read' next more (suc fuel) cells none last xs h = ground arith
walk-read read read' next more (suc fuel) cells (some address) last xs h =
    elim (Option-cases (deref cells address)) [
      | inl e ↦ ground (arith, e)
      | inr (c, e) ↦ elim (Option-cases (read c)) [
        | inl r ↦ ground (arith, e, r)
        | inr (x, r) ↦ elim (Bool-cases (last == some address)) [
          | inl q ↦ ground (arith, e, r, q, more c x r)
          | inr q ↦ elim (Option-cases (walk read next fuel cells (next c) last)) [
            | inl w ↦ ground (arith, e, r, q, w)
            | inr (ys, w) ↦ ground (
              arith,
              e,
              r,
              q,
              w,
              more c x r,
              walk-read read read' next more fuel cells (next c) last ys w,
            )
          ]
        ]
      ]
    ]

-- A conversion that reads more reads the same list.
pub Holds-read :
    {A B : Type 0} (read read' : A → Option B) (next : A → Pointer) (cells : List A)
    (first last : Pointer) (xs : List B)
    → ((cell : A) (x : B) → read cell ≡ some x → read' cell ≡ some x)
    → Holds read next cells first last xs
    → Holds read' next cells first last xs
Holds-read read read' next cells first last xs more h = record {
  fits = h.fits;
  linked = elim h.linked [
    | inl e ↦ inl e
    | inr (final, l, lt, w) ↦ inr (
      final,
      l,
      lt,
      λ fuel enough. walk-read read read' next more fuel cells first last xs (w fuel enough),
    )
  ];
}
