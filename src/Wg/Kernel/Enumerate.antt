-- ===== src/Wg/Kernel/Enumerate.antt =====
-- wgctrl-rs/src/backends/kernel.rs: `enumerate`, which reads the names of all interfaces from one
-- block of memory, `first\0second\0last\0\0`. The block is its bytes.
use innernet.Prelude.{
  ℕ, zero, suc, ◌≤◌, ◌≡◌, refl, ◌≢◌, inl, inr, true, false, Option, none, some, List, [], ◌∷◌, ◌++◌,
  arith, Bool-cases, ◌==◌, nat_eq, string_eq, option_eq, length, length-append, All, contains,
}
use innernet.Wg.Kernel.Device.{IsText, Outcome, done, last_os_error, panicked}

-- `CStr::from_ptr`, and what lies behind its NUL.
unfoldable pub c_str : List ℕ → Option (List ℕ × List ℕ)
c_str [] = none
c_str (c ∷ bytes) = elim (c == 0) [
  | true ↦ some ([], bytes)
  | false ↦ elim (c_str bytes) [ none ↦ none | some (name, rest) ↦ some (c ∷ name, rest) ]
]

abbrev pub cons_name : List ℕ → Option (List (List ℕ)) → Option (List (List ℕ))
cons_name name none = none
cons_name name (some names) = some (name ∷ names)

-- The loop, on fuel: `none` is a block without an end, or too little fuel.
unfoldable pub names_from : ℕ → List ℕ → Option (List (List ℕ))
unfolding c_str
names_from zero current = none
names_from (suc fuel) current = elim (c_str current) [
  | none ↦ none
  | some ([], rest) ↦ some []
  | some (c ∷ name, rest) ↦ cons_name (c ∷ name) (names_from fuel rest)
]

-- Each turn reads one byte at least. `base` is null where the library fails.
unfoldable pub enumerate : Option (List ℕ) → Outcome (List (List ℕ))
unfolding names_from
enumerate none = last_os_error
enumerate (some block) = elim (names_from (length block) block) [
  | none ↦ panicked
  | some names ↦ done names
]

-- The block that the library documents.
abbrev pub block_of : List (List ℕ) → List ℕ
block_of [] = 0 ∷ []
block_of (name ∷ names) = name ++ 0 ∷ block_of names

-- A name of an interface: not empty, and without a byte that is 0.
abbrev pub IsName : List ℕ → Type 0
IsName name = (name ≢ []) × IsText name

c_str-append : (name rest : List ℕ) → IsText name → c_str (name ++ 0 ∷ rest) ≡ some (name, rest)
unfolding c_str
c_str-append [] rest text = refl
c_str-append (c ∷ name) rest text = elim (Bool-cases (contains 0 name)) [
  | inl u ↦ ground (arith, u)
  | inr u ↦ ground (arith, u, c_str-append name rest u)
]

names_from-block_of :
    (names : List (List ℕ)) (fuel : ℕ)
    → All IsName names
    → suc (length names) ≤ fuel
    → names_from fuel (block_of names) ≡ some names
unfolding names_from
names_from-block_of names zero good enough = absurd (omega (arith, enough))
names_from-block_of [] (suc fuel) good enough = refl
names_from-block_of ([] ∷ names) (suc fuel) good enough = absurd (good.0.0 refl)
names_from-block_of ((c ∷ name) ∷ names) (suc fuel) good enough = ground (
  arith,
  c_str-append (c ∷ name) (block_of names) good.0.1,
  names_from-block_of names fuel good.1 (omega (arith, enough)),
)

length-block_of : (names : List (List ℕ)) → suc (length names) ≤ length (block_of names)
length-block_of [] = omega arith
length-block_of (name ∷ names) =
    omega (arith, length-append name (0 ∷ block_of names), length-block_of names)

-- The loop of `enumerate` comes to an end on every block of the documented form, and gives the names
-- that it holds, in their order.
pub enumerate-block_of :
    (names : List (List ℕ)) → All IsName names → enumerate (some (block_of names)) ≡ done names
unfolding enumerate
enumerate-block_of names good =
    ground (arith, names_from-block_of names (length (block_of names)) good (length-block_of names))
