-- ===== src/Prelude/Lists.antt =====
-- Lists over the native numbers: length, Boolean quantifiers, sums and predicates on all items.
use Prim.Native.Nat.{ℕ, suc, ◌+◌}
use mathlib.Core.Bool.{Bool, true, false, ◌&&◌, ◌||◌}
use mathlib.Core.List.{List, [], ◌∷◌}

module _ {ℓ} {A : Type ℓ} where
  abbrev pub length : List A → ℕ
  length [] = 0
  length (x ∷ xs) = suc (length xs)

  -- Python's `all` and `any` over a generator.
  abbrev pub all : (A → Bool) → List A → Bool
  all p [] = true
  all p (x ∷ xs) = p x && all p xs

  abbrev pub any : (A → Bool) → List A → Bool
  any p [] = false
  any p (x ∷ xs) = p x || any p xs

  abbrev pub sum_by : (A → ℕ) → List A → ℕ
  sum_by f [] = 0
  sum_by f (x ∷ xs) = f x + sum_by f xs

-- Every item has the property.
abbrev pub All {ℓ κ} : {A : Type ℓ} → (A → Type κ) → List A → Type κ
All P [] = Unit
All P (x ∷ xs) = P x × All P xs

module _ {ℓ} {A : Type ℓ} where
  -- Python's `in` on a tuple or a set.
  abbrev pub contains : Discrete A → A → List A → Bool
  contains d a [] = false
  contains d a (x ∷ xs) = elim (d a x) [ yes _ ↦ true | no _ ↦ contains d a xs ]

  -- `len(set(items)) == len(items)`
  abbrev pub distinct : Discrete A → List A → Bool
  distinct d [] = true
  distinct d (x ∷ xs) = elim (contains d x xs) [ true ↦ false | false ↦ distinct d xs ]

  -- `set(items) <= set(others)`
  abbrev pub subset : Discrete A → List A → List A → Bool
  subset d xs ys = all (λ x. contains d x ys) xs
