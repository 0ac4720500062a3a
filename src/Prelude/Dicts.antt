-- ===== src/Prelude/Dicts.antt =====
-- Maps keyed by texts: the hashes, the sorted sets and the families of keys of the store.
use Prim.Native.Nat.{ℕ, ◌+◌, ◌≤◌}
use Prim.Native.String.{String}
use mathlib.Core.Path.{◌≡◌, refl, sym, subst}
use mathlib.Core.Logic.{inl, inr}
use mathlib.Core.Bool.{false}
use mathlib.Core.Option.{Option, none, some}
use mathlib.Core.List.{List, [], ◌∷◌}
use native.Mathlib.Omega.{arith}
use hovorun_v.Prelude.Tests.{if◌then◌else◌, Bool-cases}
use hovorun_v.Prelude.Texts.{str_eq, eq_iff}
use hovorun_v.Prelude.Lists.{length}

abbrev pub Dict {ℓ} : Type ℓ → Type ℓ
Dict V = List (String × V)

module _ {ℓ} {V : Type ℓ} where
  unfoldable pub lookup : String → Dict V → Option V
  lookup k [] = none
  lookup k ((j, v) ∷ d) = if str_eq j k then some v else lookup k d

  -- A key that is there keeps its place.
  unfoldable pub put : String → V → Dict V → Dict V
  put k v [] = (k, v) ∷ []
  put k v ((j, w) ∷ d) = if str_eq j k then (j, v) ∷ d else (j, w) ∷ put k v d

  unfoldable pub remove : String → Dict V → Dict V
  remove k [] = []
  remove k ((j, w) ∷ d) = if str_eq j k then d else (j, w) ∷ remove k d

  -- The sum of a weight over the values.
  unfoldable pub total : (V → ℕ) → Dict V → ℕ
  total w [] = 0
  total w ((j, v) ∷ d) = w v + total w d

  -- Every key stands once.
  abbrev pub IsKeyed : Dict V → Type ℓ
  IsKeyed [] = Unit
  IsKeyed ((j, v) ∷ d) = (lookup j d ≡ none) × IsKeyed d

  abbrev pub Each {κ} : (String → V → Type κ) → Dict V → Type κ
  Each P [] = Unit
  Each P ((j, v) ∷ d) = P j v × Each P d

  pub lookup-put :
      (j k : String) (v : V) (d : Dict V)
      → lookup j (put k v d) ≡ (if str_eq k j then some v else lookup j d)
  unfolding lookup put
  lookup-put j k v [] = refl
  lookup-put j k v ((i, w) ∷ d) =
      ground (arith, lookup-put j k v d, eq_iff i k, eq_iff i j, eq_iff k j)

  pub lookup-remove :
      (j k : String) (d : Dict V)
      → IsKeyed d
      → lookup j (remove k d) ≡ (if str_eq k j then none else lookup j d)
  unfolding lookup remove
  lookup-remove j k [] u = ground arith
  lookup-remove j k ((i, w) ∷ d) u =
      ground (arith, lookup-remove j k d u.1, eq_iff i k, eq_iff i j, eq_iff k j)

  -- Writing what is there changes nothing.
  pub put_same : (k : String) (d : Dict V) {v : V} → lookup k d ≡ some v → put k v d ≡ d
  unfolding lookup put
  put_same k [] e = cc
  put_same k ((i, w) ∷ d) {v} e = elim (Bool-cases (str_eq i k)) [
    | inl q ↦ let value : w ≡ v = ground arith in rw (q, value) refl
    | inr q ↦ rw (q, put_same k d {v = v} (ground arith)) refl
  ]

  pub lookup-remove_other :
      (j k : String) (d : Dict V) → str_eq k j ≡ false → lookup j (remove k d) ≡ lookup j d
  unfolding lookup remove
  lookup-remove_other j k [] e = refl
  lookup-remove_other j k ((i, w) ∷ d) e =
      ground (arith, lookup-remove_other j k d, eq_iff i k, eq_iff i j, eq_iff k j)

  pub length-pos : (k : String) (d : Dict V) {v : V} → lookup k d ≡ some v → 1 ≤ length d
  unfolding lookup
  length-pos k [] e = cc
  length-pos k ((i, w) ∷ d) e = omega arith

  -- Two keys that are there are two entries.
  pub length-two :
      (j k : String) (d : Dict V) {v w : V}
      → str_eq k j ≡ false
      → lookup j d ≡ some v
      → lookup k d ≡ some w
      → 2 ≤ length d
  unfolding lookup
  length-two j k [] n e f = cc
  length-two j k ((i, x) ∷ d) {v = v} {w = w} n e f = ground (
    arith,
    length-two j k d {v = v} {w = w},
    length-pos j d {v = v},
    length-pos k d {v = w},
    eq_iff i k,
    eq_iff i j,
    eq_iff k j,
  )

  pub put-IsKeyed : (k : String) (v : V) (d : Dict V) → IsKeyed d → IsKeyed (put k v d)
  unfolding put lookup
  put-IsKeyed k v [] u = (refl, tt)
  put-IsKeyed k v ((i, w) ∷ d) u =
      ground (arith, put-IsKeyed k v d u.1, lookup-put i k v d, eq_iff i k, eq_iff k i)

  pub remove-IsKeyed : (k : String) (d : Dict V) → IsKeyed d → IsKeyed (remove k d)
  unfolding remove lookup
  remove-IsKeyed k [] u = tt
  remove-IsKeyed k ((i, w) ∷ d) u = ground (arith, remove-IsKeyed k d u.1, lookup-remove i k d u.1)

  pub length-put_new :
      (k : String) (v : V) (d : Dict V) → lookup k d ≡ none → length (put k v d) ≡ length d + 1
  unfolding put lookup
  length-put_new k v [] e = refl
  length-put_new k v ((i, w) ∷ d) e = ground (arith, length-put_new k v d)

  pub length-put_old :
      (k : String) (v : V) (d : Dict V) {old : V}
      → lookup k d ≡ some old
      → length (put k v d) ≡ length d
  unfolding put lookup
  length-put_old k v [] e = cc
  length-put_old k v ((i, w) ∷ d) {old} e = ground (arith, length-put_old k v d {old = old})

  pub length-remove :
      (k : String) (d : Dict V) {v : V} → lookup k d ≡ some v → length (remove k d) + 1 ≡ length d
  unfolding remove lookup
  length-remove k [] e = cc
  length-remove k ((i, w) ∷ d) {v} e = ground (arith, length-remove k d {v = v})

  pub remove_absent : (k : String) (d : Dict V) → lookup k d ≡ none → remove k d ≡ d
  unfolding remove lookup
  remove_absent k [] e = refl
  remove_absent k ((i, w) ∷ d) e = ground (arith, remove_absent k d)

  pub total-put_old :
      (w : V → ℕ) (k : String) (v : V) (d : Dict V) {old : V}
      → lookup k d ≡ some old
      → total w (put k v d) + w old ≡ total w d + w v
  unfolding total put lookup
  total-put_old w k v [] e = cc
  total-put_old w k v ((i, x) ∷ d) {old} e = ground (arith, total-put_old w k v d {old = old})

  pub total-put_new :
      (w : V → ℕ) (k : String) (v : V) (d : Dict V)
      → lookup k d ≡ none
      → total w (put k v d) ≡ total w d + w v
  unfolding total put lookup
  total-put_new w k v [] e = ground arith
  total-put_new w k v ((i, x) ∷ d) e = ground (arith, total-put_new w k v d)

  pub total-remove :
      (w : V → ℕ) (k : String) (d : Dict V) {old : V}
      → lookup k d ≡ some old
      → total w (remove k d) + w old ≡ total w d
  unfolding total remove lookup
  total-remove w k [] e = cc
  total-remove w k ((i, x) ∷ d) {old} e = ground (arith, total-remove w k d {old = old})

  pub total-le : (f g : V → ℕ) (d : Dict V) → Each (λ k v. f v ≤ g v) d → total f d ≤ total g d
  unfolding total
  total-le f g [] h = omega arith
  total-le f g ((i, v) ∷ d) h = omega (arith, h.0, total-le f g d h.1)

  pub lookup-Each {κ} :
      (P : String → V → Type κ) (k : String) (d : Dict V) {v : V}
      → Each P d
      → lookup k d ≡ some v
      → P k v
  unfolding lookup
  lookup-Each P k [] h e = cc
  lookup-Each P k ((i, x) ∷ d) {v} h e = elim (Bool-cases (str_eq i k)) [
    | inl q ↦
        let value : x ≡ v = ground arith in
        subst (λ j. P j v) ((eq_iff i k).0 q) (subst (P i) value h.0)
    | inr q ↦ lookup-Each P k d h.1 (ground arith)
  ]

  pub put-Each {κ} :
      (P : String → V → Type κ) (k : String) (v : V) (d : Dict V)
      → P k v
      → Each P d
      → Each P (put k v d)
  unfolding put
  put-Each P k v [] p h = (p, tt)
  put-Each P k v ((i, x) ∷ d) p h = elim (Bool-cases (str_eq i k)) [
    | inl q ↦ rw q (subst (λ j. P j v) (sym ((eq_iff i k).0 q)) p, h.1)
    | inr q ↦ rw q (h.0, put-Each P k v d p h.1)
  ]

  pub remove-Each {κ} :
      (P : String → V → Type κ) (k : String) (d : Dict V) → Each P d → Each P (remove k d)
  unfolding remove
  remove-Each P k [] h = tt
  remove-Each P k ((i, x) ∷ d) h = elim (Bool-cases (str_eq i k)) [
    | inl q ↦ rw q h.1
    | inr q ↦ rw q (h.0, remove-Each P k d h.1)
  ]
