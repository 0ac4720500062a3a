-- ===== src/Prelude/Texts.antt =====
-- Text as the code reads it: equality of whole texts, and the code points where it walks them.
use Prim.Native.Char.{code}
use Prim.Native.Nat.{ℕ}
use Prim.Native.String.{String}
use mathlib.Core.List.{List, [], ◌∷◌}
use mathlib.Core.Bool.{Bool, ◌&&◌, ◌||◌, true, false, false≢true}
use mathlib.Core.Path.{◌≡◌, refl, sym, ◌∙◌}
use mathlib.Core.Logic.{◌↔◌, inl, inr}
use hovorun_v.Prelude.Tests.{leb, ◌==◌, if◌then◌else◌, Bool-cases}
use hovorun_v.Prelude.Lists.{length, all}
use text.Mathlib.Text.{◌==◌ as text_eq}
pub use text.Mathlib.TextEquality.{eq_iff}

-- Equality of two texts; `eq_iff` is its law.
abbrev pub str_eq : String → String → Bool
str_eq = text_eq

-- The code points of a text.
abbrev pub codes : String → List ℕ
codes String.[] = []
codes (String.◌∷◌ c s) = code c ∷ codes s

unfoldable pub String-discrete : Discrete String
unfolding Bool-cases
String-discrete s t = elim (Bool-cases (str_eq s t)) [
  | inl e ↦ yes ((eq_iff s t).0 e)
  | inr e ↦ no (λ p. false≢true (sym e ∙ (eq_iff s t).1 p))
]

abbrev pub decided : {P : Type 0} → Dec P → Bool
decided (yes _) = true
decided (no _) = false

pub decided_iff : {P : Type 0} (d : Dec P) → (decided d ≡ true) ↔ P
decided_iff (yes p) = (λ h. p, λ p. refl)
decided_iff (no n) = (λ h. cc, λ p. absurd (n p))

-- `text.startswith(prefix)`, on code points.
abbrev pub starts_with : List ℕ → List ℕ → Bool
starts_with s [] = true
starts_with [] (p ∷ ps) = false
starts_with (c ∷ s) (p ∷ ps) = c == p && starts_with s ps

-- `text.partition(":")[2]`, on code points.
abbrev pub after_colon : List ℕ → List ℕ
after_colon [] = []
after_colon (c ∷ s) = if c == b':' then s else after_colon s

abbrev pub is_empty : List ℕ → Bool
is_empty [] = true
is_empty (_ ∷ _) = false

abbrev pub in_range : ℕ → ℕ → ℕ → Bool
in_range lo hi c = leb lo c && leb c hi

-- The character classes of the source's patterns: `[A-Za-z0-9_.-]` and `[a-f0-9]`.
abbrev pub is_technical : ℕ → Bool
is_technical c =
    in_range b'A' b'Z' c
    || in_range b'a' b'z' c
    || in_range b'0' b'9' c
    || c == b'_'
    || c == b'.'
    || c == b'-'

abbrev pub is_hex : ℕ → Bool
is_hex c = in_range b'a' b'f' c || in_range b'0' b'9' c

-- A full match of a class repeated between `lo` and `hi` times.
unfoldable pub full_match : (ℕ → Bool) → ℕ → ℕ → String → Bool
full_match p lo hi s = let cs = codes s in in_range lo hi (length cs) && all p cs
