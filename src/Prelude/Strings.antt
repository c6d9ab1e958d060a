-- ===== src/Prelude/Strings.antt =====
-- A Python string as the list of its code points, with its test for equality.
use Prim.Native.Nat.{ℕ}
use Prim.Native.Char.{code}
use Prim.Native.String.{String}
use mathlib.Core.Path.{◌≡◌, refl}
use mathlib.Core.Logic.{◌≢◌}
use mathlib.Core.Bool.{Bool, true, false, ◌&&◌}
use mathlib.Core.List.{List, [], ◌∷◌, ◌++◌}
use native.Mathlib.Omega.{arith}
use orbit_commerce_platform.Prelude.Tests.{◌==◌}
use orbit_commerce_platform.Prelude.Lists.{All}

abbrev pub Text : Type 0
Text = List ℕ

abbrev pub codes : String → Text
codes String.[] = []
codes (String.◌∷◌ c s) = code c ∷ codes s

unfoldable pub text_eq : Text → Text → Bool
text_eq [] [] = true
text_eq [] (y ∷ ys) = false
text_eq (x ∷ xs) [] = false
text_eq (x ∷ xs) (y ∷ ys) = x == y && text_eq xs ys

pub text_eq_refl : (s : Text) → text_eq s s ≡ true
unfolding text_eq
text_eq_refl [] = refl
text_eq_refl (x ∷ xs) = ground (arith, text_eq_refl xs)

pub text_eq_sound : (s t : Text) → text_eq s t ≡ true → s ≡ t
unfolding text_eq
text_eq_sound [] [] h = refl
text_eq_sound [] (y ∷ ys) h = cc
text_eq_sound (x ∷ xs) [] h = cc
text_eq_sound (x ∷ xs) (y ∷ ys) h = ground (arith, text_eq_sound xs ys)

pub text_ne : (s t : Text) → s ≢ t → text_eq s t ≡ false
text_ne s t ne = ground (arith, text_eq_sound s t)

-- The text holds no `c`.
abbrev pub Lacks : ℕ → Text → Type 0
Lacks c s = All (λ x. x ≢ c) s

pub append-cancel : (xs a b : Text) → xs ++ a ≡ xs ++ b → a ≡ b
append-cancel [] a b h = h
append-cancel (x ∷ xs) a b h = append-cancel xs a b (cc)

-- Two texts that go on after the same separator agree in both parts.
pub split_eq :
    (c : ℕ) (u v k l : Text) → Lacks c u → Lacks c v → u ++ c ∷ k ≡ v ++ c ∷ l → (u ≡ v) × (k ≡ l)
split_eq c [] [] k l hu hv h = (refl, cc)
split_eq c [] (y ∷ v) k l hu hv h = ground arith
split_eq c (x ∷ u) [] k l hu hv h = ground arith
split_eq c (x ∷ u) (y ∷ v) k l hu hv h = ground (arith, split_eq c u v k l hu.1 hv.1)
