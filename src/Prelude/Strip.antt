-- ===== src/Prelude/Strip.antt =====
-- Python's `str.strip` and `str.split` with one separator, on texts.
use Prim.Native.Nat.{ℕ}
use mathlib.Core.Path.{◌≡◌, refl, ap, sym, ◌∙◌, subst}
use mathlib.Core.Logic.{◌≢◌}
use mathlib.Core.Bool.{Bool, false, ◌&&◌, ◌||◌}
use mathlib.Core.List.{
  List, [], ◌∷◌, ◌++◌, reverse, reverse-reverse, append-nil, append_assoc, reverse-append,
}
use native.Mathlib.Omega.{arith}
use orbit_commerce_platform.Prelude.Tests.{◌==◌, leb, if◌then◌else◌, ==_refl}
use orbit_commerce_platform.Prelude.Lists.{All}
use orbit_commerce_platform.Prelude.Strings.{Text, Lacks}

-- `str.isspace` of one code point.
unfoldable pub is_space : ℕ → Bool
is_space c =
    leb 9 c && leb c 13
    || leb 28 c && leb c 32
    || c == 133
    || c == 160
    || c == 5760
    || leb 8192 c && leb c 8202
    || c == 8232
    || c == 8233
    || c == 8239
    || c == 8287
    || c == 12288

unfoldable pub skip_spaces : Text → Text
skip_spaces [] = []
skip_spaces (c ∷ s) = if is_space c then skip_spaces s else c ∷ s

unfoldable pub strip : Text → Text
unfolding skip_spaces
strip s = reverse (skip_spaces (reverse (skip_spaces s)))

-- A text that does not begin with a space.
abbrev pub Begins : Text → Type 0
Begins [] = Unit
Begins (c ∷ s) = is_space c ≡ false

-- A text with no space at either end.
abbrev pub IsTrimmed : Text → Type 0
IsTrimmed s = Begins s × Begins (reverse s)

skip-Begins : (s : Text) → Begins s → skip_spaces s ≡ s
unfolding skip_spaces
skip-Begins [] h = refl
skip-Begins (c ∷ s) h = rw h refl

pub strip-IsTrimmed : (s : Text) → IsTrimmed s → strip s ≡ s
unfolding strip
strip-IsTrimmed s (front, back) =
    rw (skip-Begins s front, skip-Begins (reverse s) back) (reverse-reverse s)

Begins-append : (s t : Text) → s ≢ [] → Begins s → Begins (s ++ t)
Begins-append [] t full h = absurd (full refl)
Begins-append (c ∷ s) t full h = h

reverse-full : (s : Text) → s ≢ [] → reverse s ≢ []
reverse-full s full empty = full (sym (reverse-reverse s) ∙ ap reverse empty)

-- Two trimmed texts, none of them empty, around a text in the middle.
pub IsTrimmed-join :
    (s m t : Text) → s ≢ [] → t ≢ [] → IsTrimmed s → IsTrimmed t → IsTrimmed (s ++ m ++ t)
IsTrimmed-join s m t fs ft (front, _) (_, back) = (
  subst Begins (sym (append_assoc s m t)) (Begins-append s (m ++ t) fs front),
  subst Begins (sym (reverse-append (s ++ m) t))
      (Begins-append (reverse t) (reverse (s ++ m)) (reverse-full t ft) back),
)

-- A space before a text, and one behind a trimmed text, are removed.
pub strip-before : (s : Text) → IsTrimmed s → strip (32 ∷ s) ≡ s
unfolding strip skip_spaces is_space
strip-before s trimmed = strip-IsTrimmed s trimmed

pub strip-behind : (s : Text) → IsTrimmed s → s ≢ [] → strip (s ++ 32 ∷ []) ≡ s
unfolding strip skip_spaces is_space
strip-behind s (front, back) full =
    rw
      (
        skip-Begins (s ++ 32 ∷ []) (Begins-append s _ full front),
        reverse-append s (32 ∷ []),
        skip-Begins (reverse s) back,
      )
      (reverse-reverse s)

other : (c sep : ℕ) → c ≢ sep → (c == sep) ≡ false
other c sep ne = ground (arith, ne)

-- `s.split(sep)`: the piece that has been read, and the rest.
unfoldable pub split_from : ℕ → Text → Text → List Text
split_from sep piece [] = piece ∷ []
split_from sep piece (c ∷ s) =
    let cut = piece ∷ split_from sep [] s in
    let more = split_from sep (piece ++ c ∷ []) s in if c == sep then cut else more

unfoldable pub split_text : ℕ → Text → List Text
unfolding split_from
split_text sep s = split_from sep [] s

-- `sep.join(...)` of a first text and the others.
unfoldable pub join_texts : ℕ → Text → List Text → Text
join_texts sep t [] = t
join_texts sep t (u ∷ us) = t ++ sep ∷ join_texts sep u us

split_from-append :
    (sep : ℕ) (piece t rest : Text)
    → Lacks sep t
    → split_from sep piece (t ++ rest) ≡ split_from sep (piece ++ t) rest
unfolding split_from
split_from-append sep piece [] rest h = ap (λ p. split_from sep p rest) (sym (append-nil piece))
split_from-append sep piece (c ∷ t) rest (ne, h) = rw (other c sep ne) (
    split_from-append sep (piece ++ c ∷ []) t rest h
    ∙ ap (λ p. split_from sep p rest) (append_assoc piece (c ∷ []) t))

split_from-join_texts :
    (sep : ℕ) (piece t : Text) (ts : List Text)
    → Lacks sep t
    → All (Lacks sep) ts
    → split_from sep piece (join_texts sep t ts) ≡ (piece ++ t) ∷ ts
unfolding split_from join_texts
split_from-join_texts sep piece t [] h hs =
    ap (split_from sep piece) (sym (append-nil t)) ∙ split_from-append sep piece t [] h
split_from-join_texts sep piece t (u ∷ us) h (hu, hs) =
    split_from-append sep piece t (sep ∷ join_texts sep u us) h
    ∙ rw (==_refl sep) (ap (λ l. (piece ++ t) ∷ l) (split_from-join_texts sep [] u us hu hs))

pub split_text-join_texts :
    (sep : ℕ) (t : Text) (ts : List Text)
    → Lacks sep t
    → All (Lacks sep) ts
    → split_text sep (join_texts sep t ts) ≡ t ∷ ts
unfolding split_text
split_text-join_texts sep t ts h hs = split_from-join_texts sep [] t ts h hs
