-- ===== src/Catalog/Api/Listing.antt =====
-- What the list of products shows to whom.
use mathlib.Core.Path.{subst}
use orbit_commerce_platform.Catalog.Api.{
  same_bool, leb_int, given_satisfies, ProductQuery, ProductBody, list_products, matches,
  get_queryset, ProductRow, product_body,
}
use orbit_commerce_platform.Prelude.{
  ◌∙◌, ◌≡◌, ◌↔◌, ◌⊎◌, ◌≤◌, ◌+◌, ◌∷◌, ◌&&◌, [], pos, negsuc, ℤ, arith, inl, inr, List, Bool,
  pos_part, String, true, Option, neg_part, some, false, map, none-ne-some, filter, some_injective,
  none, refl, sym, Bool-cases, ap,
}

-- `b` is an entry of the list.
abbrev pub Among : {A : Type 0} → A → List A → Type 0
Among b [] = ⊥
Among b (x ∷ xs) = (b ≡ x) ⊎ Among b xs

infix 50 ◌≤ℤ◌
abbrev pub ◌≤ℤ◌ : ℤ → ℤ → Type 0
a ≤ℤ b = pos_part a + neg_part b ≤ pos_part b + neg_part a

-- What the parameters of a request ask of a row.
abbrev pub Asked : (String → String → Bool) → ProductQuery → ProductRow → Type 0
Asked iexact q r =
    ((least : ℤ) → q.min_price ≡ some least → least ≤ℤ r.product.price)
    × ((most : ℤ) → q.max_price ≡ some most → r.product.price ≤ℤ most)
    × ((slug : String) → q.category ≡ some slug → iexact r.category.slug slug ≡ true)
    × ((active : Bool) → q.is_active ≡ some active → r.product.is_active ≡ active)

leb_int_iff : (a b : ℤ) → (leb_int a b ≡ true) ↔ (a ≤ℤ b)
unfolding leb_int
leb_int_iff (pos a) (pos b) = ground arith
leb_int_iff (pos a) (negsuc b) = ground arith
leb_int_iff (negsuc a) (pos b) = ground arith
leb_int_iff (negsuc a) (negsuc b) = ground arith

same_bool_iff : (a b : Bool) → (same_bool a b ≡ true) ↔ (a ≡ b)
unfolding same_bool
same_bool_iff true b = (sym, sym)
same_bool_iff false true = (λ h. absurd (ground (arith, h)), λ h. absurd (ground (arith, h)))
same_bool_iff false false = (λ h. refl, λ h. refl)

given_satisfies_iff {ℓ} :
    {A : Type ℓ} (P : A → Type 0) (o : Option A) (test : A → Bool)
    → ((a : A) → (test a ≡ true) ↔ P a)
    → (given_satisfies o test ≡ true) ↔ ((a : A) → o ≡ some a → P a)
unfolding given_satisfies
given_satisfies_iff P none test h = (λ _ a e. absurd (none-ne-some e), λ _. refl)
given_satisfies_iff P (some b) test h =
    (λ t a e. subst P (some_injective e) ((h b).0 t), λ all. (h b).1 (all b refl))

and_iff : (a b : Bool) → ((a && b) ≡ true) ↔ ((a ≡ true) × (b ≡ true))
and_iff true b = (λ h. (refl, h), λ (_, h). h)
and_iff false b = (λ h. absurd (ground (arith, h)), λ (h, _). h)

true-ne-false : true ≡ false → ⊥
true-ne-false h = cc

four :
    {a b c d : Bool} {P Q R S : Type 0}
    → (a ≡ true) ↔ P
    → (b ≡ true) ↔ Q
    → (c ≡ true) ↔ R
    → (d ≡ true) ↔ S
    → ((a && b && c && d) ≡ true) ↔ (P × Q × R × S)
four {a} {b} {c} {d} p q r s = (
  λ all.
      let (abc, d') = (and_iff (a && b && c) d).0 all in
      let (ab, c') = (and_iff (a && b) c).0 abc in
      let (a', b') = (and_iff a b).0 ab in (p.0 a', q.0 b', r.0 c', s.0 d'),
  λ (x, y, z, w).
      let ab = (and_iff a b).1 (p.1 x, q.1 y) in
      (and_iff (a && b && c) d).1 ((and_iff (a && b) c).1 (ab, r.1 z), s.1 w),
)

filter-filter :
    (p q : ProductRow → Bool) (rows : List ProductRow)
    → filter p (filter q rows) ≡ filter (λ r. q r && p r) rows
filter-filter p q [] = refl
filter-filter p q (x ∷ rows) = elim (Bool-cases (q x)) [
  | inl holds ↦ elim (Bool-cases (p x)) [
    | inl also ↦ rw (holds, also) (ap (λ l. x ∷ l) (filter-filter p q rows))
    | inr out ↦ rw (holds, out) (filter-filter p q rows)
  ]
  | inr fails ↦ rw fails (filter-filter p q rows)
]

module _ (iexact : String → String → Bool) where
  matches_iff : (q : ProductQuery) (r : ProductRow) → (matches iexact q r ≡ true) ↔ Asked iexact q r
  unfolding matches
  matches_iff q r =
      let price = r.product.price in
      let least = given_satisfies_iff (λ m. m ≤ℤ price) q.min_price _ (λ m. leb_int_iff m price) in
      let most = given_satisfies_iff (λ m. price ≤ℤ m) q.max_price _ (λ m. leb_int_iff price m) in
      let slug =
        given_satisfies_iff (λ s. iexact r.category.slug s ≡ true) q.category _
          (λ s. ((λ h. h), (λ h. h))) in
      let active =
        given_satisfies_iff (λ a. r.product.is_active ≡ a) q.is_active _
          (λ a. same_bool_iff r.product.is_active a) in
      four least most slug active

  Among-listed :
      (b : ProductBody) (p : ProductRow → Bool) (rows : List ProductRow)
      → Among b (map product_body (filter p rows))
        ↔ ((r : ProductRow) × Among r rows × (p r ≡ true) × (b ≡ product_body r))
  Among-listed b p [] = (λ e. absurd e, λ (r, e, _, _). absurd e)
  Among-listed b p (x ∷ rows) = elim (Bool-cases (p x)) [
    | inl holds ↦ rw holds (
        let rest = Among-listed b p rows in
        (
          λ h. elim h [
            | inl e ↦ (x, inl refl, holds, e)
            | inr later ↦ let (r, among, ok, e) = rest.0 later in (r, inr among, ok, e)
          ],
          λ (r, among, ok, e). elim among [
            | inl first ↦ inl (subst (λ y. b ≡ product_body y) first e)
            | inr later ↦ inr (rest.1 (r, later, ok, e))
          ],
        ))
    | inr fails ↦ rw fails (
        let rest = Among-listed b p rows in
        (
          λ h. let (r, among, ok, e) = rest.0 h in (r, inr among, ok, e),
          λ (r, among, ok, e). elim among [
            | inl first ↦ absurd (true-ne-false (sym ok ∙ ap p first ∙ fails))
            | inr later ↦ rest.1 (r, later, ok, e)
          ],
        ))
  ]

  -- A user is shown exactly the products that the request asks for, of which one who is not staff
  -- is shown only the active ones.
  pub list_products_exact :
      (is_staff : Bool) (q : ProductQuery) (rows : List ProductRow) (b : ProductBody)
      → Among b (list_products iexact is_staff q rows) ↔ (
          (r : ProductRow) × Among r rows
          × ((is_staff ≡ true) ⊎ (r.product.is_active ≡ true))
          × Asked iexact q r
          × (b ≡ product_body r))
  unfolding list_products get_queryset
  list_products_exact true q rows b =
      let shown = Among-listed b (matches iexact q) rows in
      (
        λ h. let (r, among, ok, e) = shown.0 h in (r, among, inl refl, (matches_iff q r).0 ok, e),
        λ (r, among, _, asked, e). shown.1 (r, among, (matches_iff q r).1 asked, e),
      )
  list_products_exact false q rows b =
      let p : ProductRow → Bool = λ r. r.product.is_active && matches iexact q r in
      let shown = Among-listed b p rows in
      rw (filter-filter (matches iexact q) (λ r. r.product.is_active) rows) (
        λ h.
            let (r, among, ok, e) = shown.0 h in
            let (active, ok') = (and_iff r.product.is_active (matches iexact q r)).0 ok in
            (r, among, inr active, (matches_iff q r).0 ok', e),
        λ (r, among, may, asked, e).
            let ok = (matches_iff q r).1 asked in
            shown.1 (
              r,
              among,
              (and_iff r.product.is_active _).1 (
                elim may [ inl never ↦ absurd (true-ne-false (sym never)) | inr active ↦ active ],
                ok,
              ),
              e,
            ),
      )
