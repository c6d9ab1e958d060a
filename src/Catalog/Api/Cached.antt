-- ===== src/Catalog/Api/Cached.antt =====
-- What the cache of the list of products keeps apart.
use mathlib.Core.Path.{subst}
use orbit_commerce_platform.Catalog.Api.Listing.{Among, list_products_exact}
use orbit_commerce_platform.Catalog.Models.{Time}
use orbit_commerce_platform.Catalog.Api.{
  PageCache, ProductBody, IsPageCache, list_cached, list_products, same_header, answer_found,
  product_body, ProductQuery, ProductRow, page_ttl_seconds,
}
use orbit_commerce_platform.Prelude.{
  ◌∙◌, ◌+◌, ◌∷◌, ◌≡◌, ◌≤◌, ◌&&◌, Text, Option, Bool, List, All, true, false, ℕ, String, none, some,
  arith, if◌then◌else◌, ap, ltb, ◌∷◌, [], text_eq_sound, sym, Option-cases, text_eq_refl,
  Bool-cases, inl, refl, inr, text_eq, some_injective, none-ne-some,
}

-- Every product of a page is active.
abbrev pub AllActive : List ProductBody → Type 0
AllActive page = All (λ b. b.is_active ≡ true) page

All-of-Among :
    {P : ProductBody → Type 0} (page : List ProductBody)
    → ((b : ProductBody) → Among b page → P b)
    → All P page
All-of-Among [] h = tt
All-of-Among (b ∷ page) h = (h b (inl refl), All-of-Among page (λ x among. h x (inr among)))

same_header-eq : (a b : Option Text) → same_header a b ≡ true → a ≡ b
unfolding same_header
same_header-eq none none h = refl
same_header-eq none (some t) h = absurd (ground (arith, h))
same_header-eq (some s) none h = absurd (ground (arith, h))
same_header-eq (some s) (some t) h = ap some (text_eq_sound s t h)

and_right : (a b : Bool) → (a && b) ≡ true → b ≡ true
and_right a b h = ground (arith, h)

same_header_refl : (a : Option Text) → same_header a a ≡ true
unfolding same_header
same_header_refl none = refl
same_header_refl (some t) = text_eq_refl t

customer-AllActive :
    (iexact : String → String → Bool) (q : ProductQuery) (rows : List ProductRow)
    → AllActive (list_products iexact false q rows)
unfolding product_body
customer-AllActive iexact q rows = All-of-Among _ (λ b among.
    let (r, _, may, _, e) = (list_products_exact iexact false q rows b).0 among in
    ap (λ x. x.is_active) e
    ∙ elim may [ inl never ↦ absurd (ground (arith, never)) | inr active ↦ active ])

module _ (c : PageCache (List ProductBody)) (is_staff : Option Text → Bool) where
  -- No page that is kept for a header of one who is not staff, now or later, shows a product that
  -- is not active.
  abbrev pub KeepsApart : Time → c.Store → Type 0
  KeepsApart now s =
      (t : Time) (url : Text) (auth : Option Text) (page : List ProductBody)
      → now ≤ t
      → is_staff auth ≡ false
      → c.get t url auth s ≡ some page
      → AllActive page

module _ (c : PageCache (List ProductBody)) (laws : IsPageCache c) where
  -- After a request for which no page was kept, the next request for the same address with the
  -- same header gets the same page if it comes within a minute, and a fresh one if it comes later.
  pub list_cached_minute :
      (now t : Time) (url : Text) (auth : Option Text) (old fresh : List ProductBody) (s : c.Store)
      → now ≤ t
      → c.get now url auth s ≡ none
      → (list_cached c t url auth fresh (list_cached c now url auth old s).1).0
        ≡ (if ltb t (now + 60) then old else fresh)
  unfolding list_cached answer_found
  list_cached_minute now t url auth old fresh s le miss = rw miss (
      rw (laws.get-set t now url url auth auth old 60 s le, text_eq_refl url, same_header_refl auth)
        (elim (Bool-cases (ltb t (now + 60))) [
          | inl early ↦ rw early refl
          | inr late ↦ rw late refl
        ]))

  module _ (is_staff : Option Text → Bool) where
    set-KeepsApart :
        (now : Time) (url : Text) (auth : Option Text) (page : List ProductBody) (ttl : ℕ)
        (s : c.Store)
        → (is_staff auth ≡ false → AllActive page)
        → KeepsApart c is_staff now s
        → KeepsApart c is_staff now (c.set now url auth page ttl s)
    set-KeepsApart now url auth page ttl s fresh kept t url' auth' page' le customer held =
        let seen = sym (laws.get-set t now url url' auth auth' page ttl s le) ∙ held in
        elim (Bool-cases (text_eq url url' && same_header auth auth')) [
          | inl same ↦ elim (Bool-cases (ltb t (now + ttl))) [
            | inl early ↦
                let mine = fresh (
                  ap is_staff (same_header-eq auth auth' (and_right (text_eq url url') _ same))
                  ∙ customer) in
                subst AllActive (some_injective (rw (same, early) at seen)) mine
            | inr late ↦ absurd (none-ne-some (rw (same, late) at seen))
          ]
          | inr differs ↦ kept t url' auth' page' le customer (rw differs at seen)
        ]

    -- Where the header `Authorization` of a request tells whether its user is staff, and no page that
    -- is kept for a user who is not shows an inactive product: whoever asks for the list, a user who
    -- is not staff gets active products only, and no such page is kept afterwards either.
    pub list_cached_active :
        (iexact : String → String → Bool) (now : Time) (url : Text) (auth : Option Text)
        (q : ProductQuery) (rows : List ProductRow) (s : c.Store)
        → KeepsApart c is_staff now s
        → let (page, s') =
            list_cached c now url auth (list_products iexact (is_staff auth) q rows) s in
          (is_staff auth ≡ false → AllActive page) × KeepsApart c is_staff now s'
    unfolding list_cached answer_found
    list_cached_active iexact now url auth q rows s kept =
        elim (Option-cases (c.get now url auth s)) [
          | inl miss ↦ rw miss (
            own,
            set-KeepsApart now url auth (list_products iexact (is_staff auth) q rows)
                page_ttl_seconds s own kept,
          )
          | inr (page, hit) ↦
              rw hit (λ customer. kept now url auth page (omega arith) customer hit, kept)
        ]
      where
        own : is_staff auth ≡ false → AllActive (list_products iexact (is_staff auth) q rows)
        own customer = rw customer (customer-AllActive iexact q rows)
