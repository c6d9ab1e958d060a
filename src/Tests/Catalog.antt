-- ===== src/Tests/Catalog.antt =====
-- services/core_api/apps/catalog: the list of products, and its cache
use orbit_commerce_platform.Catalog.Api.Cached.{
  AllActive, list_cached_minute, KeepsApart, list_cached_active,
}
use orbit_commerce_platform.Tests.Data.{poster, mug, mug_stock}
use orbit_commerce_platform.Catalog.Api.Listing.{Among, Asked, list_products_exact}
use orbit_commerce_platform.Catalog.Api.{
  IsPageCache, list_products, PageCache, list_cached, ProductQuery, ProductRow, product_body,
  get_queryset, ProductBody, matches, same_header, given_satisfies, leb_int,
}
use orbit_commerce_platform.Catalog.Models.{Time}
use orbit_commerce_platform.Prelude.{
  ◌≡◌, ◌⊎◌, ◌↔◌, ◌∷◌, ◌+◌, ◌&&◌, [], codes, refl, arith, Option, String, some, List, false, Text,
  if◌then◌else◌, none, Bool, text_eq, pos, true, ltb, none-ne-some,
}

abbrev never_equal : String → String → Bool
never_equal a b = false

abbrev mug_row : ProductRow
mug_row = record {
  id = 1;
  product = mug;
  category = record { name = "Kitchen"; slug = "kitchen"; created_at = 0 };
  stock_item = some mug_stock;
}

-- A product that is not sold yet.
abbrev draft_row : ProductRow
draft_row = record mug_row {
  id = 2;
  product = record poster { is_active = false };
  stock_item = none;
}

abbrev table : List ProductRow
table = draft_row ∷ mug_row ∷ []

abbrev below_20 : ProductQuery
below_20 = record {
  min_price = none;
  max_price = some (pos 2000);
  category = none;
  is_active = none;
}

list_products_exact_example :
    Among (product_body draft_row) (list_products never_equal true below_20 table) ↔ (
      (r : ProductRow) × Among r table
      × ((true ≡ true) ⊎ (r.product.is_active ≡ true))
      × Asked never_equal below_20 r
      × (product_body draft_row ≡ product_body r))
list_products_exact_example =
    list_products_exact never_equal true below_20 table (product_body draft_row)

shown_to_customer : list_products never_equal false below_20 table ≡ product_body mug_row ∷ []
unfolding list_products get_queryset matches given_satisfies leb_int
shown_to_customer = refl

-- A cache in memory: what is kept at each time for an address and a header.
abbrev Kept : Type 0 → Type 0
Kept Page = Time → Text → Option Text → Option Page

abbrev memory_pages : {Page : Type 0} → PageCache Page
memory_pages {Page} = record {
  Store = Kept Page;
  get = λ t url auth s. s t url auth;
  set = λ now url auth p ttl s t url' auth'.
      if text_eq url url' && same_header auth auth'
      then (if ltb t (now + ttl) then some p else none)
      else s t url' auth';
}

memory_pages-IsPageCache : {Page : Type 0} → IsPageCache (memory_pages {Page = Page})
memory_pages-IsPageCache = record { get-set = λ t now url url' auth auth' p ttl s le. refl }

abbrev nothing_kept : Kept (List ProductBody)
nothing_kept t url auth = none

abbrev staff_header : Option Text → Bool
staff_header none = false
staff_header (some t) = text_eq t (codes "S")

list_cached_active_example :
    (staff_header (some (codes "C")) ≡ false
      → AllActive
          (list_cached memory_pages 5
            (codes "/products")
            (some (codes "C"))
            (list_products never_equal (staff_header (some (codes "C"))) below_20 table)
            nothing_kept).0)
    × KeepsApart memory_pages staff_header 5
        (list_cached memory_pages 5
          (codes "/products")
          (some (codes "C"))
          (list_products never_equal (staff_header (some (codes "C"))) below_20 table)
          nothing_kept).1
list_cached_active_example =
    list_cached_active memory_pages memory_pages-IsPageCache staff_header never_equal 5
      (codes "/products") (some (codes "C")) below_20 table nothing_kept
      (λ t url auth page le customer held. absurd (none-ne-some held))

list_cached_minute_example :
    (list_cached memory_pages 30
      (codes "/products")
      none
      []
      (list_cached memory_pages 5
        (codes "/products")
        none
        (product_body mug_row ∷ [])
        nothing_kept).1).0
    ≡ (if ltb 30 (5 + 60) then product_body mug_row ∷ [] else [])
list_cached_minute_example =
    list_cached_minute memory_pages memory_pages-IsPageCache 5 30 (codes "/products") none
      (product_body mug_row ∷ []) [] nothing_kept (omega arith) refl
