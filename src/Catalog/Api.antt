-- ===== src/Catalog/Api.antt =====
-- services/core_api/apps/catalog/views.py, filters.py and serializers.py. A row of products stands
-- with what `select_related` joins to it. The comparison of `iexact`, which is the database's, the
-- search and the order of a list, the pages and the cache of responses are parameters.
pub mod Listing
pub mod Cached
use orbit_commerce_platform.Catalog.Models.{Uuid, Time, Product, Category}
use orbit_commerce_platform.Inventory.StockItem.{available_quantity, StockItem}
use orbit_commerce_platform.Prelude.{
  leb, pos, negsuc, ℕ, ◌&&◌, ◌+◌, ◌≤◌, ◌≡◌, Bool, String, Option, ℤ, Text, List, not, true, some,
  map, false, if◌then◌else◌, filter, none, text_eq, ltb,
}

pub record ProductRow : Type 0 where
  pub id : Uuid
  pub product : Product
  pub category : Category
  pub stock_item : Option StockItem

-- The parameters of a request that `ProductFilter` reads; an absent or empty one is `none`.
pub record ProductQuery : Type 0 where
  pub min_price : Option ℤ
  pub max_price : Option ℤ
  pub category : Option String
  pub is_active : Option Bool

-- `get_queryset`
unfoldable pub get_queryset : Bool → List ProductRow → List ProductRow
get_queryset is_staff rows = if not is_staff then filter (λ r. r.product.is_active) rows else rows

unfoldable pub leb_int : ℤ → ℤ → Bool
leb_int (pos a) (pos b) = leb a b
leb_int (pos a) (negsuc b) = false
leb_int (negsuc a) (pos b) = true
leb_int (negsuc a) (negsuc b) = leb b a

unfoldable pub same_bool : Bool → Bool → Bool
same_bool true b = b
same_bool false b = not b

-- A filter without a value keeps every row.
unfoldable pub given_satisfies {ℓ} : {A : Type ℓ} → Option A → (A → Bool) → Bool
given_satisfies none test = true
given_satisfies (some a) test = test a

-- The fields of `CategorySerializer` and of `ProductSerializer`.
pub record CategoryBody : Type 0 where
  pub id : Uuid
  pub name : String
  pub slug : String

pub record ProductBody : Type 0 where
  pub id : Uuid
  pub sku : String
  pub name : String
  pub description : String
  pub price : ℤ
  pub is_active : Bool
  pub category : CategoryBody
  pub available_quantity : ℕ
  pub created_at : Time

unfoldable pub get_available_quantity : Option StockItem → ℕ
unfolding available_quantity
get_available_quantity none = 0
get_available_quantity (some stock) = available_quantity stock

unfoldable pub product_body : ProductRow → ProductBody
unfolding get_available_quantity
product_body r = record {
  id = r.id;
  sku = r.product.sku;
  name = r.product.name;
  description = r.product.description;
  price = r.product.price;
  is_active = r.product.is_active;
  category = record { id = r.product.category; name = r.category.name; slug = r.category.slug };
  available_quantity = get_available_quantity r.stock_item;
  created_at = r.product.created_at;
}

module _ (iexact : String → String → Bool) where
  unfoldable pub matches : ProductQuery → ProductRow → Bool
  unfolding given_satisfies leb_int same_bool
  matches q r =
      given_satisfies q.min_price (λ least. leb_int least r.product.price)
      && given_satisfies q.max_price (λ most. leb_int r.product.price most)
      && given_satisfies q.category (λ slug. iexact r.category.slug slug)
      && given_satisfies q.is_active (λ active. same_bool r.product.is_active active)

  -- What `list` and `retrieve` answer from, in the order of the table.
  unfoldable pub list_products : Bool → ProductQuery → List ProductRow → List ProductBody
  unfolding get_queryset matches product_body
  list_products is_staff q rows = map product_body (filter (matches q) (get_queryset is_staff rows))

-- The cache of `cache_page`: a response is kept for the address of the request, with what else
-- the framework varies on, and its header `Authorization`.
pub record PageCache (Page : Type 0) : Type 1 where
  pub Store : Type 0
  pub get : Time → Text → Option Text → Store → Option Page
  pub set : Time → Text → Option Text → Page → ℕ → Store → Store

unfoldable pub same_header : Option Text → Option Text → Bool
same_header none none = true
same_header none (some t) = false
same_header (some s) none = false
same_header (some s) (some t) = text_eq s t

-- A page is read back until its time has passed, and a page that is kept replaces no other.
pub record IsPageCache {Page : Type 0} (c : PageCache Page) : Type 0 where
  pub get-set :
      (t now : Time) (url url' : Text) (auth auth' : Option Text) (p : Page) (ttl : ℕ) (s : c.Store)
      → now ≤ t
      → c.get t url' auth' (c.set now url auth p ttl s) ≡ (
          if text_eq url url' && same_header auth auth'
          then (if ltb t (now + ttl) then some p else none)
          else c.get t url' auth' s)

abbrev pub page_ttl_seconds : ℕ
page_ttl_seconds = 60

module _ {Page : Type 0} (c : PageCache Page) where
  -- After the lookup: `found` is what it returned.
  unfoldable pub answer_found :
      Time → Text → Option Text → Page → Option Page → c.Store → Page × c.Store
  answer_found now url auth fresh (some kept) s = (kept, s)
  answer_found now url auth fresh none s = (fresh, c.set now url auth fresh page_ttl_seconds s)

  -- `ProductViewSet.list` behind its decorators; `fresh` is what the list itself would answer.
  unfoldable pub list_cached : Time → Text → Option Text → Page → c.Store → Page × c.Store
  unfolding answer_found
  list_cached now url auth fresh s = answer_found now url auth fresh (c.get now url auth s) s
