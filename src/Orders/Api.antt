-- ===== src/Orders/Api.antt =====
-- services/core_api/apps/orders/views.py and serializers.py: the order endpoints.
pub mod Validation
pub mod Laws
use orbit_commerce_platform.Common.Idempotency.{
  Cache, begin, Outcome, replay, complete, proceed, in_progress, abandon,
}
use orbit_commerce_platform.Platform.Exec.{Exec, or_raise, raise, World, ◌>>=◌, gets, pure}
use orbit_commerce_platform.Orders.Services.{
  active_product, Line, cancel_order, mark_order_paid, place_order,
}
use orbit_commerce_platform.Orders.Models.{status_value, Order, OrderItem}
use orbit_commerce_platform.Platform.Env.{Env}
use orbit_commerce_platform.Catalog.Models.{Product, Uuid, Time}
use orbit_commerce_platform.Common.Exceptions.{
  invalid, not_found, not_authenticated, Result, ok, err,
}
use mathlib.Core.Option
use orbit_commerce_platform.Prelude.{
  ℕ, ℤ, Bool, Option, List, String, Text, none, some, map, if◌then◌else◌, ◌∷◌, pos, true, leb, ◌==◌,
  [], negsuc, codes,
}

pub record Requester : Type 0 where
  pub id : Uuid
  pub is_staff : Bool

-- An entry of the request's `items`, after the framework has read a key and an integer from it.
pub record InputLine : Type 0 where
  pub product_id : Uuid
  pub quantity : ℤ

-- `OrderItemInputSerializer`: the product is one of `Product.objects.filter(is_active=True)`, and
-- `min_value=1`.
unfoldable pub validate_line : Option Product → InputLine → Option Line
unfolding active_product
validate_line found input = elim (active_product found) [
  | none ↦ none
  | some product ↦ elim input.quantity [
    | pos n ↦
        if leb 1 n then some (record { product_id = input.product_id; quantity = n }) else none
    | negsuc n ↦ none
  ]
]

pub add_line : Option Line → Option (List Line) → Option (List Line)
add_line none lines = none
add_line (some line) none = none
add_line (some line) (some lines) = some (line ∷ lines)

unfoldable pub validate_lines : (e : Env) → e.Rows → List InputLine → Option (List Line)
unfolding validate_line add_line
validate_lines e rows [] = some []
validate_lines e rows (input ∷ rest) =
    add_line (validate_line (e.product rows input.product_id) input) (validate_lines e rows rest)

-- `validate_items`: "An order needs at least one item."
unfoldable pub validate_items : Option (List Line) → Option (List Line)
validate_items none = none
validate_items (some []) = none
validate_items (some (line ∷ lines)) = some (line ∷ lines)

-- The fields of `OrderItemSerializer`; the model gives an item no key.
pub record ItemBody : Type 0 where
  pub product : Uuid
  pub product_sku : Option String
  pub product_name : Option String
  pub quantity : ℕ
  pub unit_price : ℤ

-- The fields of `OrderSerializer`.
pub record OrderBody : Type 0 where
  pub id : Uuid
  pub status : String
  pub total_amount : ℤ
  pub items : List ItemBody
  pub created_at : Time
  pub updated_at : Time

unfoldable pub item_body : Option Product → OrderItem → ItemBody
item_body product item = record {
  product = item.product;
  product_sku = Option.map (λ p. p.sku) product;
  product_name = Option.map (λ p. p.name) product;
  quantity = item.quantity;
  unit_price = item.unit_price;
}

unfoldable pub order_body : (e : Env) → e.Rows → Uuid → Order → OrderBody
unfolding item_body status_value
order_body e rows id o = record {
  id = id;
  status = status_value o.status;
  total_amount = o.total_amount;
  items = map (λ item. item_body (e.product rows item.product) item) (e.items rows id);
  created_at = o.created_at;
  updated_at = o.updated_at;
}

-- `key_in_progress` is the envelope with the code "IdempotencyKeyInProgress".
pub data Body : Type 0 where
  an_order : OrderBody → Body
  key_in_progress : Body

pub record Response : Type 0 where
  pub status_code : ℕ
  pub body : Body

-- `_create_order`; `id` is the key that the new order will get.
unfoldable pub create_order_response :
    {e : Env} → Uuid → Requester → List InputLine → Exec e Response
unfolding validate_lines validate_items order_body
create_order_response {e} id user input = do
  parsed ← gets (λ w. validate_items (validate_lines e w.rows input))
  lines ← or_raise parsed invalid
  o ← place_order id user.id lines
  body ← gets (λ w. order_body e w.rows id o)
  pure (record { status_code = 201; body = an_order body })

-- `get_queryset`, as a test on an order of the table.
unfoldable pub visible : Requester → Order → Bool
visible user o = if user.is_staff then true else o.customer == user.id

visible_to : Requester → Option Order → Option Order
unfolding visible
visible_to user none = none
visible_to user (some o) = if visible user o then some o else none

-- `get_object`, after `IsAuthenticated` let the request pass.
unfoldable pub get_object : {e : Env} → Requester → Uuid → Exec e Order
unfolding visible_to
get_object {e} user id w = or_raise (visible_to user (e.order w.rows id)) not_found w

unfoldable pub respond : {e : Env} → Uuid → Order → Exec e Response
unfolding order_body
respond {e} id o = do
  body ← gets (λ w. order_body e w.rows id o)
  pure (record { status_code = 200; body = an_order body })

unfoldable pub pay : {e : Env} → Requester → Uuid → Exec e Response
unfolding get_object respond
pay user id = do o ← get_object user id; paid ← mark_order_paid id o; respond id paid

unfoldable pub cancel : {e : Env} → Requester → Uuid → Exec e Response
unfolding get_object respond
cancel user id = do o ← get_object user id; cancelled ← cancel_order id o; respond id cancelled

-- `permission_classes = [IsAuthenticated]`, before the handler.
unfoldable pub authenticated :
    {e : Env} {A : Type 0} → Option Requester → (Requester → Exec e A) → Exec e A
authenticated none handler = raise not_authenticated
authenticated (some user) handler = handler user

module _ {e : Env} (c : Cache Response) (str : Uuid → Text) where
  -- The end of `create`: the response is stored, or the key is given back and the error goes on.
  pub settle_key :
      Requester → Text → Result Response × World e → c.Store → Result Response × (World e × c.Store)
  settle_key user key (ok r, w) s =
      (ok r, (w, complete c w.now (codes "order-create") (str user.id) key r s))
  settle_key user key (err x, w) s =
      (err x, (w, abandon c (codes "order-create") (str user.id) key s))

  pub create_begun :
      Uuid
      → Requester
      → Text
      → List InputLine
      → World e
      → Outcome Response × c.Store
      → Result Response × (World e × c.Store)
  unfolding settle_key create_order_response
  create_begun id user key input w (proceed, s) =
      settle_key user key (create_order_response id user input w) s
  create_begun id user key input w (in_progress, s) =
      (ok (record { status_code = 409; body = key_in_progress }), (w, s))
  create_begun id user key input w (replay r, s) = (ok r, (w, s))

  pub create_unkeyed : Result Response × World e → c.Store → Result Response × (World e × c.Store)
  create_unkeyed (r, w) s = (r, (w, s))

  -- `create`. The key is the header's; an empty one counts as none. `between` is what other
  -- processes do to the cache between the two calls of `begin`.
  unfoldable pub create :
      Uuid
      → Requester
      → Option Text
      → List InputLine
      → (c.Store → c.Store)
      → World e × c.Store
      → Result Response × (World e × c.Store)
  unfolding create_order_response create_begun create_unkeyed
  create id user none input between (w, s) =
      create_unkeyed (create_order_response id user input w) s
  create id user (some []) input between (w, s) =
      create_unkeyed (create_order_response id user input w) s
  create id user (some (x ∷ key)) input between (w, s) =
      create_begun id user (x ∷ key) input w
        (begin c w.now (codes "order-create") (str user.id) (x ∷ key) between s)
