-- ===== src/Orders/Report.antt =====
-- services/core_api/apps/orders/tasks.py: generate_daily_sales_report, on the rows of the orders.
use orbit_commerce_platform.Orders.Models.{Order, Status, paid}
use orbit_commerce_platform.Catalog.Models.{Time}
use orbit_commerce_platform.Prelude.{
  ◌∙◌, sym, ◌*◌, none, some, ℕ, ℤ, ◌+ℤ◌, ◌+◌, ◌-◌, ◌≡◌, ◌≤◌, Bool, ◌&&◌, List, ◌∷◌, [], ◌++◌,
  Option, int_laws, pos, leb, false, true, filter, length, arith, ap, refl, Bool-cases, inl, inr,
}

-- `Sum` of no rows is `None`.
pub record Totals : Type 0 where
  pub order_count : ℕ
  pub revenue : Option ℤ

unfoldable pub is_paid : Status → Bool
is_paid paid = true
is_paid _ = false

-- `filter(status=Order.Status.PAID, updated_at__gte=since)`
unfoldable pub counted : Time → Order → Bool
unfolding is_paid
counted since o = is_paid o.status && leb since o.updated_at

unfoldable pub sum_amounts : List Order → ℤ
sum_amounts [] = pos 0
sum_amounts (o ∷ orders) = o.total_amount +ℤ sum_amounts orders

unfoldable pub aggregate : List Order → Totals
unfolding sum_amounts
aggregate [] = record { order_count = 0; revenue = none }
aggregate (o ∷ orders) = record {
  order_count = length (o ∷ orders);
  revenue = some (sum_amounts (o ∷ orders));
}

unfoldable pub generate_daily_sales_report : Time → List Order → Totals
unfolding aggregate counted
generate_daily_sales_report now orders =
    let since = now - 60 * 60 * 24 in aggregate (filter (counted since) orders)

-- `totals["revenue"] or 0`
unfoldable pub revenue_or_zero : Totals → ℤ
revenue_or_zero t = elim (t.revenue) [ none ↦ pos 0 | some amount ↦ amount ]

aggregate-parts :
    (orders : List Order)
    → ((aggregate orders).order_count ≡ length orders)
      × (revenue_or_zero (aggregate orders) ≡ sum_amounts orders)
unfolding aggregate revenue_or_zero sum_amounts
aggregate-parts [] = (refl, refl)
aggregate-parts (o ∷ orders) = (refl, refl)

swap_amounts : (a b c : ℤ) → a +ℤ (b +ℤ c) ≡ b +ℤ (a +ℤ c)
swap_amounts a b c = omega int_laws

count_one :
    (keep : Order → Bool) (earlier later : List Order) (o o' : Order)
    → keep o ≡ false
    → keep o' ≡ true
    → (length (filter keep (earlier ++ o' ∷ later))
        ≡ 1 + length (filter keep (earlier ++ o ∷ later)))
      × (sum_amounts (filter keep (earlier ++ o' ∷ later))
          ≡ o'.total_amount +ℤ sum_amounts (filter keep (earlier ++ o ∷ later)))
unfolding sum_amounts
count_one keep [] later o o' out kept = rw (out, kept) (omega arith, refl)
count_one keep (x ∷ earlier) later o o' out kept =
    let (counts, sums) = count_one keep earlier later o o' out kept in
    elim (Bool-cases (keep x)) [
      | inl keeps ↦
          rw keeps (omega (arith, counts), ap (λ s. x.total_amount +ℤ s) sums ∙ swap_amounts _ _ _)
      | inr drops ↦ rw drops (counts, sums)
    ]

leaves : (now : Time) (o : Order) → is_paid o.status ≡ false → counted (now - 86400) o ≡ false
unfolding counted
leaves now o unpaid = rw unpaid refl

enters :
    (now t : Time) (o : Order)
    → now ≤ t + 86400
    → counted (now - 86400) (record o { status = paid; updated_at = t }) ≡ true
unfolding counted is_paid
enters now t o recent = ground arith

-- An order that was not paid, and then is, no earlier than a day before the report, adds one to
-- the report's count and its amount to the report's revenue, wherever it stands.
pub report_of_payment :
    (now t : Time) (earlier later : List Order) (o : Order)
    → is_paid o.status ≡ false
    → now ≤ t + 86400
    → let before = generate_daily_sales_report now (earlier ++ o ∷ later) in
      let after =
        generate_daily_sales_report now
          (earlier ++ record o { status = paid; updated_at = t } ∷ later) in
      (after.order_count ≡ 1 + before.order_count)
      × (revenue_or_zero after ≡ o.total_amount +ℤ revenue_or_zero before)
unfolding generate_daily_sales_report
report_of_payment now t earlier later o unpaid recent =
    let keep : Order → Bool = counted (now - 86400) in
    let o' : Order = record o { status = paid; updated_at = t } in
    let (counts, sums) =
      count_one keep earlier later o o' (leaves now o unpaid) (enters now t o recent) in
    let (c, r) = aggregate-parts (filter keep (earlier ++ o ∷ later)) in
    let (c', r') = aggregate-parts (filter keep (earlier ++ o' ∷ later)) in
    (c' ∙ counts ∙ ap (λ n. 1 + n) (sym c), r' ∙ sums ∙ ap (λ z. o.total_amount +ℤ z) (sym r))
