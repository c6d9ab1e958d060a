-- ===== src/Tests/Middleware.antt =====
-- Two requests, of which the second carries the identifier of the first answer.
use orbit_commerce_platform.Common.Middleware.{
  Headers, call-call, IsHeaders, HttpRequest, HttpResponse, call, correlation_id_of, Handled,
  Traced,
}
use orbit_commerce_platform.Prelude.{
  ◌+◌, ◌≡◌, ◌-◌, ◌∷◌, [], ℕ, Option, Text, codes, some, none, refl, text_eq, text_eq_refl,
  if◌then◌else◌, ◌+◌,
}

abbrev exact : Headers
exact = record {
  Data = Text → Option Text;
  get = λ name d. d name;
  set = λ name value d other. if text_eq name other then some value else d other;
  same_name = text_eq;
}

exact-IsHeaders : IsHeaders exact
exact-IsHeaders = record {
  get-set = λ name other value d same. rw same refl;
  get-set_other = λ name other value d apart. rw apart refl;
  same_name_refl = text_eq_refl;
}

abbrev counts : Text → HttpRequest exact → ℕ → HttpResponse exact × ℕ
counts id request s =
    (record { headers = λ name. none; status_code = 200; body = codes "ok" }, s + 1)

abbrev asks : Option Text → HttpRequest exact
asks id = record {
  headers = λ name. if text_eq (codes "X-Request-ID") name then id else none;
  method = codes "GET";
  path = codes "/health/";
}

abbrev first_ask : HttpRequest exact
first_ask = asks none

abbrev second_ask : HttpRequest exact
second_ask = asks (some (codes "a"))

abbrev took : ℕ → ℕ → ℕ
took start end = end - start

call-call_example :
    let (answer, after) = call exact took counts (codes "a") 5 8 first_ask (0, []) in
    let (answer', (t, lines)) = call exact took counts (codes "b") 9 10 second_ask after in
    let id = correlation_id_of exact (codes "a") first_ask in
    (line line' : Handled ℕ) × (lines ≡ line ∷ line' ∷ [])
    × Traced exact took exact-IsHeaders counts id first_ask answer line
    × Traced exact took exact-IsHeaders counts id second_ask answer' line'
unfolding call text_eq
call-call_example =
    call-call exact took exact-IsHeaders counts (codes "a") (codes "b") 5 8 9 10 first_ask
      second_ask 0 [] refl
