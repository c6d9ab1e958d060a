-- ===== src/Common/Middleware.antt =====
-- services/core_api/apps/common/middleware.py. The rest of the application, `get_response`, is a
-- parameter, as are the fresh UUID, the two readings of the clock, the duration made of them, and
-- the headers of Django, which do not tell small letters in a name from capital ones.
use orbit_commerce_platform.Prelude.{
  ◌∙◌, ap, sym, append_assoc, ℕ, Text, List, Option, ◌≡◌, ◌∷◌, [], ◌++◌, Bool, none, some, true,
  false, codes, refl,
}

pub record Headers : Type 1 where
  pub Data : Type 0
  pub get : Text → Data → Option Text
  pub set : Text → Text → Data → Data
  pub same_name : Text → Text → Bool

pub record IsHeaders (h : Headers) : Type 0 where
  pub get-set :
      (name other value : Text) (d : h.Data)
      → h.same_name name other ≡ true
      → h.get other (h.set name value d) ≡ some value
  pub get-set_other :
      (name other value : Text) (d : h.Data)
      → h.same_name name other ≡ false
      → h.get other (h.set name value d) ≡ h.get other d
  pub same_name_refl : (name : Text) → h.same_name name name ≡ true

pub record HttpRequest (h : Headers) : Type 0 where
  pub headers : h.Data
  pub method : Text
  pub path : Text

pub record HttpResponse (h : Headers) : Type 0 where
  pub headers : h.Data
  pub status_code : ℕ
  pub body : Text

-- The `extra` of the line `request_handled`.
pub record Handled (Duration : Type 0) : Type 0 where
  pub correlation_id : Text
  pub method : Text
  pub path : Text
  pub status_code : ℕ
  pub duration_ms : Duration

pub id_or : Text → Option Text → Text
id_or fresh none = fresh
id_or fresh (some given) = given

unfoldable pub correlation_id_of : (h : Headers) → Text → HttpRequest h → Text
unfolding id_or
correlation_id_of h fresh request = id_or fresh (h.get (codes "X-Request-ID") request.headers)

module _ (h : Headers) {S Clock Duration : Type 0} (duration_of : Clock → Clock → Duration) where
  -- `RequestLoggingMiddleware.__call__`, on the state of the application and the log.
  unfoldable pub call :
      (Text → HttpRequest h → S → HttpResponse h × S)
      → Text
      → Clock
      → Clock
      → HttpRequest h
      → S × List (Handled Duration)
      → HttpResponse h × (S × List (Handled Duration))
  unfolding correlation_id_of
  call get_response fresh start end request (s, log) =
      let correlation_id = correlation_id_of h fresh request in
      let (response, s') = get_response correlation_id request s in
      let stamped : HttpResponse h = record response {
        headers = h.set (codes "X-Request-ID") correlation_id response.headers;
      } in
      let line : Handled Duration = record {
        correlation_id = correlation_id;
        method = request.method;
        path = request.path;
        status_code = stamped.status_code;
        duration_ms = duration_of start end;
      } in
      (stamped, (s', log ++ line ∷ []))

  module _ (laws : IsHeaders h) (get_response : Text → HttpRequest h → S → HttpResponse h × S) where
    -- What the answer to a request carries, and the line that the log has of it.
    abbrev pub Traced : Text → HttpRequest h → HttpResponse h → Handled Duration → Type 0
    Traced id request answer line =
        (h.get (codes "X-Request-ID") answer.headers ≡ some id)
        × (line.correlation_id ≡ id)
        × (line.path ≡ request.path)
        × (line.status_code ≡ answer.status_code)

    call-Traced :
        (fresh : Text) (start end : Clock) (request : HttpRequest h) (s : S)
        (log : List (Handled Duration))
        → let (answer, (t, lines)) = call get_response fresh start end request (s, log) in
          (line : Handled Duration) × (lines ≡ log ++ line ∷ [])
          × Traced (correlation_id_of h fresh request) request answer line
    unfolding call
    call-Traced fresh start end request s log =
        (_, refl, (laws.get-set _ _ _ _ (laws.same_name_refl _), refl, refl, refl))

    same_id :
        (fresh : Text) (request : HttpRequest h) (id : Text)
        → h.get (codes "X-Request-ID") request.headers ≡ some id
        → correlation_id_of h fresh request ≡ id
    unfolding correlation_id_of id_or
    same_id fresh request id given = rw given refl

    -- Two requests come one after the other, and the second carries the identifier of the answer
    -- to the first. Whatever identifier would be made for it, both answers carry the same one,
    -- and the log has one line for each request, with that identifier, its path and the status of
    -- its answer.
    pub call-call :
        (fresh fresh' : Text) (start end start' end' : Clock) (request request' : HttpRequest h)
        (s : S) (log : List (Handled Duration))
        → h.get (codes "X-Request-ID") request'.headers
          ≡ h.get
              (codes "X-Request-ID")
              (call get_response fresh start end request (s, log)).0.headers
        → let (answer, after) = call get_response fresh start end request (s, log) in
          let (answer', (t, lines)) = call get_response fresh' start' end' request' after in
          let id = correlation_id_of h fresh request in
          (line line' : Handled Duration) × (lines ≡ log ++ line ∷ line' ∷ [])
          × Traced id request answer line
          × Traced id request' answer' line'
    call-call fresh fresh' start end start' end' request request' s log carried =
        let (answer, (t, lines)) = call get_response fresh start end request (s, log) in
        let (line, added, traced) = call-Traced fresh start end request s log in
        let (line', added', traced') = call-Traced fresh' start' end' request' t lines in
        let same =
          same_id fresh' request' (correlation_id_of h fresh request) (carried ∙ traced.0) in
        (
          line,
          line',
          added' ∙ ap (λ l. l ++ line' ∷ []) added ∙ append_assoc log (line ∷ []) (line' ∷ []),
          traced,
          rw (sym same) traced',
        )
