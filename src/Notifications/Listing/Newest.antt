-- ===== src/Notifications/Listing/Newest.antt =====
-- What the listing answers for a history: the newest notifications, or a failure because of one of
-- them.
use orbit_commerce_platform.Notifications.Store.Feed.{
  Unbroken, newest, append_all, list_recent-newest,
}
use orbit_commerce_platform.Notifications.Consumer.{Notification, text, Json, object, Fields}
use orbit_commerce_platform.Notifications.Listing.{
  notifications_out, in_front, NotificationOut, notification_out, list_notifications, Listing,
  validated, answer, listed, server_error,
}
use orbit_commerce_platform.Catalog.Models.{Time}
use orbit_commerce_platform.Notifications.Store.{Redis, IsRedis, history_key}
use orbit_commerce_platform.Catalog.Api.Listing.{Among}
use orbit_commerce_platform.Notifications.Consumer.{null, boolean, number, array, text, object}
use orbit_commerce_platform.Prelude.{
  ◌≢◌, ℕ, Text, List, ◌≡◌, ◌≤◌, ◌∷◌, [], ◌⊎◌, none, some, inl, inr, refl, arith, zero, suc, true,
  take, leb,
}

-- The body of the answer has what the entry has.
abbrev pub Renders : Time → Notification → NotificationOut → Type 0
Renders now n out =
    (out.id ≡ n.id)
    × (n.event_type ≡ text out.event_type)
    × (n.payload ≡ object out.payload)
    × (out.received_at ≡ now)

abbrev pub RendersAll : Time → List Notification → List NotificationOut → Type 0
RendersAll now [] [] = Unit
RendersAll now [] (out ∷ outs) = ⊥
RendersAll now (n ∷ ns) [] = ⊥
RendersAll now (n ∷ ns) (out ∷ outs) = Renders now n out × RendersAll now ns outs

pub text-cases : (v : Json) → ((t : Text) × (v ≡ text t)) ⊎ ((t : Text) → v ≢ text t)
text-cases null = inr (λ x h. cc)
text-cases (boolean b) = inr (λ x h. cc)
text-cases (number z) = inr (λ x h. cc)
text-cases (text x) = inl (x, refl)
text-cases (array xs) = inr (λ x h. cc)
text-cases (object f) = inr (λ x h. cc)

pub object-cases : (v : Json) → ((f : Fields) × (v ≡ object f)) ⊎ ((f : Fields) → v ≢ object f)
object-cases null = inr (λ x h. cc)
object-cases (boolean b) = inr (λ x h. cc)
object-cases (number z) = inr (λ x h. cc)
object-cases (text t) = inr (λ x h. cc)
object-cases (array xs) = inr (λ x h. cc)
object-cases (object x) = inl (x, refl)

not_text :
    (now : Time) (id : ℕ) (kind payload : Json)
    → ((t : Text) → kind ≢ text t)
    → validated now id kind payload ≡ none
unfolding validated
not_text now id null payload bad = refl
not_text now id (boolean b) payload bad = refl
not_text now id (number z) payload bad = refl
not_text now id (text t) payload bad = absurd (bad t refl)
not_text now id (array xs) payload bad = refl
not_text now id (object f) payload bad = refl

not_object :
    (now : Time) (id : ℕ) (t : Text) (payload : Json)
    → ((f : Fields) → payload ≢ object f)
    → validated now id (text t) payload ≡ none
unfolding validated
not_object now id t null bad = refl
not_object now id t (boolean b) bad = refl
not_object now id t (number z) bad = refl
not_object now id t (text u) bad = refl
not_object now id t (array xs) bad = refl
not_object now id t (object f) bad = absurd (bad f refl)

notification_out-cases :
    (now : Time) (n : Notification)
    → ((out : NotificationOut) × (notification_out now n ≡ some out) × Renders now n out)
      ⊎ ((notification_out now n ≡ none) × ((out : NotificationOut) → ¬ Renders now n out))
unfolding notification_out validated
notification_out-cases now n = elim (text-cases n.event_type) [
  | inr bad ↦ inr (not_text now n.id n.event_type n.payload bad, λ out h. bad out.event_type h.1)
  | inl (kind, is_text) ↦ elim (object-cases n.payload) [
    | inr bad ↦
        inr (rw is_text (not_object now n.id kind n.payload bad), λ out h. bad out.payload h.2)
    | inl (fields, is_object) ↦ inl (
      record { id = n.id; event_type = kind; payload = fields; received_at = now },
      rw (is_text, is_object) refl,
      (refl, is_text, is_object, refl),
    )
  ]
]

notifications_out-cases :
    (now : Time) (ns : List Notification)
    → ((outs : List NotificationOut) × (notifications_out now ns ≡ some outs)
        × RendersAll now ns outs)
      ⊎ ((notifications_out now ns ≡ none)
          × ((n : Notification) × Among n ns × ((out : NotificationOut) → ¬ Renders now n out)))
unfolding notifications_out in_front
notifications_out-cases now [] = inl ([], refl, tt)
notifications_out-cases now (n ∷ ns) = elim (notification_out-cases now n) [
  | inr (failed, bad) ↦ inr (rw failed refl, (n, inl refl, bad))
  | inl (out, made, renders) ↦ elim (notifications_out-cases now ns) [
    | inl (outs, all_made, all) ↦ inl (out ∷ outs, rw (made, all_made) refl, (renders, all))
    | inr (failed, (m, among, bad)) ↦ inr (rw (made, failed) refl, (m, inr among, bad))
  ]
]

module _ (r : Redis Notification) (laws : IsRedis r) (ttl_seconds : ℕ) (recipient : Text) where
  -- The answer for the entries `shown`: all of them, or a failure because of one.
  abbrev pub Answers : Time → List Notification → Listing → Type 0
  Answers now shown out =
      ((outs : List NotificationOut) × (out ≡ listed outs) × RendersAll now shown outs)
      ⊎ ((out ≡ server_error)
          × ((n : Notification) × Among n shown × ((o : NotificationOut) → ¬ Renders now n o)))

  answer-Answers :
      (now : Time) (shown : List Notification)
      → Answers now shown (answer (notifications_out now shown))
  unfolding answer
  answer-Answers now shown = elim (notifications_out-cases now shown) [
    | inl (outs, made, all) ↦ inl (outs, rw made refl, all)
    | inr (failed, bad) ↦ inr (rw failed refl, bad)
  ]

  -- Notifications are appended for a recipient without a history, and never is the time to live
  -- reached between one and the next. Then a listing with a limit of 1 to 100 is about the newest
  -- of them, newest first, as many as the limit allows. It shows them all, each with its
  -- identifier, event and data and the time of the listing; or it fails with 500, and one of them
  -- has an event that is no text or data that is no object.
  pub list_notifications-newest :
      (t0 t : Time) (n : Notification) (steps : List (Time × Notification)) (limit : ℕ) (d : r.Data)
      → r.entries t0 (history_key recipient) d ≡ []
      → Unbroken r laws ttl_seconds recipient t0 steps t
      → 1 ≤ limit
      → limit ≤ 100
      → Answers t (take limit (newest ((t0, n) ∷ steps) [])) (
          list_notifications r ttl_seconds t recipient limit
            (append_all r laws ttl_seconds recipient ((t0, n) ∷ steps) d))
  unfolding list_notifications
  list_notifications-newest t0 t n steps zero d empty chain le lt = elim le [ ]
  list_notifications-newest t0 t n steps (suc limit) d empty chain le lt =
      let at_least : leb 1 (suc limit) ≡ true = ground arith in
      let at_most : leb (suc limit) 100 ≡ true = ground arith in
      rw
        (
          at_least,
          at_most,
          list_recent-newest r laws ttl_seconds recipient t0 t n steps limit d empty chain lt,
        )
        (answer-Answers t (take (suc limit) (newest ((t0, n) ∷ steps) [])))
