-- ===== src/Orders/Tasks.antt =====
-- services/core_api/apps/orders/tasks.py: a Celery worker that runs the tasks of an order. The
-- table of users is the parameter `email`, by the key of a user; `layer` is whether there is a
-- channel layer.
use orbit_commerce_platform.Orders.Place.{Created, place_order_atomic}
use orbit_commerce_platform.Platform.Post.{Post, SameRows}
use orbit_commerce_platform.Common.Exceptions.{Result, ok, err}
use orbit_commerce_platform.Platform.Exec.{World}
use orbit_commerce_platform.Orders.Services.{order_event_payload, Line, place_order}
use orbit_commerce_platform.Orders.Models.{Order}
use orbit_commerce_platform.Platform.Env.{
  Env, Task, send_order_confirmation_email, broadcast_order_update, IsDatabase,
}
use orbit_commerce_platform.Catalog.Models.{Uuid}
use orbit_commerce_platform.Common.Kafka.{Payload}
use orbit_commerce_platform.Orders.Live.{order_update, update_of, user_group}
use orbit_commerce_platform.Prelude.{
  ◌∙◌, ap, sym, append-nil, append_assoc, ◌≡◌, ◌++◌, ◌∷◌, [], Text, Bool, List, Option, none, some,
  refl, All, true,
}

-- What `send_order_confirmation_email` logs, which stands for the email.
pub data EmailLine : Type 0 where
  order_confirmation_skipped_missing_order : Uuid → EmailLine
  order_confirmation_sent : Uuid → Text → EmailLine

pub record Sent : Type 0 where
  pub emails : List EmailLine
  pub updates : List (Text × Payload)

pub added : Option (Text × Payload) → List (Text × Payload) → List (Text × Payload)
added none updates = updates
added (some u) updates = updates ++ u ∷ []

module _ (str : Uuid → Text) (email : Uuid → Text) (e : Env) (layer : Bool) where
  pub confirmation_of : Uuid → Option Order → EmailLine
  confirmation_of id none = order_confirmation_skipped_missing_order id
  confirmation_of id (some o) = order_confirmation_sent id (email o.customer)

  -- A task runs on the rows as they are when the worker takes it.
  unfoldable pub run_task : Task → e.Rows → Sent → Sent
  unfolding confirmation_of added
  run_task (send_order_confirmation_email id) rows sent = record sent {
    emails = sent.emails ++ confirmation_of id (e.order rows id) ∷ [];
  }
  run_task (broadcast_order_update id) rows sent = record sent {
    updates = added (order_update str e layer rows id) sent.updates;
  }

  unfoldable pub run_tasks : List Task → e.Rows → Sent → Sent
  unfolding run_task
  run_tasks [] rows sent = sent
  run_tasks (t ∷ ts) rows sent = run_tasks ts rows (run_task t rows sent)

abbrev pub order_of : Task → Uuid
order_of (send_order_confirmation_email id) = id
order_of (broadcast_order_update id) = id

-- One line for each task that writes an email, and one update for each that broadcasts.
abbrev pub emails_of : EmailLine → List Task → List EmailLine
emails_of line [] = []
emails_of line (send_order_confirmation_email id ∷ ts) = line ∷ emails_of line ts
emails_of line (broadcast_order_update id ∷ ts) = emails_of line ts

abbrev pub updates_of : Text × Payload → List Task → List (Text × Payload)
updates_of u [] = []
updates_of u (send_order_confirmation_email id ∷ ts) = updates_of u ts
updates_of u (broadcast_order_update id ∷ ts) = u ∷ updates_of u ts

abbrev pub no_mail : Sent
no_mail = record { emails = []; updates = [] }

module _ (str : Uuid → Text) (email : Uuid → Text) (e : Env) (layer : Bool) (id : Uuid) where
  -- What is sent for an order that is there: its customer is written to and sees the order as it
  -- is.
  abbrev pub Told : Order → List Task → Sent → Sent → Type 0
  Told o queued before sent =
      (sent.emails
        ≡ before.emails ++ emails_of (order_confirmation_sent id (email o.customer)) queued)
      × (sent.updates
          ≡ before.updates
            ++ updates_of (user_group str o.customer, order_event_payload id o) queued)

  abbrev pub Skipped : List Task → Sent → Sent → Type 0
  Skipped queued before sent =
      (sent.emails
        ≡ before.emails ++ emails_of (order_confirmation_skipped_missing_order id) queued)
      × (sent.updates ≡ before.updates)

  found_Told :
      (o : Order) (rows : e.Rows)
      → e.order rows id ≡ some o
      → (queued : List Task) → All (λ t. order_of t ≡ id) queued
      → (sent : Sent) → Told o queued sent (run_tasks str email e true queued rows sent)
  unfolding run_tasks order_update update_of confirmation_of added
  found_Told o rows found [] mine sent =
      (sym (append-nil sent.emails), sym (append-nil sent.updates))
  found_Told o rows found (send_order_confirmation_email i ∷ ts) (same, mine) sent =
      let (mails, updates) = found_Told o rows found ts mine _ in
      (mails ∙ rw (same, found) (append_assoc sent.emails _ _), updates)
  found_Told o rows found (broadcast_order_update i ∷ ts) (same, mine) sent =
      let (mails, updates) = found_Told o rows found ts mine _ in
      (mails, updates ∙ rw (same, found) (append_assoc sent.updates _ _))

  missing_Skipped :
      (rows : e.Rows)
      → e.order rows id ≡ none
      → (queued : List Task) → All (λ t. order_of t ≡ id) queued
      → (sent : Sent) → Skipped queued sent (run_tasks str email e layer queued rows sent)
  unfolding run_tasks order_update update_of confirmation_of added
  missing_Skipped rows missing [] mine sent = (sym (append-nil sent.emails), refl)
  missing_Skipped rows missing (send_order_confirmation_email i ∷ ts) (same, mine) sent =
      let (mails, updates) = missing_Skipped rows missing ts mine _ in
      (mails ∙ rw (same, missing) (append_assoc sent.emails _ _), updates)
  missing_Skipped rows missing (broadcast_order_update i ∷ ts) (same, mine) sent =
      let (mails, updates) = missing_Skipped rows missing ts mine _ in
      (mails, updates ∙ rw (same, missing) refl)

  module _ (laws : IsDatabase e) (customer : Uuid) (lines : List Line) (w : World e)
      (fresh : e.order w.rows id ≡ none) (no_orphans : e.items w.rows id ≡ []) where
    -- What the tasks of the order do after its placement: with the order, or without it.
    abbrev pub Notified : List Task → Result Order × World e → Type 0
    Notified queued (ok o, w') =
        (o.customer ≡ customer)
        × Told o queued no_mail (run_tasks str email e true queued w'.rows no_mail)
    Notified queued (err x, w') =
        Skipped queued no_mail (run_tasks str email e layer queued w'.rows no_mail)

    -- Whatever tasks about an order, that was not there before and no item referred to, a worker
    -- takes after the placement of that order has ended. If it returned, each email task writes to the customer who placed
    -- it and each update task, where there is a channel layer, sends the order as it was placed to
    -- that customer's group. If it raised, each email task skips and no update is sent: what the
    -- placement had queued before it raised tells nobody of an order that is not there.
    pub tasks_after_placement :
        (queued : List Task)
        → All (λ t. order_of t ≡ id) queued
        → Notified queued (place_order id customer lines w)
    tasks_after_placement queued mine =
        outcome (place_order id customer lines w)
          (place_order_atomic laws id customer lines w (λ _. no_orphans))
      where
        outcome :
            (out : Result Order × World e)
            → Post (Created id customer lines w) (SameRows w) out
            → Notified queued out
        outcome (ok o, w') c = (c.owner, found_Told o w'.rows c.row queued mine no_mail)
        outcome (err x, w') (same, clock) =
            missing_Skipped w'.rows (ap (λ rows. e.order rows id) same ∙ fresh) queued mine no_mail
