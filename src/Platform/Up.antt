-- ===== src/Platform/Up.antt =====
-- A producer that is up stays up, whatever a service does and however it ends.
use orbit_commerce_platform.Catalog.Models.{Uuid}
use orbit_commerce_platform.Common.Exceptions.{Result, Error, ok, err}
use orbit_commerce_platform.Platform.Exec.{
  World, Exec, continue, ◌>>=◌, settle, atomic, or_raise, publish, delay,
}
use orbit_commerce_platform.Platform.Env.{Env, Task}
use orbit_commerce_platform.Common.Kafka.{present, publish_event, get_producer, Payload}
use orbit_commerce_platform.Prelude.{
  ◌≡◌, Bool, true, false, Option, some, none, refl, if◌then◌else◌, String, Bool-cases, inl, inr,
}

abbrev pub IsUp : {e : Env} → World e → Type 0
IsUp w = w.bus.producer ≡ present

abbrev pub StaysUp : {e : Env} {A : Type 0} → Exec e A → Type 0
StaysUp {e} m = (w : World e) → IsUp w → IsUp (m w).1

module _ {e : Env} {A : Type 0} where
  pub or_raise-StaysUp : (o : Option A) (x : Error) → StaysUp {e = e} (or_raise o x)
  or_raise-StaysUp none x w up = up
  or_raise-StaysUp (some a) x w up = up

  pub ite-StaysUp :
      (b : Bool) (m k : Exec e A) → StaysUp m → StaysUp k → StaysUp (λ w. (if b then m else k) w)
  ite-StaysUp true m k left right = left
  ite-StaysUp false m k left right = right

  settle-IsUp : (before : e.Rows) (r : Result A) (w : World e) → IsUp w → IsUp (settle before r w).1
  settle-IsUp before (ok a) w up = up
  settle-IsUp before (err x) w up = up

  pub atomic-StaysUp : (m : Exec e A) → StaysUp m → StaysUp (atomic m)
  atomic-StaysUp m keeps w up = settle-IsUp w.rows (m w).0 (m w).1 (keeps w up)

module _ {e : Env} {A B : Type 0} (f : A → Exec e B) (after : (a : A) → StaysUp (f a)) where
  continue-IsUp : (r : Result A) (w : World e) → IsUp w → IsUp (continue r f w).1
  continue-IsUp (ok a) w up = after a w up
  continue-IsUp (err x) w up = up

  pub >>=-StaysUp : (m : Exec e A) → StaysUp m → StaysUp (m >>= f)
  >>=-StaysUp m keeps w up = continue-IsUp (m w).0 (m w).1 (keeps w up)

module _ {e : Env} where
  pub publish-StaysUp :
      (topic event_type : String) (key : Option Uuid) (payload : Payload)
      → StaysUp {e = e} (publish topic event_type key payload)
  unfolding publish_event get_producer
  publish-StaysUp topic event_type key payload w up = rw up refl

  pub delay-StaysUp : (t : Task) → StaysUp {e = e} (delay t)
  delay-StaysUp t w up = elim (Bool-cases (e.accepts_task w.now t)) [
    | inl taken ↦ rw taken up
    | inr refused ↦ rw refused up
  ]
