-- ===== src/Platform/Post.antt =====
-- What holds after a call, and how it is proved through a `do` block and a transaction.
use orbit_commerce_platform.Prelude.{◌≡◌}
use orbit_commerce_platform.Common.Exceptions.{Error, Result, ok, err}
use orbit_commerce_platform.Platform.Env.{Env, IsDatabase}
use orbit_commerce_platform.Platform.Exec.{World, Exec, continue, settle, atomic, ◌>>=◌}

-- What the caller learns of a call that returned, and of one that raised.
abbrev pub Post :
    {e : Env} {A : Type 0}
    → (A → World e → Type 0)
    → (Error → World e → Type 0)
    → Result A × World e
    → Type 0
Post P E (ok a, w) = P a w
Post P E (err x, w) = E x w

-- A raise may leave the rows changed for the transaction around it to take back; the clock stands.
abbrev pub Clock : {e : Env} → World e → Error → World e → Type 0
Clock w x w' = w'.now ≡ w.now

-- A call that raises changes no row.
abbrev pub SameRows : {e : Env} → World e → Error → World e → Type 0
SameRows w x w' = (w'.rows ≡ w.rows) × (w'.now ≡ w.now)

module _ {e : Env} {A B : Type 0} (P : A → World e → Type 0) (E : Error → World e → Type 0)
    (Q : B → World e → Type 0) (F : Error → World e → Type 0) (f : A → Exec e B) where
  continue-Post :
      (r : Result A) (w : World e)
      → ((a : A) (w' : World e) → P a w' → Post Q F (f a w'))
      → ((x : Error) (w' : World e) → E x w' → F x w')
      → Post P E (r, w)
      → Post Q F (continue r f w)
  continue-Post (ok a) w next raised h = next a w h
  continue-Post (err x) w next raised h = raised x w h

  -- The rule of `◌>>=◌`.
  pub >>=-Post :
      (m : Exec e A) (w : World e)
      → ((a : A) (w' : World e) → P a w' → Post Q F (f a w'))
      → ((x : Error) (w' : World e) → E x w' → F x w')
      → Post P E (m w)
      → Post Q F ((m >>= f) w)
  >>=-Post m w next raised h = let (r, w') = m w in continue-Post r w' next raised h

-- A transaction: a call that raises inside it changes no row.
settle-Post :
    {e : Env} {A : Type 0} (laws : IsDatabase e) (P : A → World e → Type 0) (r : Result A)
    (w w' : World e)
    → Post P (Clock w) (r, w')
    → Post P (SameRows w) (settle w.rows r w')
settle-Post laws P (ok a) w w' h = h
settle-Post laws P (err x) w w' h = (laws.rollback_lem w.rows w'.rows, h)

pub atomic-Post :
    {e : Env} {A : Type 0} (laws : IsDatabase e) (P : A → World e → Type 0) (m : Exec e A)
    (w : World e)
    → Post P (Clock w) (m w)
    → Post P (SameRows w) (atomic m w)
atomic-Post laws P m w h = let (r, w') = m w in settle-Post laws P r w w' h

-- A weaker postcondition.
pub Post-map :
    {e : Env} {A : Type 0} (P Q : A → World e → Type 0) (E F : Error → World e → Type 0)
    → ((a : A) (w : World e) → P a w → Q a w)
    → ((x : Error) (w : World e) → E x w → F x w)
    → (out : Result A × World e) → Post P E out
    → Post Q F out
Post-map P Q E F f g (ok a, w) h = f a w h
Post-map P Q E F f g (err x, w) h = g x w h
