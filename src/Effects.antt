-- ===== src/Effects.antt =====
-- Code that changes a state `S` and may throw. What was written before a throw stays written, so the
-- new state comes back beside the error too.
pub mod Preserves
pub mod Follows
use l0_worker.Base.{◌≡◌, refl}
use l0_worker.Thrown.{Thrown, Result, ok, err}

abbrev pub Action {ℓ} : Type ℓ → Type ℓ → Type ℓ
Action S A = S → Result A × S

module _ {ℓ} {S A : Type ℓ} where
  unfoldable pub pure : A → Action S A
  pure a s = (ok a, s)

  unfoldable pub throw : Thrown → Action S A
  throw e s = (err e, s)

  -- The value of a pure computation that may throw.
  unfoldable pub lift : Result A → Action S A
  lift r s = (r, s)

  -- A function that returns the new state beside its value.
  unfoldable pub change : (S → A × S) → Action S A
  change f s = let (a, s') = f s in (ok a, s')

  abbrev caught : Result A → (Thrown → Action S A) → Action S A
  caught (ok a) handler s = (ok a, s)
  caught (err e) handler s = handler e s

  -- try { m } catch (e) { handler(e) }
  unfoldable pub try_catch : Action S A → (Thrown → Action S A) → Action S A
  try_catch m handler s = let (r, s') = m s in caught r handler s'

  -- try { m } finally { cleanup }, for a cleanup that does not throw
  unfoldable pub try_finally : Action S A → (S → S) → Action S A
  try_finally m cleanup s = let (r, s') = m s in (r, cleanup s')

module _ {ℓ} {S A B : Type ℓ} where
  abbrev pub continue : Result A → (A → Action S B) → Action S B
  continue (ok a) f s = f a s
  continue (err e) f s = (err e, s)

  infixl 5 ◌>>=◌ ◌>>◌
  unfoldable pub ◌>>=◌ : Action S A → (A → Action S B) → Action S B
  unfolding pure throw lift change
  ◌>>=◌ m f s = let (r, s') = m s in continue r f s'

  abbrev pub ◌>>◌ : Action S A → Action S B → Action S B
  m >> n = m >>= λ _. n
