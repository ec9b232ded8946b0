-- ===== src/Effects/Preserves.antt =====
-- A view of the state that an action leaves as it is, whether it returns or throws: one rule for each
-- way to build an action.
use l0_worker.Base.{◌≡◌, refl, ◌∙◌, Bool, true, false, if◌then◌else◌}
use l0_worker.Thrown.{Thrown, Result, ok, err}
use l0_worker.Effects.{Action, pure, throw, lift, caught, try_catch, continue, ◌>>=◌}

-- What `view` shows of the state is the same after `m` as before.
pub record Preserves {ℓ} {S A V : Type ℓ} (view : S → V) (m : Action S A) : Type ℓ where
  pub at : (s : S) → view (m s).1 ≡ view s

module _ {ℓ} {S A V : Type ℓ} (view : S → V) where
  pub Preserves-pure : (a : A) → Preserves view (pure a)
  unfolding pure
  Preserves-pure a = record { at = λ s. refl }

  pub Preserves-throw : (e : Thrown) → Preserves view (throw {A = A} e)
  unfolding throw
  Preserves-throw e = record { at = λ s. refl }

  pub Preserves-lift : (r : Result A) → Preserves view (lift r)
  unfolding lift
  Preserves-lift r = record { at = λ s. refl }

  pub Preserves-if :
      (b : Bool) (m n : Action S A)
      → Preserves view m
      → Preserves view n
      → Preserves view (if b then m else n)
  Preserves-if true m n p q = p
  Preserves-if false m n p q = q

  pub Preserves-try_catch :
      (m : Action S A) (handler : Thrown → Action S A)
      → Preserves view m
      → ((e : Thrown) → Preserves view (handler e))
      → Preserves view (try_catch m handler)
  unfolding try_catch
  Preserves-try_catch m handler p q = record { at = λ s. let (r, s') = m s in after r s' ∙ p.at s }
    where
      after : (r : Result A) (s' : S) → view (caught r handler s').1 ≡ view s'
      after (ok a) s' = refl
      after (err e) s' = (q e).at s'

module _ {ℓ} {S A B V : Type ℓ} (view : S → V) where
  pub Preserves-bind :
      (m : Action S A) (f : A → Action S B)
      → Preserves view m
      → ((a : A) → Preserves view (f a))
      → Preserves view (m >>= f)
  unfolding ◌>>=◌
  Preserves-bind m f p q = record { at = λ s. let (r, s') = m s in after r s' ∙ p.at s }
    where
      after : (r : Result A) (s' : S) → view (continue r f s').1 ≡ view s'
      after (ok a) s' = (q a).at s'
      after (err e) s' = refl

pub ruleset preserves_rules = (
  Preserves-pure, Preserves-throw, Preserves-lift, Preserves-if, Preserves-try_catch,
  Preserves-bind,
)
