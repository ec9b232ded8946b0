-- ===== src/Effects/Follows.antt =====
-- A relation that holds between the state before an action and the one after it, whether it returns or
-- throws: one rule for each way to build an action, for a relation that is reflexive and transitive.
use l0_worker.Base.{Bool, true, false, if◌then◌else◌}
use l0_worker.Thrown.{Thrown, Result, ok, err}
use l0_worker.Effects.{Action, pure, lift, caught, try_catch, try_finally, continue, ◌>>=◌}

pub record Follows {ℓ κ} {S A : Type ℓ} (R : S → S → Type κ) (m : Action S A) : Type (ℓ ⊔ κ) where
  pub at : (s : S) → R s (m s).1

-- A relation that can be followed through a sequence of steps.
pub record IsPreorder {ℓ κ} {S : Type ℓ} (R : S → S → Type κ) : Type (ℓ ⊔ κ) where
  pub reflexive : (s : S) → R s s
  pub transitive : (s t u : S) → R s t → R t u → R s u

module _ {ℓ κ} {S A : Type ℓ} (R : S → S → Type κ) (p : IsPreorder R) where
  pub Follows-pure : (a : A) → Follows R (pure {S = S} a)
  unfolding pure
  Follows-pure a = record { at = λ s. p.reflexive s }

  pub Follows-lift : (r : Result A) → Follows R (lift {S = S} r)
  unfolding lift
  Follows-lift r = record { at = λ s. p.reflexive s }

  pub Follows-if :
      (b : Bool) (m n : Action S A) → Follows R m → Follows R n → Follows R (if b then m else n)
  Follows-if true m n f g = f
  Follows-if false m n f g = g

  caught-R :
      (handler : Thrown → Action S A) (r : Result A) (s : S)
      → ((e : Thrown) → Follows R (handler e))
      → R s (caught r handler s).1
  caught-R handler (ok a) s g = p.reflexive s
  caught-R handler (err e) s g = (g e).at s

  pub Follows-try_catch :
      (m : Action S A) (handler : Thrown → Action S A)
      → Follows R m
      → ((e : Thrown) → Follows R (handler e))
      → Follows R (try_catch m handler)
  unfolding try_catch
  Follows-try_catch m handler f g = record {
    at = λ s. let (r, s') = m s in p.transitive s s' _ (f.at s) (caught-R handler r s' g);
  }

  pub Follows-try_finally :
      (m : Action S A) (cleanup : S → S)
      → Follows R m
      → ((s : S) → R s (cleanup s))
      → Follows R (try_finally m cleanup)
  unfolding try_finally
  Follows-try_finally m cleanup f g = record {
    at = λ s. let (r, s') = m s in p.transitive s s' _ (f.at s) (g s');
  }

module _ {ℓ κ} {S A B : Type ℓ} (R : S → S → Type κ) (p : IsPreorder R) where
  continue-R :
      (f : A → Action S B) (r : Result A) (s : S)
      → ((a : A) → Follows R (f a))
      → R s (continue r f s).1
  continue-R f (ok a) s g = (g a).at s
  continue-R f (err e) s g = p.reflexive s

  pub Follows-bind :
      (m : Action S A) (f : A → Action S B)
      → Follows R m
      → ((a : A) → Follows R (f a))
      → Follows R (m >>= f)
  unfolding ◌>>=◌
  Follows-bind m f h g = record {
    at = λ s. let (r, s') = m s in p.transitive s s' _ (h.at s) (continue-R f r s' g);
  }

pub ruleset follows_rules =
    (Follows-pure, Follows-lift, Follows-if, Follows-try_catch, Follows-bind)
