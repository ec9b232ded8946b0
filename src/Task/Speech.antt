-- ===== src/Task/Speech.antt =====
-- Actions of a task of worker-instance.ts that return, or that throw, and the events that they emit
-- meanwhile.
use l0_worker.Base.{List, [], ◌++◌, append_assoc, append-nil, ◌≡◌, refl, ap, sym, ◌∙◌}
use l0_worker.Thrown.{Thrown, Result, ok, err}
use l0_worker.Event.Outbound.{OutboundEvent}
use l0_worker.Effects.{Action, ◌>>=◌}
use l0_worker.World.{World, Emission}
use l0_worker.Task.Recording.{recordable, recordable-append}

abbrev pub Events : Type 1
Events = List OutboundEvent → Type 0

-- The emissions between two states are, as far as they are to be recorded, such a list of events.
pub record Emits (P : Events) (w w' : World) : Type 0 where
  pub emissions : List Emission
  pub sent : w'.sent ≡ w.sent ++ emissions
  pub events : P (recordable emissions)

abbrev pub Silent : Events
Silent es = es ≡ []

-- The events of one part and then those of the next.
abbrev pub Then : Events → Events → Events
Then P Q es = (xs : List OutboundEvent) × (ys : List OutboundEvent) × P xs × Q ys × (es ≡ xs ++ ys)

-- The action returns from every state, and emits such events.
pub record Says {A : Type 0} (m : Action World A) (P : Events) : Type 0 where
  pub at : (w : World) → (a : A) × (w' : World) × (m w ≡ (ok a, w')) × Emits P w w'

-- The action throws `e` from every state, after such events.
pub record Fails {A : Type 0} (m : Action World A) (e : Thrown) (P : Events) : Type 0 where
  pub at : (w : World) → (w' : World) × (m w ≡ (err e, w')) × Emits P w w'

pub silence : (w w' : World) → w'.sent ≡ w.sent → Emits Silent w w'
unfolding recordable
silence w w' same = record { emissions = []; sent = same ∙ sym (append-nil w.sent); events = refl }

pub Emits-Then : {P Q : Events} (u v w : World) → Emits P u v → Emits Q v w → Emits (Then P Q) u w
Emits-Then u v w a b = record {
  emissions = a.emissions ++ b.emissions;
  sent = b.sent ∙ ap (λ s. s ++ b.emissions) a.sent ∙ append_assoc u.sent a.emissions b.emissions;
  events = (
    recordable a.emissions,
    recordable b.emissions,
    a.events,
    b.events,
    recordable-append a.emissions b.emissions,
  );
}

module _ {A B : Type 0} (m : Action World A) (f : A → Action World B) where
  bind_ok :
      (w v : World) (a : A) (r : Result B × World) → m w ≡ (ok a, v) → f a v ≡ r → (m >>= f) w ≡ r
  unfolding ◌>>=◌
  bind_ok w v a r first second = rw first second

  bind_err : (w v : World) (e : Thrown) → m w ≡ (err e, v) → (m >>= f) w ≡ (err e, v)
  unfolding ◌>>=◌
  bind_err w v e first = rw first refl

  pub Says-bind : {P Q : Events} → Says m P → ((a : A) → Says (f a) Q) → Says (m >>= f) (Then P Q)
  Says-bind s t = record {
    at = λ w.
        let (a, v, first, before) = s.at w in
        let (b, u, second, after) = (t a).at v in
        (b, u, bind_ok w v a (ok b, u) first second, Emits-Then w v u before after);
  }

  pub Fails-after :
      {P Q : Events} (e : Thrown)
      → Says m P
      → ((a : A) → Fails (f a) e Q)
      → Fails (m >>= f) e (Then P Q)
  Fails-after e s t = record {
    at = λ w.
        let (a, v, first, before) = s.at w in
        let (u, second, after) = (t a).at v in
        (u, bind_ok w v a (err e, u) first second, Emits-Then w v u before after);
  }

  pub Fails-first : {P : Events} (e : Thrown) → Fails m e P → Fails (m >>= f) e P
  Fails-first e s = record {
    at = λ w. let (v, first, before) = s.at w in (v, bind_err w v e first, before);
  }
