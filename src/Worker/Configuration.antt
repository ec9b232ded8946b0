-- ===== src/Worker/Configuration.antt =====
-- Construction and hot configuration of the worker of worker-instance.ts.
use l0_worker.Base.{
  true, none, some, List, [], ◌∷◌, ◌++◌, arith, ◌≡◌, ◌⊎◌, inl, inr, refl, Option-cases, or_else,
  ◌∙◌, ap,
}
use l0_worker.Base.Int.{ℤ, pos, ◌≤ℤ◌, ◌<ℤ◌}
use l0_worker.Thrown.{Thrown, ok, err, Result-cases}
use l0_worker.Machine.{ready, accepting, draining}
use l0_worker.Settings
use l0_worker.Settings.{WorkerConfigInput, ConfigManager, RuntimeConfig, Update}
use l0_worker.Settings.Updates as Updates
use l0_worker.Slots.{SlotManager}
use l0_worker.Slots.Bounds as Bounds
use l0_worker.Worker.{
  VercelWorker, new, assemble, update_config, notify, slots_listener, inflight_count, is_accepting,
}

-- A worker in service: its state is READY, ACCEPTING or DRAINING, its parts are valid, the slots obey the
-- configured maximum, the slots' listener is subscribed to the configuration, and nobody else is to
-- anything.
pub record IsValid (w : VercelWorker) : Type 0 where
  pub in_service :
      (w.state_machine.state ≡ ready)
      ⊎ (w.state_machine.state ≡ accepting)
      ⊎ (w.state_machine.state ≡ draining)
  pub no_state_listeners : w.state_machine.listeners ≡ []
  pub settings : Updates.IsValid w.config_manager
  pub subscribed : w.config_manager.listeners ≡ slots_listener ∷ []
  pub slots : Bounds.IsValid w.slots
  pub in_step : w.slots.max_concurrency ≡ w.config_manager.runtime.max_concurrency
  pub unlimited : w.event_store.max_tasks ≡ pos 0

abbrev pub assembled : ConfigManager → VercelWorker
assembled c = record {
  state_machine = record { state = ready; listeners = [] };
  config_manager = record c { listeners = c.listeners ++ slots_listener ∷ [] };
  slots = record { slots = []; max_concurrency = c.runtime.max_concurrency };
  event_store = record { events = []; max_tasks = pos 0 };
}

pub assemble_ok :
    (c : ConfigManager) → pos 1 ≤ℤ c.runtime.max_concurrency → assemble c ≡ ok (assembled c)
unfolding assemble
assemble_ok c positive = ground arith

pub assemble_valid :
    (c : ConfigManager)
    → Updates.IsValid c
    → c.listeners ≡ []
    → (w : VercelWorker) × (assemble c ≡ ok w)
      × IsValid w
      × (is_accepting w ≡ true)
      × (inflight_count w ≡ 0)
unfolding assemble is_accepting inflight_count Settings.load_report_interval_ms
    Settings.load_report_threshold
assemble_valid c v l = (
  assembled c,
  assemble_ok c v.positive,
  record {
    in_service = inl refl;
    no_state_listeners = refl;
    settings = record {
      positive = v.positive;
      interval = v.interval;
      threshold = v.threshold;
      caps = v.caps;
      flags = v.flags;
    };
    subscribed = rw l refl;
    slots = record { distinct = tt; named = tt; positive = v.positive };
    in_step = refl;
    unlimited = refl;
  },
  refl,
  refl,
)

new-listeners :
    (input : WorkerConfigInput) (c : ConfigManager) → Settings.new input ≡ some c → c.listeners ≡ []
unfolding Settings.new
new-listeners input c made = ground arith

-- Constructing a worker fails only where the schema rejects the configuration: otherwise the worker is
-- there, valid, accepts tasks and has no task in flight.
pub new_valid :
    (input : WorkerConfigInput)
    → (new input ≡ none)
      ⊎ ((w : VercelWorker) × (new input ≡ some (ok w))
          × IsValid w
          × (is_accepting w ≡ true)
          × (inflight_count w ≡ 0))
unfolding new
new_valid input = elim (Option-cases (Settings.new input)) [
  | inl refused ↦ inl (rw (refused, new) refl)
  | inr (c, made) ↦
      let (w, e, valid, accepts, idle) =
        assemble_valid c (Updates.new-IsValid input c made) (new-listeners input c made) in
      inr (w, rw (made, new) (ap some e), valid, accepts, idle)
]

update_config_err :
    (u : Update) (w : VercelWorker) (e : Thrown)
    → Settings.update u w.config_manager ≡ err e
    → update_config u w ≡ err e
unfolding update_config
update_config_err u w e refused = rw (refused, update_config) refl

abbrev reconfigured : ConfigManager → VercelWorker → VercelWorker
reconfigured c w = record w {
  config_manager = c;
  slots = record w.slots { max_concurrency = c.runtime.max_concurrency };
}

notify_ok :
    (r : RuntimeConfig) (s : SlotManager)
    → pos 1 ≤ℤ r.max_concurrency
    → notify (slots_listener ∷ []) r s ≡ ok (record s { max_concurrency = r.max_concurrency })
unfolding notify
notify_ok r s positive = ground arith

update_config_ok :
    (u : Update) (w : VercelWorker) (c : ConfigManager) (calls : List Settings.Listener)
    → Settings.update u w.config_manager ≡ ok (c, calls)
    → calls ≡ slots_listener ∷ []
    → pos 1 ≤ℤ c.runtime.max_concurrency
    → update_config u w ≡ ok (reconfigured c w)
unfolding update_config
update_config_ok u w c calls made called positive =
    rw (made, update_config, called, notify_ok c.runtime w.slots positive) refl

-- A hot update of a valid worker fails exactly if it gives a maximum below 1: the slots never refuse what
-- the configuration accepted. An update that succeeds leaves the worker valid, so that the slots obey the
-- new maximum, and does not touch the tasks in flight, the state or the recorded events.
pub update_config_valid :
    (u : Update) (w : VercelWorker)
    → IsValid w
    → (((e : Thrown) × (update_config u w ≡ err e))
        × ((v : ℤ) × (u.max_concurrency ≡ some v) × (v <ℤ pos 1)))
      ⊎ ((w' : VercelWorker) × (update_config u w ≡ ok w')
          × IsValid w'
          × (w'.slots.max_concurrency ≡ or_else u.max_concurrency w.slots.max_concurrency)
          × (w'.slots.slots ≡ w.slots.slots)
          × (w'.state_machine ≡ w.state_machine)
          × (w'.event_store ≡ w.event_store))
update_config_valid u w v = elim (Result-cases (Settings.update u w.config_manager)) [
  | inl (e, refused) ↦ inl (
    (e, update_config_err u w e refused),
    (Updates.update_fails_iff u w.config_manager).0 (e, refused),
  )
  | inr ((c, calls), made) ↦
      let (shape, called, positive) = Updates.update_shape u w.config_manager c calls made in
      let valid = Updates.update-IsValid u w.config_manager c calls made v.settings in
      inr (
        reconfigured c w,
        update_config_ok u w c calls made (called ∙ v.subscribed) valid.positive,
        record {
          in_service = v.in_service;
          no_state_listeners = v.no_state_listeners;
          settings = valid;
          subscribed = rw shape v.subscribed;
          slots = record {
            distinct = v.slots.distinct;
            named = v.slots.named;
            positive = valid.positive;
          };
          in_step = refl;
          unlimited = v.unlimited;
        },
        rw (shape, v.in_step) refl,
        refl,
        refl,
        refl,
      )
]
