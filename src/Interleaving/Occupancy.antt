-- ===== src/Interleaving/Occupancy.antt =====
-- The slots of a worker of worker-instance.ts while its tasks are interleaved.
use l0_worker.Base.{
  String, true, false, some, List, [], ◌∷◌, arith, eq_iff, ◌≡◌, inl, inr, refl, ap, ◌∙◌, is_some,
}
use l0_worker.Base.Int.{ℤ}
use l0_worker.Map
use l0_worker.Map.{Map, HasDistinctKeys}
use l0_worker.Map.Laws.{
  has-set, has-delete, has-eq-get, set-HasDistinctKeys, delete-HasDistinctKeys,
}
use l0_worker.Map.Size.{size-set, size-delete}
use l0_worker.Thrown.{ok, Result-cases}
use l0_worker.Settings
use l0_worker.Settings.{Update, RuntimeConfig}
use l0_worker.Slots
use l0_worker.Slots.{SlotManager, SlotInfo}
use l0_worker.Event.Inbound.{TaskSubmit}
use l0_worker.Effects.Preserves.{Preserves}
use l0_worker.Worker
use l0_worker.Worker.{VercelWorker, update_config, notify}
use l0_worker.World.{Env, World}
use l0_worker.Task as Task
use l0_worker.Task.{task_slots, acquire_slot, leave, timer_fires}
use l0_worker.Task.Release.{keeps_slots, report-Keeps, callback-Keeps, timer_fires-slots}
use l0_worker.Interleaving.{
  Stage, InFlight, Scene, opening, timing, completing, failure, Piece, open_task, begin, call, stop,
  complete, fail, Next, enter, piece, fire, depart, configure, Reach, here, step,
}

-- The tasks in flight are those that have a slot.
pub record Occupied (c : Scene) : Type 0 where
  pub slots_distinct : HasDistinctKeys (task_slots c.world).slots
  pub tasks_distinct : HasDistinctKeys c.tasks
  pub same : (t : String) → Map.has t (task_slots c.world).slots ≡ Map.has t c.tasks
  pub count : Map.size (task_slots c.world).slots ≡ Map.size c.tasks

module _ (env : Env) where
  opening-Keeps : (s : TaskSubmit) (worker : String) → Preserves task_slots (opening env s worker)
  unfolding opening
  opening-Keeps s worker = search (keeps_slots, report-Keeps) depth 12

  timing-Keeps : Preserves task_slots (timing env)
  unfolding timing
  timing-Keeps = search keeps_slots

  piece-Keeps :
      {k : InFlight} {from to : Stage} {m : Task.Step}
      → Piece env k from m to
      → Preserves task_slots m
  unfolding completing failure
  piece-Keeps {k} open_task = opening-Keeps k.submit k.worker
  piece-Keeps begin = timing-Keeps
  piece-Keeps {k} (call c) = callback-Keeps env k.submit.task_id c
  piece-Keeps (stop e) = search keeps_slots
  piece-Keeps (complete result start) = search (keeps_slots, report-Keeps)
  piece-Keeps (fail e) = search (keeps_slots, report-Keeps)

  -- A task that enters had no slot, and has one then.
  acquired_slot :
      (t : String) (w v : World)
      → acquire_slot env t w ≡ (ok tt, v)
      → (Map.has t (task_slots w).slots ≡ false)
        × ((task_slots v).slots
            ≡ Map.set t
                (record { task_id = t; started_at = env.times w.reads })
                (task_slots w).slots)
  unfolding acquire_slot Slots.acquire
  acquired_slot t w v h = ground arith

  raised_slots :
      (v : ℤ) (s s' : SlotManager) → Slots.set_max_concurrency v s ≡ ok s' → s'.slots ≡ s.slots
  unfolding Slots.set_max_concurrency
  raised_slots v s s' h = ground arith

  notify_slots :
      (ls : List Settings.Listener) (r : RuntimeConfig) (s s' : SlotManager)
      → notify ls r s ≡ ok s'
      → s'.slots ≡ s.slots
  unfolding notify
  notify_slots [] r s s' h = ground arith
  notify_slots (l ∷ ls) r s s' h =
      elim (Result-cases (Slots.set_max_concurrency r.max_concurrency s)) [
        | inl (e, threw) ↦ absurd (ground arith)
        | inr (v, made) ↦
            notify_slots ls r v s' (ground arith) ∙ raised_slots r.max_concurrency s v made
      ]

  update_config_slots :
      (u : Update) (w w' : VercelWorker)
      → update_config u w ≡ ok w'
      → w'.slots.slots ≡ w.slots.slots
  unfolding update_config
  update_config_slots u w w' h = elim (Result-cases (Settings.update u w.config_manager)) [
    | inl (e, threw) ↦ absurd (ground arith)
    | inr ((c, calls), made) ↦ elim (Result-cases (notify calls c.runtime w.slots)) [
      | inl (e, threw) ↦ absurd (ground arith)
      | inr (v, told) ↦ ground (arith, notify_slots calls c.runtime w.slots v told)
    ]
  ]

  in_flight :
      (t : String) (k : InFlight) (m : Map InFlight) → Map.get t m ≡ some k → Map.has t m ≡ true
  in_flight t k m found = has-eq-get t m ∙ ap is_some found

  -- A piece of a task in flight changes neither the slots nor which tasks there are.
  moved-Occupied :
      (t : String) (k l : InFlight) (c : Scene) (w : World)
      → Map.get t c.tasks ≡ some k
      → (task_slots w).slots ≡ (task_slots c.world).slots
      → Occupied c
      → Occupied (record { tasks = Map.set t l c.tasks; world = w })
  moved-Occupied t k l c w found kept o = record {
    slots_distinct = rw kept o.slots_distinct;
    tasks_distinct = set-HasDistinctKeys t l c.tasks o.tasks_distinct;
    same = λ j.
        ap (Map.has j) kept
        ∙ ground (arith, o.same j, has-set t j l c.tasks, eq_iff t j, in_flight t k c.tasks found);
    count =
        ap Map.size kept
        ∙ ground (arith, o.count, size-set t l c.tasks, in_flight t k c.tasks found);
  }

  entered-Occupied :
      (t : String) (k : InFlight) (info : SlotInfo) (c : Scene) (w : World)
      → Map.has t (task_slots c.world).slots ≡ false
      → (task_slots w).slots ≡ Map.set t info (task_slots c.world).slots
      → Occupied c
      → Occupied (record { tasks = Map.set t k c.tasks; world = w })
  entered-Occupied t k info c w fresh taken o =
      let slots = (task_slots c.world).slots in
      record {
        slots_distinct = rw taken (set-HasDistinctKeys t info slots o.slots_distinct);
        tasks_distinct = set-HasDistinctKeys t k c.tasks o.tasks_distinct;
        same = λ j.
            ap (Map.has j) taken
            ∙ ground (arith, o.same j, has-set t j k c.tasks, has-set t j info slots);
        count =
            ap Map.size taken
            ∙ ground (arith, o.count, o.same t, size-set t k c.tasks, size-set t info slots);
      }

  departed-Occupied :
      (t : String) (c : Scene)
      → Occupied c
      → Occupied (record { tasks = Map.delete t c.tasks; world = leave t c.world })
  unfolding leave Slots.release
  departed-Occupied t c o =
      let slots = (task_slots c.world).slots in
      record {
        slots_distinct = delete-HasDistinctKeys t slots o.slots_distinct;
        tasks_distinct = delete-HasDistinctKeys t c.tasks o.tasks_distinct;
        same = λ j. ground (arith, o.same j, has-delete t j c.tasks, has-delete t j slots);
        count = ground (
          arith,
          o.count,
          o.same t,
          size-delete t c.tasks o.tasks_distinct,
          size-delete t slots o.slots_distinct,
        );
      }

  -- Only the slots and the tasks count.
  beside-Occupied :
      (c : Scene) (w : World)
      → (task_slots w).slots ≡ (task_slots c.world).slots
      → Occupied c
      → Occupied (record c { world = w })
  beside-Occupied c w kept o = record {
    slots_distinct = rw kept o.slots_distinct;
    tasks_distinct = o.tasks_distinct;
    same = λ j. ap (Map.has j) kept ∙ o.same j;
    count = ap Map.size kept ∙ o.count;
  }

  abbrev slots_of : SlotManager → Map SlotInfo
  slots_of s = s.slots

  Next-Occupied : {c d : Scene} → Next env c d → Occupied c → Occupied d
  Next-Occupied {c} (enter s p w good taken) o =
      let (fresh, set_) = acquired_slot s.task_id c.world w taken in
      entered-Occupied s.task_id _ _ c w fresh set_ o
  Next-Occupied {c} (piece t k m next found may) o =
      moved-Occupied t k _ c _ found (ap slots_of ((piece-Keeps may).at c.world)) o
  Next-Occupied {c} (fire t k found) o =
      beside-Occupied c _ (ap slots_of (timer_fires-slots env k.worker c.world)) o
  Next-Occupied {c} (depart t k found is) o = departed-Occupied t c o
  Next-Occupied {c} (configure u w done) o =
      beside-Occupied c _ (update_config_slots u c.world.worker w done) o

  -- A worker with no task in flight, and none of its slots taken.
  abbrev pub Idle : Scene → Type 0
  Idle c = (c.tasks ≡ []) × ((task_slots c.world).slots ≡ [])

  Idle-Occupied : (c : Scene) → Idle c → Occupied c
  unfolding Map.has
  Idle-Occupied c (no_tasks, no_slots) = record {
    slots_distinct = rw no_slots tt;
    tasks_distinct = rw no_tasks tt;
    same = λ t. rw (no_tasks, no_slots) refl;
    count = rw (no_tasks, no_slots) refl;
  }

  Reach-Occupied : {c d : Scene} → Reach env c d → Occupied c → Occupied d
  Reach-Occupied here o = o
  Reach-Occupied (step r n) o = Next-Occupied n (Reach-Occupied r o)

  -- However the tasks of a worker are interleaved, and whatever they throw, whenever their timers fire and
  -- whatever maxima are set meanwhile: from a worker with no task in flight on, a task has a slot exactly
  -- while it is in flight, and the worker's count of tasks in flight is their number.
  pub interleaved_slots :
      (c d : Scene)
      → Reach env c d
      → Idle c
      → ((t : String) → Slots.has_slot t (task_slots d.world) ≡ Map.has t d.tasks)
        × (Worker.inflight_count d.world.worker ≡ Map.size d.tasks)
  unfolding Slots.has_slot Worker.inflight_count Slots.inflight_count
  interleaved_slots c d r idle =
      let o = Reach-Occupied r (Idle-Occupied c idle) in (o.same, o.count)
