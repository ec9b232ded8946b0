-- ===== src/Task/Entry.antt =====
-- How the execution of a task of worker-instance.ts begins: refused, or with a slot.
use l0_worker.Base.{
  String, true, false, none, some, arith, ◌≡◌, ◌⊎◌, inl, inr, refl, ap, ◌+◌, Option-cases,
}
use l0_worker.Base.Int.{pos, ◌≤ℤ◌}
use l0_worker.Thrown.{Thrown, ok, err, new_error}
use l0_worker.Slots
use l0_worker.Slots.{SlotManager, acquired, no_slots, duplicate, Acquired}
use l0_worker.Payload.{TaskPayload, parse_task_payload}
use l0_worker.Event.Inbound.{TaskSubmit}
use l0_worker.Effects.{◌>>=◌, lift, change}
use l0_worker.Worker
use l0_worker.World.{Env, World}
use l0_worker.Task.{task_slots, with_slots, acquire_slot, guarded, execute_task_with_events}

-- Why a task is refused.
abbrev pub Refused : Env → TaskSubmit → World → Thrown → Type 0
Refused env submit w e =
    ((parse_task_payload submit.payload ≡ none) × (e ≡ env.zod_error submit.payload))
    ⊎ ((Slots.has_slot submit.task_id (task_slots w) ≡ true) × (e ≡ new_error "Duplicate task ID"))
    ⊎ ((Slots.has_slot submit.task_id (task_slots w) ≡ false)
        × ((task_slots w).max_concurrency ≤ℤ pos (Slots.inflight_count (task_slots w)))
        × (e ≡ new_error "No slots available"))

module _ (env : Env) where
  -- The world once the task has its slot.
  abbrev pub admitted : TaskSubmit → World → World
  admitted submit w =
      with_slots (Slots.acquire (env.times w.reads) submit.task_id (task_slots w)).0
        (record w { reads = w.reads + 1 })

  acquire_slot_cases :
      (t : String) (w : World) (r : SlotManager × Acquired)
      → Slots.acquire (env.times w.reads) t (task_slots w) ≡ r
      → ((e : Thrown) × (acquire_slot env t w ≡ (err e, w))
          × (((Slots.has_slot t (task_slots w) ≡ true) × (e ≡ new_error "Duplicate task ID"))
              ⊎ ((Slots.has_slot t (task_slots w) ≡ false)
                  × ((task_slots w).max_concurrency ≤ℤ pos (Slots.inflight_count (task_slots w)))
                  × (e ≡ new_error "No slots available"))))
        ⊎ ((r.1 ≡ acquired)
            × (acquire_slot env t w ≡ (ok tt, with_slots r.0 (record w { reads = w.reads + 1 }))))
  unfolding acquire_slot Slots.has_slot Slots.inflight_count
  acquire_slot_cases t w (s, duplicate) h =
      inl (new_error "Duplicate task ID", ground arith, ground arith)
  acquire_slot_cases t w (s, no_slots) h =
      inl (new_error "No slots available", ground arith, ground arith)
  acquire_slot_cases t w (s, acquired) h = inr (refl, ground arith)

  refused_payload :
      (submit : TaskSubmit) (w : World)
      → parse_task_payload submit.payload ≡ none
      → execute_task_with_events env submit w ≡ (err (env.zod_error submit.payload), w)
  unfolding execute_task_with_events ◌>>=◌ lift change
  refused_payload submit w bad = ground arith

  refused_slot :
      (submit : TaskSubmit) (w : World) (p : TaskPayload) (e : Thrown)
      → parse_task_payload submit.payload ≡ some p
      → acquire_slot env submit.task_id w ≡ (err e, w)
      → execute_task_with_events env submit w ≡ (err e, w)
  unfolding execute_task_with_events ◌>>=◌ lift change
  refused_slot submit w p e good full = ground arith

  entered_slot :
      (submit : TaskSubmit) (w w' : World) (p : TaskPayload)
      → parse_task_payload submit.payload ≡ some p
      → acquire_slot env submit.task_id w ≡ (ok tt, w')
      → execute_task_with_events env submit w ≡ guarded env submit (Worker.worker_id w.worker) p w'
  unfolding execute_task_with_events ◌>>=◌ lift change
  entered_slot submit w w' p good taken = ground arith

  pub entry :
      (submit : TaskSubmit) (w : World)
      → ((e : Thrown) × (execute_task_with_events env submit w ≡ (err e, w))
          × Refused env submit w e)
        ⊎ ((p : TaskPayload) × (parse_task_payload submit.payload ≡ some p)
            × (Slots.acquire (env.times w.reads) submit.task_id (task_slots w)
                ≡ (task_slots (admitted submit w), acquired))
            × (execute_task_with_events env submit w
                ≡ guarded env submit (Worker.worker_id w.worker) p (admitted submit w)))
  entry submit w = elim (Option-cases (parse_task_payload submit.payload)) [
    | inl bad ↦ inl (env.zod_error submit.payload, refused_payload submit w bad, inl (bad, refl))
    | inr (p, good) ↦
        let slots = Slots.acquire (env.times w.reads) submit.task_id (task_slots w) in
        elim (acquire_slot_cases submit.task_id w slots refl) [
          | inl (e, full, why) ↦ inl (e, refused_slot submit w p e good full, inr why)
          | inr (won, taken) ↦ inr (
            p,
            good,
            ap (λ r. (slots.0, r)) won,
            entered_slot submit w (admitted submit w) p good taken,
          )
        ]
  ]
