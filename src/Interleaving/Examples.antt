-- ===== src/Interleaving/Examples.antt =====
-- Two tasks on one worker of worker-instance.ts.
use l0_worker.Base.{String, none, some, [], ◌≡◌, refl, arith}
use l0_worker.Base.Int.{pos, ◌≤ℤ◌}
use l0_worker.Json.{property}
use l0_worker.Map
use l0_worker.Thrown.{ok}
use l0_worker.Slots
use l0_worker.Payload
use l0_worker.Payload.{TaskPayload, parse_task_payload}
use l0_worker.Event.Inbound.{TaskSubmit}
use l0_worker.Store.{events_for_task}
use l0_worker.Worker
use l0_worker.World.{World}
use l0_worker.Task.{task_slots, acquire_slot}
use l0_worker.Task.Entry.{admitted}
use l0_worker.Task.Recording.{events_of}
use l0_worker.Task.Sample.{env, submit, world}
use l0_worker.Interleaving.{
  InFlight, Scene, after, entered, opened, opening, open_task, moved, enter, piece, Reach, here,
  step,
}
use l0_worker.Interleaving.Occupancy.{interleaved_slots}
use l0_worker.Interleaving.Emissions.{own}
use l0_worker.Interleaving.History.{interleaved_records}

abbrev idle_world : World
idle_world = record world {
  worker = record world.worker { slots = record { slots = []; max_concurrency = pos 2 } };
}

abbrev idle : Scene
idle = record { tasks = []; world = idle_world }

abbrev second : TaskSubmit
second = record submit { task_id = "b" }

abbrev payload : TaskPayload
payload = record { prompt = some "hi"; messages = none }

-- A task that has entered a scene.
abbrev entering : TaskSubmit → Scene → Scene
entering s c = record {
  tasks = Map.set s.task_id (record { submit = s; worker = "w1"; stage = entered }) c.tasks;
  world = admitted env s c.world;
}

abbrev first_flight : InFlight
first_flight = record { submit = submit; worker = "w1"; stage = entered }

-- The second task enters before the first is accepted.
abbrev both : Scene
both = entering second (entering submit idle)

abbrev accepted : Scene
accepted =
    let (r, w) = opening env submit "w1" both.world in
    moved env "a" first_flight (after r opened) w both

payload_parsed : parse_task_payload submit.payload ≡ some payload
unfolding parse_task_payload Payload.parse_prompt Payload.parse_message_list Payload.refine property
payload_parsed = refl

first_enters : acquire_slot env "a" idle_world ≡ (ok tt, (entering submit idle).world)
unfolding acquire_slot Slots.acquire Map.has Map.set
first_enters = refl

second_enters : acquire_slot env "b" (entering submit idle).world ≡ (ok tt, both.world)
unfolding acquire_slot Slots.acquire Map.has Map.set
second_enters = refl

found : Map.get "a" both.tasks ≡ some first_flight
unfolding Map.get Map.set
found = refl

interleaving : Reach env idle accepted
interleaving =
    step
      (step (step here (enter submit payload _ payload_parsed first_enters))
        (enter second payload _ payload_parsed second_enters))
      (piece "a" first_flight (opening env submit "w1") opened found open_task)

interleaved_slots_example :
    ((t : String) → Slots.has_slot t (task_slots accepted.world) ≡ Map.has t accepted.tasks)
    × (Worker.inflight_count accepted.world.worker ≡ Map.size accepted.tasks)
interleaved_slots_example = interleaved_slots env idle accepted interleaving (refl, refl)

no_record : events_of "a" idle_world ≡ []
unfolding events_for_task Map.get
no_record = refl

unlimited : idle_world.worker.event_store.max_tasks ≤ℤ pos 0
unlimited = ground arith

interleaved_records_example : events_of "a" accepted.world ≡ own "a" accepted.world.sent
interleaved_records_example =
    interleaved_records env "a" idle accepted interleaving unlimited refl no_record
