-- ===== src/Replay.antt =====
-- src/replay/replayer.ts: replay of recorded events, over any store of events. What `emit` is called
-- with is returned, in order; `emit` is taken to return normally.
pub mod Exactness
pub mod Hashes
mod Examples
use Prim.Native.String
use l0_worker.Base.{
  ℕ, String, Bool, true, false, Option, none, some, List, [], ◌∷◌, ◌++◌, ◌==◌, if◌then◌else◌,
  length,
}
use l0_worker.Event.Outbound.{OutboundEvent, task_completed}
use l0_worker.Store.Interface.{EventStore}

pub record ReplayResult : Type 0 where
  pub success : Bool
  pub events_replayed : ℕ
  pub output_hash_match : Option Bool
  pub error : Option String

-- The loop of `replayWithValidation`: what is emitted, and the hash that is tracked.
unfoldable pub replay_loop :
    List OutboundEvent → List OutboundEvent → Option String → List OutboundEvent × Option String
replay_loop [] emitted hash = (emitted, hash)
replay_loop (task_completed e ∷ es) emitted hash =
    replay_loop es (emitted ++ task_completed e ∷ []) (some e.output_hash)
replay_loop (e ∷ es) emitted hash = replay_loop es (emitted ++ e ∷ []) hash

-- The comparison after the loop.
unfoldable pub hash_match : Option String → Option String → Option Bool
hash_match (some expected) (some hash) = some (hash == expected)
hash_match _ _ = none

module _ {S : Type 0} (store : EventStore S) where
  open store use {events_for_task, has_task, output_hash}

  -- replay(taskId): what the generator yields
  unfoldable pub replay : String → S → List OutboundEvent
  replay task_id s = events_for_task task_id s

  -- replayWithValidation: what it emits, and its result
  unfoldable pub replay_with_validation :
      String → Option String → S → List OutboundEvent × ReplayResult
  unfolding replay_loop hash_match
  replay_with_validation task_id expected s =
      if has_task task_id s
      then (let events = events_for_task task_id s in
          let (emitted, hash) = replay_loop events [] none in
          (
            emitted,
            record {
              success = true;
              events_replayed = length events;
              output_hash_match = hash_match expected hash;
              error = none;
            },
          ))
      else (
        [],
        record {
          success = false;
          events_replayed = 0;
          output_hash_match = none;
          error = some (String.◌++◌ "No recorded events for task " task_id);
        },
      )

  unfoldable pub can_replay : String → S → Bool
  can_replay task_id s = has_task task_id s

  unfoldable pub recorded_output_hash : String → S → Option String
  recorded_output_hash task_id s = output_hash task_id s
