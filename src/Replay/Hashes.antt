-- ===== src/Replay/Hashes.antt =====
-- The output hash that replay/replayer.ts validates.
use l0_worker.Base.{
  ℕ, suc, ◌≤◌, String, false, Option, none, some, List, [], ◌∷◌, ◌++◌, ◌==◌, ◌≡◌, ◌≢◌, refl, arith,
  Bool-cases, inl, inr, ap, eq_iff,
}
use l0_worker.Event.Outbound.{OutboundEvent, task_completed}
use l0_worker.Store.{first_hash}
use l0_worker.Store.Interface.{EventStore}
use l0_worker.Replay.{replay_loop, hash_match, replay_with_validation, recorded_output_hash}

-- The hash of the last TASK_COMPLETED, or `hash` if there is none.
unfoldable pub last_hash : List OutboundEvent → Option String → Option String
last_hash [] hash = hash
last_hash (task_completed e ∷ es) hash = last_hash es (some e.output_hash)
last_hash (_ ∷ es) hash = last_hash es hash

-- How often a task completed.
unfoldable pub completions : List OutboundEvent → ℕ
completions [] = 0
completions (task_completed e ∷ es) = suc (completions es)
completions (_ ∷ es) = completions es

replay_loop_hash :
    (es emitted : List OutboundEvent) (hash : Option String)
    → (replay_loop es emitted hash).1 ≡ last_hash es hash
unfolding replay_loop last_hash
replay_loop_hash [] emitted hash = refl
replay_loop_hash (task_completed e ∷ es) emitted hash =
    replay_loop_hash es (emitted ++ task_completed e ∷ []) (some e.output_hash)
replay_loop_hash (e ∷ es) emitted hash = replay_loop_hash es (emitted ++ e ∷ []) hash

no_hash : (expected : Option String) → none ≡ hash_match expected (last_hash [] none)
unfolding hash_match last_hash
no_hash none = refl
no_hash (some e) = refl

-- The verdict on the hash: there is one exactly when a hash is expected and a completion of the task
-- is recorded, and then it says whether the hash of the last completion is the expected one.
pub replay_verdict :
    {S : Type 0} (store : EventStore S) (t : String) (expected : Option String) (s : S)
    → (replay_with_validation store t expected s).1.output_hash_match
      ≡ hash_match expected (last_hash (store.events_for_task t s) none)
unfolding replay_with_validation
replay_verdict store t expected s = elim (Bool-cases (store.has_task t s)) [
  | inl there ↦
      rw there (ap (hash_match expected) (replay_loop_hash (store.events_for_task t s) [] none))
  | inr gone ↦ rw (gone, store.no_task_no_events t s gone) (no_hash expected)
]

last_hash_none :
    (es : List OutboundEvent) (hash : Option String) → completions es ≤ 0 → last_hash es hash ≡ hash
unfolding last_hash completions
last_hash_none [] hash h = refl
last_hash_none (task_completed e ∷ es) hash h = absurd (omega arith)
last_hash_none (_ ∷ es) hash h = last_hash_none es hash h

last-eq-first : (es : List OutboundEvent) → completions es ≤ 1 → last_hash es none ≡ first_hash es
unfolding last_hash first_hash completions
last-eq-first [] h = refl
last-eq-first (task_completed e ∷ es) h = last_hash_none es (some e.output_hash) (omega arith)
last-eq-first (_ ∷ es) h = last-eq-first es h

-- A task that completed once at most is validated against its recorded output hash: a replay that
-- expects the recorded hash is never told of a mismatch, and one that expects another is.
pub replay_recorded_hash :
    {S : Type 0} (store : EventStore S) (t expected hash : String) (s : S)
    → completions (store.events_for_task t s) ≤ 1
    → recorded_output_hash store t s ≡ some hash
    → (replay_with_validation store t (some expected) s).1.output_hash_match
      ≡ some (hash == expected)
unfolding recorded_output_hash hash_match
replay_recorded_hash store t expected hash s once h =
    let last = last-eq-first (store.events_for_task t s) once in
    rw (replay_verdict store t (some expected) s, last, ← store.hash_of_events t s, h) refl

-- A task that was submitted again and completed with another output has two hashes: the recorded one
-- is that of the first completion, and a replay compares the last, so a replay that expects the
-- recorded hash reports a mismatch.
pub replay_resubmitted :
    {S : Type 0} (store : EventStore S) (t first last : String) (s : S)
    → recorded_output_hash store t s ≡ some first
    → last_hash (store.events_for_task t s) none ≡ some last
    → last ≢ first
    → (replay_with_validation store t (some first) s).1.output_hash_match ≡ some false
unfolding hash_match
replay_resubmitted store t first last s f l ne =
    rw (replay_verdict store t (some first) s, l) (ground (arith, eq_iff last first))
