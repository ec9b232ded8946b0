-- ===== src/Replay/Exactness.antt =====
-- A replay of replay/replayer.ts emits recorded facts and nothing else.
use l0_worker.Base.{
  String, true, Option, none, some, List, [], ◌∷◌, ◌++◌, ◌≡◌, refl, sym, Bool-cases, inl, inr, ◌∙◌,
  ap, length, append_assoc, append-nil, ◌↔◌,
}
use l0_worker.Base.Int.{pos}
use l0_worker.Event.Outbound.{OutboundEvent, task_completed}
use l0_worker.Store.{new}
use l0_worker.Store.Interface.{EventStore, memory_store}
use l0_worker.Store.Records.{History, record_all, select, mentions, record_all_history}
use l0_worker.Replay.{replay, replay_loop, replay_with_validation, can_replay}

replay_loop_emits :
    (es emitted : List OutboundEvent) (hash : Option String)
    → (replay_loop es emitted hash).0 ≡ emitted ++ es
unfolding replay_loop
replay_loop_emits [] emitted hash = sym (append-nil emitted)
replay_loop_emits (task_completed e ∷ es) emitted hash =
    rw (replay_loop_emits es (emitted ++ task_completed e ∷ []) (some e.output_hash))
      (append_assoc emitted (task_completed e ∷ []) es)
replay_loop_emits (e ∷ es) emitted hash =
    rw (replay_loop_emits es (emitted ++ e ∷ []) hash) (append_assoc emitted (e ∷ []) es)

-- Over any store: a validated replay emits exactly the events that the store has for the task, in
-- order, the same that the plain replay yields, whatever hash is expected; it succeeds, without an
-- error, exactly for a task that can be replayed, and counts the events that it emitted.
pub replay_exact :
    {S : Type 0} (store : EventStore S) (t : String) (expected : Option String) (s : S)
    → let (emitted, result) = replay_with_validation store t expected s in
      (emitted ≡ store.events_for_task t s)
      × (emitted ≡ replay store t s)
      × (result.success ≡ can_replay store t s)
      × (result.events_replayed ≡ length emitted)
      × ((result.error ≡ none) ↔ (can_replay store t s ≡ true))
unfolding replay_with_validation replay can_replay
replay_exact store t expected s = elim (Bool-cases (store.has_task t s)) [
  | inl there ↦
      let emitted = replay_loop_emits (store.events_for_task t s) [] none in
      rw there (emitted, emitted, refl, rw emitted refl, (λ _. refl, λ _. refl))
  | inr gone ↦
      let nothing = sym (store.no_task_no_events t s gone) in
      rw gone (nothing, nothing, refl, refl, (λ e. cc, λ e. cc))
]

-- End to end, over the store in memory without a limit: after any history of recordings, a replay of
-- a task emits exactly the events that were recorded for it, in the order of recording, and succeeds
-- exactly if there is one.
pub replay_history :
    (h : History) (t : String) (expected : Option String)
    → let (emitted, result) =
        replay_with_validation memory_store t expected (record_all h (new (pos 0))) in
      (emitted ≡ select t h)
      × (result.success ≡ mentions t h)
      × (result.events_replayed ≡ length (select t h))
unfolding can_replay
replay_history h t expected =
    let (emitted, _, success, count, _) =
      replay_exact memory_store t expected (record_all h (new (pos 0))) in
    let (events, tasks, _) = record_all_history h t in
    (emitted ∙ events, success ∙ tasks, count ∙ ap length (emitted ∙ events))
