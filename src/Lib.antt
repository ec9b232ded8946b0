-- ===== src/Lib.antt =====
-- l0-worker: a stateless worker that executes inference orders. An orchestrator (L1) sends it tasks; it
-- validates the auth envelope (src/auth/validate.ts), takes a slot for the task
-- (src/executor/slots.ts), has the L0 runtime execute the order (src/executor/executor.ts), emits
-- events and records them (src/store/memory-store.ts), and can replay what it recorded
-- (src/replay/replayer.ts). src/worker-instance.ts joins the parts: the class VercelWorker.
--
-- Which file is about which part:
--   Slots       src/executor/slots.ts, the class SlotManager: acquire, release, the setter, clear
--   Machine     src/state/machine.ts, the class WorkerStateMachine and its table of transitions
--   Settings    src/state/config.ts, the schema, the class ConfigManager and its hot updates
--   Store       src/store/memory-store.ts; Store.Interface is src/store/event-store.ts
--   Replay      src/replay/replayer.ts, over any store that fills the interface
--   Clock       src/utils/clock.ts
--   Auth        src/auth/validate.ts and the envelope's schema of src/events/inbound.ts
--   Order       src/inference/order.ts; Event.Inbound and Event.Outbound are src/events,
--               Event.Outbound.Printing the JSON of what the worker emits
--   Payload     src/executor/task.ts and buildMessages of src/executor/executor.ts
--   Providers   src/executor/providers.ts
--   Executor    src/executor/executor.ts: Options (the mapping helpers), Streams, Runtime (what the
--               L0 runtime is asked for), Consume (the loop over a stream), Single (text and
--               structured), Parallel (race and fanout), Execute (executeOrder)
--   Failure     classifyError and isRetryable of src/worker-instance.ts
--   Worker      src/worker-instance.ts but for the execution of a task
--   World       what the execution of a task reads and changes; Task is executeTaskWithEvents
--   Hashing     src/utils/hash.ts: the hash of a payload
--   Config      src/config.ts, the environment of the process, and createWorkerInstance
--   Interleaving   src/worker-instance.ts with several tasks on one worker, as steps in any order
--   Requests    the schemas of src/events/inbound.ts on bodies; Requests.Inference those of
--               src/inference/order.ts, Requests.Submit those of a submission and the other events
--   Server      src/server.ts: the handlers of replay and config, Server.Submit that of a submission with
--               its stream, Server.Status, Server.Drain with the wait of a drain, Server.Routes, and
--               Server.Wire, the streams as text
--   Api         the handlers of api/, for the serverless deployment
--   Base, Map, Json, Text, Decimal, Thrown, Effects   what JavaScript gives: numbers, maps, JSON values
--               with JSON.stringify, strings, printed integers, exceptions, and code that changes a state
--               and may throw
--
-- A method that changes an object takes the object's state and returns the new one. A method that may
-- throw returns a Result, or, where zod throws, an Option. An action of Effects returns the new state
-- beside a result, so that what was written before a throw stays written. Listeners are known by their
-- identity, a number, and a notifying method returns the calls that it makes.
--
-- What is assumed. Numbers are integers (ℤ) or naturals without a bound; a threshold between 0 and
-- 1 is in thousandths. Strings are well-formed Unicode. zod's min, max, positive, default,
-- optional, enum and refine are read as documented. A key `__proto__`, which zod drops from a
-- record and which an assignment to a plain object does not create, is kept, but in Hashing.
-- Parameters are HMAC-SHA256, SHA-256, JSON.stringify and JSON.parse (but Hashing and Server.Wire
-- use Json.Stringify, which is JSON.stringify written out), the readings of Date.now(), what each
-- call of `emit` throws, and the L0 runtime: for its options, a list of occurrences, in order, and
-- how it ends. The drain timer fires before a callback of the execution that is also a parameter,
-- or never. A callback that throws ends the execution with what it threw. In Task nothing else
-- happens to the worker during the execution of a task; Interleaving has no such limit. Listeners,
-- and `emit` in a replay, return normally. An order without models, which the schema rejects, fails
-- where the code reads the first model.
--
-- A stream to a client is the list of its chunks; what `controller.enqueue` and `res.write` throw is what the
-- parameter for `emit` says. Server.Wire writes the chunks out as text, and Server.Wire.Lines reads it as a
-- client does; the object that an event of the L0 runtime is, is a parameter. The messages of zod's errors and of the engine's TypeError are parameters.
--
-- All loops are over lists and recursive on them, but for two. Decimal's digits take a fuel that is larger than
-- the number, and print-injective there shows that it is enough. The wait of Server.Drain takes fuel for
-- its polls, and Server.Drain.Ending shows how much is enough.
--
-- Not modelled: the start of the server and its signal handlers, and the lines on the console.
-- The index files only re-export; the supervisor is another program.
mod Base
pub mod Map
pub mod Json
pub mod Clock
pub mod Thrown
pub mod Machine
pub mod Slots
pub mod Settings
pub mod Order
pub mod Event
pub mod Store
pub mod Replay
pub mod Text
pub mod Decimal
pub mod Hashing
pub mod Auth
pub mod Failure
pub mod Payload
pub mod Providers
pub mod Executor
pub mod Effects
pub mod Worker
pub mod Config
pub mod World
pub mod Task
pub mod Interleaving
pub mod Requests
pub mod Server
pub mod Api
