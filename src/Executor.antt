-- ===== src/Executor.antt =====
-- src/executor/executor.ts: an inference order, executed by the L0 runtime. The runtime is a
-- parameter: for the options that it is given, what it does is a list of occurrences, in order, and an
-- end. `JSON.stringify` and `JSON.parse` of the engine are parameters too.
pub mod Options
pub mod Streams
pub mod Runtime
pub mod Consume
pub mod Single
pub mod Parallel
pub mod Execute
pub mod Sample
mod Examples
