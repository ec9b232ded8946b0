-- ===== src/Providers/Examples.antt =====
-- Runs of executor/providers.ts.
use l0_worker.Base.{none}
use l0_worker.Order.{ModelSpec}

abbrev gpt : ModelSpec
gpt = record { provider = "openai"; model = "gpt-4o"; params = none }
