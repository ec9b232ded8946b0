-- ===== src/Settings/Examples.antt =====
-- Runs of state/config.ts.
use l0_worker.Base.{Bool, true, false, none, some, [], ◌∷◌, ◌≡◌, refl, arith}
use l0_worker.Base.Int.{ℤ, pos, negsuc}
use l0_worker.Map
use l0_worker.Thrown.{ok}
use l0_worker.Settings.{
  WorkerConfigInput, WorkerConfig, ConfigManager, Update, new, update, parse, update_max,
  load_report_interval_ms, load_report_threshold,
}
use l0_worker.Settings.Updates.{IsValid, GivesDistinctKeys}

abbrev input : WorkerConfigInput
input = record {
  worker_id = "w1";
  max_concurrency = some (pos 2);
  protocol_version = none;
  l1_address = none;
  load_report_interval_ms = some (pos 1000);
  load_report_threshold = none;
}

abbrev config : WorkerConfig
config = record {
  worker_id = "w1";
  max_concurrency = pos 2;
  protocol_version = "1.0.0";
  l1_address = none;
  load_report_interval_ms = some (pos 1000);
  load_report_threshold = some (pos 100);
}

abbrev fresh : ConfigManager
fresh = record {
  config = config;
  runtime = record { max_concurrency = pos 2; resource_caps = []; feature_flags = [] };
  listeners = [];
}

new-fresh : new input ≡ some fresh
unfolding new parse
new-fresh = ground arith

-- A manager with a flag and a listener.
abbrev flagged : Bool → ℤ → ConfigManager
flagged b n = record {
  config = config;
  runtime = record { max_concurrency = n; resource_caps = []; feature_flags = ("dark", b) ∷ [] };
  listeners = 7 ∷ [];
}

abbrev to_five : Update
to_five = record {
  max_concurrency = some (pos 5);
  resource_caps = none;
  feature_flags = some (("dark", true) ∷ []);
}

updated_five : update to_five (flagged false (pos 2)) ≡ ok (flagged true (pos 5), 7 ∷ [])
unfolding update update_max Map.spread Map.set
updated_five = ground arith

flagged_valid : IsValid (flagged false (pos 2))
unfolding load_report_interval_ms load_report_threshold Map.has
flagged_valid = record {
  positive = ground arith;
  interval = ground arith;
  threshold = ground arith;
  caps = tt;
  flags = (refl, tt);
}

abbrev to_minus_one : Update
to_minus_one = record {
  max_concurrency = some (negsuc 0);
  resource_caps = none;
  feature_flags = none;
}

given_distinct : GivesDistinctKeys to_five.feature_flags
unfolding Map.has
given_distinct = (refl, tt)
