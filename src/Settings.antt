-- ===== src/Settings.antt =====
-- src/state/config.ts: the worker's configuration and the manager of its hot updates. A parse that
-- throws a ZodError is `none`. The threshold of load reports, a fraction, is in thousandths.
-- A listener is known by a number, its identity as a function object; `update` returns the listeners
-- that it calls, in order, each with the new runtime configuration.
pub mod Updates
mod Examples
use l0_worker.Base.{
  ℕ, String, Bool, true, false, ◌&&◌, Option, none, some, List, [], ◌∷◌, ◌++◌, if◌then◌else◌,
  or_else, eqb, ◌≡◌,
}
use l0_worker.Base.Int.{ℤ, pos, ltb_ℤ, leb_ℤ, ◌≤ℤ◌}
use l0_worker.Map
use l0_worker.Map.{Map, HasDistinctKeys}
use l0_worker.Thrown.{Result, ok, err, new_error, ◌>>=◌}

pub record WorkerConfigInput : Type 0 where
  pub worker_id : String
  pub max_concurrency : Option ℤ
  pub protocol_version : Option String
  pub l1_address : Option String
  pub load_report_interval_ms : Option ℤ
  pub load_report_threshold : Option ℤ

pub record WorkerConfig : Type 0 where
  pub worker_id : String
  pub max_concurrency : ℤ
  pub protocol_version : String
  pub l1_address : Option String
  pub load_report_interval_ms : Option ℤ
  pub load_report_threshold : Option ℤ

-- z.number().min(lo) of a value that is given; a default is not checked
abbrev pub at_least : ℤ → Option ℤ → Bool
at_least lo none = true
at_least lo (some v) = leb_ℤ lo v

-- z.number().max(hi)
abbrev pub at_most : ℤ → Option ℤ → Bool
at_most hi none = true
at_most hi (some v) = leb_ℤ v hi

-- WorkerConfigSchema.parse
unfoldable pub parse : WorkerConfigInput → Option WorkerConfig
parse input =
    if at_least (pos 1) input.max_concurrency
      && at_least (pos 1000) input.load_report_interval_ms
      && at_least (pos 0) input.load_report_threshold
      && at_most (pos 1000) input.load_report_threshold
    then some (record {
      worker_id = input.worker_id;
      max_concurrency = or_else input.max_concurrency (pos 4);
      protocol_version = or_else input.protocol_version "1.0.0";
      l1_address = input.l1_address;
      load_report_interval_ms = some (or_else input.load_report_interval_ms (pos 5000));
      load_report_threshold = some (or_else input.load_report_threshold (pos 100));
    })
    else none

pub record RuntimeConfig : Type 0 where
  pub max_concurrency : ℤ
  pub resource_caps : Map ℤ
  pub feature_flags : Map Bool

abbrev pub Listener : Type 0
Listener = ℕ

pub record ConfigManager : Type 0 where
  pub config : WorkerConfig
  pub runtime : RuntimeConfig
  pub listeners : List Listener

-- new ConfigManager(config)
unfoldable pub new : WorkerConfigInput → Option ConfigManager
unfolding parse
new input = elim (parse input) [
  | none ↦ none
  | some c ↦ some (record {
    config = c;
    runtime = record {
      max_concurrency = c.max_concurrency;
      resource_caps = [];
      feature_flags = [];
    };
    listeners = [];
  })
]

unfoldable pub load_report_interval_ms : ConfigManager → ℤ
load_report_interval_ms m = or_else m.config.load_report_interval_ms (pos 5000)

unfoldable pub load_report_threshold : ConfigManager → ℤ
load_report_threshold m = or_else m.config.load_report_threshold (pos 100)

abbrev pub max_concurrency : ConfigManager → ℤ
max_concurrency m = m.runtime.max_concurrency

-- The argument of `update`.
pub record Update : Type 0 where
  pub max_concurrency : Option ℤ
  pub resource_caps : Option (Map ℤ)
  pub feature_flags : Option (Map Bool)

unfoldable pub update_max : Option ℤ → RuntimeConfig → Result RuntimeConfig
update_max none r = ok r
update_max (some v) r =
    if ltb_ℤ v (pos 1)
    then err (new_error "maxConcurrency must be at least 1")
    else ok (record r { max_concurrency = v })

-- { ...old, ...given }, where an update is given
abbrev pub merge {ℓ} : {V : Type ℓ} → Option (Map V) → Map V → Map V
merge none old = old
merge (some given) old = Map.spread old given

unfoldable pub update : Update → ConfigManager → Result (ConfigManager × List Listener)
unfolding update_max
update u m = do
  r ← update_max u.max_concurrency m.runtime
  ok (
    record m {
      runtime = record r {
        resource_caps = merge u.resource_caps r.resource_caps;
        feature_flags = merge u.feature_flags r.feature_flags;
      };
    },
    m.listeners,
  )

-- onUpdate(listener): the subscription.
unfoldable pub on_update : Listener → ConfigManager → ConfigManager
on_update l m = record m { listeners = m.listeners ++ l ∷ [] }

-- listeners.splice(listeners.indexOf(listener), 1), if it is found
unfoldable pub remove_first : Listener → List Listener → List Listener
remove_first l [] = []
remove_first l (k ∷ ks) = if eqb k l then ks else k ∷ remove_first l ks

-- The function that `onUpdate` returns.
unfoldable pub unsubscribe : Listener → ConfigManager → ConfigManager
unfolding remove_first
unsubscribe l m = record m { listeners = remove_first l m.listeners }
