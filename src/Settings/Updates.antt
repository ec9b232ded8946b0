-- ===== src/Settings/Updates.antt =====
-- Hot updates of state/config.ts.
use l0_worker.Base.{
  String, Bool, true, false, Option, none, some, List, if◌then◌else◌, arith, ◌≡◌, ◌↔◌, refl,
  or_else,
}
use l0_worker.Base.Int.{ℤ, pos, ltb_ℤ, ◌≤ℤ◌, ◌<ℤ◌}
use l0_worker.Map
use l0_worker.Map.{Map, HasDistinctKeys}
use l0_worker.Map.Laws.{get-spread, spread-HasDistinctKeys}
use l0_worker.Thrown.{ok, err, Thrown, new_error}
use l0_worker.Settings.{
  WorkerConfigInput, ConfigManager, Update, new, update, merge, load_report_interval_ms,
  load_report_threshold, Listener,
}

-- The values are those that the schema and the checks of `update` admit.
pub record IsValid (m : ConfigManager) : Type 0 where
  pub positive : pos 1 ≤ℤ m.runtime.max_concurrency
  pub interval : pos 1000 ≤ℤ load_report_interval_ms m
  pub threshold : (pos 0 ≤ℤ load_report_threshold m) × (load_report_threshold m ≤ℤ pos 1000)
  pub caps : HasDistinctKeys m.runtime.resource_caps
  pub flags : HasDistinctKeys m.runtime.feature_flags

-- What the constructor accepts is a valid configuration, which starts from the given maximum or 4,
-- with no resource caps and no feature flags.
pub new-IsValid : (input : WorkerConfigInput) (m : ConfigManager) → new input ≡ some m → IsValid m
unfolding new load_report_interval_ms load_report_threshold
new-IsValid input m h = ground arith

merge-HasDistinctKeys {ℓ} :
    {V : Type ℓ} (given : Option (Map V)) (old : Map V)
    → HasDistinctKeys old
    → HasDistinctKeys (merge given old)
merge-HasDistinctKeys none old d = d
merge-HasDistinctKeys (some given) old d = spread-HasDistinctKeys given old d

-- What an update that gives no bad maximum makes of the manager.
abbrev pub updated : Update → ConfigManager → ConfigManager
updated u m = record m {
  runtime = record {
    max_concurrency = or_else u.max_concurrency m.runtime.max_concurrency;
    resource_caps = merge u.resource_caps m.runtime.resource_caps;
    feature_flags = merge u.feature_flags m.runtime.feature_flags;
  };
}

pub update_shape :
    (u : Update) (m n : ConfigManager) (calls : List Listener)
    → update u m ≡ ok (n, calls)
    → (n ≡ updated u m)
      × (calls ≡ m.listeners)
      × (pos 1 ≤ℤ m.runtime.max_concurrency → pos 1 ≤ℤ n.runtime.max_concurrency)
unfolding update
update_shape u m n calls h = ground arith

-- An update that succeeds keeps the configuration valid.
pub update-IsValid :
    (u : Update) (m n : ConfigManager) (calls : List Listener)
    → update u m ≡ ok (n, calls)
    → IsValid m
    → IsValid n
unfolding load_report_interval_ms load_report_threshold
update-IsValid u m n calls h v =
    let (e, _, positive) = update_shape u m n calls h in
    record {
      positive = positive v.positive;
      interval = rw e v.interval;
      threshold = rw e v.threshold;
      caps = rw e (merge-HasDistinctKeys u.resource_caps m.runtime.resource_caps v.caps);
      flags = rw e (merge-HasDistinctKeys u.feature_flags m.runtime.feature_flags v.flags);
    }

abbrev low : Option ℤ → Bool
low none = false
low (some v) = ltb_ℤ v (pos 1)

low_value : (o : Option ℤ) → low o ≡ true → (v : ℤ) × (o ≡ some v) × (v <ℤ pos 1)
low_value none h = cc
low_value (some v) h = (v, refl, ground arith)

-- An update fails exactly when it gives a maximum below 1, whatever else it gives. (A failure has
-- no new state: the check comes before every change and before the listeners are called.)
pub update_fails_iff :
    (u : Update) (m : ConfigManager)
    → ((e : Thrown) × (update u m ≡ err e))
      ↔ ((v : ℤ) × (u.max_concurrency ≡ some v) × (v <ℤ pos 1))
unfolding update
update_fails_iff u m = (
  λ r. low_value u.max_concurrency (let (e, h) = r in ground arith),
  λ r. let (v, given, below) = r in (new_error "maxConcurrency must be at least 1", ground arith),
)

-- The value that a map holds for a key once `given` is merged into it.
abbrev pub merged {ℓ} : {V : Type ℓ} → Option (Map V) → Map V → String → Option V
merged none old k = Map.get k old
merged (some given) old k = if Map.has k given then Map.get k given else Map.get k old

abbrev pub GivesDistinctKeys {ℓ} : {V : Type ℓ} → Option (Map V) → Type 0
GivesDistinctKeys none = Unit
GivesDistinctKeys (some given) = HasDistinctKeys given

get-merge {ℓ} :
    {V : Type ℓ} (given : Option (Map V)) (old : Map V) (k : String)
    → GivesDistinctKeys given
    → Map.get k (merge given old) ≡ merged given old k
get-merge none old k d = refl
get-merge (some given) old k d = get-spread k given old d

-- An update that succeeds replaces the maximum if it gives one, and in the resource caps and the
-- feature flags replaces exactly the keys that it names; all else stays, the identity and the other
-- settings of the worker among it, and every listener is called in order of subscription.
pub update_merges :
    (u : Update) (m n : ConfigManager) (calls : List Listener) (k : String)
    → GivesDistinctKeys u.resource_caps
    → GivesDistinctKeys u.feature_flags
    → update u m ≡ ok (n, calls)
    → (n.runtime.max_concurrency ≡ or_else u.max_concurrency m.runtime.max_concurrency)
      × (Map.get k n.runtime.resource_caps ≡ merged u.resource_caps m.runtime.resource_caps k)
      × (Map.get k n.runtime.feature_flags ≡ merged u.feature_flags m.runtime.feature_flags k)
      × (n.config ≡ m.config)
      × (n.listeners ≡ m.listeners)
      × (calls ≡ m.listeners)
update_merges u m n calls k d e h =
    let (shape, called, _) = update_shape u m n calls h in
    rw shape (
      refl,
      get-merge u.resource_caps m.runtime.resource_caps k d,
      get-merge u.feature_flags m.runtime.feature_flags k e,
      refl,
      refl,
      called,
    )
