-- ===== src/Config/Creation.antt =====
-- The worker that createWorkerInstance of src/worker-instance.ts makes of the configuration of the process.
use l0_worker.Base.{
  String, true, false, Option, none, some, [], arith, ◌==◌, eq_iff, ◌≡◌, ◌⊎◌, inl, inr, refl, ap,
  ◌∙◌, or_else, Bool-cases,
}
use mathlib.Core.Path.{subst}
use l0_worker.Base.Int.{ℤ, pos, ◌≤ℤ◌, ◌<ℤ◌, leb_ℤ}
use l0_worker.Text.{codes}
use l0_worker.Thrown.{Thrown, ok, err}
use l0_worker.Decimal.{print}
use l0_worker.Settings
use l0_worker.Settings.Updates as Updates
use l0_worker.Worker
use l0_worker.Worker.{VercelWorker}
use l0_worker.Worker.Configuration.{IsValid, assembled, assemble_ok, assemble_valid}
use l0_worker.Config.{
  ProcessEnv, ProcessConfig, preset_of, config, parse_int, parse_int_or_default,
  create_worker_instance,
}
use l0_worker.Config.Numbers.{parse_int-print}

print_some : (n : ℤ) (t : String) → codes t ≡ print n → t == "" ≡ false
unfolding parse_int
print_some n t text = elim (Bool-cases (t == "")) [
  | inr other ↦ other
  | inl empty ↦
      let blank : t ≡ "" = (eq_iff t "").0 empty in
      let nothing : none ≡ some n =
        subst (λ x. parse_int x ≡ some n) blank (parse_int-print n t text) in
      absurd (ground arith)
]

-- What a variable that is a printed integer sets a number to.
printed :
    (v : Option String) (s : String) (n default : ℤ)
    → v ≡ some s
    → codes s ≡ print n
    → parse_int_or_default v default ≡ n
unfolding parse_int_or_default
printed v s n default is text = rw (is, print_some n s text, parse_int-print n s text) refl

abbrev input_of : ProcessConfig → Settings.WorkerConfigInput
input_of c = record {
  worker_id = c.worker_id;
  max_concurrency = some c.max_concurrency;
  protocol_version = some c.protocol_version;
  l1_address = none;
  load_report_interval_ms = none;
  load_report_threshold = none;
}

abbrev manager_of : ProcessConfig → Settings.ConfigManager
manager_of c = record {
  config = record {
    worker_id = c.worker_id;
    max_concurrency = c.max_concurrency;
    protocol_version = c.protocol_version;
    l1_address = none;
    load_report_interval_ms = some (pos 5000);
    load_report_threshold = some (pos 100);
  };
  runtime = record { max_concurrency = c.max_concurrency; resource_caps = []; feature_flags = [] };
  listeners = [];
}

managed :
    (c : ProcessConfig)
    → leb_ℤ (pos 1) c.max_concurrency ≡ true
    → Settings.new (input_of c) ≡ some (manager_of c)
unfolding Settings.new
managed c enough = rw (enough, Settings.new) refl

created :
    (zod_error : Thrown) (c : ProcessConfig)
    → ((c.max_concurrency <ℤ pos 1) × (create_worker_instance zod_error c ≡ err zod_error))
      ⊎ ((w : VercelWorker) × (pos 1 ≤ℤ c.max_concurrency)
          × (create_worker_instance zod_error c ≡ ok w)
          × IsValid w
          × (Worker.max_concurrency w ≡ c.max_concurrency)
          × (Worker.worker_id w ≡ c.worker_id)
          × (Worker.is_accepting w ≡ true))
unfolding create_worker_instance
created zod_error c = elim (Bool-cases (leb_ℤ (pos 1) c.max_concurrency)) [
  | inr low ↦ inl (ground arith, ground arith)
  | inl enough ↦
      let m : Settings.ConfigManager = manager_of c in
      let positive : pos 1 ≤ℤ c.max_concurrency = ground arith in
      let valid = Updates.new-IsValid (input_of c) m (managed c enough) in
      let (w, made, sound, accepts, _) = assemble_valid m valid refl in
      let same : w ≡ assembled m = cc (assemble_ok m positive) in
      inr (
        w,
        positive,
        rw (enough, create_worker_instance) made,
        sound,
        ap (λ v. Worker.max_concurrency v) same,
        ap (λ v. Worker.worker_id v) same,
        accepts,
      )
]

-- Where MAX_CONCURRENCY is set to a printed integer, creating the worker of the process fails exactly if the
-- integer is below 1. Otherwise the worker is valid, accepts tasks, and has that maximum and the name that
-- WORKER_ID gives, if it is set, and otherwise the new one.
pub worker_created :
    (zod_error : Thrown) (uuid : String) (p : ProcessEnv) (s : String) (n : ℤ)
    → p.max_concurrency ≡ some s
    → codes s ≡ print n
    → ((n <ℤ pos 1) × (create_worker_instance zod_error (config uuid p) ≡ err zod_error))
      ⊎ ((w : VercelWorker) × (pos 1 ≤ℤ n)
          × (create_worker_instance zod_error (config uuid p) ≡ ok w)
          × IsValid w
          × (Worker.max_concurrency w ≡ n)
          × (Worker.worker_id w ≡ or_else p.worker_id uuid)
          × (Worker.is_accepting w ≡ true))
unfolding config
worker_created zod_error uuid p s n is text =
    let read : (config uuid p).max_concurrency ≡ n =
      printed p.max_concurrency s n (preset_of p).max_concurrency is text in
    elim (created zod_error (config uuid p)) [
      | inl (low, failed) ↦ inl (subst (λ k. k <ℤ pos 1) read low, failed)
      | inr (w, enough, made, sound, max, id, accepts) ↦
          inr (w, subst (λ k. pos 1 ≤ℤ k) read enough, made, sound, max ∙ read, id, accepts)
    ]
