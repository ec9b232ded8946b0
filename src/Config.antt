-- ===== src/Config.antt =====
-- src/config.ts: the configuration of the process, by its environment, and the construction of the worker by it
-- (createWorkerInstance of src/worker-instance.ts). `uuid` is what uuidv7() returns.
pub mod Numbers
pub mod Creation
mod Examples
use l0_worker.Base.{
  ℕ, zero, suc, ◌+◌, ◌*◌, ◌-◌, String, Bool, true, false, ◌&&◌, ◌||◌, not, Option, none, some, List,
  [], ◌∷◌, ◌==◌, or_else, is_some, leb, eqb, if◌then◌else◌,
}
use l0_worker.Base.Int.{ℤ, pos, negsuc}
use l0_worker.Text.{codes}
use l0_worker.Thrown.{Thrown, Result, ok, err}
use l0_worker.Auth.{AuthSettings}
use l0_worker.Settings.{WorkerConfigInput}
use l0_worker.Worker
use l0_worker.Worker.{VercelWorker}

-- The variables that are read; `none` is unset.
pub record ProcessEnv : Type 0 where
  pub worker_id : Option String
  pub max_concurrency : Option String
  pub port : Option String
  pub function_timeout_ms : Option String
  pub drain_buffer_ms : Option String
  pub skip_auth_validation : Option String
  pub deployment : Option String
  pub vercel : Option String
  pub l0_auth_secret : Option String

pub record Preset : Type 0 where
  pub max_concurrency : ℤ
  pub function_timeout_ms : ℤ
  pub drain_buffer_ms : ℤ
  pub skip_auth_validation : Bool

abbrev pub local_preset : Preset
local_preset = record {
  max_concurrency = pos 64;
  function_timeout_ms = pos 0;
  drain_buffer_ms = pos 5000;
  skip_auth_validation = true;
}

abbrev pub vercel_preset : Preset
vercel_preset = record {
  max_concurrency = pos 1;
  function_timeout_ms = pos 60000;
  drain_buffer_ms = pos 5000;
  skip_auth_validation = false;
}

abbrev is_digit : ℕ → Bool
is_digit c = leb b'0' c && leb c b'9'

-- The white space that parseInt skips.
unfoldable pub is_space : ℕ → Bool
is_space c =
    (leb 9 c && leb c 13)
    || eqb c 32
    || eqb c 160
    || eqb c 5760
    || (leb 8192 c && leb c 8202)
    || eqb c 8232
    || eqb c 8233
    || eqb c 8239
    || eqb c 8287
    || eqb c 12288
    || eqb c 65279

-- The number that the digits at the front make, after those of `acc`.
unfoldable pub scan : ℕ → List ℕ → ℕ
scan acc [] = acc
scan acc (c ∷ cs) = let rest = scan (acc * 10 + (c - b'0')) cs in if is_digit c then rest else acc

-- A text without a digit at its front is NaN, which is `none`.
unfoldable pub scan_digits : List ℕ → Option ℕ
unfolding scan
scan_digits [] = none
scan_digits (c ∷ cs) = if is_digit c then some (scan 0 (c ∷ cs)) else none

abbrev negated : ℕ → ℤ
negated zero = pos 0
negated (suc n) = negsuc n

abbrev signed : (ℕ → ℤ) → Option ℕ → Option ℤ
signed sign none = none
signed sign (some n) = some (sign n)

unfoldable pub scan_signed : List ℕ → Option ℤ
unfolding scan_digits
scan_signed [] = none
scan_signed (c ∷ cs) =
    if eqb c b'-'
    then signed negated (scan_digits cs)
    else if eqb c b'+'
    then signed pos (scan_digits cs)
    else signed pos (scan_digits (c ∷ cs))

unfoldable pub parse_codes : List ℕ → Option ℤ
unfolding is_space scan_signed
parse_codes [] = none
parse_codes (c ∷ cs) =
    let rest = parse_codes cs in if is_space c then rest else scan_signed (c ∷ cs)

-- parseInt(value, 10), for a number below 2^53 in magnitude
unfoldable pub parse_int : String → Option ℤ
unfolding parse_codes
parse_int s = parse_codes (codes s)

-- parseIntOrDefault(value, defaultValue)
unfoldable pub parse_int_or_default : Option String → ℤ → ℤ
unfolding parse_int
parse_int_or_default none default = default
parse_int_or_default (some s) default = if s == "" then default else or_else (parse_int s) default

-- Whether a variable has a value that counts as true.
abbrev is_set : Option String → Bool
is_set none = false
is_set (some s) = not (s == "")

abbrev is_text : String → Option String → Bool
is_text t none = false
is_text t (some s) = s == t

unfoldable pub preset_of : ProcessEnv → Preset
preset_of p =
    if is_text "vercel" p.deployment || is_set p.vercel then vercel_preset else local_preset

pub record ProcessConfig : Type 0 where
  pub worker_id : String
  pub max_concurrency : ℤ
  pub protocol_version : String
  pub port : ℤ
  pub function_timeout_ms : ℤ
  pub drain_buffer_ms : ℤ
  pub skip_auth_validation : Bool

abbrev skip_of : Option String → Bool → Bool
skip_of none preset = preset
skip_of (some s) preset = s == "true"

unfoldable pub config : String → ProcessEnv → ProcessConfig
unfolding parse_int_or_default preset_of
config uuid p =
    let preset = preset_of p in
    record {
      worker_id = or_else p.worker_id uuid;
      max_concurrency = parse_int_or_default p.max_concurrency preset.max_concurrency;
      protocol_version = "1.0.0";
      port = parse_int_or_default p.port (pos 3000);
      function_timeout_ms = parse_int_or_default p.function_timeout_ms preset.function_timeout_ms;
      drain_buffer_ms = parse_int_or_default p.drain_buffer_ms preset.drain_buffer_ms;
      skip_auth_validation = skip_of p.skip_auth_validation preset.skip_auth_validation;
    }

-- What validateAuth reads.
unfoldable pub auth_settings : String → ProcessEnv → AuthSettings
unfolding config
auth_settings uuid p = record {
  skip_auth_validation = (config uuid p).skip_auth_validation;
  l0_auth_secret = p.l0_auth_secret;
}

-- createWorkerInstance(); `zod_error` is what zod throws for a configuration that it rejects.
unfoldable pub create_worker_instance : Thrown → ProcessConfig → Result VercelWorker
unfolding Worker.new
create_worker_instance zod_error c =
    elim (Worker.new (record {
      worker_id = c.worker_id;
      max_concurrency = some c.max_concurrency;
      protocol_version = some c.protocol_version;
      l1_address = none;
      load_report_interval_ms = none;
      load_report_threshold = none;
    })) [ none ↦ err zod_error | some r ↦ r ]
