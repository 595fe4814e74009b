-- ===== src/Cfg.antt =====
-- src/common/cfg.c and cfg.h: the item names of the two configurations, and how a configuration is
-- refused. `Cfg/Parse` has the parsing.
pub mod Bind
pub mod Parse
pub mod Echo
use act.Common.{ℕ, ◌/◌, Bool, true, false, not, ◌==◌, if◌then◌else◌}

-- The items of both programs, TAG_DEVICE_NAMES to TAG_SCHEDULER_MODE.
pub data Tag : Type 0 where
  device_names file_size_mbytes service_threads num_queues threads_per_queue cache_threads : Tag
  test_duration_sec report_interval_sec microsecond_histograms read_reqs_per_sec : Tag
  write_reqs_per_sec record_bytes record_bytes_range_max large_block_op_kbytes : Tag
  replication_factor update_pct defrag_lwm_pct disable_odsync commit_to_device : Tag
  commit_min_bytes tomb_raider tomb_raider_sleep_usec max_reqs_queued max_lag_sec : Tag
  scheduler_mode : Tag

-- `configuration_error`, and the two messages of `derive_configuration`.
pub data ConfigError : Type 0 where
  invalid too_small : Tag → ConfigError
  both_zero : ConfigError

-- `crashes` is an integer division by zero.
pub data Checked {ℓ} (A : Type ℓ) : Type ℓ where
  accepted : A → Checked A
  rejected : ConfigError → Checked A
  crashes : Checked A

infixl 5 ◌>>=◌ ◌>>◌
abbrev pub ◌>>=◌ {ℓ κ} : {A : Type ℓ} {B : Type κ} → Checked A → (A → Checked B) → Checked B
accepted a >>= f = f a
rejected e >>= f = rejected e
crashes >>= f = crashes

abbrev pub ◌>>◌ {ℓ} : {B : Type ℓ} → Checked (Unit {0}) → Checked B → Checked B
m >> k = m >>= λ _. k

-- `if (bad) { configuration_error(tag); return false; }`.
abbrev pub refuse_if : Bool → ConfigError → Checked (Unit {0})
refuse_if true e = rejected e
refuse_if false e = accepted tt

-- `a / b` on integers.
abbrev pub divide : ℕ → ℕ → Checked ℕ
divide a b = if b == 0 then crashes else accepted (a / b)
