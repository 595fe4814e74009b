-- ===== src/Tests/Configs.antt =====
-- The configuration of act_storage at concrete inputs.
use act.Common.{ℕ, ◌-◌, ◌*◌, ◌/◌, ◌^◌, ◌<◌, ◌≡◌, ◌↔◌, ◌⊎◌, refl, true, arith}
use act.Cfg.{crashes}
use act.IndexCfg.{IndexCfg, default_icfg}
use act.StorageCfg.{
  internal_writes, StorageCfg, DoubleOps, default_cfg, derive_threads, is_power_of_2,
}
use act.StorageCfg.PowerOf2.{is_power_of_2_iff}
use act.StorageCfg.Derive.{derive_threads-crashes}

-- Whole numbers in place of `double`.
abbrev pub ops : DoubleOps
ops = record {
  Double = ℕ;
  of_ℕ = λ n. n;
  div = λ a b. a / b;
  mul = λ a b. a * b;
  sub = λ a b. a - b;
}

-- A file that sets the devices, the duration, the two rates, and the commits.
abbrev pub given : StorageCfg ℕ
given = record (default_cfg ops) {
  num_devices = 2;
  service_threads = 5;
  run_us = 86400000000;
  read_reqs_per_sec = 2000;
  write_reqs_per_sec = 1000;
  commit_to_device = true;
}

abbrev pub checked : StorageCfg ℕ
checked = record given { num_queues = 8 }

abbrev pub derived : StorageCfg ℕ
derived = record checked {
  record_stored_bytes = 1536;
  record_stored_bytes_rmx = 1536;
  internal_read_reqs_per_sec = 2000;
  internal_write_reqs_per_sec = 1000;
  read_req_threads = 3;
  write_req_threads = 2;
  large_block_reads_per_sec = 22;
  large_block_writes_per_sec = 11;
}

abbrev page : ℕ
page = 4096

is_power_of_2_example : (is_power_of_2 page ≡ true) ↔ ((page ≡ 0) ⊎ ((k : ℕ) × (page ≡ 2 ^ k)))
is_power_of_2_example = is_power_of_2_iff page (omega arith)

-- 65536 writes a second to 65536 replicas.
abbrev wrapping : StorageCfg ℕ
wrapping = record checked {
  read_reqs_per_sec = 0;
  write_reqs_per_sec = 65536;
  replication_factor = 65536;
}

wraps : derive_threads ops wrapping ≡ crashes
unfolding derive_threads default_cfg
wraps = refl

small : wrapping.internal_read_reqs_per_sec < 2 ^ 32
unfolding default_cfg
small = omega arith

derive_threads_example :
    (wrapping.commit_to_device ≡ true)
    × (wrapping.internal_read_reqs_per_sec ≡ 0)
    × (internal_writes ops wrapping ≡ 0)
derive_threads_example = derive_threads-crashes ops wrapping small wraps

abbrev pub index_given : IndexCfg
index_given = record default_icfg {
  num_devices = 2;
  run_us = 86400000000;
  read_reqs_per_sec = 2000;
  write_reqs_per_sec = 1000;
  replication_factor = 2;
}

abbrev pub index_derived : IndexCfg
index_derived = record index_given {
  num_queues = 8;
  trans_thread_reads_per_sec = 4000;
  cache_thread_reads_and_writes_per_sec = 4000;
}
