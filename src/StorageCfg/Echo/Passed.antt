-- ===== src/StorageCfg/Echo/Passed.antt =====
-- What an echoed configuration meets, and the lines of it that the reader passes over.
use act.Common.{
  ℕ, suc, ◌+◌, ◌^◌, ◌≤◌, ◌<◌, ◌≡◌, refl, Bool, true, none, List, [], ◌∷◌, ◌++◌, some, arith,
}
use act.Common.Lists.{length, length-append}
use act.Common.Text.{Text, text}
use act.Common.Text.Decimal.{decimal}
use act.Common.Text.Tokens.{all, all-append, length-decimal}
use act.Cfg.Parse.Lines.{plain, item_line}
use act.Cfg.Parse.Names.{Separator, IsName, AllNames, names_text}
use act.Cfg.Parse.Values.{mode_text}
use act.Cfg.Parse.Items.{IsItem}
use act.Cfg.Parse.Items.Echo.{
  ◌&◌, EchoLine, passed, decimal-plain, Passes, AreLines, unknown-Passes, number-Passes,
  tagged-Passes,
}
use act.Cfg.Echo.{number_line}
use act.StorageCfg.{StorageCfg}
use act.StorageCfg.Parse.{set_item}
use act.Cfg.Parse.Valid.{Exact}
use act.StorageCfg.Parse.RoundTrip.{StorageNumber, StorageAnswer, storage_items}
use act.StorageCfg.Echo.{range_text}

-- What is printed for a `double` stands on one line.
abbrev pub PrintsNumber : {Double : Type 0} → (Double → Text) → Type 0
PrintsNumber {Double} two_places =
    (x : Double) → (all plain (two_places x) ≡ true) × (length (two_places x) ≤ 400)

-- The configurations that are read back: the names are those of a file and fit a line, the numbers have
-- 32 bits in the units of the file, and the scheduler is one of the two.
pub record Echoable {Double : Type 0} (cfg : StorageCfg Double) : Type 0 where
  pub first : Text
  pub others : List Text
  pub names : cfg.device_names ≡ first ∷ others
  pub count : cfg.num_devices ≡ suc (length others)
  pub room : suc (length others) ≤ 128
  pub first_name : IsName first
  pub other_names : AllNames others
  pub fits : length (names_text Separator.blank first others) + 16 ≤ 4096
  pub cfq : Bool
  pub mode : cfg.scheduler_mode ≡ mode_text cfq
  pub file_size : Exact (2 ^ 20) cfg.file_size
  pub service_threads : cfg.service_threads < 2 ^ 32
  pub num_queues : cfg.num_queues < 2 ^ 32
  pub threads_per_queue : cfg.threads_per_queue < 2 ^ 32
  pub run_us : Exact 1000000 cfg.run_us
  pub report_interval_us : Exact 1000000 cfg.report_interval_us
  pub read_reqs_per_sec : cfg.read_reqs_per_sec < 2 ^ 32
  pub write_reqs_per_sec : cfg.write_reqs_per_sec < 2 ^ 32
  pub record_bytes : cfg.record_bytes < 2 ^ 32
  pub record_bytes_rmx : cfg.record_bytes_rmx < 2 ^ 32
  pub large_block_ops_bytes :
      Exact 1024 cfg.large_block_ops_bytes × (cfg.large_block_ops_bytes < 2 ^ 32)
  pub replication_factor : cfg.replication_factor < 2 ^ 32
  pub update_pct : cfg.update_pct < 2 ^ 32
  pub defrag_lwm_pct : cfg.defrag_lwm_pct < 2 ^ 32
  pub commit_min_bytes : cfg.commit_min_bytes < 2 ^ 32
  pub tomb_raider_sleep_us : cfg.tomb_raider_sleep_us < 2 ^ 32
  pub max_reqs_queued : cfg.max_reqs_queued < 2 ^ 32
  pub max_lag_usec : Exact 1000000 cfg.max_lag_usec
  pub record_stored_bytes : cfg.record_stored_bytes < 2 ^ 32
  pub record_stored_bytes_rmx : cfg.record_stored_bytes_rmx < 2 ^ 32
  pub internal_read_reqs_per_sec : cfg.internal_read_reqs_per_sec < 2 ^ 64
  pub internal_write_reqs_per_sec : cfg.internal_write_reqs_per_sec < 2 ^ 64
  pub read_req_threads : cfg.read_req_threads < 2 ^ 32
  pub write_req_threads : cfg.write_req_threads < 2 ^ 32

abbrev pub Line : Type 0
Line = EchoLine StorageNumber StorageAnswer

module _ {Double : Type 0} (two_places : Double → Text) (prints : PrintsNumber two_places) where
  abbrev pub AreEchoed : List Line → StorageCfg Double → Type 0
  AreEchoed lines cfg = AreLines storage_items lines cfg

  -- The lines from "DERIVED CONFIGURATION" on are passed over.
  abbrev pub derived : StorageCfg Double → List Line
  derived cfg =
      passed []
      ∷ passed (text "DERIVED CONFIGURATION")
      ∷ passed (
          item_line (text "record-stored-bytes")
            (range_text cfg.record_stored_bytes cfg.record_stored_bytes_rmx))
      ∷ passed (number_line (text "internal-read-reqs-per-sec") cfg.internal_read_reqs_per_sec)
      ∷ passed (number_line (text "internal-write-reqs-per-sec") cfg.internal_write_reqs_per_sec)
      ∷ passed (number_line (text "read-req-threads") cfg.read_req_threads)
      ∷ passed (number_line (text "write-req-threads") cfg.write_req_threads)
      ∷ passed
          (item_line (text "large-block-reads-per-sec") (two_places cfg.large_block_reads_per_sec))
      ∷ passed (
          item_line (text "large-block-writes-per-sec") (two_places cfg.large_block_writes_per_sec))
      ∷ passed []
      ∷ []

  range_text-plain : (low high : ℕ) → all plain (range_text low high) ≡ true
  range_text-plain low high =
      all-append plain (decimal low []) (text " ... " ++ decimal high []) (decimal-plain low)
        (all-append plain (text " ... ") (decimal high []) refl (decimal-plain high))

  range-Passes :
      (low high : ℕ)
      → low < 2 ^ 32
      → high < 2 ^ 32
      → Passes
          (storage_items {Double = Double})
          (item_line (text "record-stored-bytes") (range_text low high))
  unfolding set_item
  range-Passes low high l h =
      unknown-Passes storage_items (text "record-stored-bytes") (range_text low high)
        (refl, omega arith) (range_text-plain low high)
        (omega (
          arith,
          length-append (decimal low []) (text " ... " ++ decimal high []),
          length-decimal low l,
          length-decimal high h,
        ))
        (λ r k. refl)

  double-Passes :
      (tag : Text) (x : Double)
      → IsItem tag
      → ((rest : Text) (cfg : StorageCfg Double) → set_item tag rest cfg ≡ cfg)
      → Passes (storage_items {Double = Double}) (item_line tag (two_places x))
  double-Passes tag x t unknown =
      unknown-Passes storage_items tag (two_places x) t (prints x).0
        (let h = (prints x).1 in omega arith) unknown

  pub derived-AreEchoed : (cfg c : StorageCfg Double) → Echoable cfg → AreEchoed (derived cfg) c
  unfolding set_item
  derived-AreEchoed cfg c e =
      tagged-Passes storage_items [] none [] (refl, omega arith) refl (λ k. refl)
      & tagged-Passes storage_items (text "DERIVED CONFIGURATION") (some (text "DERIVED"))
          (text "CONFIGURATION\n") (refl, omega arith) refl (λ k. refl)
      & range-Passes cfg.record_stored_bytes cfg.record_stored_bytes_rmx e.record_stored_bytes
          e.record_stored_bytes_rmx
      & number-Passes storage_items (text "internal-read-reqs-per-sec")
          cfg.internal_read_reqs_per_sec (refl, omega arith) e.internal_read_reqs_per_sec
          (λ r k. refl)
      & number-Passes storage_items (text "internal-write-reqs-per-sec")
          cfg.internal_write_reqs_per_sec (refl, omega arith) e.internal_write_reqs_per_sec
          (λ r k. refl)
      & number-Passes storage_items (text "read-req-threads") cfg.read_req_threads
          (refl, omega arith) (let h = e.read_req_threads in omega arith) (λ r k. refl)
      & number-Passes storage_items (text "write-req-threads") cfg.write_req_threads
          (refl, omega arith) (let h = e.write_req_threads in omega arith) (λ r k. refl)
      & double-Passes (text "large-block-reads-per-sec") cfg.large_block_reads_per_sec
          (refl, omega arith) (λ r k. refl)
      & double-Passes (text "large-block-writes-per-sec") cfg.large_block_writes_per_sec
          (refl, omega arith) (λ r k. refl)
      & tagged-Passes storage_items [] none [] (refl, omega arith) refl (λ k. refl)
      & tt
