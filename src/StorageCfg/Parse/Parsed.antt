-- ===== src/StorageCfg/Parse/Parsed.antt =====
-- What holds of any configuration of act_storage that was read from a file.
use act.Common.{ℕ, ◌^◌, ◌<◌, ◌≡◌, ◌⊎◌, sym, subst, Bool, true, Option, none, some, List, ◌∷◌, arith}
use act.Common.Lists.{length}
use act.Common.Text.{Text, text}
use act.Common.Text.Tokens.{all}
use act.Cfg.Parse.{
  parse_yes_no, parse_lines, parse_line, set_tagged, tag_of, white_space, before_comment,
}
use act.Cfg.Parse.Valid.{
  Exact, ◌or_else◌, at_item, parse_lines-induction, parse_line_lem, AreValid, IsToken, value_char,
  strtok-IsToken, before_comment-value, parse_device_names-AreValid, parse_uint32-small,
  parse_scheduler_mode-known,
}
use act.StorageCfg.{StorageCfg, DoubleOps, default_cfg}
use act.StorageCfg.Parse.RoundTrip.{StorageNumber, StorageAnswer, set_number, set_answer}
use act.StorageCfg.Parse.{set_names, set_item, max_num_storage_devices}

-- The configuration without what is derived.
abbrev pub underived : (ops : DoubleOps) → StorageCfg ops.Double → StorageCfg ops.Double
underived ops cfg = record cfg {
  record_stored_bytes = 0;
  record_stored_bytes_rmx = 0;
  internal_read_reqs_per_sec = 0;
  internal_write_reqs_per_sec = 0;
  read_req_threads = 0;
  write_req_threads = 0;
  large_block_reads_per_sec = ops.of_ℕ 0;
  large_block_writes_per_sec = ops.of_ℕ 0;
}

-- Valid names that there is room for, numbers of 32 bits in the units of the file, one of the two
-- schedulers, and nothing derived yet.
pub record Parsed (ops : DoubleOps) (cfg : StorageCfg ops.Double) : Type 0 where
  pub names : AreValid max_num_storage_devices cfg.device_names
  pub count : cfg.num_devices ≡ length cfg.device_names
  pub mode : (cfg.scheduler_mode ≡ text "noop") ⊎ (cfg.scheduler_mode ≡ text "cfq")
  pub file_size : Exact (2 ^ 20) cfg.file_size
  pub service_threads : cfg.service_threads < 2 ^ 32
  pub num_queues : cfg.num_queues < 2 ^ 32
  pub threads_per_queue : cfg.threads_per_queue < 2 ^ 32
  pub run_us : Exact 1000000 cfg.run_us
  pub report_interval_us : Exact 1000000 cfg.report_interval_us
  pub read_reqs_per_sec : cfg.read_reqs_per_sec < 2 ^ 32
  pub write_reqs_per_sec : cfg.write_reqs_per_sec < 2 ^ 32
  pub record_bytes : cfg.record_bytes < 2 ^ 32
  pub record_bytes_rmx : cfg.record_bytes_rmx < 2 ^ 32
  pub large_block_ops_bytes :
      Exact 1024 cfg.large_block_ops_bytes × (cfg.large_block_ops_bytes < 2 ^ 32)
  pub replication_factor : cfg.replication_factor < 2 ^ 32
  pub update_pct : cfg.update_pct < 2 ^ 32
  pub defrag_lwm_pct : cfg.defrag_lwm_pct < 2 ^ 32
  pub commit_min_bytes : cfg.commit_min_bytes < 2 ^ 32
  pub tomb_raider_sleep_us : cfg.tomb_raider_sleep_us < 2 ^ 32
  pub max_reqs_queued : cfg.max_reqs_queued < 2 ^ 32
  pub max_lag_usec : Exact 1000000 cfg.max_lag_usec
  pub kept : underived ops cfg ≡ cfg

module _ (ops : DoubleOps) where
  default_cfg-Parsed : Parsed ops (default_cfg ops)
  unfolding default_cfg
  default_cfg-Parsed = ground arith

  module _ (cfg : StorageCfg ops.Double) (p : Parsed ops cfg) where
    set_names-Parsed :
        (names : List Text)
        → AreValid max_num_storage_devices names
        → Parsed ops (set_names names cfg)
    set_names-Parsed names v = ground arith

    pub set_number-Parsed :
        (i : StorageNumber) (v : ℕ) → v < 2 ^ 32 → Parsed ops (set_number i v cfg)
    set_number-Parsed StorageNumber.file_size_mbytes v h = ground arith
    set_number-Parsed StorageNumber.service_threads v h = ground arith
    set_number-Parsed StorageNumber.num_queues v h = ground arith
    set_number-Parsed StorageNumber.threads_per_queue v h = ground arith
    set_number-Parsed StorageNumber.test_duration_sec v h = ground arith
    set_number-Parsed StorageNumber.report_interval_sec v h = ground arith
    set_number-Parsed StorageNumber.read_reqs_per_sec v h = ground arith
    set_number-Parsed StorageNumber.write_reqs_per_sec v h = ground arith
    set_number-Parsed StorageNumber.record_bytes v h = ground arith
    set_number-Parsed StorageNumber.record_bytes_range_max v h = ground arith
    set_number-Parsed StorageNumber.large_block_op_kbytes v h = ground arith
    set_number-Parsed StorageNumber.replication_factor v h = ground arith
    set_number-Parsed StorageNumber.update_pct v h = ground arith
    set_number-Parsed StorageNumber.defrag_lwm_pct v h = ground arith
    set_number-Parsed StorageNumber.commit_min_bytes v h = ground arith
    set_number-Parsed StorageNumber.tomb_raider_sleep_usec v h = ground arith
    set_number-Parsed StorageNumber.max_reqs_queued v h = ground arith
    set_number-Parsed StorageNumber.max_lag_sec v h = ground arith

    set_answer-Parsed : (i : StorageAnswer) (b : Bool) → Parsed ops (set_answer i b cfg)
    set_answer-Parsed StorageAnswer.microsecond_histograms b = ground arith
    set_answer-Parsed StorageAnswer.disable_odsync b = ground arith
    set_answer-Parsed StorageAnswer.commit_to_device b = ground arith
    set_answer-Parsed StorageAnswer.tomb_raider b = ground arith

    set_mode-Parsed :
        (mode : Text)
        → (mode ≡ text "noop") ⊎ (mode ≡ text "cfq")
        → Parsed ops (record cfg { scheduler_mode = mode })
    set_mode-Parsed mode h = ground arith

  set_item-Parsed :
      (tag rest : Text) (cfg : StorageCfg ops.Double)
      → Parsed ops cfg
      → all value_char rest ≡ true
      → Parsed ops (set_item tag rest cfg)
  unfolding set_item
  set_item-Parsed tag rest cfg p h =
      at_item (Parsed ops) tag (text "device-names") (
        set_names-Parsed cfg p _
          (parse_device_names-AreValid max_num_storage_devices cfg.device_names rest p.names h))
      or_else at_item (Parsed ops) tag (text "file-size-mbytes")
          (set_number-Parsed cfg p StorageNumber.file_size_mbytes _ (parse_uint32-small rest))
      or_else at_item (Parsed ops) tag (text "service-threads")
          (set_number-Parsed cfg p StorageNumber.service_threads _ (parse_uint32-small rest))
      or_else at_item (Parsed ops) tag (text "num-queues")
          (set_number-Parsed cfg p StorageNumber.num_queues _ (parse_uint32-small rest))
      or_else at_item (Parsed ops) tag (text "threads-per-queue")
          (set_number-Parsed cfg p StorageNumber.threads_per_queue _ (parse_uint32-small rest))
      or_else at_item (Parsed ops) tag (text "test-duration-sec")
          (set_number-Parsed cfg p StorageNumber.test_duration_sec _ (parse_uint32-small rest))
      or_else at_item (Parsed ops) tag (text "report-interval-sec")
          (set_number-Parsed cfg p StorageNumber.report_interval_sec _ (parse_uint32-small rest))
      or_else at_item (Parsed ops) tag (text "microsecond-histograms")
          (set_answer-Parsed cfg p StorageAnswer.microsecond_histograms (parse_yes_no rest))
      or_else at_item (Parsed ops) tag (text "read-reqs-per-sec")
          (set_number-Parsed cfg p StorageNumber.read_reqs_per_sec _ (parse_uint32-small rest))
      or_else at_item (Parsed ops) tag (text "write-reqs-per-sec")
          (set_number-Parsed cfg p StorageNumber.write_reqs_per_sec _ (parse_uint32-small rest))
      or_else at_item (Parsed ops) tag (text "record-bytes")
          (set_number-Parsed cfg p StorageNumber.record_bytes _ (parse_uint32-small rest))
      or_else at_item (Parsed ops) tag (text "record-bytes-range-max")
          (set_number-Parsed cfg p StorageNumber.record_bytes_range_max _ (parse_uint32-small rest))
      or_else at_item (Parsed ops) tag (text "large-block-op-kbytes")
          (set_number-Parsed cfg p StorageNumber.large_block_op_kbytes _ (parse_uint32-small rest))
      or_else at_item (Parsed ops) tag (text "replication-factor")
          (set_number-Parsed cfg p StorageNumber.replication_factor _ (parse_uint32-small rest))
      or_else at_item (Parsed ops) tag (text "update-pct")
          (set_number-Parsed cfg p StorageNumber.update_pct _ (parse_uint32-small rest))
      or_else at_item (Parsed ops) tag (text "defrag-lwm-pct")
          (set_number-Parsed cfg p StorageNumber.defrag_lwm_pct _ (parse_uint32-small rest))
      or_else at_item (Parsed ops) tag (text "disable-odsync")
          (set_answer-Parsed cfg p StorageAnswer.disable_odsync (parse_yes_no rest))
      or_else at_item (Parsed ops) tag (text "commit-to-device")
          (set_answer-Parsed cfg p StorageAnswer.commit_to_device (parse_yes_no rest))
      or_else at_item (Parsed ops) tag (text "commit-min-bytes")
          (set_number-Parsed cfg p StorageNumber.commit_min_bytes _ (parse_uint32-small rest))
      or_else at_item (Parsed ops) tag (text "tomb-raider")
          (set_answer-Parsed cfg p StorageAnswer.tomb_raider (parse_yes_no rest))
      or_else at_item (Parsed ops) tag (text "tomb-raider-sleep-usec")
          (set_number-Parsed cfg p StorageNumber.tomb_raider_sleep_usec _ (parse_uint32-small rest))
      or_else at_item (Parsed ops) tag (text "max-reqs-queued")
          (set_number-Parsed cfg p StorageNumber.max_reqs_queued _ (parse_uint32-small rest))
      or_else at_item (Parsed ops) tag (text "max-lag-sec")
          (set_number-Parsed cfg p StorageNumber.max_lag_sec _ (parse_uint32-small rest))
      or_else at_item (Parsed ops) tag (text "scheduler-mode")
          (set_mode-Parsed cfg p _ (parse_scheduler_mode-known rest))
      or_else p

  set_tagged-Parsed :
      (token : Option Text × Text) (cfg : StorageCfg ops.Double)
      → Parsed ops cfg
      → IsToken value_char (b':' ∷ white_space) token
      → Parsed ops (set_tagged set_item token cfg)
  set_tagged-Parsed (none, rest) cfg p t = p
  set_tagged-Parsed (some tag, rest) cfg p (some_bytes, bytes, h) = set_item-Parsed tag rest cfg p h

  parse_line-Parsed :
      (line : Text) (cfg : StorageCfg ops.Double)
      → Parsed ops cfg
      → Parsed ops (parse_line set_item cfg line)
  parse_line-Parsed line cfg p = subst (Parsed ops) (sym (parse_line_lem set_item cfg line)) (
      set_tagged-Parsed (tag_of line) cfg p (
        strtok-IsToken value_char (b':' ∷ white_space) (before_comment line)
          (before_comment-value line)))

  parse_lines-keeps :
      (lines : List Text) (cfg : StorageCfg ops.Double)
      → Parsed ops cfg
      → Parsed ops (parse_lines set_item cfg lines)
  parse_lines-keeps lines cfg p =
      parse_lines-induction set_item (Parsed ops) parse_line-Parsed lines cfg p

  -- Whatever lines are read, the configuration has valid names that there is room for, numbers of 32 bits
  -- in the units of the file, and one of the two schedulers.
  pub parse_lines-Parsed :
      (lines : List Text) → Parsed ops (parse_lines set_item (default_cfg ops) lines)
  parse_lines-Parsed lines = parse_lines-keeps lines (default_cfg ops) default_cfg-Parsed
