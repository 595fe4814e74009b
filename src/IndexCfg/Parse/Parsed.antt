-- ===== src/IndexCfg/Parse/Parsed.antt =====
-- What holds of any configuration of act_index that was read from a file.
use act.Common.{ℕ, ◌^◌, ◌<◌, ◌≡◌, ◌⊎◌, sym, subst, Bool, true, Option, none, some, List, ◌∷◌, arith}
use act.Common.Lists.{length}
use act.Common.Text.{Text, text}
use act.Common.Text.Tokens.{all}
use act.Cfg.Parse.{
  parse_yes_no, parse_lines, parse_line, set_tagged, tag_of, white_space, before_comment,
}
use act.Cfg.Parse.Valid.{
  Exact, ◌or_else◌, at_item, parse_lines-induction, parse_line_lem, AreValid, IsToken, value_char,
  strtok-IsToken, before_comment-value, parse_device_names-AreValid, parse_uint32-small,
  parse_scheduler_mode-known,
}
use act.IndexCfg.{IndexCfg, default_icfg}
use act.IndexCfg.Parse.RoundTrip.{IndexNumber, IndexAnswer, set_number, set_answer}
use act.IndexCfg.Parse.{set_names, set_item, max_num_index_devices}

-- The configuration without what is derived.
abbrev pub underived : IndexCfg → IndexCfg
underived cfg = record cfg {
  trans_thread_reads_per_sec = 0;
  cache_thread_reads_and_writes_per_sec = 0;
}

-- Valid names that there is room for, numbers of 32 bits in the units of the file, one of the two
-- schedulers, and nothing derived yet.
pub record Parsed (cfg : IndexCfg) : Type 0 where
  pub names : AreValid max_num_index_devices cfg.device_names
  pub count : cfg.num_devices ≡ length cfg.device_names
  pub mode : (cfg.scheduler_mode ≡ text "noop") ⊎ (cfg.scheduler_mode ≡ text "cfq")
  pub service_threads : cfg.service_threads < 2 ^ 32
  pub num_queues : cfg.num_queues < 2 ^ 32
  pub threads_per_queue : cfg.threads_per_queue < 2 ^ 32
  pub cache_threads : cfg.cache_threads < 2 ^ 32
  pub run_us : Exact 1000000 cfg.run_us
  pub report_interval_us : Exact 1000000 cfg.report_interval_us
  pub read_reqs_per_sec : cfg.read_reqs_per_sec < 2 ^ 32
  pub write_reqs_per_sec : cfg.write_reqs_per_sec < 2 ^ 32
  pub replication_factor : cfg.replication_factor < 2 ^ 32
  pub defrag_lwm_pct : cfg.defrag_lwm_pct < 2 ^ 32
  pub max_reqs_queued : cfg.max_reqs_queued < 2 ^ 32
  pub max_lag_usec : Exact 1000000 cfg.max_lag_usec
  pub kept : underived cfg ≡ cfg

default_icfg-Parsed : Parsed (default_icfg)
default_icfg-Parsed = ground arith

module _ (cfg : IndexCfg) (p : Parsed cfg) where
  set_names-Parsed :
      (names : List Text) → AreValid max_num_index_devices names → Parsed (set_names names cfg)
  set_names-Parsed names v = ground arith

  pub set_number-Parsed : (i : IndexNumber) (v : ℕ) → v < 2 ^ 32 → Parsed (set_number i v cfg)
  set_number-Parsed IndexNumber.service_threads v h = ground arith
  set_number-Parsed IndexNumber.num_queues v h = ground arith
  set_number-Parsed IndexNumber.threads_per_queue v h = ground arith
  set_number-Parsed IndexNumber.cache_threads v h = ground arith
  set_number-Parsed IndexNumber.test_duration_sec v h = ground arith
  set_number-Parsed IndexNumber.report_interval_sec v h = ground arith
  set_number-Parsed IndexNumber.read_reqs_per_sec v h = ground arith
  set_number-Parsed IndexNumber.write_reqs_per_sec v h = ground arith
  set_number-Parsed IndexNumber.replication_factor v h = ground arith
  set_number-Parsed IndexNumber.defrag_lwm_pct v h = ground arith
  set_number-Parsed IndexNumber.max_reqs_queued v h = ground arith
  set_number-Parsed IndexNumber.max_lag_sec v h = ground arith

  set_answer-Parsed : (i : IndexAnswer) (b : Bool) → Parsed (set_answer i b cfg)
  set_answer-Parsed IndexAnswer.microsecond_histograms b = ground arith
  set_answer-Parsed IndexAnswer.disable_odsync b = ground arith

  set_mode-Parsed :
      (mode : Text)
      → (mode ≡ text "noop") ⊎ (mode ≡ text "cfq")
      → Parsed (record cfg { scheduler_mode = mode })
  set_mode-Parsed mode h = ground arith

set_item-Parsed :
    (tag rest : Text) (cfg : IndexCfg)
    → Parsed cfg
    → all value_char rest ≡ true
    → Parsed (set_item tag rest cfg)
unfolding set_item
set_item-Parsed tag rest cfg p h =
    at_item Parsed tag (text "device-names") (
      set_names-Parsed cfg p _
        (parse_device_names-AreValid max_num_index_devices cfg.device_names rest p.names h))
    or_else at_item Parsed tag (text "service-threads")
        (set_number-Parsed cfg p IndexNumber.service_threads _ (parse_uint32-small rest))
    or_else at_item Parsed tag (text "num-queues")
        (set_number-Parsed cfg p IndexNumber.num_queues _ (parse_uint32-small rest))
    or_else at_item Parsed tag (text "threads-per-queue")
        (set_number-Parsed cfg p IndexNumber.threads_per_queue _ (parse_uint32-small rest))
    or_else at_item Parsed tag (text "cache-threads")
        (set_number-Parsed cfg p IndexNumber.cache_threads _ (parse_uint32-small rest))
    or_else at_item Parsed tag (text "test-duration-sec")
        (set_number-Parsed cfg p IndexNumber.test_duration_sec _ (parse_uint32-small rest))
    or_else at_item Parsed tag (text "report-interval-sec")
        (set_number-Parsed cfg p IndexNumber.report_interval_sec _ (parse_uint32-small rest))
    or_else at_item Parsed tag (text "microsecond-histograms")
        (set_answer-Parsed cfg p IndexAnswer.microsecond_histograms (parse_yes_no rest))
    or_else at_item Parsed tag (text "read-reqs-per-sec")
        (set_number-Parsed cfg p IndexNumber.read_reqs_per_sec _ (parse_uint32-small rest))
    or_else at_item Parsed tag (text "write-reqs-per-sec")
        (set_number-Parsed cfg p IndexNumber.write_reqs_per_sec _ (parse_uint32-small rest))
    or_else at_item Parsed tag (text "replication-factor")
        (set_number-Parsed cfg p IndexNumber.replication_factor _ (parse_uint32-small rest))
    or_else at_item Parsed tag (text "defrag-lwm-pct")
        (set_number-Parsed cfg p IndexNumber.defrag_lwm_pct _ (parse_uint32-small rest))
    or_else at_item Parsed tag (text "disable-odsync")
        (set_answer-Parsed cfg p IndexAnswer.disable_odsync (parse_yes_no rest))
    or_else at_item Parsed tag (text "max-reqs-queued")
        (set_number-Parsed cfg p IndexNumber.max_reqs_queued _ (parse_uint32-small rest))
    or_else at_item Parsed tag (text "max-lag-sec")
        (set_number-Parsed cfg p IndexNumber.max_lag_sec _ (parse_uint32-small rest))
    or_else at_item Parsed tag (text "scheduler-mode")
        (set_mode-Parsed cfg p _ (parse_scheduler_mode-known rest))
    or_else p

set_tagged-Parsed :
    (token : Option Text × Text) (cfg : IndexCfg)
    → Parsed cfg
    → IsToken value_char (b':' ∷ white_space) token
    → Parsed (set_tagged set_item token cfg)
set_tagged-Parsed (none, rest) cfg p t = p
set_tagged-Parsed (some tag, rest) cfg p (some_bytes, bytes, h) = set_item-Parsed tag rest cfg p h

parse_line-Parsed :
    (line : Text) (cfg : IndexCfg) → Parsed cfg → Parsed (parse_line set_item cfg line)
parse_line-Parsed line cfg p = subst Parsed (sym (parse_line_lem set_item cfg line)) (
    set_tagged-Parsed (tag_of line) cfg p (
      strtok-IsToken value_char (b':' ∷ white_space) (before_comment line)
        (before_comment-value line)))

parse_lines-keeps :
    (lines : List Text) (cfg : IndexCfg) → Parsed cfg → Parsed (parse_lines set_item cfg lines)
parse_lines-keeps lines cfg p = parse_lines-induction set_item Parsed parse_line-Parsed lines cfg p

-- Whatever lines are read, the configuration has valid names that there is room for, numbers of 32 bits
-- in the units of the file, and one of the two schedulers.
pub parse_lines-Parsed : (lines : List Text) → Parsed (parse_lines set_item (default_icfg) lines)
parse_lines-Parsed lines = parse_lines-keeps lines (default_icfg) default_icfg-Parsed
