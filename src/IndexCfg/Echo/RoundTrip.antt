-- ===== src/IndexCfg/Echo/RoundTrip.antt =====
-- The configuration that `echo_configuration` of act_index prints is read back as it was.
use act.Common.{
  ℕ, suc, ◌+◌, ◌*◌, ◌/◌, ◌^◌, ◌≤◌, ◌<◌, ◌≡◌, refl, sym, ap, ◌∙◌, Bool, none, some, List, [], ◌∷◌,
  arith,
}
use act.Common.Lists.{length}
use act.Common.Text.{Text, text}
use act.Common.Word.{u64}
use act.Cfg.Echo.{number_line}
use act.Cfg.Parse.{parse_lines, read_lines}
use act.Cfg.Parse.Lines.{concat_lines}
use act.Cfg.Parse.Names.{Separator, IsName, AllNames, names_text}
use act.Cfg.Parse.Values.{mode_text}
use act.Cfg.Parse.Valid.{Exact}
use act.Cfg.Parse.Items.{devices, number, answer, scheduler}
use act.Cfg.Parse.Items.Echo.{
  ◌&◌, EchoLine, setting, passed, line_texts, apply_lines, AreLines, number-Passes, tagged-Passes,
  parse_lines-concat_lines,
}
use act.IndexCfg.{IndexCfg, default_icfg}
use act.IndexCfg.Parse.{set_item, max_num_index_devices}
use act.IndexCfg.Parse.Parsed.{underived}
use act.IndexCfg.Parse.RoundTrip.{IndexNumber, IndexAnswer, index_items}
use act.IndexCfg.Echo.{echo_lines, echo_configuration}
use act.StorageCfg.Echo.RoundTrip.{names_text-blank}

-- The configurations that are read back: the names are those of a file and fit a line, the numbers have
-- 32 bits in the units of the file, and the scheduler is one of the two.
pub record Echoable (cfg : IndexCfg) : Type 0 where
  pub first : Text
  pub others : List Text
  pub names : cfg.device_names ≡ first ∷ others
  pub count : cfg.num_devices ≡ suc (length others)
  pub room : suc (length others) ≤ max_num_index_devices
  pub first_name : IsName first
  pub other_names : AllNames others
  pub fits : length (names_text Separator.blank first others) + 16 ≤ 1024
  pub cfq : Bool
  pub mode : cfg.scheduler_mode ≡ mode_text cfq
  pub service_threads : cfg.service_threads < 2 ^ 32
  pub num_queues : cfg.num_queues < 2 ^ 32
  pub threads_per_queue : cfg.threads_per_queue < 2 ^ 32
  pub cache_threads : cfg.cache_threads < 2 ^ 32
  pub run_us : Exact 1000000 cfg.run_us
  pub report_interval_us : Exact 1000000 cfg.report_interval_us
  pub read_reqs_per_sec : cfg.read_reqs_per_sec < 2 ^ 32
  pub write_reqs_per_sec : cfg.write_reqs_per_sec < 2 ^ 32
  pub replication_factor : cfg.replication_factor < 2 ^ 32
  pub defrag_lwm_pct : cfg.defrag_lwm_pct < 2 ^ 32
  pub max_reqs_queued : cfg.max_reqs_queued < 2 ^ 32
  pub max_lag_usec : Exact 1000000 cfg.max_lag_usec
  pub trans_thread_reads_per_sec : cfg.trans_thread_reads_per_sec < 2 ^ 64
  pub cache_thread_reads_and_writes_per_sec : cfg.cache_thread_reads_and_writes_per_sec < 2 ^ 64

abbrev echoed : (cfg : IndexCfg) → Echoable cfg → List (EchoLine IndexNumber IndexAnswer)
echoed cfg e =
    passed (text "ACT-INDEX CONFIGURATION")
    ∷ setting (devices Separator.blank e.first e.others)
    ∷ passed (number_line (text "num-devices") cfg.num_devices)
    ∷ setting (number IndexNumber.service_threads cfg.service_threads)
    ∷ setting (number IndexNumber.num_queues cfg.num_queues)
    ∷ setting (number IndexNumber.threads_per_queue cfg.threads_per_queue)
    ∷ setting (number IndexNumber.cache_threads cfg.cache_threads)
    ∷ setting (number IndexNumber.test_duration_sec (cfg.run_us / 1000000))
    ∷ setting (number IndexNumber.report_interval_sec (cfg.report_interval_us / 1000000))
    ∷ setting (answer IndexAnswer.microsecond_histograms cfg.us_histograms)
    ∷ setting (number IndexNumber.read_reqs_per_sec cfg.read_reqs_per_sec)
    ∷ setting (number IndexNumber.write_reqs_per_sec cfg.write_reqs_per_sec)
    ∷ setting (number IndexNumber.replication_factor cfg.replication_factor)
    ∷ setting (number IndexNumber.defrag_lwm_pct cfg.defrag_lwm_pct)
    ∷ setting (answer IndexAnswer.disable_odsync cfg.disable_odsync)
    ∷ setting (number IndexNumber.max_reqs_queued cfg.max_reqs_queued)
    ∷ setting (number IndexNumber.max_lag_sec (cfg.max_lag_usec / 1000000))
    ∷ setting (scheduler e.cfq)
    ∷ passed []
    ∷ passed (text "DERIVED CONFIGURATION")
    ∷ passed (number_line (text "trans-thread-reads-per-sec") cfg.trans_thread_reads_per_sec)
    ∷ passed (
        number_line (text "cache-thread-reads-and-writes-per-sec")
          cfg.cache_thread_reads_and_writes_per_sec)
    ∷ passed []
    ∷ []

echoed-texts :
    (cfg : IndexCfg) (e : Echoable cfg) → line_texts index_items (echoed cfg e) ≡ echo_lines cfg
echoed-texts cfg e = simp (e.names, e.mode, names_text-blank) refl

echoed-AreLines :
    (cfg : IndexCfg) (e : Echoable cfg) → AreLines index_items (echoed cfg e) default_icfg
unfolding set_item
echoed-AreLines cfg e =
    tagged-Passes index_items (text "ACT-INDEX CONFIGURATION") (some (text "ACT-INDEX"))
      (text "CONFIGURATION\n") (refl, omega arith) refl (λ k. refl)
    & (e.first_name, e.other_names, (let h = e.room in omega arith), e.fits)
    & number-Passes index_items (text "num-devices") cfg.num_devices (refl, omega arith)
        (let h = e.room in let n = e.count in omega arith) (λ r k. refl)
    & e.service_threads
    & e.num_queues
    & e.threads_per_queue
    & e.cache_threads
    & e.run_us.0
    & e.report_interval_us.0
    & tt
    & e.read_reqs_per_sec
    & e.write_reqs_per_sec
    & e.replication_factor
    & e.defrag_lwm_pct
    & tt
    & e.max_reqs_queued
    & e.max_lag_usec.0
    & tt
    & tagged-Passes index_items [] none [] (refl, omega arith) refl (λ k. refl)
    & tagged-Passes index_items (text "DERIVED CONFIGURATION") (some (text "DERIVED"))
        (text "CONFIGURATION\n") (refl, omega arith) refl (λ k. refl)
    & number-Passes index_items (text "trans-thread-reads-per-sec") cfg.trans_thread_reads_per_sec
        (refl, omega arith) e.trans_thread_reads_per_sec (λ r k. refl)
    & number-Passes index_items (text "cache-thread-reads-and-writes-per-sec")
        cfg.cache_thread_reads_and_writes_per_sec (refl, omega arith)
        e.cache_thread_reads_and_writes_per_sec (λ r k. refl)
    & tagged-Passes index_items [] none [] (refl, omega arith) refl (λ k. refl)
    & tt

echoed-apply_lines :
    (cfg : IndexCfg) (e : Echoable cfg)
    → apply_lines index_items (echoed cfg e) default_icfg ≡ underived cfg
echoed-apply_lines cfg e = λ i. record (underived cfg) {
  device_names = sym e.names i;
  num_devices = sym e.count i;
  run_us = exact_64 cfg.run_us e.run_us i;
  report_interval_us = exact_64 cfg.report_interval_us e.report_interval_us i;
  max_lag_usec = exact_64 cfg.max_lag_usec e.max_lag_usec i;
  scheduler_mode = sym e.mode i;
}
  where
    exact_64 : (n : ℕ) → Exact 1000000 n → u64 (n / 1000000 * 1000000) ≡ n
    exact_64 n (small, exact) = omega arith

-- A configuration with valid names that fit a line, numbers of 32 bits in the units of the file and a
-- known scheduler is read back from what `echo_configuration` prints, but for what is derived, which the
-- reader passes over.
pub parse_lines-echo_configuration :
    (cfg : IndexCfg)
    → Echoable cfg
    → parse_lines set_item default_icfg (read_lines 1024 (echo_configuration cfg)) ≡ underived cfg
unfolding echo_configuration
parse_lines-echo_configuration cfg e =
    ap (λ l. parse_lines set_item default_icfg (read_lines 1024 (concat_lines l)))
      (sym (echoed-texts cfg e))
    ∙ parse_lines-concat_lines index_items (echoed cfg e) default_icfg (echoed-AreLines cfg e)
    ∙ echoed-apply_lines cfg e
