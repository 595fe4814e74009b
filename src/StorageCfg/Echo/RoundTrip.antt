-- ===== src/StorageCfg/Echo/RoundTrip.antt =====
-- The configuration that `echo_configuration` prints is read back as it was.
use mathlib.Core.List.{append-nil}
use act.Common.{
  ℕ, ◌*◌, ◌/◌, ◌^◌, ◌<◌, ◌≡◌, refl, sym, ap, ◌∙◌, Bool, List, [], ◌∷◌, ◌++◌, some, arith, ◌==◌,
  if◌then◌else◌, Bool-cases, ==→eq, inl, inr,
}
use act.Common.Text.{Text, text}
use act.Common.Word.{u64, u32}
use act.Cfg.Parse.{parse_lines, read_lines}
use act.Cfg.Parse.Lines.{concat_lines}
use act.Cfg.Parse.Names.{Separator, names_text}
use act.Cfg.Parse.Items.{devices, number, answer, scheduler}
use act.Cfg.Parse.Items.Echo.{
  ◌&◌, setting, passed, line_texts, apply_lines, number-Passes, tagged-Passes,
  parse_lines-concat_lines,
}
use act.Cfg.Echo.{number_line, print_names}
use act.StorageCfg.{StorageCfg, DoubleOps, default_cfg}
use act.StorageCfg.Parse.{set_item, set_names}
use act.Cfg.Parse.Valid.{Exact}
use act.StorageCfg.Parse.Parsed.{underived}
use act.StorageCfg.Parse.RoundTrip.{StorageNumber, StorageAnswer, storage_items}
use act.StorageCfg.Echo.{file_size_line, echo_lines, echo_configuration}
use act.StorageCfg.Echo.Passed.{PrintsNumber, Echoable, Line, AreEchoed, derived, derived-AreEchoed}

pub names_text-blank :
    (n : Text) (ns : List Text) → names_text Separator.blank n ns ≡ n ++ print_names ns
names_text-blank n [] = sym (append-nil n)
names_text-blank n (m ∷ ns) = ap (λ t. n ++ (b' ' ∷ t)) (names_text-blank m ns)

-- The line of the size of files stands before `lines`, or is left out.
abbrev with_size : ℕ → List Line → List Line
with_size n lines =
    if n == 0 then lines else setting (number StorageNumber.file_size_mbytes (n / 2 ^ 20)) ∷ lines

module _ (ops : DoubleOps) (two_places : ops.Double → Text) (prints : PrintsNumber two_places) where
  abbrev after_size : StorageCfg ops.Double → Bool → List Line
  after_size cfg cfq =
      setting (number StorageNumber.service_threads cfg.service_threads)
      ∷ setting (number StorageNumber.num_queues cfg.num_queues)
      ∷ setting (number StorageNumber.threads_per_queue cfg.threads_per_queue)
      ∷ setting (number StorageNumber.test_duration_sec (cfg.run_us / 1000000))
      ∷ setting (number StorageNumber.report_interval_sec (cfg.report_interval_us / 1000000))
      ∷ setting (answer StorageAnswer.microsecond_histograms cfg.us_histograms)
      ∷ setting (number StorageNumber.read_reqs_per_sec cfg.read_reqs_per_sec)
      ∷ setting (number StorageNumber.write_reqs_per_sec cfg.write_reqs_per_sec)
      ∷ setting (number StorageNumber.record_bytes cfg.record_bytes)
      ∷ setting (number StorageNumber.record_bytes_range_max cfg.record_bytes_rmx)
      ∷ setting (number StorageNumber.large_block_op_kbytes (cfg.large_block_ops_bytes / 1024))
      ∷ setting (number StorageNumber.replication_factor cfg.replication_factor)
      ∷ setting (number StorageNumber.update_pct cfg.update_pct)
      ∷ setting (number StorageNumber.defrag_lwm_pct cfg.defrag_lwm_pct)
      ∷ setting (answer StorageAnswer.disable_odsync cfg.disable_odsync)
      ∷ setting (answer StorageAnswer.commit_to_device cfg.commit_to_device)
      ∷ setting (number StorageNumber.commit_min_bytes cfg.commit_min_bytes)
      ∷ setting (answer StorageAnswer.tomb_raider cfg.tomb_raider)
      ∷ setting (number StorageNumber.tomb_raider_sleep_usec cfg.tomb_raider_sleep_us)
      ∷ setting (number StorageNumber.max_reqs_queued cfg.max_reqs_queued)
      ∷ setting (number StorageNumber.max_lag_sec (cfg.max_lag_usec / 1000000))
      ∷ setting (scheduler cfq)
      ∷ derived two_places prints cfg

  abbrev echoed : (cfg : StorageCfg ops.Double) → Echoable cfg → List Line
  echoed cfg e =
      passed (text "ACT-STORAGE CONFIGURATION")
      ∷ setting (devices Separator.blank e.first e.others)
      ∷ passed (number_line (text "num-devices") cfg.num_devices)
      ∷ with_size cfg.file_size (after_size cfg e.cfq)

  with_size-texts :
      (n : ℕ) (lines : List Line)
      → line_texts (storage_items {Double = ops.Double}) (with_size n lines)
        ≡ file_size_line n (line_texts (storage_items {Double = ops.Double}) lines)
  with_size-texts n lines = elim (Bool-cases (n == 0)) [ inl e ↦ rw e refl | inr ne ↦ rw ne refl ]

  echoed-texts :
      (cfg : StorageCfg ops.Double) (e : Echoable cfg)
      → line_texts (storage_items {Double = ops.Double}) (echoed cfg e) ≡ echo_lines two_places cfg
  echoed-texts cfg e =
      ap
        (λ l.
          text "ACT-STORAGE CONFIGURATION"
          ∷ (text "device-names: " ++ names_text Separator.blank e.first e.others)
          ∷ number_line (text "num-devices") cfg.num_devices
          ∷ l)
        (with_size-texts cfg.file_size (after_size cfg e.cfq))
      ∙ simp (e.names, e.mode, names_text-blank) refl

  after_size-AreEchoed :
      (cfg : StorageCfg ops.Double) (e : Echoable cfg) (c : StorageCfg ops.Double)
      → AreEchoed two_places prints (after_size cfg e.cfq) c
  after_size-AreEchoed cfg e c =
      e.service_threads
      & e.num_queues
      & e.threads_per_queue
      & e.run_us.0
      & e.report_interval_us.0
      & tt
      & e.read_reqs_per_sec
      & e.write_reqs_per_sec
      & e.record_bytes
      & e.record_bytes_rmx
      & e.large_block_ops_bytes.0.0
      & e.replication_factor
      & e.update_pct
      & e.defrag_lwm_pct
      & tt
      & tt
      & e.commit_min_bytes
      & tt
      & e.tomb_raider_sleep_us
      & e.max_reqs_queued
      & e.max_lag_usec.0
      & tt
      & derived-AreEchoed two_places prints cfg c e

  with_size-AreEchoed :
      (n : ℕ) (lines : List Line) (c : StorageCfg ops.Double)
      → n / 2 ^ 20 < 2 ^ 32
      → ((c' : StorageCfg ops.Double) → AreEchoed two_places prints lines c')
      → AreEchoed two_places prints (with_size n lines) c
  with_size-AreEchoed n lines c h all = elim (Bool-cases (n == 0)) [
    | inl e ↦ rw e (all c)
    | inr ne ↦ rw ne (h, all (record c { file_size = u64 (n / 2 ^ 20 * 2 ^ 20) }))
  ]

  with_size-apply_lines :
      (n : ℕ) (lines : List Line) (c : StorageCfg ops.Double)
      → Exact (2 ^ 20) n
      → c.file_size ≡ 0
      → apply_lines storage_items (with_size n lines) c
        ≡ apply_lines storage_items lines (record c { file_size = n })
  with_size-apply_lines n lines c (small, exact) before = elim (Bool-cases (n == 0)) [
    | inl e ↦
        let size : c.file_size ≡ n = omega (arith, before, ==→eq n 0 e) in
        rw e (λ i. apply_lines storage_items lines (record c { file_size = size i }))
    | inr ne ↦
        rw ne (ap (λ k. apply_lines storage_items lines (record c { file_size = k })) (omega arith))
  ]

  echoed-AreEchoed :
      (cfg : StorageCfg ops.Double) (e : Echoable cfg)
      → AreEchoed two_places prints (echoed cfg e) (default_cfg ops)
  unfolding default_cfg set_item
  echoed-AreEchoed cfg e =
      tagged-Passes storage_items (text "ACT-STORAGE CONFIGURATION") (some (text "ACT-STORAGE"))
        (text "CONFIGURATION\n") (refl, omega arith) refl (λ k. refl)
      & (e.first_name, e.other_names, (let h = e.room in omega arith), e.fits)
      & number-Passes storage_items (text "num-devices") cfg.num_devices (refl, omega arith)
          (let h = e.room in let n = e.count in omega arith) (λ r k. refl)
      & with_size-AreEchoed cfg.file_size (after_size cfg e.cfq) _ e.file_size.0
          (after_size-AreEchoed cfg e)

  after_size-apply_lines :
      (cfg : StorageCfg ops.Double) (e : Echoable cfg)
      → apply_lines storage_items
          (after_size cfg e.cfq)
          (record (set_names (e.first ∷ e.others) (default_cfg ops)) { file_size = cfg.file_size })
        ≡ underived ops cfg
  unfolding default_cfg
  after_size-apply_lines cfg e = λ i. record (underived ops cfg) {
    device_names = sym e.names i;
    num_devices = sym e.count i;
    run_us = exact_64 cfg.run_us e.run_us i;
    report_interval_us = exact_64 cfg.report_interval_us e.report_interval_us i;
    large_block_ops_bytes = exact_32 e.large_block_ops_bytes i;
    max_lag_usec = exact_64 cfg.max_lag_usec e.max_lag_usec i;
    scheduler_mode = sym e.mode i;
  }
    where
      exact_64 : (n : ℕ) → Exact 1000000 n → u64 (n / 1000000 * 1000000) ≡ n
      exact_64 n (small, exact) = omega arith

      exact_32 : {n : ℕ} → Exact 1024 n × (n < 2 ^ 32) → u32 (n / 1024 * 1024) ≡ n
      exact_32 ((small, exact), h) = omega arith

  -- A configuration with valid names that fit a line, numbers of 32 bits in the units of the file and a
  -- known scheduler is read back from what `echo_configuration` prints, but for what is derived, which
  -- the reader passes over.
  pub parse_lines-echo_configuration :
      (cfg : StorageCfg ops.Double)
      → Echoable cfg
      → parse_lines set_item (default_cfg ops) (read_lines 4096 (echo_configuration two_places cfg))
        ≡ underived ops cfg
  unfolding echo_configuration default_cfg
  parse_lines-echo_configuration cfg e =
      ap (λ l. parse_lines set_item (default_cfg ops) (read_lines 4096 (concat_lines l)))
        (sym (echoed-texts cfg e))
      ∙ parse_lines-concat_lines storage_items (echoed cfg e) (default_cfg ops)
          (echoed-AreEchoed cfg e)
      ∙ with_size-apply_lines cfg.file_size (after_size cfg e.cfq)
          (set_names (e.first ∷ e.others) (default_cfg ops)) e.file_size refl
      ∙ after_size-apply_lines cfg e
