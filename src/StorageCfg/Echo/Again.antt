-- ===== src/StorageCfg/Echo/Again.antt =====
-- The configuration that act_storage prints, given to it as its file.
use act.Common.{ℕ, ◌+◌, ◌^◌, ◌≤◌, ◌<◌, ◌≡◌, sym, ap, ◌∙◌, some, arith, subst}
use act.Common.Lists.{length}
use act.Common.Text.{Text}
use act.Cfg.{accepted, ◌>>=◌}
use act.Cfg.Bind.{bind-accepted}
use act.StorageCfg.{
  StorageCfg, DoubleOps, default_cfg, check_configuration, derive_configuration, configure,
}
use act.StorageCfg.Check.{IsChecked, check_configuration-IsChecked}
use act.StorageCfg.Parse.{set_item, storage_configure}
use act.StorageCfg.Parse.RoundTrip.{StorageNumber}
use act.StorageCfg.Parse.Parsed.{set_number-Parsed, underived, Parsed, parse_lines-Parsed}
use act.StorageCfg.Echo.{echo_configuration}
use act.StorageCfg.Echo.Passed.{Echoable, PrintsNumber}
use act.StorageCfg.Echo.Kept.{
  DerivedSmall, check_again, derive_configuration-underived, derive_configuration-DerivedSmall,
}
use act.StorageCfg.Echo.RoundTrip.{parse_lines-echo_configuration, names_text-blank}
use act.Cfg.Parse.{parse_lines, read_lines}
use act.Cfg.Parse.Valid.{first_name-cases, mode-cases}
use act.Cfg.Echo.{names_line}

module _ (ops : DoubleOps) where
  -- An accepted configuration of a file can be read back.
  accepted-Echoable :
      (cfg : StorageCfg ops.Double)
      → Parsed ops (underived ops cfg)
      → 0 < cfg.num_devices
      → DerivedSmall cfg
      → length (names_line cfg.device_names) + 2 ≤ 4096
      → Echoable cfg
  accepted-Echoable cfg p some_device s fits =
      let (first, others, e) = first_name-cases cfg.device_names (omega (arith, p.count)) in
      let (cfq, mode) = mode-cases p.mode in
      let (valid, room) = rw e at p.names in
      record {
        first = first;
        others = others;
        names = e;
        count = p.count ∙ ap length e;
        room = room;
        first_name = valid.0;
        other_names = valid.1;
        fits = omega (arith, rw e at fits, ap length (names_text-blank first others));
        cfq = cfq;
        mode = mode;
        file_size = p.file_size;
        service_threads = p.service_threads;
        num_queues = p.num_queues;
        threads_per_queue = p.threads_per_queue;
        run_us = p.run_us;
        report_interval_us = p.report_interval_us;
        read_reqs_per_sec = p.read_reqs_per_sec;
        write_reqs_per_sec = p.write_reqs_per_sec;
        record_bytes = p.record_bytes;
        record_bytes_rmx = p.record_bytes_rmx;
        large_block_ops_bytes = p.large_block_ops_bytes;
        replication_factor = p.replication_factor;
        update_pct = p.update_pct;
        defrag_lwm_pct = p.defrag_lwm_pct;
        commit_min_bytes = p.commit_min_bytes;
        tomb_raider_sleep_us = p.tomb_raider_sleep_us;
        max_reqs_queued = p.max_reqs_queued;
        max_lag_usec = p.max_lag_usec;
        record_stored_bytes = s.stored;
        record_stored_bytes_rmx = s.stored_rmx;
        internal_read_reqs_per_sec = s.reads;
        internal_write_reqs_per_sec = s.writes;
        read_req_threads = s.readers;
        write_req_threads = s.writers;
      }

  module _ (cpus : ℕ) (few : cpus < 2 ^ 32) (base cfg : StorageCfg ops.Double) (p : Parsed ops base)
      (a : configure ops cpus base ≡ accepted cfg) where
    -- What an accepted configuration comes from: the check fills in the number of queues, and the
    -- derivation fills in what is derived.
    checked_parts :
        (c : StorageCfg ops.Double) × (check_configuration ops cpus base ≡ accepted c)
        × (derive_configuration ops c ≡ accepted cfg)
    unfolding configure
    checked_parts = bind-accepted (check_configuration ops cpus base) _ cfg a

    after_check :
        (c : StorageCfg ops.Double)
        → check_configuration ops cpus base ≡ accepted c
        → IsChecked c × Parsed ops c
    after_check c e =
        let (ok, same, queues) = check_configuration-IsChecked ops cpus base c e in
        (
          ok,
          subst (Parsed ops) (sym same) (
              set_number-Parsed ops base p StorageNumber.num_queues c.num_queues
                (let h = p.num_queues in omega (arith, queues))),
        )

    configure_again :
        Parsed ops (underived ops cfg)
        × (0 < cfg.num_devices)
        × DerivedSmall cfg
        × (configure ops cpus (underived ops cfg) ≡ accepted cfg)
    unfolding configure
    configure_again =
        let (c, e, d) = checked_parts in
        let (ok, q) = after_check c e in
        let same : underived ops cfg ≡ c = derive_configuration-underived ops c cfg d ∙ q.kept in
        (
          subst (Parsed ops) (sym same) q,
          subst (λ (k : StorageCfg ops.Double). 0 < k.num_devices) (sym same) ok.devices,
          derive_configuration-DerivedSmall ops c cfg q.kept q.service_threads d,
          ap (λ k. check_configuration ops cpus k >>= derive_configuration ops) same
              ∙ ap (λ m. m >>= derive_configuration ops) (check_again ops cpus c ok)
              ∙ d,
        )

  -- Where act_storage accepts a file, with fewer than 2 ^ 32 CPUs, and the names of the devices that it
  -- prints fit one line of the buffer, it accepts what it prints as well, and has the same configuration
  -- from it, with what is derived.
  pub storage_configure-echo_configuration :
      (two_places : ops.Double → Text) (cpus : ℕ) (file : Text) (cfg : StorageCfg ops.Double)
      → PrintsNumber two_places
      → cpus < 2 ^ 32
      → storage_configure ops cpus (some file) ≡ some (accepted cfg)
      → length (names_line cfg.device_names) + 2 ≤ 4096
      → storage_configure ops cpus (some (echo_configuration two_places cfg)) ≡ some (accepted cfg)
  unfolding storage_configure
  storage_configure-echo_configuration two_places cpus file cfg prints few a fits =
      let base : StorageCfg ops.Double =
        parse_lines set_item (default_cfg ops) (read_lines 4096 file) in
      let (p, some_device, s, again) =
        configure_again cpus few base cfg (parse_lines-Parsed ops (read_lines 4096 file))
          (some-injective a) in
      ap (λ c. some (configure ops cpus c))
        (parse_lines-echo_configuration ops two_places prints cfg
          (accepted-Echoable cfg p some_device s fits))
      ∙ ap some again
    where
      some-injective : {A : Type 0} {x y : A} → some x ≡ some y → x ≡ y
      some-injective e = ground (arith, e)
