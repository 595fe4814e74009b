-- ===== src/IndexCfg/Echo/Again.antt =====
-- The configuration that act_index prints, given to it as its file.
use act.Common.{
  ℕ, ◌+◌, ◌*◌, ◌^◌, ◌≤◌, ◌<◌, ◌≡◌, refl, sym, ap, ◌∙◌, false, some, arith, ◌==◌, leb, subst,
}
use act.Common.Lists.{length}
use act.Common.Text.{Text}
use act.Common.Word.{u32, sub32}
use act.Cfg.{accepted, ◌>>=◌}
use act.Cfg.Bind.{bind-accepted}
use act.Cfg.Echo.{names_line}
use act.Cfg.Parse.{parse_lines, read_lines}
use act.StorageCfg.{DoubleOps}
use act.StorageCfg.Echo.RoundTrip.{names_text-blank}
use act.Cfg.Parse.Valid.{first_name-cases, mode-cases}
use act.IndexCfg.{IndexCfg, default_icfg, check_index, derive_index, configure_index}
use act.IndexCfg.Check.{IsChecked, check_index-IsChecked}
use act.IndexCfg.Parse.{set_item, index_configure}
use act.IndexCfg.Parse.Parsed.{underived, Parsed, set_number-Parsed, parse_lines-Parsed}
use act.IndexCfg.Parse.RoundTrip.{IndexNumber}
use act.IndexCfg.Echo.{echo_configuration}
use act.IndexCfg.Echo.RoundTrip.{Echoable, parse_lines-echo_configuration}

-- A configuration that meets every condition is accepted as it is.
module _ (cpus : ℕ) (cfg : IndexCfg) (c : IsChecked cfg) where
  check_again : check_index cpus cfg ≡ accepted cfg
  unfolding check_index
  check_again =
      let devices : (cfg.num_devices == 0) ≡ false = ground (arith, c.devices) in
      let services : (cfg.service_threads == 0) ≡ false = ground (arith, c.services) in
      let queues : (cfg.num_queues == 0) ≡ false = ground (arith, c.queues) in
      let threads : (cfg.threads_per_queue == 0) ≡ false = ground (arith, c.threads) in
      let caches : (cfg.cache_threads == 0) ≡ false = ground (arith, c.caches) in
      let runs : (cfg.run_us == 0) ≡ false = ground (arith, c.runs) in
      let reports : (cfg.report_interval_us == 0) ≡ false = ground (arith, c.reports) in
      let replicas : (cfg.replication_factor == 0) ≡ false = ground (arith, c.replicas) in
      let defrag : leb 100 cfg.defrag_lwm_pct ≡ false = ground (arith, c.defrag) in
      rw (devices, services, queues, threads, caches, runs, reports, replicas, defrag)
        (rw (queues) refl)

-- The check changes nothing but the number of queues.
check_index-keeps :
    (cpus : ℕ) (cfg cfg' : IndexCfg)
    → check_index cpus cfg ≡ accepted cfg'
    → cfg' ≡ record cfg { num_queues = cfg'.num_queues }
unfolding check_index
check_index-keeps cpus cfg cfg' e = ground arith

module _ (ops : DoubleOps) (to_u64 : ops.Double → ℕ)
    (wide : (x : ops.Double) → to_u64 x < 2 ^ 64) where
  -- The derivation changes nothing but what is derived.
  derive_index-underived :
      (cfg cfg' : IndexCfg)
      → derive_index ops to_u64 cfg ≡ accepted cfg'
      → underived cfg' ≡ underived cfg
  unfolding derive_index
  derive_index-underived cfg cfg' e = ground arith

  derive_index-small :
      (cfg cfg' : IndexCfg)
      → derive_index ops to_u64 cfg ≡ accepted cfg'
      → (cfg'.trans_thread_reads_per_sec < 2 ^ 64)
        × (cfg'.cache_thread_reads_and_writes_per_sec < 2 ^ 64)
  unfolding derive_index
  derive_index-small cfg cfg' e = ground (
    arith,
    wide (
        ops.mul (ops.of_ℕ (u32 (cfg.replication_factor * cfg.write_reqs_per_sec)))
          (ops.div (ops.of_ℕ 100) (ops.of_ℕ (sub32 100 cfg.defrag_lwm_pct)))),
  )

  -- An accepted configuration of a file can be read back.
  accepted-Echoable :
      (cfg : IndexCfg)
      → Parsed (underived cfg)
      → 0 < cfg.num_devices
      → (cfg.trans_thread_reads_per_sec < 2 ^ 64)
        × (cfg.cache_thread_reads_and_writes_per_sec < 2 ^ 64)
      → length (names_line cfg.device_names) + 2 ≤ 1024
      → Echoable cfg
  accepted-Echoable cfg p some_device s fits =
      let (first, others, e) = first_name-cases cfg.device_names (omega (arith, p.count)) in
      let (cfq, mode) = mode-cases p.mode in
      let (valid, room) = rw e at p.names in
      record {
        first = first;
        others = others;
        names = e;
        count = p.count ∙ ap length e;
        room = room;
        first_name = valid.0;
        other_names = valid.1;
        fits = omega (arith, rw e at fits, ap length (names_text-blank first others));
        cfq = cfq;
        mode = mode;
        service_threads = p.service_threads;
        num_queues = p.num_queues;
        threads_per_queue = p.threads_per_queue;
        cache_threads = p.cache_threads;
        run_us = p.run_us;
        report_interval_us = p.report_interval_us;
        read_reqs_per_sec = p.read_reqs_per_sec;
        write_reqs_per_sec = p.write_reqs_per_sec;
        replication_factor = p.replication_factor;
        defrag_lwm_pct = p.defrag_lwm_pct;
        max_reqs_queued = p.max_reqs_queued;
        max_lag_usec = p.max_lag_usec;
        trans_thread_reads_per_sec = s.0;
        cache_thread_reads_and_writes_per_sec = s.1;
      }

  module _ (cpus : ℕ) (few : cpus < 2 ^ 32) (base cfg : IndexCfg) (p : Parsed base)
      (a : configure_index ops to_u64 cpus base ≡ accepted cfg) where
    after_check : (c : IndexCfg) → check_index cpus base ≡ accepted c → IsChecked c × Parsed c
    after_check c e =
        let (ok, queues) = check_index-IsChecked cpus base c e in
        (
          ok,
          subst Parsed (sym (check_index-keeps cpus base c e)) (
              set_number-Parsed base p IndexNumber.num_queues c.num_queues
                (let h = p.num_queues in omega (arith, queues))),
        )

    configure_again :
        Parsed (underived cfg)
        × (0 < cfg.num_devices)
        × ((cfg.trans_thread_reads_per_sec < 2 ^ 64)
            × (cfg.cache_thread_reads_and_writes_per_sec < 2 ^ 64))
        × (configure_index ops to_u64 cpus (underived cfg) ≡ accepted cfg)
    unfolding configure_index
    configure_again =
        let (c, e, d) = bind-accepted (check_index cpus base) (derive_index ops to_u64) cfg a in
        let (ok, q) = after_check c e in
        let same : underived cfg ≡ c = derive_index-underived c cfg d ∙ q.kept in
        (
          subst Parsed (sym same) q,
          subst (λ (k : IndexCfg). 0 < k.num_devices) (sym same) ok.devices,
          derive_index-small c cfg d,
          ap (λ k. check_index cpus k >>= derive_index ops to_u64) same
              ∙ ap (λ m. m >>= derive_index ops to_u64) (check_again cpus c ok)
              ∙ d,
        )

  -- Where act_index accepts a file, with fewer than 2 ^ 32 CPUs, the rate of the cache threads fits 64
  -- bits, and the names of the devices that it prints fit one line of the buffer, it accepts what it
  -- prints as well, and has the same configuration from it, with what is derived.
  pub index_configure-echo_configuration :
      (cpus : ℕ) (file : Text) (cfg : IndexCfg)
      → cpus < 2 ^ 32
      → index_configure ops to_u64 cpus (some file) ≡ some (accepted cfg)
      → length (names_line cfg.device_names) + 2 ≤ 1024
      → index_configure ops to_u64 cpus (some (echo_configuration cfg)) ≡ some (accepted cfg)
  unfolding index_configure
  index_configure-echo_configuration cpus file cfg few a fits =
      let base : IndexCfg = parse_lines set_item default_icfg (read_lines 1024 file) in
      let (p, some_device, s, again) =
        configure_again cpus few base cfg (parse_lines-Parsed (read_lines 1024 file))
          (some-injective a) in
      ap (λ c. some (configure_index ops to_u64 cpus c))
        (parse_lines-echo_configuration cfg (accepted-Echoable cfg p some_device s fits))
      ∙ ap some again
    where
      some-injective : {A : Type 0} {x y : A} → some x ≡ some y → x ≡ y
      some-injective e = ground (arith, e)
