-- ===== src/Tests/Parses.antt =====
-- Configuration files at concrete inputs.
use act.Common.{ℕ, ◌≡◌, refl, ap, ◌∙◌, true, false, some, List, [], ◌∷◌, arith}
use act.Common.Text.{Text, text}
use act.Cfg.Parse.Items.{
  Setting, devices, number, answer, scheduler, AreSettings, apply_all, print_file,
}
use act.Cfg.Parse.Names.{Separator}
use act.IndexCfg.{default_icfg, configure_index}
use act.IndexCfg.Parse.{index_configure}
use act.IndexCfg.Parse.RoundTrip.{IndexNumber, IndexAnswer, index_items, index_configure-print_file}
use act.Cfg.{accepted}
use act.IndexCfg.{IndexCfg, check_index, derive_index}
use act.IndexCfg.Echo as IndexEcho
use act.IndexCfg.Echo.Again.{index_configure-echo_configuration}
use act.StorageCfg.Echo as StorageEcho
use act.StorageCfg.Echo.Passed.{PrintsNumber}
use act.StorageCfg.Echo.Again.{storage_configure-echo_configuration}
use act.StorageCfg.{
  StorageCfg, default_cfg, configure, check_configuration, derive_configuration, derive_rates,
  derive_large_blocks, derive_threads, round_up_to_rblock, is_power_of_2,
}
use act.StorageCfg.Parse.{storage_configure}
use act.StorageCfg.Parse.RoundTrip.{
  StorageNumber, StorageAnswer, storage_items, storage_configure-print_file,
}
use act.Tests.Configs.{ops}

-- Three names, of which the last is one more than there is room for.
abbrev three_names : Text
three_names = text " /dev/sdb,/dev/sdc;/dev/sdd"

abbrev storage_settings : List (Setting StorageNumber StorageAnswer)
storage_settings =
    devices Separator.blank (text "/dev/nvme0n1") (text "/dev/nvme1n1" ∷ [])
    ∷ number StorageNumber.test_duration_sec 86400
    ∷ number StorageNumber.read_reqs_per_sec 2000
    ∷ answer StorageAnswer.commit_to_device true
    ∷ scheduler true
    ∷ number StorageNumber.read_reqs_per_sec 4000
    ∷ []

storage_settings-AreSettings :
    AreSettings (storage_items {Double = ℕ}) storage_settings (default_cfg ops)
unfolding default_cfg
storage_settings-AreSettings = (
  (
    (omega arith, omega arith, refl),
    ((omega arith, omega arith, refl), tt),
    omega arith,
    omega arith,
  ),
  (omega arith, (omega arith, (tt, (tt, (omega arith, tt))))),
)

storage_configure_example :
    storage_configure ops 8 (some (print_file (storage_items {Double = ℕ}) storage_settings))
    ≡ some (
        configure ops 8 (apply_all (storage_items {Double = ℕ}) storage_settings (default_cfg ops)))
storage_configure_example =
    storage_configure-print_file ops 8 storage_settings storage_settings-AreSettings

abbrev index_settings : List (Setting IndexNumber IndexAnswer)
index_settings =
    devices Separator.comma (text "/dev/nvme0n1") []
    ∷ number IndexNumber.test_duration_sec 3600
    ∷ number IndexNumber.read_reqs_per_sec 20
    ∷ answer IndexAnswer.disable_odsync true
    ∷ scheduler false
    ∷ []

index_settings-AreSettings : AreSettings index_items index_settings default_icfg
index_settings-AreSettings = (
  ((omega arith, omega arith, refl), tt, omega arith, omega arith),
  (omega arith, (omega arith, (tt, (tt, tt)))),
)

index_configure_example :
    index_configure ops (λ d. d) 8 (some (print_file index_items index_settings))
    ≡ some (configure_index ops (λ d. d) 8 (apply_all index_items index_settings default_icfg))
index_configure_example =
    index_configure-print_file ops (λ d. d) 8 index_settings index_settings-AreSettings

-- A printed number stands for a `double`.
abbrev two_places : ℕ → Text
two_places n = text "11.72"

two_places-PrintsNumber : PrintsNumber two_places
two_places-PrintsNumber x = (refl, omega arith)

-- What the file of these settings is accepted as, with a rate of reads.
abbrev index_cfg : IndexCfg
index_cfg = record default_icfg {
  device_names = text "/dev/nvme0n1" ∷ [];
  num_devices = 1;
  num_queues = 8;
  run_us = 3600000000;
  read_reqs_per_sec = 20;
  disable_odsync = true;
  trans_thread_reads_per_sec = 20;
}

index_accepts :
    configure_index ops (λ d. 0) 8 (apply_all index_items index_settings default_icfg)
    ≡ accepted index_cfg
unfolding configure_index check_index derive_index
index_accepts = refl

index_echo_example :
    index_configure ops (λ d. 0) 8 (some (IndexEcho.echo_configuration index_cfg))
    ≡ some (accepted index_cfg)
index_echo_example =
    index_configure-echo_configuration ops (λ d. 0) (λ x. omega arith) 8
      (print_file index_items index_settings) index_cfg (omega arith)
      (index_configure-print_file ops (λ d. 0) 8 index_settings index_settings-AreSettings
        ∙ ap some index_accepts)
      (omega arith)

-- The same for the settings of act_storage.
abbrev storage_cfg : StorageCfg ℕ
storage_cfg = record (default_cfg ops) {
  device_names = text "/dev/nvme0n1" ∷ text "/dev/nvme1n1" ∷ [];
  num_devices = 2;
  num_queues = 8;
  run_us = 86400000000;
  read_reqs_per_sec = 4000;
  commit_to_device = true;
  scheduler_mode = text "cfq";
  record_stored_bytes = 1536;
  record_stored_bytes_rmx = 1536;
  internal_read_reqs_per_sec = 4000;
  read_req_threads = 1;
  write_req_threads = 1;
}

storage_accepts :
    configure ops 8 (apply_all (storage_items {Double = ℕ}) storage_settings (default_cfg ops))
    ≡ accepted storage_cfg
unfolding configure check_configuration derive_configuration derive_rates derive_large_blocks
    derive_threads round_up_to_rblock is_power_of_2 default_cfg
storage_accepts = refl

storage_echo_example :
    storage_configure ops 8 (some (StorageEcho.echo_configuration two_places storage_cfg))
    ≡ some (accepted storage_cfg)
storage_echo_example =
    storage_configure-echo_configuration ops two_places 8
      (print_file (storage_items {Double = ℕ}) storage_settings) storage_cfg two_places-PrintsNumber
      (omega arith)
      (storage_configure-print_file ops 8 storage_settings storage_settings-AreSettings
        ∙ ap some storage_accepts)
      (omega arith)
