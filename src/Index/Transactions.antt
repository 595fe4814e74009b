-- ===== src/Index/Transactions.antt =====
-- src/index/act_index.c: the transactions, the operations of the cache threads, and what they report.
pub mod Report
pub mod Reads
use act.Common.{
  ℕ, ◌+◌, ◌-◌, ◌*◌, ◌%◌, ◌^◌, Bool, true, false, Option, none, some, List, [], ◌∷◌, ◌++◌, ◌==◌,
  if◌then◌else◌,
}
use act.Common.Memory.{Bytes, Heap}
use act.Common.Partial.{◌>>=◌}
use act.Common.Word.{sub32}
use act.Histogram.{Histogram, histogram_insert_data_point}
use act.Queue.{Queue, ok, err, empty, PopResult, returns, faults, waits}
use act.Random.{Seeds, rand_32, rand_fill}
use act.IndexCfg.{IndexCfg}
use act.Storage.Descriptors.{Answers, Used, no_time}
use act.Index.{Device, TransReq, io_size, safe_delta_ns, random_io_offset}
use act.Index.Descriptors.{read_from_device, write_to_device}

-- `g_devices` and the three histograms. `closed` are the descriptors that operations have closed.
pub record System : Type 0 where
  pub devices : ℕ → Device
  pub raw_read_hist : Histogram
  pub raw_write_hist : Histogram
  pub trans_read_hist : Histogram
  pub closed : List ℕ

abbrev pub set_device : System → ℕ → Device → System
set_device sys d dev = record sys { devices = λ i. if i == d then dev else sys.devices i }

-- The buffer and the seeds of a thread.
pub record Thread : Type 0 where
  pub buf : Bytes
  pub seeds : Seeds

-- The device and the system after an operation, before any report.
abbrev pub after_read : System → ℕ → Used → System
after_read sys d u =
    let sys' = set_device sys d (record (sys.devices d) { fd_q = u.fd_q }) in
    record sys' { closed = sys.closed ++ u.closed }

abbrev pub after_write : System → ℕ → Used → System
after_write sys d u =
    let sys' = set_device sys d (record (sys.devices d) { fd_q = u.fd_q; contents = u.bytes }) in
    record sys' { closed = sys.closed ++ u.closed }

-- A point in the read histograms of the program and of a device.
abbrev pub raw_read : System → ℕ → ℕ → System
raw_read sys d delta_ns =
    let dev = sys.devices d in
    let sys' =
      set_device sys d
        (record dev { raw_read_hist = histogram_insert_data_point dev.raw_read_hist delta_ns }) in
    record sys' { raw_read_hist = histogram_insert_data_point sys.raw_read_hist delta_ns }

abbrev pub raw_write : System → ℕ → ℕ → System
raw_write sys d delta_ns =
    let dev = sys.devices d in
    let sys' =
      set_device sys d
        (record dev { raw_write_hist = histogram_insert_data_point dev.raw_write_hist delta_ns }) in
    record sys' { raw_write_hist = histogram_insert_data_point sys.raw_write_hist delta_ns }

abbrev pub trans_read : System → ℕ → System
trans_read sys delta_ns = record sys {
  trans_read_hist = histogram_insert_data_point sys.trans_read_hist delta_ns;
}

-- The device of an operation of a cache thread, and its place there.
abbrev pub choose : IndexCfg → System → Seeds → Option (ℕ × ℕ × Seeds)
choose cfg sys s = do
  let (n, s') = rand_32 s
  if cfg.num_devices == 0 then none else (do
    (offset, s'') ← random_io_offset (sys.devices (n % cfg.num_devices)) s'
    some (n % cfg.num_devices, offset, s''))

module _ (heap : Heap) where
  -- `raw_start_time` and, in `a`, the time after the operation are what `get_ns` returns. The first
  -- result is the buffer.
  unfoldable pub read_and_report : Answers → ℕ → TransReq → Bytes → System → Option (Bytes × System)
  read_and_report a raw_start_time req buf sys = do
    let dev = sys.devices req.dev
    u ← read_from_device heap a dev.fd_q dev.contents req.offset buf
    let sys' = after_read sys req.dev u
    if u.stop_time == no_time
        then some (u.bytes, sys')
        else some (
          u.bytes,
          raw_read (trans_read sys' (safe_delta_ns req.start_time u.stop_time)) req.dev
              (safe_delta_ns raw_start_time u.stop_time),
        )

  module _ (cfg : IndexCfg) where
    unfoldable pub read_cache_and_report : Answers → ℕ → Thread → System → Option (Thread × System)
    read_cache_and_report a raw_start_time t sys = do
      (d, offset, seeds') ← choose cfg sys t.seeds
      let dev = sys.devices d
      u ← read_from_device heap a dev.fd_q dev.contents offset t.buf
      let t' = record t { buf = u.bytes; seeds = seeds' }
      let sys' = after_read sys d u
      if u.stop_time == no_time
          then some (t', sys')
          else some (t', raw_read sys' d (safe_delta_ns raw_start_time u.stop_time))

    unfoldable pub write_cache_and_report : Answers → ℕ → Thread → System → Option (Thread × System)
    write_cache_and_report a raw_start_time t sys = do
      (salted, s1) ← rand_fill t.seeds t.buf io_size
      (d, offset, s2) ← choose cfg sys s1
      let dev = sys.devices d
      u ← write_to_device heap a dev.fd_q dev.contents offset salted
      let t' = record t { buf = salted; seeds = s2 }
      let sys' = after_write sys d u
      if u.stop_time == no_time
          then some (t', sys')
          else some (t', raw_write sys' d (safe_delta_ns raw_start_time u.stop_time))

  -- One round of the loop of `run_transactions` behind its pop: `decode` reads the bytes of a
  -- `trans_req`. The results are the buffer, the system, `g_reqs_queued` and the queue of requests.
  pub run_transaction :
      (List ℕ → TransReq)
      → Answers
      → ℕ
      → PopResult
      → Bytes
      → System
      → ℕ
      → Option (Bytes × System × ℕ × Queue)
  run_transaction decode a raw_start_time (returns ok ele q) buf sys reqs_queued = do
    (buf', sys') ← read_and_report a raw_start_time (decode ele) buf sys
    some (buf', sys', sub32 reqs_queued 1, q)
  run_transaction decode a raw_start_time (returns err ele q) buf sys reqs_queued =
      some (buf, sys, reqs_queued, q)
  run_transaction decode a raw_start_time (returns empty ele q) buf sys reqs_queued =
      some (buf, sys, reqs_queued, q)
  run_transaction decode a raw_start_time faults buf sys reqs_queued = none
  run_transaction decode a raw_start_time waits buf sys reqs_queued = none
