-- ===== src/Storage/Transactions.antt =====
-- src/storage/act_storage.c: the transactions and large-block operations, and the histograms that
-- they report to.
pub mod Report
use act.Common.{
  ℕ, zero, suc, ◌+◌, ◌-◌, ◌*◌, ◌/◌, ◌%◌, ◌^◌, Bool, true, false, Option, none, some, List, [], ◌∷◌,
  ◌==◌, if◌then◌else◌,
}
use act.Common.Memory.{Bytes, Heap}
use act.Common.Partial.{◌>>=◌}
use act.Common.Word.{sub32}
use act.Histogram.{Histogram, histogram_insert_data_point}
use act.Queue.{Queue, Status, ok, err, empty, PopResult, returns, faults, waits}
use act.Random.{Seeds, rand_fill}
use act.StorageCfg.{StorageCfg}
use act.Storage.{Device, random_large_block_offset, safe_delta_ns}
use act.Storage.Descriptors.{Answers, Used, no_time, read_from_device, write_to_device}

-- `trans_req`, with the index of its device.
pub record TransReq : Type 0 where
  pub dev : ℕ
  pub offset : ℕ
  pub size : ℕ
  pub is_write : Bool
  pub start_time : ℕ

-- The histograms of the program, and the two of the device in use.
pub record Histograms : Type 0 where
  pub large_block_read_hist : Histogram
  pub large_block_write_hist : Histogram
  pub raw_read_hist : Histogram
  pub read_hist : Histogram
  pub raw_write_hist : Histogram
  pub write_hist : Histogram
  pub dev_raw_read_hist : Histogram
  pub dev_raw_write_hist : Histogram

-- What an operation works on: the contents of the device and of `buf`, the kept descriptors, and the
-- histograms. `closed` are the descriptors that were closed.
pub record Worker : Type 0 where
  pub device : Bytes
  pub buf : Bytes
  pub fd_q : Queue
  pub closed : List ℕ
  pub seeds : Seeds
  pub hists : Histograms

module _ (heap : Heap) where
  -- `raw_start_time` and, in `a`, the time after the operation are what `get_ns` returns.
  pub read_and_report : Answers → ℕ → TransReq → Worker → Option Worker
  read_and_report a raw_start_time req w = do
    u ← read_from_device heap a w.fd_q w.device req.offset req.size w.buf
    let h = w.hists
    let w' = record w { buf = u.bytes; fd_q = u.fd_q; closed = u.closed }
    if u.stop_time == no_time
        then some w'
        else some (record w' {
          hists = record h {
            raw_read_hist =
                histogram_insert_data_point h.raw_read_hist
                  (safe_delta_ns raw_start_time u.stop_time);
            read_hist =
                histogram_insert_data_point h.read_hist (safe_delta_ns req.start_time u.stop_time);
            dev_raw_read_hist =
                histogram_insert_data_point h.dev_raw_read_hist
                  (safe_delta_ns raw_start_time u.stop_time);
          };
        })

  pub write_and_report : Answers → ℕ → TransReq → Worker → Option Worker
  write_and_report a raw_start_time req w = do
    (salted, seeds') ← rand_fill w.seeds w.buf req.size
    u ← write_to_device heap a w.fd_q w.device req.offset req.size salted
    let h = w.hists
    let w' = record w {
      device = u.bytes;
      buf = salted;
      fd_q = u.fd_q;
      closed = u.closed;
      seeds = seeds';
    }
    if u.stop_time == no_time
        then some w'
        else some (record w' {
          hists = record h {
            raw_write_hist =
                histogram_insert_data_point h.raw_write_hist
                  (safe_delta_ns raw_start_time u.stop_time);
            write_hist =
                histogram_insert_data_point h.write_hist (safe_delta_ns req.start_time u.stop_time);
            dev_raw_write_hist =
                histogram_insert_data_point h.dev_raw_write_hist
                  (safe_delta_ns raw_start_time u.stop_time);
          };
        })

  module _ {Double : Type 0} (cfg : StorageCfg Double) (dev : Device) where
    pub read_and_report_large_block : Answers → ℕ → Worker → Option Worker
    read_and_report_large_block a start_time w = do
      let (offset, seeds') = random_large_block_offset cfg dev w.seeds
      u ← read_from_device heap a w.fd_q w.device offset cfg.large_block_ops_bytes w.buf
      let h = w.hists
      let w' = record w { buf = u.bytes; fd_q = u.fd_q; closed = u.closed; seeds = seeds' }
      if u.stop_time == no_time
          then some w'
          else some (record w' {
            hists = record h {
              large_block_read_hist =
                  histogram_insert_data_point h.large_block_read_hist
                    (safe_delta_ns start_time u.stop_time);
            };
          })

    pub write_and_report_large_block : Answers → ℕ → Worker → Option Worker
    write_and_report_large_block a start_time w = do
      (salted, s1) ← rand_fill w.seeds w.buf cfg.large_block_ops_bytes
      let (offset, s2) = random_large_block_offset cfg dev s1
      u ← write_to_device heap a w.fd_q w.device offset cfg.large_block_ops_bytes salted
      let h = w.hists
      let w' = record w {
        device = u.bytes;
        buf = salted;
        fd_q = u.fd_q;
        closed = u.closed;
        seeds = s2;
      }
      if u.stop_time == no_time
          then some w'
          else some (record w' {
            hists = record h {
              large_block_write_hist =
                  histogram_insert_data_point h.large_block_write_hist
                    (safe_delta_ns start_time u.stop_time);
            };
          })

  -- One round of the loop of `run_transactions` behind its pop: `decode` reads the bytes of a
  -- `trans_req`. The results are the worker, `g_reqs_queued` and the queue of requests; the seeds and
  -- the buffer are those of the thread.
  pub run_transaction :
      (List ℕ → TransReq) → Answers → ℕ → PopResult → Worker → ℕ → Option (Worker × ℕ × Queue)
  run_transaction decode a raw_start_time (returns ok ele q) w reqs_queued = do
    let req = decode ele
    w' ←
        (if req.is_write
          then write_and_report a raw_start_time req w
          else read_and_report a raw_start_time req w)
    some (w', sub32 reqs_queued 1, q)
  run_transaction decode a raw_start_time (returns err ele q) w reqs_queued =
      some (w, reqs_queued, q)
  run_transaction decode a raw_start_time (returns empty ele q) w reqs_queued =
      some (w, reqs_queued, q)
  run_transaction decode a raw_start_time faults w reqs_queued = none
  run_transaction decode a raw_start_time waits w reqs_queued = none
