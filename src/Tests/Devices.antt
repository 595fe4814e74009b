-- ===== src/Tests/Devices.antt =====
-- The devices of act_storage at concrete inputs.
use act.Common.{◌==◌, ◌-◌, ◌*◌, ◌<◌, ◌≡◌, refl, true, false, some, arith, if◌then◌else◌, []}
use act.Common.Lists.{length, replicate}
use act.Common.Memory.{Block}
use act.Histogram.{Histogram, n_buckets}
use act.Queue.{Queue}
use act.Queue.Inv.{IsValid, contents}
use act.StorageCfg.{default_cfg}
use act.Storage.{Device, discover_read_pattern, random_read_offset, random_read_size}
use act.Storage.Sites.{Fits, Placed}
use act.Storage.Range.{read_request-Placed}
use act.Storage.Descriptors.{fd_close_all, Answers}
use act.Storage.Descriptors.Pool.{pool, fd_close_all-pool}
use act.Storage.Descriptors.Use.{IsReady}
use act.Storage.Transactions.{TransReq, Histograms, Worker, read_and_report, write_and_report}
use act.Storage.Transactions.Report.{
  Starts, ReadDone, WriteDone, read_and_report-ReadDone, write_and_report-WriteDone,
}
use act.Storage.Generators.{pace}
use act.Storage.Generators.Pacing.{Paced, due, pace-Paced}
use act.Tests.Given.{heap, heap-Allocates, seeds, short_calls, short_calls-Bounded}
use act.Tests.Configs.{derived}

abbrev device : Device
device = record {
  n_large_blocks = 1000;
  n_read_offsets = 0;
  n_write_offsets = 0;
  min_op_bytes = 512;
  min_commit_bytes = 0;
  read_bytes = 0;
  write_bytes = 0;
  n_read_sizes = 0;
  n_write_sizes = 0;
}

fits :
    Fits derived.large_block_ops_bytes derived.record_stored_bytes derived.record_stored_bytes_rmx
      512 1000
unfolding default_cfg
fits = record {
  unit = omega arith;
  whole = refl;
  small = omega arith;
  holds = omega arith;
  ordered = omega arith;
  fits = omega arith;
  some_blocks = omega arith;
  wide = omega arith;
}

read_request_example :
    Placed
      (1000 * derived.large_block_ops_bytes)
      512
      derived.record_stored_bytes
      (random_read_offset (discover_read_pattern derived device) seeds).0
      (random_read_size (discover_read_pattern derived device) seeds).0
read_request_example = read_request-Placed derived device seeds seeds fits

-- Descriptors 5 and 6 are kept.
abbrev kept_block : Block
kept_block = record { size = 16; bytes = λ i. if i == 0 then 5 else (if i == 4 then 6 else 0) }

abbrev pub fds : Queue
fds = record {
  thread_safe = true;
  alloc_sz = 4;
  read_offset = 0;
  write_offset = 2;
  ele_size = 4;
  elements = some kept_block;
}

fds-IsValid : IsValid fds
fds-IsValid = (
  kept_block,
  record {
    held = refl;
    sized = refl;
    bytes = omega arith;
    some_slots = omega arith;
    few_slots = omega arith;
    ordered = omega arith;
    fits = omega arith;
    low = omega arith;
  },
)

few : length (contents fds) < 5
unfolding contents
few = omega arith

pub ready : IsReady fds
unfolding contents
ready = record {
  valid = fds-IsValid;
  grows = (omega arith, omega arith);
  four = refl;
  fds = (omega arith, (omega arith, tt));
}

fd_close_all_example : fd_close_all 5 fds ≡ some (pool fds)
fd_close_all_example = fd_close_all-pool 5 fds fds-IsValid few

abbrev pub answers : Answers
answers = record { opened = 9; calls = short_calls; stop_ns = 8000 }

abbrev req : TransReq
req = record { dev = 0; offset = 1024; size = 512; is_write = false; start_time = 1000 }

abbrev pub hist : Histogram
hist = record { time_div = 1000; counts = replicate n_buckets 0 }

abbrev hists : Histograms
hists = record {
  large_block_read_hist = hist;
  large_block_write_hist = hist;
  raw_read_hist = hist;
  read_hist = hist;
  raw_write_hist = hist;
  write_hist = hist;
  dev_raw_read_hist = hist;
  dev_raw_write_hist = hist;
}

abbrev worker : Worker
worker = record {
  device = λ i. i;
  buf = λ i. 0;
  fd_q = fds;
  closed = [];
  seeds = seeds;
  hists = hists;
}

starts : Starts answers 2000 req worker
starts = record {
  ready = ready;
  opens = omega arith;
  bounded = short_calls-Bounded;
  size = omega arith;
  stops = omega arith;
  after_raw = omega arith;
  after_start = omega arith;
}

read_and_report_example :
    (w' : Worker) × (read_and_report heap answers 2000 req worker ≡ some w')
    × (w'.device ≡ worker.device)
    × ReadDone heap heap-Allocates answers 2000 req worker starts w'
read_and_report_example =
    read_and_report-ReadDone heap heap-Allocates answers 2000 req worker starts

write_and_report_example :
    (w' : Worker) × (write_and_report heap answers 2000 req worker ≡ some w')
    × WriteDone heap heap-Allocates answers 2000 req worker starts w'
write_and_report_example =
    write_and_report-WriteDone heap heap-Allocates answers 2000 req worker starts

-- The third request of a thousand a second, one millisecond early.
pace_example : Paced 10000000 (7000 - 5000) (due 3 1000) (pace 10000000 1000 5000 3 7000)
pace_example =
    pace-Paced 10000000 1000 5000 3 7000 (omega arith) (omega arith) (omega arith) (omega arith)
      (omega arith)
