-- ===== src/Tests/Indexes.antt =====
-- act_index at concrete inputs.
use act.Common.{ℕ, ◌-◌, ◌≡◌, Bool, some, List, [], ◌∷◌, arith}
use act.Common.Memory.{Bytes}
use act.Histogram.{histogram_insert_data_point}
use act.Random.{Seeds}
use act.Storage.Generators.{go_on}
use act.Index.{Device, TransReq, discover_device}
use act.Index.Places.{Discovered, discover_device-Discovered}
use act.Index.Threads.{generate_read_req}
use act.Index.Threads.Load.{Load, start}
use act.Index.Threads.Rounds.{Generated, generate_read_req-Generated}
use act.Index.Transactions.{System, Thread, read_and_report, write_cache_and_report}
use act.Index.Transactions.Reads.{ReadDone, read_and_report_lem}
use act.Index.Transactions.Report.{Answered, IsSystem, WriteDone, write_cache_and_report-WriteDone}
use act.Tests.Configs.{index_derived}
use act.Tests.Devices.{answers, fds, hist, ready}
use act.Tests.Given.{heap, heap-Allocates, seeds, short_calls-Bounded}

-- A device of a thousand places.
abbrev device : Device
device = record {
  contents = λ i. i;
  n_io_offsets = 1000;
  fd_q = fds;
  raw_read_hist = hist;
  raw_write_hist = hist;
}

abbrev system : System
system = record {
  devices = λ i. device;
  raw_read_hist = hist;
  raw_write_hist = hist;
  trans_read_hist = hist;
  closed = [];
}

abbrev thread : Thread
thread = record { buf = λ i. 0; seeds = seeds }

answered : Answered answers 2000
answered = record {
  opens = omega arith;
  bounded = short_calls-Bounded;
  stops = omega arith;
  after_raw = omega arith;
}

system-IsSystem : IsSystem index_derived system
system-IsSystem = record {
  some_device = omega arith;
  places = λ d l. (omega arith, omega arith);
  pools = λ d l. ready;
}

write_cache_and_report_example :
    (t' : Thread) × (sys' : System) × (write_cache_and_report heap index_derived answers 2000 thread
        system
      ≡ some (t', sys'))
    × WriteDone heap heap-Allocates index_derived answers 2000 thread system sys'
write_cache_and_report_example =
    write_cache_and_report-WriteDone heap heap-Allocates index_derived answers 2000 thread system
      system-IsSystem answered

abbrev req : TransReq
req = record { dev = 1; offset = 8192; start_time = 1000 }

index_read_example :
    (buf' : Bytes) × (sys' : System) × (read_and_report heap answers 2000 req (λ i. 0) system
      ≡ some (buf', sys'))
    × ReadDone heap heap-Allocates answers 2000 system 1 8192
        (λ i. 0)
        buf'
        (histogram_insert_data_point hist (8000 - 1000))
        sys'
index_read_example =
    read_and_report_lem heap heap-Allocates answers 2000 system req (λ i. 0) ready answered
      (omega arith)

discover_device_example :
    (accepted : Bool) × (dev' : Device) × (discover_device heap 9 5000 device
      ≡ some (accepted, dev'))
    × Discovered 9 5000 device accepted dev'
discover_device_example =
    discover_device-Discovered heap 9 5000 device heap-Allocates ready (omega arith) (omega arith)

generate_read_req_example :
    Generated index_derived system 5000 1000 7000 11 7
      (generate_read_req index_derived system 5000 1000 7000 11 7 seeds)
generate_read_req_example =
    generate_read_req-Generated index_derived system 5000 1000 7000 11 7 seeds system-IsSystem
      (omega arith) (omega arith) (omega arith)

-- The first request of the test.
abbrev first_req : TransReq
first_req = record { dev = 1; offset = 2834432; start_time = 1000 }

abbrev next_seeds : Seeds
next_seeds = record { seed0 = 8388675; seed1 = 25166017 }

abbrev queues : List (List TransReq)
queues = [] ∷ [] ∷ []

-- A thread for each queue.
abbrev threads : List ℕ
threads = 0 ∷ 1 ∷ []

-- The request waits in the first queue, whose thread is about to pop it.
abbrev loaded : Load
loaded = record (start index_derived queues threads) {
  reqs_queued = 1;
  waiting = (first_req ∷ []) ∷ [] ∷ [];
  ready = 0;
  pushed = go_on ∷ [];
  idle = 1 ∷ [];
  popping = 0 ∷ [];
}
