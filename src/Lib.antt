-- ===== src/Lib.antt =====
-- A verification library for ACT, the Aerospike certification tool: programs in C under src/ that
-- load storage devices the way the database does and report latencies in histograms.
--
-- The program's parts, and the modules that model them:
-- * src/common/queue.c, queue.h (Queue): a resizable ring buffer. `Queue` is `queue_s`, with the
--   block of elements as an addressed block of bytes; `queue_create`, `queue_sz`, `queue_push`,
--   `queue_pop` have the names of the functions. `none` as a result is a fault: an access through
--   NULL or outside a block. A timed wait of `queue_pop` by a negative number other than -1 is a fault
--   too, since its time limit was not set. The lock makes each operation one step, and the states in which a
--   waiting pop wakes up are an argument of it.
-- * src/common/histogram.c, histogram.h (Histogram): 65 buckets of powers of two of a time unit, and
--   what `histogram_dump` prints of them (Histogram/Dump).
-- * src/common/io.h (Io): the loops around `pread`, `pwrite` and `write`. The system calls are
--   functions from the number of the call and the size to the result. The loops are on fuel; more
--   fuel than bytes is enough, since every round but the last transfers a byte. The result is compared
--   with `(ssize_t)size`, which is negative for sizes from 2 ^ 63 on.
-- * src/common/random.c (Random): xorshift128+ and random buffers. The results of `rand` are
--   arguments. The fuel of `rand_fill` is one more than its size.
-- * src/common/cfg.c, cfg.h (Cfg): how a configuration is refused, and the parsing of a file's lines
--   and values (Cfg/Parse). `strtok`, `strtoul` and `fgets` are written out as the C library defines
--   them (Common/Text); the position that `strtok` keeps is an argument. The loop over the names is on
--   fuel, one more than the bytes. Cfg/Parse/Items is the interface between the parsing and the two
--   programs: their items, and what each sets.
-- * src/storage/cfg_storage.c, cfg_storage.h (StorageCfg): the defaults, the items of the file
--   (StorageCfg/Parse), the check, what is derived, and what `echo_configuration` prints
--   (StorageCfg/Echo). The operations on `double` and their printing are parameters.
-- * src/index/cfg_index.c, cfg_index.h (IndexCfg): the same for the index test.
-- * src/common/hardware.c (Hardware): the files of the system are parameters, read piece by piece;
--   `read_file`, `read_index`, `read_list` and `num_cpus` have the names of the functions. The loop of
--   `read_file` has one more round than the limit, that of `read_list` one more than the bytes. Of
--   `set_scheduler` the name of its file is modelled.
-- * src/common/clock.h (Clock): the three units of the time.
-- * src/storage/act_storage.c (Storage): the devices, their discovery and the request patterns
--   (Storage, Storage/Discover), the pool of file descriptors and the operations that use it
--   (Storage/Descriptors), the transactions and what they report (Storage/Transactions), one round
--   of the generators and of the tomb raider (Storage/Generators), and the loops of the large-block
--   threads over a list of what the system answers (Storage/LargeBlocks). The transactions use the
--   queue, the transfers, the random buffers and the histograms as their models define them. What the
--   system answers (`open`, `ioctl`, the clock) is an argument. `main` after the configuration
--   (Storage/Main) is the list of its calls.
-- * src/prep/act_prep.c (Prep): the plan, the zero threads and the salt threads. The threads run one
--   after another in an order that is an argument. `main` is Prep/Main. Where a thread cannot be created
--   the process ends while others may be writing; what the device then holds is not modelled. What is printed, the handlers of
--   signals and the scheduler are left out: they do not touch the device.
-- * src/index/act_index.c (Index): the devices and their discovery, the descriptors, the transactions
--   and the operations of the cache threads on all devices (Index/Transactions), one round of each
--   thread (Index/Threads), and the steps of the generators and transaction threads on the queues of
--   requests and `g_reqs_queued` (Index/Threads/Load), where each test of `g_running`, the increment of
--   the count, the push, which may fail, the pop, the end of a transaction and the stop of the test are
--   separate steps. A push that fails in `realloc` makes the next access to its queue end the process,
--   which is not among the steps. `main` is Index/Main, of the same form as Storage/Main.
-- * What the two `main` share (Process): the calls as events, of which one of the start-up that fails
--   ends the process, and the loop of the reports on fuel, two more than the intervals in the run. What
--   the clock and the other threads show to it is an argument. The texts of errors and the version are
--   left out.
-- * src/common/trace.c is not modelled: it only prints from signal handlers. The additions of atomic.h
--   are written out in the operations that use them.
--
-- Numbers are natural numbers; a w-bit operation keeps its remainder modulo 2 ^ w (Common/Word), and
-- `double` stays abstract. Bytes in memory are functions of their address (Common/Memory).
pub mod Common
pub mod Io
pub mod Clock
pub mod Index
pub mod Hardware
pub mod Random
pub mod Cfg
pub mod StorageCfg
pub mod Queue
pub mod Histogram
pub mod IndexCfg
pub mod Storage
pub mod Prep
pub mod Process
pub mod Tests
