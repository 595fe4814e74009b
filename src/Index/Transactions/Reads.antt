-- ===== src/Index/Transactions/Reads.antt =====
-- The reads of act_index.c: what they read, and what the histograms are told.
use act.Common.{
  ℕ, ◌+◌, ◌-◌, ◌≤◌, ◌<◌, ◌≡◌, ◌≢◌, ◌⊎◌, inl, inr, refl, ap, ◌∙◌, some, arith, eq→==, ne→==_false,
}
use act.Common.Memory.{Bytes, Heap, Allocates, memcpy}
use act.Histogram.{Histogram, histogram_insert_data_point}
use act.IndexCfg.{IndexCfg}
use act.Storage.Descriptors.{Answers, no_time}
use act.Storage.Descriptors.Pool.{pool}
use act.Storage.Descriptors.Use.{IsReady}
use act.Storage.Transactions.Report.{Fails}
use act.Index.{TransReq, io_size}
use act.Index.Places.{IsPlace}
use act.Index.Descriptors.{read_from_device-Operated}
use act.Index.Transactions.{System, Thread, read_and_report, read_cache_and_report}
use act.Index.Transactions.Report.{delta_lem, within, stop_seen, choose-IsPlace, Answered, IsSystem}

module _ (heap : Heap) (laws : Allocates heap) (a : Answers) (raw_start : ℕ) (sys : System) where
  -- After a read at an offset of a device into `buf`, which has the bytes `buf'` then, with the points
  -- that the transactions add: no byte of any device has changed, nor has another device.
  pub record ReadDone (d offset : ℕ) (buf buf' : Bytes) (transactions : Histogram) (sys' : System)
      : Type 0 where
    pub others : (i : ℕ) → i ≢ d → sys'.devices i ≡ sys.devices i
    pub contents : (sys'.devices d).contents ≡ (sys.devices d).contents
    pub outcome :
        (((x : ℕ) → x < io_size → buf' x ≡ (sys.devices d).contents (offset + x))
          × (sys'.raw_read_hist
              ≡ histogram_insert_data_point sys.raw_read_hist (a.stop_ns - raw_start))
          × ((sys'.devices d).raw_read_hist
              ≡ histogram_insert_data_point (sys.devices d).raw_read_hist (a.stop_ns - raw_start))
          × (sys'.trans_read_hist ≡ transactions))
        ⊎ ((sys'.raw_read_hist ≡ sys.raw_read_hist)
            × ((sys'.devices d).raw_read_hist ≡ (sys.devices d).raw_read_hist)
            × (sys'.trans_read_hist ≡ sys.trans_read_hist)
            × Fails a (pool (sys.devices d).fd_q))

  copied :
      (offset x : ℕ) (buf contents : Bytes)
      → x < io_size
      → memcpy buf 0 contents offset io_size x ≡ contents (offset + x)
  copied offset x buf contents l = ground arith

  -- A transaction ends, with a read at the place of its request: either the buffer has the bytes of the
  -- device and each of the three read histograms has one more point, or no histogram has changed.
  pub read_and_report_lem :
      (req : TransReq) (buf : Bytes)
      → IsReady (sys.devices req.dev).fd_q
      → Answered a raw_start
      → req.start_time ≤ a.stop_ns
      → (buf' : Bytes) × (sys' : System) × (read_and_report heap a raw_start req buf sys
          ≡ some (buf', sys'))
        × ReadDone req.dev req.offset buf buf'
            (histogram_insert_data_point sys.trans_read_hist (a.stop_ns - req.start_time))
            sys'
  unfolding read_and_report
  read_and_report_lem req buf ready h starts =
      let d = req.dev in
      let dev = sys.devices d in
      let (u, e, outside, cases) = within (
        read_from_device-Operated heap a dev.fd_q dev.contents req.offset buf laws ready h.opens
          h.bounded) in
      elim cases [
        | inr (no_stop, why) ↦
            rw (e, eq→== u.stop_time no_time no_stop)
              (
                _,
                _,
                refl,
                record {
                  others = λ i ne. rw (ne→==_false i d ne) refl;
                  contents = rw (eq→== d d refl) refl;
                  outcome = inr (refl, rw (eq→== d d refl) refl, refl, why);
                },
              )
        | inl (stop, bytes, closed) ↦
            let delta = delta_lem raw_start a.stop_ns u.stop_time stop h.after_raw in
            rw (e, stop_seen a u.stop_time stop h.stops)
              (
                _,
                _,
                refl,
                record {
                  others = λ i ne. rw (ne→==_false i d ne) refl;
                  contents = rw (eq→== d d refl) refl;
                  outcome = inl (
                    λ x l. bytes x ∙ copied req.offset x buf dev.contents l,
                    ap (histogram_insert_data_point sys.raw_read_hist) delta,
                    rw (eq→== d d refl) (ap (histogram_insert_data_point dev.raw_read_hist) delta),
                    ap (histogram_insert_data_point sys.trans_read_hist)
                        (delta_lem req.start_time a.stop_ns u.stop_time stop starts),
                  );
                },
              )
      ]

  -- The same of a read of a cache thread, at a random place of a random device, without the histogram
  -- of the transactions.
  pub read_cache_and_report_lem :
      (cfg : IndexCfg) (t : Thread)
      → IsSystem cfg sys
      → Answered a raw_start
      → (t' : Thread) × (sys' : System) × (d : ℕ) × (offset : ℕ) × (read_cache_and_report heap cfg a
            raw_start t sys
          ≡ some (t', sys'))
        × (d < cfg.num_devices)
        × IsPlace (sys.devices d).n_io_offsets offset
        × ReadDone d offset t.buf t'.buf sys.trans_read_hist sys'
  unfolding read_cache_and_report
  read_cache_and_report_lem cfg t v h =
      let (d, offset, s', chosen, exists, place) = choose-IsPlace cfg sys t.seeds v in
      let dev = sys.devices d in
      let (u, e, outside, cases) = within (
        read_from_device-Operated heap a dev.fd_q dev.contents offset t.buf laws (v.pools d exists)
          h.opens h.bounded) in
      elim cases [
        | inr (no_stop, why) ↦
            rw (chosen, e, eq→== u.stop_time no_time no_stop)
              (
                _,
                _,
                d,
                offset,
                refl,
                exists,
                place,
                record {
                  others = λ i ne. rw (ne→==_false i d ne) refl;
                  contents = rw (eq→== d d refl) refl;
                  outcome = inr (refl, rw (eq→== d d refl) refl, refl, why);
                },
              )
        | inl (stop, bytes, closed) ↦
            let delta = delta_lem raw_start a.stop_ns u.stop_time stop h.after_raw in
            rw (chosen, e, stop_seen a u.stop_time stop h.stops)
              (
                _,
                _,
                d,
                offset,
                refl,
                exists,
                place,
                record {
                  others = λ i ne. rw (ne→==_false i d ne) refl;
                  contents = rw (eq→== d d refl) refl;
                  outcome = inl (
                    λ x l. bytes x ∙ copied offset x t.buf dev.contents l,
                    ap (histogram_insert_data_point sys.raw_read_hist) delta,
                    rw (eq→== d d refl) (ap (histogram_insert_data_point dev.raw_read_hist) delta),
                    refl,
                  );
                },
              )
      ]
