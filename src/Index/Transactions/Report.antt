-- ===== src/Index/Transactions/Report.antt =====
-- The operations of act_index.c on the devices: what they read and write, and what the histograms are
-- told.
use act.Common.{
  ℕ, ◌+◌, ◌-◌, ◌*◌, ◌%◌, ◌^◌, ◌≤◌, ◌<◌, ◌≡◌, ◌≢◌, ◌⊎◌, inl, inr, refl, ap, ◌∙◌, false, Option, some,
  List, [], ◌==◌, ltb, if◌then◌else◌, arith, eq→==, ne→==_false,
}
use act.Common.Memory.{Bytes, Heap, Allocates, memcpy}
use act.Histogram.{histogram_insert_data_point}
use act.Io.Transfer.{Bounded}
use act.Random.{Seeds, rand_32}
use act.Random.Fill.{rand_fill_lem, output_byte, words, state_after}
use act.IndexCfg.{IndexCfg}
use act.Storage.Descriptors.{Answers, Used, no_time}
use act.Storage.Descriptors.Pool.{pool}
use act.Storage.Descriptors.Use.{IsReady, Operated, not_opened, completed, failed}
use act.Storage.Transactions.Report.{Fails}
use act.Index.{io_size, safe_delta_ns}
use act.Index.Places.{IsPlace, HasPlaces, random_io_offset-IsPlace}
use act.Index.Descriptors.{write_to_device-Operated}
use act.Index.Transactions.{System, Thread, choose, write_cache_and_report}

pub delta_lem :
    (start stop stop' : ℕ) → stop' ≡ stop → start ≤ stop → safe_delta_ns start stop' ≡ stop - start
unfolding safe_delta_ns
delta_lem start stop stop' e h = ground (arith, e)

-- An operation has a result, and no byte outside its range has changed.
pub within :
    {a : Answers} {before : List ℕ} {dst : Bytes} {d : ℕ} {src : Bytes} {s size : ℕ}
    {r : Option Used}
    → Operated a before dst d src s size r
    → (u : Used) × (r ≡ some u)
      × ((x : ℕ) → (x < d) ⊎ (d + size ≤ x) → u.bytes x ≡ dst x)
      × (((u.stop_time ≡ a.stop_ns)
            × ((x : ℕ) → u.bytes x ≡ memcpy dst d src s size x)
            × (u.closed ≡ []))
          ⊎ ((u.stop_time ≡ no_time) × Fails a before))
within (not_opened q e o v n) = (_, refl, λ x h. refl, inr (refl, inl (e, o)))
within {dst = dst} {d = d} {src = src} {s = s} {size = size} (completed fd rest bytes q t b v k) =
    (_, refl, λ x h. b x ∙ ground arith, inl (refl, b, refl))
within (failed fd moved i left bytes q st t l b v) =
    (_, refl, λ x h. b x ∙ ground arith, inr (refl, inr (i, left, st)))

pub stop_seen :
    (a : Answers) (stop : ℕ) → stop ≡ a.stop_ns → a.stop_ns < no_time → (stop == no_time) ≡ false
stop_seen a stop e h = ground arith

-- The answers to an operation that starts at `raw_start`: calls within their contracts, and times that
-- do not run backwards.
pub record Answered (a : Answers) (raw_start : ℕ) : Type 0 where
  pub opens : a.opened < 2 ^ 32
  pub bounded : Bounded a.calls
  pub stops : a.stop_ns < no_time
  pub after_raw : raw_start ≤ a.stop_ns

-- A system whose devices have places and descriptors that are ready.
pub record IsSystem (cfg : IndexCfg) (sys : System) : Type 0 where
  pub some_device : 0 < cfg.num_devices
  pub places : (d : ℕ) → d < cfg.num_devices → HasPlaces (sys.devices d)
  pub pools : (d : ℕ) → d < cfg.num_devices → IsReady (sys.devices d).fd_q

-- The random choice is a device and one of its places.
pub choose-IsPlace :
    (cfg : IndexCfg) (sys : System) (s : Seeds)
    → IsSystem cfg sys
    → (d : ℕ) × (offset : ℕ) × (s' : Seeds) × (choose cfg sys s ≡ some (d, offset, s'))
      × (d < cfg.num_devices)
      × IsPlace (sys.devices d).n_io_offsets offset
choose-IsPlace cfg sys s v =
    let (offset, s'', e, place) =
      random_io_offset-IsPlace (sys.devices d) (rand_32 s).1 (v.places d below) in
    rw (ne→==_false cfg.num_devices 0 (λ z. omega (arith, v.some_device, z)), e)
      (d, offset, s'', refl, below, place)
  where
    d : ℕ
    d = (rand_32 s).0 % cfg.num_devices

    below : d < cfg.num_devices
    below = omega (arith, v.some_device)

module _ (heap : Heap) (laws : Allocates heap) (cfg : IndexCfg) (a : Answers) (raw_start : ℕ)
    (t : Thread) (sys : System) where
  -- After a write of a cache thread to a place of a device: no other byte of any device has changed.
  pub record WriteDone (sys' : System) : Type 0 where
    pub dev : ℕ
    pub offset : ℕ
    pub exists : dev < cfg.num_devices
    pub place : IsPlace (sys.devices dev).n_io_offsets offset
    pub others : (i : ℕ) → i ≢ dev → sys'.devices i ≡ sys.devices i
    pub outside :
        (x : ℕ)
        → (x < offset) ⊎ (offset + io_size ≤ x)
        → (sys'.devices dev).contents x ≡ (sys.devices dev).contents x
    pub outcome :
        (((x : ℕ) → x < io_size → (sys'.devices dev).contents (offset + x) ≡ output_byte t.seeds x)
          × (sys'.raw_write_hist
              ≡ histogram_insert_data_point sys.raw_write_hist (a.stop_ns - raw_start))
          × ((sys'.devices dev).raw_write_hist
              ≡ histogram_insert_data_point
                  (sys.devices dev).raw_write_hist
                  (a.stop_ns - raw_start)))
        ⊎ ((sys'.raw_write_hist ≡ sys.raw_write_hist)
            × ((sys'.devices dev).raw_write_hist ≡ (sys.devices dev).raw_write_hist)
            × Fails a (pool (sys.devices dev).fd_q))

  -- With devices that have places and kept descriptors that are ready, and with calls within their
  -- contracts, a write of a cache thread ends in this way: at a place of a device, which has the outputs
  -- of the thread's generator then, with one more point in both write histograms, or with these
  -- histograms as they were where the operation failed.
  pub write_cache_and_report-WriteDone :
      IsSystem cfg sys
      → Answered a raw_start
      → (t' : Thread) × (sys' : System) × (write_cache_and_report heap cfg a raw_start t sys
          ≡ some (t', sys'))
        × WriteDone sys'
  unfolding write_cache_and_report
  write_cache_and_report-WriteDone v h =
      let (salted, filled, bytes_of, room) = rand_fill_lem t.seeds t.buf io_size in
      let (d, offset, s', chosen, exists, place) =
        choose-IsPlace cfg sys (state_after (words io_size) t.seeds) v in
      let dev = sys.devices d in
      let (u, e, outside, cases) = within (
        write_to_device-Operated heap a dev.fd_q dev.contents offset salted laws (v.pools d exists)
          h.opens h.bounded) in
      elim cases [
        | inr (no_stop, why) ↦
            rw (filled, chosen, e, eq→== u.stop_time no_time no_stop)
              (
                _,
                _,
                refl,
                record {
                  dev = d;
                  offset = offset;
                  exists = exists;
                  place = place;
                  others = λ i ne. rw (ne→==_false i d ne) refl;
                  outside = λ x away. rw (eq→== d d refl) (outside x away);
                  outcome = inr (refl, rw (eq→== d d refl) refl, why);
                },
              )
        | inl (stop, bytes, closed) ↦
            let delta = delta_lem raw_start a.stop_ns u.stop_time stop h.after_raw in
            rw (filled, chosen, e, stop_seen a u.stop_time stop h.stops)
              (
                _,
                _,
                refl,
                record {
                  dev = d;
                  offset = offset;
                  exists = exists;
                  place = place;
                  others = λ i ne. rw (ne→==_false i d ne) refl;
                  outside = λ x away. rw (eq→== d d refl) (outside x away);
                  outcome = inl (
                    λ x l.
                        rw (eq→== d d refl)
                          (bytes (offset + x) ∙ copied offset x salted dev.contents l (bytes_of x)),
                    ap (histogram_insert_data_point sys.raw_write_hist) delta,
                    rw (eq→== d d refl) (ap (histogram_insert_data_point dev.raw_write_hist) delta),
                  );
                },
              )
      ]
    where
      copied :
          (offset x : ℕ) (salted contents : Bytes)
          → x < io_size
          → salted x ≡ (if ltb x (8 * words io_size) then output_byte t.seeds x else t.buf x)
          → memcpy contents offset salted 0 io_size (offset + x) ≡ output_byte t.seeds x
      copied offset x salted contents l filled = ground arith
