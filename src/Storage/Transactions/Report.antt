-- ===== src/Storage/Transactions/Report.antt =====
-- `read_and_report` and `write_and_report` of act_storage.c: what the histograms are told.
use act.Common.{
  ap₂, Option, some, List, [], eq→==, ℕ, ◌+◌, ◌-◌, ◌*◌, ◌%◌, ◌^◌, ◌≤◌, ◌<◌, ◌≡◌, ◌⊎◌, inl, inr,
  refl, ap, ◌∙◌, false, arith, ◌==◌, if◌then◌else◌, ltb, leb, ◌&&◌,
}
use act.Common.Memory.{Bytes, Heap, Allocates, memcpy}
use act.Histogram.{histogram_insert_data_point}
use act.Io.Transfer.{Stopped, Bounded}
use act.Random.Fill.{rand_fill_lem, output_byte, words}
use act.Storage.{safe_delta_ns}
use act.Storage.Descriptors.Pool.{pool}
use act.Storage.Descriptors.{no_fd, Answers, Used, no_time}
use act.Storage.Descriptors.Use.{
  IsReady, Operated, not_opened, completed, failed, read_from_device-Operated,
  write_to_device-Operated,
}
use act.Storage.Transactions.{TransReq, Histograms, Worker, read_and_report, write_and_report}

safe_delta_lem : (start stop : ℕ) → start ≤ stop → safe_delta_ns start stop ≡ stop - start
unfolding safe_delta_ns
safe_delta_lem start stop h = ground arith

-- Why an operation fails: no descriptor is kept and the device cannot be opened, or one of its calls
-- failed or transferred nothing.
abbrev pub Fails : Answers → List ℕ → Type 0
Fails a before =
    ((before ≡ []) × (a.opened ≡ no_fd)) ⊎ ((i : ℕ) × (left : ℕ) × Stopped (a.calls i left) left)

-- An operation has a result: either it moved everything and answers the time after it, or it answers -1.
Operated-cases :
    {a : Answers} {before : List ℕ} {dst : Bytes} {d : ℕ} {src : Bytes} {s size : ℕ}
    {r : Option Used}
    → Operated a before dst d src s size r
    → (u : Used) × (r ≡ some u)
      × (((u.stop_time ≡ a.stop_ns)
            × ((x : ℕ) → u.bytes x ≡ memcpy dst d src s size x)
            × (u.closed ≡ []))
          ⊎ ((u.stop_time ≡ no_time) × Fails a before))
Operated-cases (not_opened q e o v n) = (_, refl, inr (refl, inl (e, o)))
Operated-cases (completed fd rest bytes q t b v k) = (_, refl, inl (refl, b, refl))
Operated-cases (failed fd moved i left bytes q st t l b v) =
    (_, refl, inr (refl, inr (i, left, st)))

stop_seen :
    (a : Answers) (stop : ℕ) → a.stop_ns < no_time → stop ≡ a.stop_ns → (stop == no_time) ≡ false
stop_seen a stop h e = ground arith

delta_lem :
    (a : Answers) (start stop : ℕ)
    → stop ≡ a.stop_ns
    → start ≤ a.stop_ns
    → safe_delta_ns start stop ≡ a.stop_ns - start
delta_lem a start stop e h = ap (safe_delta_ns start) e ∙ safe_delta_lem start a.stop_ns h

-- The histograms with the three points of a read, or of a write.
abbrev pub read_points : Histograms → ℕ → ℕ → Histograms
read_points h raw_ns ns = record h {
  raw_read_hist = histogram_insert_data_point h.raw_read_hist raw_ns;
  read_hist = histogram_insert_data_point h.read_hist ns;
  dev_raw_read_hist = histogram_insert_data_point h.dev_raw_read_hist raw_ns;
}

abbrev pub write_points : Histograms → ℕ → ℕ → Histograms
write_points h raw_ns ns = record h {
  raw_write_hist = histogram_insert_data_point h.raw_write_hist raw_ns;
  write_hist = histogram_insert_data_point h.write_hist ns;
  dev_raw_write_hist = histogram_insert_data_point h.dev_raw_write_hist raw_ns;
}

-- What a transaction is started with: times that do not run backwards, and calls within their
-- contracts.
pub record Starts (a : Answers) (raw_start : ℕ) (req : TransReq) (w : Worker) : Type 0 where
  pub ready : IsReady w.fd_q
  pub opens : a.opened < 2 ^ 32
  pub bounded : Bounded a.calls
  pub size : req.size < 2 ^ 32
  pub stops : a.stop_ns < no_time
  pub after_raw : raw_start ≤ a.stop_ns
  pub after_start : req.start_time ≤ a.stop_ns

module _ (heap : Heap) (laws : Allocates heap) (a : Answers) (raw_start : ℕ) (req : TransReq)
    (w : Worker) (st : Starts a raw_start req w) where
  -- After a read.
  abbrev pub ReadDone : Worker → Type 0
  ReadDone w' =
      (((x : ℕ) → w'.buf x ≡ memcpy w.buf 0 w.device req.offset req.size x)
        × (w'.closed ≡ [])
        × (w'.hists ≡ read_points w.hists (a.stop_ns - raw_start) (a.stop_ns - req.start_time)))
      ⊎ ((w'.hists ≡ w.hists) × Fails a (pool w.fd_q))

  -- A read transaction ends. Either the buffer has the bytes of the request, no descriptor was closed
  -- and the three read histograms have one more point each, the latency from the start of the read and
  -- from the request; or no descriptor was kept and
  -- the device could not be opened, or a call failed or read nothing, and then no histogram has
  -- changed. The device is not written.
  pub read_and_report-ReadDone :
      (w' : Worker) × (read_and_report heap a raw_start req w ≡ some w')
      × (w'.device ≡ w.device)
      × ReadDone w'
  unfolding read_and_report
  read_and_report-ReadDone =
      let (u, e, cases) = Operated-cases (
        read_from_device-Operated heap a w.fd_q w.device req.offset req.size w.buf laws st.ready
          st.opens st.bounded st.size) in
      elim cases [
        | inr (no_stop, why) ↦
            rw (e, eq→== u.stop_time no_time no_stop) (_, refl, refl, inr (refl, why))
        | inl (stop, bytes, closed) ↦
            rw (e, stop_seen a u.stop_time st.stops stop)
              (
                _,
                refl,
                refl,
                inl (
                  bytes,
                  closed,
                  ap₂ (read_points w.hists) (delta_lem a raw_start u.stop_time stop st.after_raw)
                      (delta_lem a req.start_time u.stop_time stop st.after_start),
                ),
              )
      ]

  -- After a write.
  abbrev pub WriteDone : Worker → Type 0
  WriteDone w' =
      (((x : ℕ)
          → w'.device x ≡ (
              if leb req.offset x && ltb x (req.offset + req.size)
              then output_byte w.seeds (x - req.offset)
              else w.device x))
        × (w'.closed ≡ [])
        × (w'.hists ≡ write_points w.hists (a.stop_ns - raw_start) (a.stop_ns - req.start_time)))
      ⊎ ((w'.hists ≡ w.hists) × Fails a (pool w.fd_q))

  -- A write transaction ends. Either the bytes of the request on the device, and no others, are new
  -- outputs of the thread's generator, no descriptor was closed and the three write histograms have one
  -- more point each; or no descriptor was kept and the device could not be opened, or a
  -- call failed or wrote nothing, and then no histogram has changed.
  pub write_and_report-WriteDone :
      (w' : Worker) × (write_and_report heap a raw_start req w ≡ some w') × WriteDone w'
  unfolding write_and_report
  write_and_report-WriteDone =
      let (salted, filled, bytes_of, room) = rand_fill_lem w.seeds w.buf req.size in
      let (u, e, cases) = Operated-cases (
        write_to_device-Operated heap a w.fd_q w.device req.offset req.size salted laws st.ready
          st.opens st.bounded st.size) in
      elim cases [
        | inr (no_stop, why) ↦
            rw (filled, e, eq→== u.stop_time no_time no_stop) (_, refl, inr (refl, why))
        | inl (stop, bytes, closed) ↦
            rw (filled, e, stop_seen a u.stop_time st.stops stop)
              (
                _,
                refl,
                inl (
                  λ x. salted_lem x u.bytes salted room (bytes x) bytes_of,
                  closed,
                  ap₂ (write_points w.hists) (delta_lem a raw_start u.stop_time stop st.after_raw)
                      (delta_lem a req.start_time u.stop_time stop st.after_start),
                ),
              )
      ]
    where
      salted_lem :
          (x : ℕ) (bytes salted : Bytes)
          → 8 * words req.size ≡ req.size + (8 - req.size % 8) % 8
          → bytes x ≡ memcpy w.device req.offset salted 0 req.size x
          → ((y : ℕ)
              → salted y ≡ (if ltb y (8 * words req.size) then output_byte w.seeds y else w.buf y))
          → bytes x ≡ (
              if leb req.offset x && ltb x (req.offset + req.size)
              then output_byte w.seeds (x - req.offset)
              else w.device x)
      salted_lem x bytes salted room moved filled = ground (arith, filled (x - req.offset))
