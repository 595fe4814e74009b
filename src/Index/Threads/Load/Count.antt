-- ===== src/Index/Threads/Load/Count.antt =====
-- What `g_reqs_queued` counts.
use act.Common.{ℕ, ◌+◌, ◌≤◌, ◌≡◌, ◌⊎◌, false, List, [], ◌∷◌, ◌++◌, arith}
use act.Common.Lists.{length}
use act.IndexCfg.{IndexCfg}
use act.Index.{TransReq}
use act.Index.Transactions.{System}
use act.Index.Threads.Load.{Load, total}

-- The requests that are counted and not done: to be pushed, waiting, being done, and lost by a failed push.
abbrev pub requests : Load → ℕ
requests l = length l.counted + total l.waiting + length l.in_flight + l.lost

-- The count is that of the requests and of the refusals, and while the test runs no request was refused; the
-- requests are not more than the limit, and there are as many generators and transaction threads as at the
-- start.
pub record Counts (cfg : IndexCfg) (threads : List ℕ) (l : Load) : Type 0 where
  pub exact : l.reqs_queued ≡ requests l + l.refused
  pub limited : requests l ≤ cfg.max_reqs_queued
  pub none_refused : (l.running ≡ false) ⊎ (l.refused ≡ 0)
  pub generators :
      l.ready + l.passed + length l.counted + length l.pushed + l.refused + l.left
      ≡ cfg.service_threads
  pub workers :
      length l.idle + length l.popping + length l.in_flight + length l.gone ≡ length threads

total-append : (qs qs' : List (List TransReq)) → total (qs ++ qs') ≡ total qs + total qs'
total-append [] qs' = omega arith
total-append (q ∷ qs) qs' = omega (arith, total-append qs qs')

module _ (cfg : IndexCfg) (sys : System) where
  pub total-insert :
      (qs qs' : List (List TransReq)) (q q' : List TransReq) (k : ℕ)
      → length q' ≡ length q + k
      → total (qs ++ (q' ∷ qs')) ≡ total (qs ++ (q ∷ qs')) + k
  total-insert qs qs' q q' k h =
      omega (arith, total-append qs (q' ∷ qs'), total-append qs (q ∷ qs'), h)
