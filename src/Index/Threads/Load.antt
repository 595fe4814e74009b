-- ===== src/Index/Threads/Load.antt =====
-- How the generators and the transaction threads of act_index.c share the queues of requests and the
-- count `g_reqs_queued`: one step for each test of `g_running`, change of the count, push, pop and end of a
-- transaction, by any thread that has come to it.
pub mod Count
use act.Common.{
  ℕ, zero, suc, ◌+◌, ◌^◌, ◌≡◌, refl, Bool, true, false, not, ◌&&◌, Option, some, List, [], ◌∷◌,
  ◌++◌,
}
use act.Common.Lists.{length}
use act.Common.Word.{sub32}
use act.Random.{Seeds}
use act.IndexCfg.{IndexCfg}
use act.Storage.Generators.{Pace, stop_test, sleep, go_on}
use act.Index.{TransReq}
use act.Index.Transactions.{System}
use act.Index.Threads.{too_many, queued, generate_read_req}

-- A request that a generator has counted and not pushed yet: its queue, and what the generator does
-- after the push.
pub record Counted : Type 0 where
  pub queue : ℕ
  pub req : TransReq
  pub next : Pace

-- A transaction thread at work: its queue, and the request that it has popped.
pub record Working : Type 0 where
  pub queue : ℕ
  pub req : TransReq

-- `waiting` are the queues of `g_trans_qs`. Of the threads in `run_generate_read_reqs`, `ready` are at the
-- test of `g_running` and `passed` behind it, `counted` have counted their request, `pushed` have called
-- `queue_push`, `refused` have left at the limit, and `left` because the test was over; `lost` requests were
-- counted, and their push failed. Of the threads in `run_transactions`, each given by its queue, `idle` are
-- at the test, `popping` behind it, `in_flight` do a request, and `gone` have left.
pub record Load : Type 0 where
  pub reqs_queued : ℕ
  pub running : Bool
  pub waiting : List (List TransReq)
  pub ready : ℕ
  pub passed : ℕ
  pub counted : List Counted
  pub pushed : List Pace
  pub refused : ℕ
  pub left : ℕ
  pub lost : ℕ
  pub idle : List ℕ
  pub popping : List ℕ
  pub in_flight : List Working
  pub gone : List ℕ

abbrev pub total : List (List TransReq) → ℕ
total [] = 0
total (q ∷ qs) = length q + total qs

-- `g_running` after the pace of a generator.
abbrev pub still_running : Bool → Pace → Bool
still_running running stop_test = false
still_running running go_on = running
still_running running (sleep us) = running

pub data Step (cfg : IndexCfg) (sys : System) : Load → Load → Type 0 where
  -- A generator finds `g_running` true, or false.
  test :
      {l : Load} (r : ℕ)
      → l.running ≡ true
      → l.ready ≡ suc r
      → Step cfg sys l (record l { ready = r; passed = suc l.passed })
  leave :
      {l : Load} (r : ℕ)
      → l.running ≡ false
      → l.ready ≡ suc r
      → Step cfg sys l (record l { ready = r; left = suc l.left })
  -- A generator behind the test counts its next request and finds the limit not passed.
  count :
      {l : Load} (p run_start start_ns now n i : ℕ) (s s' : Seeds) (req : TransReq) (next : Pace)
      (reqs' : ℕ)
      → l.passed ≡ suc p
      → generate_read_req cfg sys run_start start_ns now n l.reqs_queued s
        ≡ some (queued i req next, reqs', s')
      → Step cfg sys l (record l {
        reqs_queued = reqs';
        passed = p;
        counted = l.counted ++ (record { queue = i; req = req; next = next } ∷ []);
      })
  -- A generator behind the test finds the limit passed, and stops the test.
  refuse :
      {l : Load} (p run_start start_ns now n : ℕ) (s s' : Seeds) (reqs' : ℕ)
      → l.passed ≡ suc p
      → generate_read_req cfg sys run_start start_ns now n l.reqs_queued s
        ≡ some (too_many, reqs', s')
      → Step cfg sys l
          (record l { reqs_queued = reqs'; running = false; passed = p; refused = suc l.refused })
  -- A generator pushes the request that it has counted. The push adds it to its queue, or fails, which is
  -- not looked at. (Where the failed call was `realloc`, the next access to the queue ends the process.)
  push :
      {l : Load} (before after : List Counted) (c : Counted) (qs qs' : List (List TransReq))
      (q : List TransReq)
      → l.counted ≡ before ++ (c ∷ after)
      → l.waiting ≡ qs ++ (q ∷ qs')
      → length qs ≡ c.queue
      → Step cfg sys l (record l {
        waiting = qs ++ ((q ++ (c.req ∷ [])) ∷ qs');
        counted = before ++ after;
        pushed = c.next ∷ l.pushed;
      })
  lose :
      {l : Load} (before after : List Counted) (c : Counted)
      → l.counted ≡ before ++ (c ∷ after)
      → Step cfg sys l
          (record l { counted = before ++ after; pushed = c.next ∷ l.pushed; lost = suc l.lost })
  -- A generator goes on by its pace, or stops the test, and comes back to the test of `g_running`.
  resume :
      {l : Load} (before after : List Pace) (next : Pace)
      → l.pushed ≡ before ++ (next ∷ after)
      → Step cfg sys l (record l {
        running = still_running l.running next;
        ready = suc l.ready;
        pushed = before ++ after;
      })
  -- `main` stops the test.
  stop : {l : Load} → Step cfg sys l (record l { running = false })
  -- A transaction thread finds `g_running` true, or false.
  begin :
      {l : Load} (before after : List ℕ) (i : ℕ)
      → l.running ≡ true
      → l.idle ≡ before ++ (i ∷ after)
      → Step cfg sys l (record l { idle = before ++ after; popping = i ∷ l.popping })
  retire :
      {l : Load} (before after : List ℕ) (i : ℕ)
      → l.running ≡ false
      → l.idle ≡ before ++ (i ∷ after)
      → Step cfg sys l (record l { idle = before ++ after; gone = i ∷ l.gone })
  -- A transaction thread behind the test pops the oldest request of its queue, or finds no request in time.
  take :
      {l : Load} (before after : List ℕ) (i : ℕ) (qs qs' : List (List TransReq)) (q : List TransReq)
      (req : TransReq)
      → l.popping ≡ before ++ (i ∷ after)
      → l.waiting ≡ qs ++ ((req ∷ q) ∷ qs')
      → length qs ≡ i
      → Step cfg sys l (record l {
        waiting = qs ++ (q ∷ qs');
        popping = before ++ after;
        in_flight = record { queue = i; req = req } ∷ l.in_flight;
      })
  find_none :
      {l : Load} (before after : List ℕ) (i : ℕ) (qs qs' : List (List TransReq))
      → l.popping ≡ before ++ (i ∷ after)
      → l.waiting ≡ qs ++ ([] ∷ qs')
      → length qs ≡ i
      → Step cfg sys l (record l { popping = before ++ after; idle = i ∷ l.idle })
  -- A transaction thread has done its request.
  finish :
      {l : Load} (before after : List Working) (w : Working)
      → l.in_flight ≡ before ++ (w ∷ after)
      → Step cfg sys l (record l {
        reqs_queued = sub32 l.reqs_queued 1;
        in_flight = before ++ after;
        idle = w.queue ∷ l.idle;
      })

infixr 5 ◌then◌
pub data Steps (cfg : IndexCfg) (sys : System) : Load → Load → Type 0 where
  stay : {l : Load} → Steps cfg sys l l
  ◌then◌ : {l l' l'' : Load} → Step cfg sys l l' → Steps cfg sys l' l'' → Steps cfg sys l l''

-- The start of the test: the generators, and the transaction threads, by their queues.
abbrev pub start : IndexCfg → List (List TransReq) → List ℕ → Load
start cfg queues threads = record {
  reqs_queued = 0;
  running = true;
  waiting = queues;
  ready = cfg.service_threads;
  passed = 0;
  counted = [];
  pushed = [];
  refused = 0;
  left = 0;
  lost = 0;
  idle = threads;
  popping = [];
  in_flight = [];
  gone = [];
}
