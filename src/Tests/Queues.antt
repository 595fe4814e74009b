-- ===== src/Tests/Queues.antt =====
-- The queue at concrete inputs.
use act.Common.{◌+◌, ◌*◌, ◌%◌, ◌≤◌, ◌≡◌, ◌≢◌, ◌↔◌, refl, true, some, arith, []}
use act.Queue.{Queue, new_queue, queue_create, queue_push, wait_deadline}
use act.Queue.Inv.{IsValid, contents}
use act.Queue.Create.{queue_create-IsValid}
use act.Queue.Push.{Pushed, queue_push-Pushed}
use act.Queue.Pop.{IsTimespec, wait_deadline_lem}
use act.Tests.Given.{heap, heap-Allocates, full_queue, full_queue-IsValid}

queue_push_example : Pushed heap full_queue (λ i. 7) (queue_push heap full_queue (λ i. 7))
queue_push_example =
    queue_push-Pushed heap full_queue (λ i. 7) heap-Allocates full_queue-IsValid
      (omega arith, omega arith)

abbrev created : Queue
created = new_queue true 4 (record { size = 64 * 1024 * 4; bytes = λ i. 0 })

creates : queue_create heap true 4 true ≡ some created
unfolding queue_create
creates = refl

queue_create_example :
    IsValid created
    × (contents created ≡ [])
    × (created.ele_size ≡ 4)
    × (created.thread_safe ≡ true)
queue_create_example =
    queue_create-IsValid heap true 4 true created heap-Allocates (omega arith) creates

-- Half a second, and half a second more.
wait_deadline_example :
    let (sec, nsec) = wait_deadline 7 500000000 500 in
    (sec * 1000000000 + nsec ≡ 7 * 1000000000 + 500000000 + 500 * 1000000)
    × (nsec ≤ 1000000000)
    × (IsTimespec nsec ↔ (500000000 + 500 % 1000 * 1000000 ≢ 1000000000))
wait_deadline_example = wait_deadline_lem 7 500000000 500 (omega arith)
