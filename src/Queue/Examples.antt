-- ===== src/Queue/Examples.antt =====
-- The queue theorems at a store of five blocks, of which 1, 2 and 3 form a queue.
use mips_os.Common.{refl}
use mips_os.Common.{none, some}
use mips_os.Common.{[], ◌∷◌, update}
use mips_os.Queue.{Queue, Links, queue_push, queue_dequeue}
use mips_os.Queue.Shape.{IsQueue}
use mips_os.Queue.Push.{Pushed, queue_push-append}
use mips_os.Queue.Dequeue.{Dequeued, queue_dequeue-Dequeued}
use mips_os.Queue.Remove.{Reaches, queue_push_queued_cuts}

abbrev three : Queue
three = record { head = some 1; tail = some 3 }

abbrev links : Links
links = record {
  prev = update (update (λ _. none) 2 (some 1)) 3 (some 2);
  next = update (update (λ _. none) 1 (some 2)) 2 (some 3);
}

abbrev empty : Queue
empty = record { head = none; tail = none }

three-IsQueue : IsQueue three links (1 ∷ 2 ∷ 3 ∷ [])
three-IsQueue = record {
  head = refl;
  tail = refl;
  linked = (refl, refl, (refl, refl, (refl, refl, tt)));
  distinct = (refl, (refl, (refl, tt)));
}

empty-IsQueue : IsQueue empty links []
empty-IsQueue = record { head = refl; tail = refl; linked = tt; distinct = tt }

queue_push-append_example : Pushed (1 ∷ 2 ∷ 3 ∷ 4 ∷ []) links (queue_push three links 4)
queue_push-append_example = queue_push-append three links (1 ∷ 2 ∷ 3 ∷ []) 4 three-IsQueue refl

queue_dequeue-Dequeued_example : Dequeued (1 ∷ 2 ∷ 3 ∷ []) links (queue_dequeue three links)
queue_dequeue-Dequeued_example = queue_dequeue-Dequeued three links (1 ∷ 2 ∷ 3 ∷ []) three-IsQueue

queue_push_queued_cuts_example : Reaches (1 ∷ []) (queue_push three links 1)
queue_push_queued_cuts_example = queue_push_queued_cuts three links [] 1 2 (3 ∷ []) three-IsQueue
