-- ===== src/Tests/Queues.antt =====
-- A ring of src/application/messaging/message_queue.cpp.
use my_messenger.Prelude.{◌≡◌, some, [], ◌∷◌, true}
use my_messenger.Prelude.Bytes.{codes}
use my_messenger.Queue.{LockFreeQueue, new_queue, push, pop, stored}
use my_messenger.Queue.Fifo.{Holds, new_queue-Holds, push-Holds, pop-Holds}

push-Holds_example :
    ((push (codes "a") new_queue).0 ≡ true) × Holds (push (codes "a") new_queue).1 (codes "a" ∷ [])
push-Holds_example = push-Holds new_queue [] (codes "a") new_queue-Holds

abbrev with_a : LockFreeQueue
with_a = record new_queue { buffer = stored 0 (codes "a") new_queue.buffer; tail = 1 }

with_a-Holds : Holds with_a (codes "a" ∷ [])
unfolding push
with_a-Holds = (push-Holds new_queue [] (codes "a") new_queue-Holds).1

pop-Holds_example : ((pop with_a).0 ≡ some (codes "a")) × Holds (pop with_a).1 []
pop-Holds_example = pop-Holds with_a (codes "a" ∷ []) with_a-Holds
