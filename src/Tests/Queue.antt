-- ===== src/Tests/Queue.antt =====
-- BoidsPvpServer/BoidsPvpServer/Data/MessageQueue.h.
use lalune_server.Base.{ℕ, ◌≡◌, [], ◌∷◌, ◌++◌, ◌||◌, arith, length, nat_key}
use lalune_server.Queue.{
  MessageQueue, put_in, take_out, contains, merge_queue, take_out-put_in, contains-merge_queue,
  merge_queue-Once, Once,
}

abbrev one : MessageQueue ℕ
one = 1 ∷ []

abbrev two : MessageQueue ℕ
two = 5 ∷ 1 ∷ []

take_out-put_in_example : take_out (length (put_in two one)) (put_in two one) ≡ one ++ two
take_out-put_in_example = take_out-put_in two one

contains-merge_queue_example :
    contains {T = ℕ} 5 (merge_queue two one) ≡ (contains {T = ℕ} 5 one || contains {T = ℕ} 5 two)
contains-merge_queue_example = contains-merge_queue 5 two one

one-Once : Once {T = ℕ} one
one-Once m = ground arith

merge_queue-Once_example : Once {T = ℕ} (merge_queue two one)
merge_queue-Once_example = merge_queue-Once two one one-Once
