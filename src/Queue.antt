-- ===== src/Queue.antt =====
-- BoidsPvpServer/BoidsPvpServer/Data/MessageQueue.h: the template `MessageQueue<T>`, first message
-- at the head. `nullptr` is `none`; two messages are the same if their pointers are.
use mathlib.Core.List.{append-nil, append_assoc}
use lalune_server.Base.{
  ℕ, ◌≡◌, refl, Bool, true, false, ◌||◌, List, [], ◌∷◌, ◌++◌, Option, none, some, arith, Key,
  if◌then◌else◌, ◌==◌, ◌+◌, ◌≤◌, zero, suc, sym, ap, ◌∙◌, length, elem, count, Bool-cases, inl, inr,
}

abbrev pub MessageQueue {ℓ} : Type ℓ → Type ℓ
MessageQueue T = List T

module _ {ℓ} {T : Type ℓ} where
  unfoldable pub enqueue : T → MessageQueue T → MessageQueue T
  enqueue m q = q ++ (m ∷ [])

  unfoldable pub dequeue : MessageQueue T → Option T × MessageQueue T
  dequeue [] = (none, [])
  dequeue (m ∷ q) = (some m, q)

  unfoldable pub clear : MessageQueue T → MessageQueue T
  clear q = []

  -- What `n` calls of `dequeue` give.
  pub take_out : ℕ → MessageQueue T → List T
  take_out zero q = []
  take_out (suc n) q = elim (dequeue q).0 [ none ↦ [] | some m ↦ m ∷ take_out n (dequeue q).1 ]

  pub put_in : List T → MessageQueue T → MessageQueue T
  put_in [] q = q
  put_in (m ∷ ms) q = put_in ms (enqueue m q)

  put_in-append : (ms q : List T) → put_in ms q ≡ q ++ ms
  unfolding put_in enqueue
  put_in-append [] q = sym (append-nil q)
  put_in-append (m ∷ ms) q = put_in-append ms (q ++ (m ∷ [])) ∙ append_assoc q (m ∷ []) ms

  take_out_all : (q : List T) → take_out (length q) q ≡ q
  unfolding take_out dequeue
  take_out_all [] = refl
  take_out_all (m ∷ q) = ap (◌∷◌ m) (take_out_all q)

  -- Whatever is queued behind what was there comes out after it, in the order in which it came in.
  pub take_out-put_in : (ms q : List T) → take_out (length (put_in ms q)) (put_in ms q) ≡ q ++ ms
  take_out-put_in ms q = take_out_all (put_in ms q) ∙ put_in-append ms q

module _ {ℓ} {T : Type ℓ} ⦃e : Key T⦄ where
  unfoldable pub contains : T → MessageQueue T → Bool
  contains m [] = false
  contains m (x ∷ q) = if x == m then true else contains m q

  unfoldable pub merge : T → MessageQueue T → MessageQueue T
  unfolding contains
  merge m q = if contains m q then q else q ++ (m ∷ [])

  unfoldable pub merge_queue : MessageQueue T → MessageQueue T → MessageQueue T
  unfolding contains
  merge_queue [] q = q
  merge_queue (m ∷ rest) q = merge_queue rest (if contains m q then q else q ++ (m ∷ []))

  contains-elem : (m : T) (q : MessageQueue T) → contains m q ≡ elem m q
  unfolding contains
  contains-elem m [] = refl
  contains-elem m (x ∷ q) = ground (arith, contains-elem m q)

  contains-append_one :
      (m n : T) (q : MessageQueue T) → contains m (q ++ (n ∷ [])) ≡ (contains m q || n == m)
  unfolding contains
  contains-append_one m n [] = ground arith
  contains-append_one m n (x ∷ q) = ground (arith, contains-append_one m n q)

  -- A merged queue holds what either queue held.
  pub contains-merge_queue :
      (m : T) (r q : MessageQueue T) → contains m (merge_queue r q) ≡ (contains m q || contains m r)
  unfolding merge_queue contains
  contains-merge_queue m [] q = ground arith
  contains-merge_queue m (x ∷ r) q = ground (
    arith,
    contains-merge_queue m r q,
    contains-merge_queue m r (q ++ (x ∷ [])),
    contains-append_one m x q,
    e.beq_iff x m,
  )

  abbrev pub Once : MessageQueue T → Type ℓ
  Once q = (m : T) → count m q ≤ 1

  count-append_one :
      (m n : T) (q : List T) → count m (q ++ (n ∷ [])) ≡ count m q + (if n == m then 1 else 0)
  count-append_one m n [] = ground arith
  count-append_one m n (x ∷ q) = ground (arith, count-append_one m n q)

  count_absent : (m : T) (q : MessageQueue T) → contains m q ≡ false → count m q ≡ 0
  unfolding contains
  count_absent m [] h = refl
  count_absent m (x ∷ q) h = ground (arith, count_absent m q)

  append_one-Once :
      (n : T) (q : MessageQueue T) → contains n q ≡ false → Once q → Once (q ++ (n ∷ []))
  append_one-Once n q absent o m =
      ground (arith, count-append_one m n q, count_absent n q absent, o m, e.beq_iff n m)

  merge_one-Once :
      (n : T) (q : MessageQueue T) → Once q → Once (if contains n q then q else q ++ (n ∷ []))
  merge_one-Once n q o = elim (Bool-cases (contains n q)) [
    | inl there ↦ rw there o
    | inr absent ↦ rw absent (append_one-Once n q absent o)
  ]

  -- A queue that holds no message twice still does not after a merge, even if the merged queue has
  -- copies.
  pub merge_queue-Once : (r q : MessageQueue T) → Once q → Once (merge_queue r q)
  unfolding merge_queue
  merge_queue-Once [] q o = o
  merge_queue-Once (x ∷ r) q o =
      merge_queue-Once r (if contains x q then q else q ++ (x ∷ [])) (merge_one-Once x q o)
