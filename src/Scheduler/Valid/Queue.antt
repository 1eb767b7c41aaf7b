-- ===== src/Scheduler/Valid/Queue.antt =====
-- The part of the invariant that is about the queue, under the moves of `Scheduler.Spec`.
use so.Common.{ℕ, ◌≡◌, ◌≢◌, sym, ap, some, List, All, arith}
use so.Scheduler.Types.{Ptr, Heap, Thread, ThreadState, write_thread, not_waiting_thread}
use so.Scheduler.Queue.Spec.{insert, first_ready, erase_ready}
use so.Scheduler.Queue.Ready.{SameKeys-of, IsSorted-same}
use so.Scheduler.Queue.Order.{insert-IsSorted, erase_ready-IsSorted}
use so.Scheduler.Spec.{View, join_queue, run}
use so.Scheduler.Refine.{fixed_join}
use so.Scheduler.Valid.Defs.{NotIn, Queued, CanJoin, Base}
use so.Scheduler.Valid.Lists.{
  All-map, All-map₂, All-insert, All-erase_ready, IsNodup-insert, IsNodup-erase_ready,
  first_ready-NotIn,
}

-- The heaps have the same threads at these addresses.
abbrev pub SameAt : Heap → Heap → List Ptr → Type 0
SameAt h h' = All (λ y. h' y ≡ h y)

pub SameAt-write :
    (h : Heap) (t : Ptr) (th : Thread) (xs : List Ptr)
    → NotIn t xs
    → SameAt h (write_thread h t th) xs
SameAt-write h t th xs out = All-map xs (λ y ne. ground arith) out

pub Base-same : (q : ℕ) (h h' : Heap) (xs : List Ptr) → SameAt h h' xs → Base q h xs → Base q h' xs
Base-same q h h' xs same b = record {
  sorted =
      IsSorted-same h h' xs
        (All-map xs
          (λ y e. (
            ap (λ th. Thread.priority th) (sym e),
            ap (λ th. not_waiting_thread (Thread.state th)) (sym e),
          ))
          same)
        b.sorted;
  nodup = b.nodup;
  queued = All-map₂ xs (λ y e w. rw e w) same b.queued;
}

pub join-other : (t p : Ptr) (v : View) → p ≢ t → (join_queue t v).heap p ≡ v.heap p
unfolding join_queue
join-other t p v ne = ground arith

join-Queued :
    (t : Ptr) (v : View)
    → CanJoin v.time_quantum (v.heap t)
    → Queued v.time_quantum ((join_queue t v).heap t)
unfolding join_queue
join-Queued t v c = record { thread = ground arith; state = ground arith }

pub join-Base :
    (t : Ptr) (v : View)
    → Base v.time_quantum v.heap v.queue
    → NotIn t v.queue
    → CanJoin v.time_quantum (v.heap t)
    → Base v.time_quantum (join_queue t v).heap (insert v.heap t v.queue)
join-Base t v b out can = record {
  sorted =
      IsSorted-same v.heap h' (insert v.heap t v.queue)
        (SameKeys-of v.heap h' (insert v.heap t v.queue) (λ p. fixed_join t v p))
        (insert-IsSorted v.heap t v.queue b.sorted);
  nodup = IsNodup-insert v.heap t v.queue out b.nodup;
  queued =
      All-insert (λ y. Queued v.time_quantum (h' y)) v.heap t v.queue (join-Queued t v can)
        (Base-same v.time_quantum v.heap h' v.queue
          (All-map v.queue (λ y ne. join-other t y v ne) out) b).queued;
}
  where
    h' : Heap
    h' = (join_queue t v).heap

pub erase_ready-Base :
    (q : ℕ) (h : Heap) (xs : List Ptr) → Base q h xs → Base q h (erase_ready h xs)
erase_ready-Base q h xs b = record {
  sorted = erase_ready-IsSorted h xs b.sorted;
  nodup = IsNodup-erase_ready h xs b.nodup;
  queued = All-erase_ready (λ y. Queued q (h y)) h xs b.queued;
}

pub run-Base :
    (f : Ptr) (v : View)
    → Base v.time_quantum v.heap v.queue
    → first_ready v.heap v.queue ≡ some f
    → Base v.time_quantum (run f v).heap (erase_ready v.heap v.queue)
unfolding run
run-Base f v b e =
    Base-same v.time_quantum v.heap (run f v).heap (erase_ready v.heap v.queue)
      (SameAt-write v.heap f (record (v.heap f) { state = ThreadState.running })
        (erase_ready v.heap v.queue) (first_ready-NotIn v.heap f v.queue b.nodup e))
      (erase_ready-Base v.time_quantum v.heap v.queue b)
