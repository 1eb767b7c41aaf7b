-- ===== src/Scheduler/Calls/End.antt =====
-- `so_init`.
use so.Common.{ℕ, ◌≡◌, ◌≤◌, ◌<◌, ◌≢◌, ◌⊎◌, refl, none, some, [], arith, inl}
use mathlib.Core.Path.{subst}
use so.Scheduler.Types.{Heap, null_block, so_max_num_events}
use so.Scheduler.Queue.{pq_create}
use so.Scheduler.Ops.{Sys}
use so.Scheduler.Api.{World, failed, returned, so_init}
use so.Scheduler.Calls.Inv.{Inv}

-- `so_init` returns 0 exactly for a positive quantum, at most SO_MAX_NUM_EVENTS events and no scheduler
-- so far; otherwise it returns -1 and changes nothing.
so_init-reply :
    (heap : Heap) (time_quantum io : ℕ) (w : World)
    → (((so_init heap time_quantum io w).0 ≡ returned 0)
        × (0 < time_quantum)
        × (io ≤ so_max_num_events)
        × (w ≡ none))
      ⊎ ((so_init heap time_quantum io w ≡ (failed, w))
          × ((time_quantum ≡ 0) ⊎ (so_max_num_events < io) ⊎ (w ≢ none)))
unfolding so_init
so_init-reply heap q io none = ground arith
so_init-reply heap q io (some s) = ground arith

-- The scheduler that `so_init` makes has no threads and satisfies the invariant.
pub so_init-Inv :
    (heap : Heap) (time_quantum io : ℕ) {s : Sys}
    → so_init heap time_quantum io none ≡ (returned 0, some s)
    → Inv s [] []
unfolding so_init
so_init-Inv heap q io {s} e =
    subst (λ t. Inv t [] []) made
      (record {
        pq = record { cells = tt; size = refl; room = omega arith; memory = inl (refl, refl) };
        valid = record { base = record { sorted = tt; nodup = tt; queued = tt }; cpu = tt };
        kept = record {
          positive = ground arith;
          devices = ground arith;
          cells = tt;
          count = refl;
          memory = refl;
        };
      })
  where
    made :
        record {
          heap = heap;
          log = [];
          pq = pq_create;
          threads = null_block;
          running_thread = none;
          time_quantum = q;
          io = io;
          n = 0;
        }
        ≡ s
    made = ground arith
