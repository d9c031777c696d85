-- ===== src/Placement/Walk/Bounds.antt =====
-- A walk with a safe callback is safe, and ends at a slot in use.
use ambix.Base.{ℕ, ◌<◌, Option, ℤ, arith}
use ambix.Kernel.{Kernel, Task}
use ambix.Placement.State.{State}
use ambix.Placement.Pids.Invariant.{IsTask}
use ambix.Placement.Callbacks.{Callback}
use ambix.Placement.Callbacks.Bounds.{Safe, KeepsSafe}
use ambix.Placement.Walk.{do_page_walk}
use ambix.Placement.Walk.Keeps.{set_pid, do_page_walk-Outside}

pub set_pid-Safe :
    (k : Kernel) (b n : ℕ) (items : ℕ → Option Task) (count : ℕ) (s : State k.Space) (pid : ℤ)
    → Safe k b n items count s
    → Safe k b n items count (set_pid s pid)
set_pid-Safe k b n items count s pid v = ground arith

module _ (k : Kernel) (b n : ℕ) (items : ℕ → Option Task) (count : ℕ)
    (tasks : (i : ℕ) → i < count → IsTask (items i)) (cb : Callback k)
    (keeps : KeepsSafe k b n cb) where
  -- The walk ends at a slot in use, and stays safe.
  pub do_page_walk-Safe :
      (last_pid last_addr : ℕ) (s : State k.Space)
      → last_pid < count
      → Safe k b n items count s
      → let r = do_page_walk k cb last_pid last_addr s in (r.0 < count) × Safe k b n items count r.1
  do_page_walk-Safe =
      do_page_walk-Outside k cb items count (Safe k b n items count) (Safe k b n items count)
        (record {
          tasks = tasks;
          same_items = λ s v. v.same_items;
          same_count = λ s v. v.same_count;
          enters = λ s i t lt e v. set_pid-Safe k b n items count s t.pid v;
          keeps = keeps items count;
          leaves = λ s v. v;
        })
