-- ===== src/Placement/Callbacks/Bounds.antt =====
-- No callback writes outside the arrays, while the count that is asked for fits them.
use ambix.Base.{ℕ, ◌-◌, ◌≤◌, ◌≡◌, false, Option, none, some, pos, arith}
use ambix.Config.{max_n_find, max_n_switch}
use ambix.Kernel.{Kernel, Task}
use ambix.Placement.State.{State, Search}
use ambix.Placement.Callbacks.{
  Callback, pte_callback_mem, pte_callback_nvram_force, pte_callback_nvram_write,
  pte_callback_nvram_intensive, pte_callback_nvram_switch, pte_callback_nvram_clear,
}

-- The walk looks for `n` pages and began with `b`, no list is longer than it may be, and no write was
-- out of bounds.
pub record Bounded (b n : ℕ) (s : Search) : Type 0 where
  pub target : s.n_to_find ≡ pos n
  pub grown : b ≤ s.n_found
  pub found : s.n_found ≤ n
  pub backup : s.n_backup ≤ max_n_find
  pub switch_backup : s.n_switch_backup ≤ max_n_switch
  pub sound : s.fault ≡ false

-- What a walk keeps: the bounds, and the list of processes that it goes through.
pub record Safe (k : Kernel) (b n : ℕ) (items : ℕ → Option Task) (count : ℕ) (s : State k.Space)
    : Type 0 where
  pub bounded : Bounded b n s.search
  pub same_items : s.task_items ≡ items
  pub same_count : s.n_pids ≡ count
  pub dram_in : s.last_pid_dram ≤ count - 1
  pub nvram_in : s.last_pid_nvram ≤ count - 1

module _ (k : Kernel) (b n : ℕ) where
  -- A callback that keeps the walk safe.
  abbrev pub KeepsSafe : Callback k → Type 0
  KeepsSafe cb =
      (items : ℕ → Option Task) (count sp addr : ℕ) (e : Option k.Pte) (s : State k.Space)
      → Safe k b n items count s
      → Safe k b n items count (cb sp addr e s).1

module _ (k : Kernel) (b n : ℕ) (h : n ≤ max_n_find) where
  pub pte_callback_mem-KeepsSafe : KeepsSafe k b n (pte_callback_mem k)
  unfolding pte_callback_mem
  pte_callback_mem-KeepsSafe items count sp addr none s v = ground arith
  pte_callback_mem-KeepsSafe items count sp addr (some pte) s v = ground arith

  pub pte_callback_nvram_force-KeepsSafe : KeepsSafe k b n (pte_callback_nvram_force k)
  unfolding pte_callback_nvram_force
  pte_callback_nvram_force-KeepsSafe items count sp addr none s v = ground arith
  pte_callback_nvram_force-KeepsSafe items count sp addr (some pte) s v = ground arith

  pub pte_callback_nvram_write-KeepsSafe : KeepsSafe k b n (pte_callback_nvram_write k)
  unfolding pte_callback_nvram_write
  pte_callback_nvram_write-KeepsSafe items count sp addr none s v = ground arith
  pte_callback_nvram_write-KeepsSafe items count sp addr (some pte) s v = ground arith

  pub pte_callback_nvram_intensive-KeepsSafe : KeepsSafe k b n (pte_callback_nvram_intensive k)
  unfolding pte_callback_nvram_intensive
  pte_callback_nvram_intensive-KeepsSafe items count sp addr none s v = ground arith
  pte_callback_nvram_intensive-KeepsSafe items count sp addr (some pte) s v = ground arith

  pub pte_callback_nvram_clear-KeepsSafe : KeepsSafe k b n (pte_callback_nvram_clear k)
  unfolding pte_callback_nvram_clear
  pte_callback_nvram_clear-KeepsSafe items count sp addr none s v = ground arith
  pte_callback_nvram_clear-KeepsSafe items count sp addr (some pte) s v = ground arith

-- The switch walk fills a list of its own, half as long.
module _ (k : Kernel) (b n : ℕ) (h : n ≤ max_n_switch) where
  pub pte_callback_nvram_switch-KeepsSafe : KeepsSafe k b n (pte_callback_nvram_switch k)
  unfolding pte_callback_nvram_switch
  pte_callback_nvram_switch-KeepsSafe items count sp addr none s v = ground arith
  pte_callback_nvram_switch-KeepsSafe items count sp addr (some pte) s v = ground arith
