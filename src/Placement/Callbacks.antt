-- ===== src/Placement/Callbacks.antt =====
-- src/ambix_hyb-mod.c: the callbacks that `walk_page_range` runs on each page table entry. A
-- callback takes the address space, the address, the entry (`none` for a null pointer) and the
-- state; it returns whether it ends the walk (a return value other than 0), and the new state.
pub mod Bounds
use ambix.Base.{
  ℕ, ◌+◌, Bool, true, false, not, ◌&&◌, ◌||◌, Option, none, some, ℤ, pos, ◌==ℤ◌, ltb_ℤ, ◌-ℤ◌,
  if◌then◌else◌, update, List, [], ◌∷◌,
}
use ambix.Config.{AddrInfo, contains, dram_mode, nvram_mode}
use ambix.Kernel.{Kernel}
use ambix.Placement.State.{State, Search, push_found, push_backup, push_switch_backup}

module _ (k : Kernel) where
  abbrev pub Callback : Type 0
  Callback = ℕ → ℕ → Option k.Pte → State k.Space → Bool × State k.Space

  -- `n_found == n_to_find`
  abbrev pub found_all : State k.Space → Bool
  found_all s = pos s.n_found ==ℤ s.n_to_find

  -- `n_backup < (n_to_find - n_found)`, for either backup list
  abbrev pub has_room : State k.Space → ℕ → Bool
  has_room s n = ltb_ℤ (pos n) (s.n_to_find -ℤ pos s.n_found)

  -- `(ptep == NULL) || !pte_present(*ptep) || !pte_write(*ptep) || !contains(nid, mode)`, for an
  -- entry that is there.
  abbrev pub is_excluded : ℤ → k.Pte → Bool
  is_excluded mode pte =
      not (k.pte_present pte) || not (k.pte_write pte) || not (contains (k.pte_nid pte) mode)

  -- The candidate that a callback stores.
  abbrev pub candidate : State k.Space → ℕ → AddrInfo
  candidate s addr = record { addr = addr; pid_retval = s.curr_pid }

  abbrev pub find_page : State k.Space → ℕ → State k.Space
  find_page s addr = record s { search = push_found s.search (candidate s addr) }

  abbrev pub back_up_page : State k.Space → ℕ → State k.Space
  back_up_page s addr = record s { search = push_backup s.search (candidate s addr) }

  abbrev pub back_up_switch : State k.Space → ℕ → State k.Space
  back_up_switch s addr = record s { search = push_switch_backup s.search (candidate s addr) }

  abbrev pub stop_dram : State k.Space → ℕ → Bool × State k.Space
  stop_dram s addr = (true, record s { pids = record (s.pids) { last_addr_dram = addr } })

  abbrev pub stop_nvram : State k.Space → ℕ → Bool × State k.Space
  stop_nvram s addr = (true, record s { pids = record (s.pids) { last_addr_nvram = addr } })

  -- The two assignments to `*ptep` between `ptep_modify_prot_start` and `_commit`. Both start
  -- from `old_pte`, so the second makes the first one's result void.
  abbrev pub cleared : k.Pte → k.Pte
  cleared old_pte = let pte = k.pte_mkold old_pte in let pte = k.pte_mkclean old_pte in pte

  abbrev pub clear_entry : ℕ → ℕ → k.Pte → State k.Space → State k.Space
  clear_entry m addr old_pte s = record s {
    spaces = update s.spaces m (k.commit (s.spaces m) addr (cleared old_pte));
  }

  unfoldable pub pte_callback_mem : Callback
  pte_callback_mem m addr none s = if found_all s then stop_dram s addr else (false, s)
  pte_callback_mem m addr (some pte) s =
      if found_all s
      then stop_dram s addr
      else if is_excluded dram_mode pte
      then (false, s)
      else if not (k.pte_young pte)
      then (false, find_page s addr)
      else (
        false,
        clear_entry m addr pte
            (if not (k.pte_dirty pte) && has_room s s.n_backup then back_up_page s addr else s),
      )

  unfoldable pub pte_callback_nvram_force : Callback
  pte_callback_nvram_force m addr none s = if found_all s then stop_nvram s addr else (false, s)
  pte_callback_nvram_force m addr (some pte) s =
      if found_all s
      then stop_nvram s addr
      else if is_excluded nvram_mode pte
      then (false, s)
      else if k.pte_young pte && k.pte_dirty pte
      then (false, find_page s addr)
      else (
        false,
        clear_entry m addr pte (if has_room s s.n_backup then back_up_page s addr else s),
      )

  unfoldable pub pte_callback_nvram_write : Callback
  pte_callback_nvram_write m addr none s = if found_all s then stop_nvram s addr else (false, s)
  pte_callback_nvram_write m addr (some pte) s =
      if found_all s
      then stop_nvram s addr
      else if is_excluded nvram_mode pte
      then (false, s)
      else if not (k.pte_dirty pte)
      then (false, s)
      else if k.pte_young pte
      then (false, find_page s addr)
      else if has_room s s.n_backup
      then (false, back_up_page s addr)
      else (false, s)

  unfoldable pub pte_callback_nvram_intensive : Callback
  pte_callback_nvram_intensive m addr none s = if found_all s then stop_nvram s addr else (false, s)
  pte_callback_nvram_intensive m addr (some pte) s =
      if found_all s
      then stop_nvram s addr
      else if is_excluded nvram_mode pte
      then (false, s)
      else if not (k.pte_young pte)
      then (false, s)
      else if k.pte_dirty pte
      then (false, find_page s addr)
      else if has_room s s.n_backup
      then (false, back_up_page s addr)
      else (false, s)

  unfoldable pub pte_callback_nvram_switch : Callback
  pte_callback_nvram_switch m addr none s = if found_all s then stop_nvram s addr else (false, s)
  pte_callback_nvram_switch m addr (some pte) s =
      if found_all s
      then stop_nvram s addr
      else if is_excluded nvram_mode pte
      then (false, s)
      else if not (k.pte_young pte)
      then (false, s)
      else if k.pte_dirty pte
      then (false, find_page s addr)
      else if has_room s s.n_switch_backup
      then (false, back_up_switch s addr)
      else (false, s)

  unfoldable pub pte_callback_nvram_clear : Callback
  pte_callback_nvram_clear m addr none s = (false, s)
  pte_callback_nvram_clear m addr (some pte) s =
      if is_excluded nvram_mode pte then (false, s) else (false, clear_entry m addr pte s)
