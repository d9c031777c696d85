-- ===== src/ClockDwf.antt =====
-- src/tests/clock-dwf: the policy that Ambix is compared with. Here the state of its module
-- (clockdwf-mod.c) and the callbacks. The constants are not in its header, so they are a parameter; its
-- list of processes is that of `Placement.State`. The sizes of its arrays are not modelled.
pub mod Walk
pub mod Counts
pub mod Stale
pub mod Request
pub mod Answers
pub mod Migration
pub mod Groups
pub mod Moves
pub mod Migrated
pub mod Finds
mod FindTests
pub mod Tests
use ambix.Base.{
  ℕ, ◌+◌, Bool, true, false, not, ◌&&◌, ◌||◌, Option, none, some, ℤ, pos, ◌==ℤ◌, leb_ℤ, ◌==◌,
  if◌then◌else◌, update, List, [], ◌∷◌,
}
use ambix.Config.{AddrInfo}
use ambix.Kernel.{Kernel}
use ambix.Placement.State.{Pids}

pub record Constants : Type 0 where
  pub max_address : ℕ
  pub nvram_node : ℕ

-- `fault` records an access through a null pointer.
pub record ClockState (Space : Type 0) : Type 0 where
  pub pids : Pids
  pub found_addrs : ℕ → AddrInfo
  pub curr_pid : ℤ
  pub n_to_find : ℤ
  pub n_found : ℕ
  pub found_last : Bool
  pub fault : Bool
  pub spaces : ℕ → Space

module _ (k : Kernel) (constants : Constants) where
  abbrev pub ClockCallback : Type 0
  ClockCallback = ℕ → ℕ → Option k.Pte → ClockState k.Space → ClockState k.Space

  -- `n_found >= n_to_find`
  abbrev pub has_all : ClockState k.Space → Bool
  has_all s = leb_ℤ s.n_to_find (pos s.n_found)

  -- `found_addrs[n_found].addr = addr; found_addrs[n_found++].pid_retval = curr_pid;`
  abbrev pub store_page : ℕ → ClockState k.Space → ClockState k.Space
  store_page addr s = record s {
    found_addrs = update s.found_addrs s.n_found (record { addr = addr; pid_retval = s.curr_pid });
    n_found = s.n_found + 1;
  }

  -- `(n_found == n_to_find) && !found_last`
  abbrev pub is_last : ClockState k.Space → Bool
  is_last s = pos s.n_found ==ℤ s.n_to_find && not s.found_last

  abbrev pub note_dram : ℕ → ClockState k.Space → ClockState k.Space
  note_dram addr s =
      if is_last s
      then record s { pids = record (s.pids) { last_addr_dram = addr }; found_last = true }
      else s

  abbrev pub note_nvram : ℕ → ClockState k.Space → ClockState k.Space
  note_nvram addr s =
      if is_last s
      then record s { pids = record (s.pids) { last_addr_nvram = addr }; found_last = true }
      else s

  -- `!pte_present(*ptep) || !pte_write(*ptep)`
  abbrev pub is_fixed : k.Pte → Bool
  is_fixed pte = not (k.pte_present pte) || not (k.pte_write pte)

  abbrev pub is_nvram : k.Pte → Bool
  is_nvram pte = k.pte_nid pte == constants.nvram_node

  -- The two assignments start from `old_pte`, so the second makes the first one's result void.
  abbrev pub clear_bits : ℕ → ℕ → k.Pte → ClockState k.Space → ClockState k.Space
  clear_bits m addr old_pte s = record s {
    spaces = update s.spaces m (k.commit (s.spaces m) addr (k.pte_mkclean old_pte));
  }

  unfoldable pub pte_callback_dram : ClockCallback
  pte_callback_dram m addr none s = note_dram addr s
  pte_callback_dram m addr (some pte) s =
      if has_all s || is_fixed pte || is_nvram pte
      then note_dram addr s
      else if not (k.pte_young pte) || not (k.pte_dirty pte)
      then store_page addr s
      else clear_bits m addr pte s

  unfoldable pub pte_callback_force_nvram : ClockCallback
  pte_callback_force_nvram m addr none s = note_nvram addr s
  pte_callback_force_nvram m addr (some pte) s =
      if has_all s || is_fixed pte || not (is_nvram pte)
      then note_nvram addr s
      else if k.pte_young pte || k.pte_dirty pte
      then store_page addr s
      else s

  unfoldable pub pte_callback_perfect_nvram : ClockCallback
  pte_callback_perfect_nvram m addr none s = note_nvram addr s
  pte_callback_perfect_nvram m addr (some pte) s =
      if has_all s || is_fixed pte || not (is_nvram pte)
      then note_nvram addr s
      else if k.pte_young pte && k.pte_dirty pte
      then store_page addr s
      else s
