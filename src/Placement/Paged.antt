-- ===== src/Placement/Paged.antt =====
-- A second small machine, whose page tables are functions with one entry at an address and do what is
-- documented of page tables.
use ambix.Base.{
  ℕ, ◌-◌, refl, true, false, Option, none, some, pos, min, slice, update, if◌then◌else◌, ◌==◌, List,
}
use ambix.Kernel.{Kernel}
use ambix.Kernel.Tables.{TableLaws, read_all}
use ambix.Placement.State.{State, Pids}
use ambix.Placement.Machine.{Bits, page, no_search}

-- The addresses below 16 of a range.
abbrev pub small_range : ℕ → ℕ → List ℕ
small_range lo hi = slice (λ a. a) lo (min hi 16 - lo)

abbrev pub paged : Kernel
paged = record {
  Pte = Bits;
  Space = ℕ → Option Bits;
  pte_present = λ p. p.present;
  pte_write = λ p. p.write;
  pte_young = λ p. p.young;
  pte_dirty = λ p. p.dirty;
  pte_nid = λ p. p.nid;
  pte_mkold = λ p. record p { young = false };
  pte_mkclean = λ p. record p { dirty = false };
  entries = λ sp lo hi. read_all sp (small_range lo hi);
  commit = λ sp a p. update sp a (some p);
}

abbrev pub paged_laws : TableLaws paged
paged_laws = record {
  pte_laws = record {
    young-mkold = λ p. refl;
    dirty-mkold = λ p. refl;
    young-mkclean = λ p. refl;
    dirty-mkclean = λ p. refl;
  };
  present-mkclean = λ p. refl;
  write-mkclean = λ p. refl;
  nid-mkclean = λ p. refl;
  pte_at = λ sp. sp;
  addresses = λ sp lo hi. small_range lo hi;
  entries-at = λ sp lo hi. refl;
  addresses-commit = λ sp a p q lo hi e. refl;
  pte_at-commit = λ sp a p q b e. refl;
}

-- Idle pages of DRAM at 1 and 3, one in use at 2, and pages of NVRAM at 4 (accessed and written), 5
-- (accessed) and 6 (written).
abbrev pub pages : ℕ → Option Bits
pages a =
    if a == 1
    then page 0 false false
    else if a == 2
    then page 0 true false
    else if a == 3
    then page 0 false true
    else if a == 4
    then page 2 true true
    else if a == 5
    then page 2 true false
    else if a == 6
    then page 2 false true
    else none

-- Two processes are bound, with a table each. The walks go on in the second one at address 4.
abbrev pub two_tasks : Pids
two_tasks = record {
  task_items = λ i.
      if i == 0
      then some (record { pid = pos 42; mm = some 0 })
      else if i == 1
      then some (record { pid = pos 43; mm = some 1 })
      else none;
  n_pids = 2;
  last_addr_dram = 4;
  last_addr_nvram = 5;
  last_pid_dram = 1;
  last_pid_nvram = 1;
}

abbrev pub two_running : State (ℕ → Option Bits)
two_running = record { pids = two_tasks; search = no_search (pos 0); spaces = λ m. pages }
