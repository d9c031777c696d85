-- ===== src/Placement/Machine.antt =====
-- A small machine on which the theorems and tests run: page tables are lists, and entries are bits.
use ambix.Base.{
  ℕ, Bool, true, false, ◌&&◌, List, [], ◌∷◌, Option, none, some, ℤ, pos, refl, leb, ltb, ◌==◌,
  ◌==ℤ◌, if◌then◌else◌,
}
use ambix.Config.{AddrInfo}
use ambix.Kernel.{Kernel, PteLaws, Processes, Task}
use ambix.Placement.State.{State, Search, Pids}

pub record Bits : Type 0 where
  pub present : Bool
  pub write : Bool
  pub young : Bool
  pub dirty : Bool
  pub nid : ℕ

abbrev pub Table : Type 0
Table = List (ℕ × Option Bits)

abbrev pub in_range : Table → ℕ → ℕ → Table
in_range [] lo hi = []
in_range ((a, e) ∷ es) lo hi =
    if leb lo a && ltb a hi then (a, e) ∷ in_range es lo hi else in_range es lo hi

abbrev pub write_entry : Table → ℕ → Bits → Table
write_entry [] addr pte = []
write_entry ((a, e) ∷ es) addr pte =
    if a == addr then (a, some pte) ∷ es else (a, e) ∷ write_entry es addr pte

abbrev pub machine : Kernel
machine = record {
  Pte = Bits;
  Space = Table;
  pte_present = λ p. p.present;
  pte_write = λ p. p.write;
  pte_young = λ p. p.young;
  pte_dirty = λ p. p.dirty;
  pte_nid = λ p. p.nid;
  pte_mkold = λ p. record p { young = false };
  pte_mkclean = λ p. record p { dirty = false };
  entries = in_range;
  commit = write_entry;
}

abbrev pub machine_laws : PteLaws machine
machine_laws = record {
  young-mkold = λ p. refl;
  dirty-mkold = λ p. refl;
  young-mkclean = λ p. refl;
  dirty-mkclean = λ p. refl;
}

-- A page that the walks may take: of the node, accessed and written or not.
abbrev pub page : ℕ → Bool → Bool → Option Bits
page nid young dirty =
    some (record { present = true; write = true; young = young; dirty = dirty; nid = nid })

-- A page table with idle pages of DRAM at 1 and 3, one in use at 2, and pages of NVRAM behind them.
abbrev pub table : Table
table =
    (1, page 0 false false)
    ∷ (2, page 0 true false)
    ∷ (3, page 0 false true)
    ∷ (4, page 2 true true)
    ∷ (5, page 2 true false)
    ∷ (6, none)
    ∷ []

abbrev pub task : Task
task = record { pid = pos 42; mm = some 0 }

-- The processes that the kernel knows: only pid 42.
abbrev pub processes : Processes
processes = record {
  find_get_pid = λ p. p ==ℤ pos 42;
  get_pid_task = λ p. if p ==ℤ pos 42 then some task else none;
}

abbrev pub blank : ℕ → AddrInfo
blank i = record { addr = 0; pid_retval = pos 0 }

abbrev pub one_task : Pids
one_task = record {
  task_items = λ i. if i == 0 then some task else none;
  n_pids = 1;
  last_addr_dram = 0;
  last_addr_nvram = 0;
  last_pid_dram = 0;
  last_pid_nvram = 0;
}

abbrev pub no_search : ℤ → Search
no_search n = record {
  found_addrs = blank;
  backup_addrs = blank;
  switch_backup_addrs = blank;
  curr_pid = pos 42;
  n_to_find = n;
  n_found = 0;
  n_backup = 0;
  n_switch_backup = 0;
  fault = false;
}

-- A module that has bound pid 42.
abbrev pub running : ℤ → State Table
running n = record { pids = one_task; search = no_search n; spaces = λ sp. table }
