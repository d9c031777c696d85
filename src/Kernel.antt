-- ===== src/Kernel.antt =====
-- What the module takes from the Linux kernel, which is not part of this repository: page table
-- entries with their accessors, the page walk, and the lookup of processes. It enters every
-- definition as a parameter.
pub mod Tables
use ambix.Base.{ℕ, ◌≡◌, Bool, false, List, Option, ℤ}

-- `struct task_struct`, as far as the module reads it. `mm` is `none` for a kernel thread or an
-- exited process, and otherwise names an address space, which threads share.
pub record Task : Type 0 where
  pub pid : ℤ
  pub mm : Option ℕ

pub record Kernel : Type 1 where
  -- `pte_t`
  pub Pte : Type 0
  -- the page table of an address space
  pub Space : Type 0
  pub pte_present : Pte → Bool
  pub pte_write : Pte → Bool
  pub pte_young : Pte → Bool
  pub pte_dirty : Pte → Bool
  -- `pfn_to_nid(pte_pfn(pte))`
  pub pte_nid : Pte → ℕ
  pub pte_mkold : Pte → Pte
  pub pte_mkclean : Pte → Pte
  -- The addresses in a range with their entries, in the order in which `walk_page_range` hands
  -- them to the callback (`none` for a null `ptep`).
  pub entries : Space → ℕ → ℕ → List (ℕ × Option Pte)
  -- `ptep_modify_prot_commit`: the page table with the entry of an address written
  pub commit : Space → ℕ → Pte → Space

-- The documented meaning of the accessors: `pte_mkold` clears the accessed bit, `pte_mkclean` the
-- dirty bit, and neither touches the other.
pub record PteLaws (k : Kernel) : Type 0 where
  pub young-mkold : (p : k.Pte) → k.pte_young (k.pte_mkold p) ≡ false
  pub dirty-mkold : (p : k.Pte) → k.pte_dirty (k.pte_mkold p) ≡ k.pte_dirty p
  pub young-mkclean : (p : k.Pte) → k.pte_young (k.pte_mkclean p) ≡ k.pte_young p
  pub dirty-mkclean : (p : k.Pte) → k.pte_dirty (k.pte_mkclean p) ≡ false

-- The process table at the time of a request.
pub record Processes : Type 0 where
  -- whether `find_get_pid` finds the pid
  pub find_get_pid : ℤ → Bool
  -- `get_pid_task` of a pid that was found
  pub get_pid_task : ℤ → Option Task
