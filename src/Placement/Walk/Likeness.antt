-- ===== src/Placement/Walk/Likeness.antt =====
-- Each callback keeps the page tables alike for the tests that its walk is about.
use ambix.Base.{ℕ, ◌≡◌, arith, Bool, Option, none, some}
use ambix.Kernel.{Kernel}
use ambix.Kernel.Tables.{TableLaws}
use ambix.Placement.State.{State}
use ambix.Placement.Callbacks.{
  pte_callback_mem, pte_callback_nvram_force, pte_callback_nvram_write,
  pte_callback_nvram_intensive, pte_callback_nvram_switch,
}
use ambix.Placement.Walk.Selection.{is_idle_dram, is_intensive_nvram, is_other_nvram}
use ambix.Placement.Walk.Alike.{KeepsAlike, Writes, Writes-Alike, same-Alike}

module _ (k : Kernel) (laws : TableLaws k) (test : Option k.Pte → Bool) where
  -- These callbacks write nothing.
  nvram_write-spaces :
      (m addr : ℕ) (e : Option k.Pte) (s : State k.Space)
      → (pte_callback_nvram_write k m addr e s).1.spaces ≡ s.spaces
  unfolding pte_callback_nvram_write
  nvram_write-spaces m addr none s = ground arith
  nvram_write-spaces m addr (some pte) s = ground arith

  pub nvram_write-KeepsAlike : KeepsAlike k laws test (pte_callback_nvram_write k)
  nvram_write-KeepsAlike m addr e s l =
      same-Alike k laws test s.spaces _ (nvram_write-spaces m addr e s)

  nvram_intensive-spaces :
      (m addr : ℕ) (e : Option k.Pte) (s : State k.Space)
      → (pte_callback_nvram_intensive k m addr e s).1.spaces ≡ s.spaces
  unfolding pte_callback_nvram_intensive
  nvram_intensive-spaces m addr none s = ground arith
  nvram_intensive-spaces m addr (some pte) s = ground arith

  pub nvram_intensive-KeepsAlike : KeepsAlike k laws test (pte_callback_nvram_intensive k)
  nvram_intensive-KeepsAlike m addr e s l =
      same-Alike k laws test s.spaces _ (nvram_intensive-spaces m addr e s)

  nvram_switch-spaces :
      (m addr : ℕ) (e : Option k.Pte) (s : State k.Space)
      → (pte_callback_nvram_switch k m addr e s).1.spaces ≡ s.spaces
  unfolding pte_callback_nvram_switch
  nvram_switch-spaces m addr none s = ground arith
  nvram_switch-spaces m addr (some pte) s = ground arith

  pub nvram_switch-KeepsAlike : KeepsAlike k laws test (pte_callback_nvram_switch k)
  nvram_switch-KeepsAlike m addr e s l =
      same-Alike k laws test s.spaces _ (nvram_switch-spaces m addr e s)

module _ (k : Kernel) (laws : TableLaws k) where
  open laws use {pte_laws, present-mkclean, write-mkclean, nid-mkclean}

  mem-Writes :
      (m addr : ℕ) (pte : k.Pte) (s : State k.Space)
      → Writes k laws
          (is_idle_dram k)
          m
          addr
          pte
          s.spaces
          (pte_callback_mem k m addr (some pte) s).1.spaces
  unfolding pte_callback_mem
  mem-Writes m addr pte s = ground (arith, pte_laws.young-mkclean pte)

  mem-none :
      (m addr : ℕ) (s : State k.Space) → (pte_callback_mem k m addr none s).1.spaces ≡ s.spaces
  unfolding pte_callback_mem
  mem-none m addr s = ground arith

  pub mem-KeepsAlike : KeepsAlike k laws (is_idle_dram k) (pte_callback_mem k)
  mem-KeepsAlike m addr none s l = same-Alike k laws _ s.spaces _ (mem-none m addr s)
  mem-KeepsAlike m addr (some pte) s l =
      Writes-Alike k laws _ m addr pte s.spaces _ l (mem-Writes m addr pte s)

  force-Writes :
      (m addr : ℕ) (pte : k.Pte) (s : State k.Space)
      → Writes k laws
          (is_intensive_nvram k)
          m
          addr
          pte
          s.spaces
          (pte_callback_nvram_force k m addr (some pte) s).1.spaces
  unfolding pte_callback_nvram_force
  force-Writes m addr pte s = ground (arith, pte_laws.dirty-mkclean pte)

  force-none :
      (m addr : ℕ) (s : State k.Space)
      → (pte_callback_nvram_force k m addr none s).1.spaces ≡ s.spaces
  unfolding pte_callback_nvram_force
  force-none m addr s = ground arith

  pub nvram_force-KeepsAlike : KeepsAlike k laws (is_intensive_nvram k) (pte_callback_nvram_force k)
  nvram_force-KeepsAlike m addr none s l = same-Alike k laws _ s.spaces _ (force-none m addr s)
  nvram_force-KeepsAlike m addr (some pte) s l =
      Writes-Alike k laws _ m addr pte s.spaces _ l (force-Writes m addr pte s)

  -- Clearing a page that is not wanted first leaves it among the others.
  force-Writes_other :
      (m addr : ℕ) (pte : k.Pte) (s : State k.Space)
      → Writes k laws
          (is_other_nvram k)
          m
          addr
          pte
          s.spaces
          (pte_callback_nvram_force k m addr (some pte) s).1.spaces
  unfolding pte_callback_nvram_force
  force-Writes_other m addr pte s = ground (
    arith,
    pte_laws.dirty-mkclean pte,
    pte_laws.young-mkclean pte,
    present-mkclean pte,
    write-mkclean pte,
    nid-mkclean pte,
  )

  pub nvram_force-KeepsAlike_other :
      KeepsAlike k laws (is_other_nvram k) (pte_callback_nvram_force k)
  nvram_force-KeepsAlike_other m addr none s l =
      same-Alike k laws _ s.spaces _ (force-none m addr s)
  nvram_force-KeepsAlike_other m addr (some pte) s l =
      Writes-Alike k laws _ m addr pte s.spaces _ l (force-Writes_other m addr pte s)
