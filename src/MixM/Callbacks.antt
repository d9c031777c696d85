-- ===== src/MixM/Callbacks.antt =====
-- src/ambix-MixM/ambix_MixM-mod.c: the callbacks of the variant. They take the state of the hybrid
-- module, whose variables have the same names.
use ambix.Base.{false, not, ◌&&◌, none, some, if◌then◌else◌}
use ambix.Config.{dram_mode, nvram_mode}
use ambix.Kernel.{Kernel}
use ambix.Placement.Callbacks.{
  Callback, found_all, has_room, is_excluded, find_page, back_up_page, back_up_switch, stop_dram,
  stop_nvram, clear_entry,
}

module _ (k : Kernel) where
  unfoldable pub pte_callback_mem : Callback k
  pte_callback_mem m addr none s = if found_all k s then stop_dram k s addr else (false, s)
  pte_callback_mem m addr (some pte) s =
      if found_all k s
      then stop_dram k s addr
      else if is_excluded k dram_mode pte
      then (false, s)
      else if not (k.pte_young pte)
      then (false, find_page k s addr)
      else (
        false,
        clear_entry k m addr pte
            (if k.pte_dirty pte && has_room k s s.n_backup then back_up_page k s addr else s),
      )

  unfoldable pub pte_callback_nvram_force : Callback k
  pte_callback_nvram_force m addr none s = if found_all k s then stop_nvram k s addr else (false, s)
  pte_callback_nvram_force m addr (some pte) s =
      if found_all k s
      then stop_nvram k s addr
      else if is_excluded k nvram_mode pte
      then (false, s)
      else if k.pte_young pte && k.pte_dirty pte
      then (false, find_page k s addr)
      else (
        false,
        clear_entry k m addr pte (if has_room k s s.n_backup then back_up_page k s addr else s),
      )

  unfoldable pub pte_callback_nvram_write : Callback k
  pte_callback_nvram_write m addr none s = if found_all k s then stop_nvram k s addr else (false, s)
  pte_callback_nvram_write m addr (some pte) s =
      if found_all k s
      then stop_nvram k s addr
      else if is_excluded k nvram_mode pte
      then (false, s)
      else if not (k.pte_dirty pte)
      then (false, s)
      else if k.pte_young pte
      then (false, find_page k s addr)
      else if has_room k s s.n_backup
      then (false, back_up_page k s addr)
      else (false, s)

  unfoldable pub pte_callback_nvram_intensive : Callback k
  pte_callback_nvram_intensive m addr none s =
      if found_all k s then stop_nvram k s addr else (false, s)
  pte_callback_nvram_intensive m addr (some pte) s =
      if found_all k s
      then stop_nvram k s addr
      else if is_excluded k nvram_mode pte
      then (false, s)
      else if k.pte_young pte && not (k.pte_dirty pte)
      then (false, find_page k s addr)
      else (
        false,
        clear_entry k m addr pte
            (if k.pte_young pte && has_room k s s.n_backup then back_up_page k s addr else s),
      )

  -- A page that is found is cleared too.
  unfoldable pub pte_callback_nvram_switch : Callback k
  pte_callback_nvram_switch m addr none s =
      if found_all k s then stop_nvram k s addr else (false, s)
  pte_callback_nvram_switch m addr (some pte) s =
      if found_all k s
      then stop_nvram k s addr
      else if is_excluded k nvram_mode pte
      then (false, s)
      else (
        false,
        clear_entry k m addr pte (
            if not (k.pte_young pte)
            then s
            else if not (k.pte_dirty pte)
            then find_page k s addr
            else if has_room k s s.n_switch_backup
            then back_up_switch k s addr
            else s),
      )

  unfoldable pub pte_callback_nvram_clear : Callback k
  pte_callback_nvram_clear m addr none s = (false, s)
  pte_callback_nvram_clear m addr (some pte) s =
      if is_excluded k nvram_mode pte then (false, s) else (false, clear_entry k m addr pte s)
