-- ===== src/Placement/Switch.antt =====
-- src/ambix_hyb-mod.c: `switch_walk`, which collects as many NVRAM as DRAM pages. What it leaves in
-- `found_addrs` is the NVRAM pages, a separator with pid 0, and the DRAM pages.
pub mod Bounds
pub mod Balance
pub mod Copies
pub mod Layout
pub mod Answer
pub mod Spared
pub mod Walks
pub mod Demand
use ambix.Base.{
  ℕ, zero, suc, ◌+◌, ◌-◌, ◌*◌, ◌&&◌, ℤ, pos, negsuc, pos_part, ltb, ◌==◌, ◌+ℤ◌, if◌then◌else◌,
}
use ambix.Config.{int_min}
use ambix.Kernel.{Kernel}
use ambix.Placement.State.{State, Search, put_found, put_found_retval}
use ambix.Placement.Callbacks.{pte_callback_mem, pte_callback_nvram_switch}
use ambix.Placement.Walk.{walk_dram, walk_nvram, add_backups}

-- `found_addrs[new + i] = found_addrs[old + i];` for i = i, i + 1, …, so many rounds
unfoldable pub copy_up : ℕ → ℕ → ℕ → ℕ → Search → Search
copy_up zero i old new s = s
copy_up (suc rounds) i old new s =
    copy_up rounds (i + 1) old new (put_found s (new + i) (s.found_addrs (old + i)))

-- The same for i = rounds - 1, …, 0.
unfoldable pub copy_down : ℕ → ℕ → ℕ → Search → Search
copy_down zero old new s = s
copy_down (suc rounds) old new s =
    copy_down rounds old new (put_found s (new + rounds) (s.found_addrs (old + rounds)))

-- `found_addrs[nvram_found++] = switch_backup_addrs[i]` for i = i, i + 1, …
unfoldable pub fill_nvram : ℕ → ℕ → ℕ → Search → Search
fill_nvram zero i nvram_found s = s
fill_nvram (suc rounds) i nvram_found s =
    fill_nvram rounds (i + 1) (nvram_found + 1) (put_found s nvram_found (s.switch_backup_addrs i))

-- Too few DRAM pages, and fewer in the backup than are missing: drop the excess NVRAM pages.
unfoldable pub drop_nvram : ℕ → ℕ → Search → Search
drop_nvram nvram_found dram_found s =
    let old_dram_start = nvram_found + 1 in
    let kept = dram_found + s.n_backup in
    let new_dram_start = kept + 1 in
    record (copy_up dram_found 0 old_dram_start new_dram_start (put_found_retval s kept (pos 0))) {
      n_found = new_dram_start + dram_found;
    }

-- Too few NVRAM pages: move the DRAM pages up and fill the gap from the switch backup.
unfoldable pub add_nvram : ℕ → ℕ → Search → Search
add_nvram nvram_found dram_found s =
    let remaining = dram_found - nvram_found in
    let to_add = pos_part (int_min (pos s.n_switch_backup) (pos remaining)) in
    let old_dram_start = nvram_found + 1 in
    let new_dram_start = old_dram_start + to_add in
    let nvram_end = nvram_found + to_add in
    let moved = copy_down nvram_end old_dram_start new_dram_start s in
    let filled = fill_nvram to_add 0 nvram_found moved in
    record (put_found_retval filled nvram_end (pos 0)) { n_found = nvram_end * 2 + 1 }

module _ (k : Kernel) where
  -- Too few DRAM pages, with some in the backup.
  unfoldable pub add_dram : ℕ → ℕ → State k.Space → State k.Space
  add_dram nvram_found dram_found s =
      let remaining = nvram_found - dram_found in
      if ltb s.n_backup remaining
      then add_backups k s.n_backup 0
          (record s { search = drop_nvram nvram_found dram_found s.search })
      else add_backups k remaining 0 s

  -- What follows the second walk, given the number of NVRAM pages.
  unfoldable pub balance : ℕ → State k.Space → State k.Space
  balance nvram_found s =
      let dram_found = s.n_found - nvram_found - 1 in
      if dram_found == nvram_found
      then s
      else if ltb dram_found nvram_found && ltb 0 s.n_backup
      then add_dram nvram_found dram_found s
      else if ltb nvram_found dram_found && ltb 0 s.n_switch_backup
      then record s { search = add_nvram nvram_found dram_found s.search }
      else record s { search = record (put_found_retval s.search 0 (pos 0)) { n_found = 1 } }

  -- The state in which the first walk starts.
  abbrev pub start_switch : ℤ → State k.Space → State k.Space
  start_switch n s = record s { search = record (s.search) { n_to_find = n; n_switch_backup = 0 } }

  -- The state in which the second walk starts, after the separator.
  unfoldable pub start_dram : ℤ → State k.Space → State k.Space
  start_dram n s =
      let dram_to_find = int_min (pos (s.n_found + s.n_switch_backup)) n in
      record s {
        search = record (s.search) {
          n_found = s.n_found + 1;
          n_to_find = pos (s.n_found + 1) +ℤ dram_to_find;
          n_backup = 0;
        };
      }

  abbrev pub separate : State k.Space → State k.Space
  separate s = record s { search = put_found_retval s.search s.n_found (pos 0) }

  -- What follows the first walk and the separator.
  unfoldable pub switch_rest : ℤ → State k.Space → ℤ × State k.Space
  switch_rest n s =
      if s.n_found == 0 && s.n_switch_backup == 0
      then (negsuc 0, record s { search = record (s.search) { n_found = s.n_found + 1 } })
      else (pos 0, balance s.n_found (walk_dram k (pte_callback_mem k) (start_dram n s)))

  unfoldable pub switch_walk : ℤ → State k.Space → ℤ × State k.Space
  switch_walk n s =
      switch_rest n (separate (walk_nvram k (pte_callback_nvram_switch k) (start_switch n s)))
