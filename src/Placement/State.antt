-- ===== src/Placement/State.antt =====
-- src/ambix_hyb-mod.c: the global variables, and the writes to the arrays.
use ambix.Base.{ℕ, ◌+◌, ◌-◌, ◌*◌, ◌/◌, Bool, ◌||◌, Option, ℤ, ltb, update}
use ambix.Config.{AddrInfo, max_n_per_packet, max_packets, sizeof_addr_info}
use ambix.Kernel.{Task}

-- The bound processes, and where the walks of the two tiers go on. The first `n_pids` slots of
-- `task_items` are in use; `none` is a null pointer.
pub record Pids : Type 0 where
  pub task_items : ℕ → Option Task
  pub n_pids : ℕ
  pub last_addr_dram : ℕ
  pub last_addr_nvram : ℕ
  pub last_pid_dram : ℕ
  pub last_pid_nvram : ℕ

-- What the walks of one request collect. `fault` records that some write went outside the memory
-- that `_on_module_init` allocates, or some access through a null pointer; nothing is claimed after
-- that. Reads of the arrays are not recorded.
pub record Search : Type 0 where
  pub found_addrs : ℕ → AddrInfo
  pub backup_addrs : ℕ → AddrInfo
  pub switch_backup_addrs : ℕ → AddrInfo
  pub curr_pid : ℤ
  pub n_to_find : ℤ
  pub n_found : ℕ
  pub n_backup : ℕ
  pub n_switch_backup : ℕ
  pub fault : Bool

-- `spaces` holds the page tables, by the names that `Task.mm` gives them.
pub record State (Space : Type 0) : Type 0 where
  pub pids : Pids
  pub open pids use *
  pub search : Search
  pub open search use *
  pub spaces : ℕ → Space

-- The sizes in bytes that `_on_module_init` asks for. The macros are put in as text, so
-- `sizeof(addr_info_t) * MAX_N_FIND` is one byte short of a whole number of entries.
abbrev pub found_bytes : ℕ
found_bytes = sizeof_addr_info * max_n_per_packet * max_packets - 1

abbrev pub switch_backup_bytes : ℕ
switch_backup_bytes = sizeof_addr_info * (max_n_per_packet * max_packets - 1 - 1) / 2

-- Whether a write of an entry's `pid_retval`, at offset 8 with 4 bytes, leaves an array of so many
-- bytes. A write of its `addr` ends below that.
abbrev pub overruns : ℕ → ℕ → Bool
overruns bytes i = ltb bytes (sizeof_addr_info * i + 12)

-- `found_addrs[i].pid_retval = v;`
abbrev pub put_found_retval : Search → ℕ → ℤ → Search
put_found_retval s i v = record s {
  found_addrs = update s.found_addrs i (record (s.found_addrs i) { pid_retval = v });
  fault = s.fault || overruns found_bytes i;
}

-- `found_addrs[i].addr = e.addr; found_addrs[i].pid_retval = e.pid_retval;`
abbrev pub put_found : Search → ℕ → AddrInfo → Search
put_found s i e = record s {
  found_addrs = update s.found_addrs i e;
  fault = s.fault || overruns found_bytes i;
}

-- `found_addrs[n_found].addr = …; found_addrs[n_found++].pid_retval = …;`
abbrev pub push_found : Search → AddrInfo → Search
push_found s e = record (put_found s s.n_found e) { n_found = s.n_found + 1 }

-- The same for `backup_addrs`, which has the size of `found_addrs`.
abbrev pub push_backup : Search → AddrInfo → Search
push_backup s e = record s {
  backup_addrs = update s.backup_addrs s.n_backup e;
  n_backup = s.n_backup + 1;
  fault = s.fault || overruns found_bytes s.n_backup;
}

-- The same for `switch_backup_addrs`.
abbrev pub push_switch_backup : Search → AddrInfo → Search
push_switch_backup s e = record s {
  switch_backup_addrs = update s.switch_backup_addrs s.n_switch_backup e;
  n_switch_backup = s.n_switch_backup + 1;
  fault = s.fault || overruns switch_backup_bytes s.n_switch_backup;
}
