-- ===== src/Controller/Memcheck.antt =====
-- src/ambix_hyb-ctl.c: `check_memdata`, the free space of the tiers, and `memcheck_placement`, the loop
-- that starts migrations by itself. What the loop asks of the system and the arithmetic on
-- floating-point numbers are parameters; messages are left out.
pub mod Round
pub mod Finds
pub mod Counts
pub mod Keeps
pub mod Joint
use ambix.Base.{
  ℕ, zero, suc, ◌+◌, ◌-◌, ◌/◌, ◌%◌, ◌^◌, Bool, true, false, not, ◌&&◌, ◌||◌, Option, none, some,
  List, [], ◌∷◌, ℤ, pos, negsuc, ◌+ℤ◌, ◌-ℤ◌, ◌==ℤ◌, ltb_ℤ, ◌==◌, if◌then◌else◌,
}
use ambix.Config.{
  int_min, max_n_find, max_n_switch, dram_mode, nvram_mode, nvram_intensive_mode, nvram_clear,
  switch_mode, dram_nodes, nvram_nodes,
}
use ambix.Controller.Commands.{int_of_long}

-- C's arithmetic on `double` and `float`. `literal n d` is the decimal literal n/d, `to_float` the
-- rounding to `float`, and `truncate` the conversion to `long long`.
pub record Floats : Type 1 where
  pub Float : Type 0
  pub of_int : ℤ → Float
  pub literal : ℕ → ℕ → Float
  pub to_float : Float → Float
  pub sub : Float → Float → Float
  pub mul : Float → Float → Float
  pub div : Float → Float → Float
  pub fmin : Float → Float → Float
  pub lt : Float → Float → Bool
  pub le : Float → Float → Bool
  pub truncate : Float → ℤ

-- `memdata_t`, as far as it is read.
pub record Memdata (Float : Type 0) : Type 0 where
  pub sys_dram_reads : Float
  pub sys_dram_writes : Float
  pub sys_pmm_reads : Float
  pub sys_pmm_writes : Float
  pub sys_pmm_app_bw : Float
  pub sys_pmm_mem_bw : Float

-- What the loop asks of the system: the flags that the other threads set, the size and the free bytes
-- of a node (`numa_node_size64`), the last change of the bandwidth file (`stat`) and its content, what
-- fresh memory holds, sleeping, and the lock `placement_lock`.
pub record Sys (fl : Floats) : Type 1 where
  pub World : Type 0
  pub exit_sig : World → Bool
  pub thresh_act : World → Bool
  pub switch_act : World → Bool
  pub numa_node_size64 : World → ℕ → ℤ × ℤ
  pub stat_mtime : World → Option ℕ
  pub read_file : World → Option (Memdata fl.Float)
  pub memory : World → Memdata fl.Float
  pub usleep : ℤ → World → World
  pub lock_placement : World → World
  pub unlock_placement : World → World

-- In microseconds.
abbrev pub memcheck_interval : ℤ
memcheck_interval = pos 1000000

abbrev pub clear_interval : ℤ
clear_interval = pos 50000

-- Division of a `long long` by a positive one, towards 0.
abbrev pub quotient : ℤ → ℕ → ℤ
quotient (pos n) d = pos (n / d)
quotient (negsuc n) d = pos 0 -ℤ pos ((n + 1) / d)

module _ (fl : Floats) where
  abbrev pub dram_bw_max : fl.Float
  dram_bw_max = fl.of_int (pos 50000)

  abbrev pub nvram_bw_max : fl.Float
  nvram_bw_max = fl.of_int (pos 20000)

  abbrev pub nvram_bw_thresh : fl.Float
  nvram_bw_thresh = fl.of_int (pos 10)

  abbrev pub dram_target : fl.Float
  dram_target = fl.literal 95 100

  abbrev pub nvram_target : fl.Float
  nvram_target = fl.literal 95 100

  abbrev pub dram_limit : fl.Float
  dram_limit = fl.literal 96 100

  abbrev pub nvram_limit : fl.Float
  nvram_limit = fl.literal 98 100

  -- `BETWEEN(value, 0, max)`
  abbrev pub is_between : fl.Float → fl.Float → Bool
  is_between value max = fl.le value max && fl.le (fl.of_int (pos 0)) value

  unfoldable pub check_memdata : Option (Memdata fl.Float) → Bool
  check_memdata none = false
  check_memdata (some md) =
      if not (is_between md.sys_dram_reads dram_bw_max)
        || not (is_between md.sys_dram_writes dram_bw_max)
        || not (is_between md.sys_pmm_reads nvram_bw_max)
        || not (is_between md.sys_pmm_writes nvram_bw_max)
        || not (is_between md.sys_pmm_app_bw nvram_bw_max)
        || not (is_between md.sys_pmm_mem_bw nvram_bw_max)
      then false
      else true

  -- `1.0 * (sz - fr) / sz` as a `float`
  abbrev pub used_share : ℤ → ℤ → fl.Float
  used_share fr sz =
      fl.to_float (fl.div (fl.mul (fl.literal 1 1) (fl.of_int (sz -ℤ fr))) (fl.of_int sz))

-- The locals of `memcheck_placement` that a round measures.
pub record Usage (Float : Type 0) : Type 0 where
  pub dram_usage : Float
  pub nvram_usage : Float
  pub dram_sz : ℤ
  pub nvram_sz : ℤ

-- Those that the loop keeps.
pub record Locals (Float : Type 0) : Type 0 where
  pub usage : Usage Float
  pub prev_memdata_lmod : ℕ

module _ (fl : Floats) (sys : Sys fl) where
  -- Where the file cannot be read, the structure is as it was allocated.
  unfoldable pub read_memdata : sys.World → Memdata fl.Float
  read_memdata w = elim (sys.read_file w) [ none ↦ sys.memory w | some md ↦ md ]

  unfoldable pub get_memdata_mtime : sys.World → ℕ
  get_memdata_mtime w = elim (sys.stat_mtime w) [ none ↦ 0 | some t ↦ t ]

  -- `free_space_node`: the free bytes, and the size.
  unfoldable pub free_space_node : sys.World → ℕ → ℤ × ℤ
  free_space_node w node = let r = sys.numa_node_size64 w node in (r.1, r.0)

  -- The loop of `free_space_tot_bytes` over the nodes of a tier, with the sums so far.
  unfoldable pub free_space_nodes : sys.World → List ℕ → ℤ × ℤ → ℤ × ℤ
  free_space_nodes w [] total = total
  free_space_nodes w (node ∷ nodes) total =
      let r = free_space_node w node in free_space_nodes w nodes (total.0 +ℤ r.0, total.1 +ℤ r.1)

  unfoldable pub free_space_tot_bytes : sys.World → ℤ → ℤ × ℤ
  free_space_tot_bytes w mode =
      if mode ==ℤ dram_mode
      then free_space_nodes w dram_nodes (pos 0, pos 0)
      else free_space_nodes w nvram_nodes (pos 0, pos 0)

  -- The share, and the size.
  unfoldable pub free_space_tot_per : sys.World → ℤ → fl.Float × ℤ
  free_space_tot_per w mode = let r = free_space_tot_bytes w mode in (used_share fl r.0 r.1, r.1)

  unfoldable pub measure : sys.World → Usage fl.Float
  measure w =
      let dram = free_space_tot_per w dram_mode in
      let nvram = free_space_tot_per w nvram_mode in
      record { dram_usage = dram.0; nvram_usage = nvram.0; dram_sz = dram.1; nvram_sz = nvram.1 }

-- `n_pages = n_bytes / page_size; n_pages = fmin(n_pages, MAX_N_FIND);` A `double` holds both
-- operands of this `fmin` exactly.
unfoldable pub pages_of : (fl : Floats) → ℕ → fl.Float → ℤ
pages_of fl page_size bytes =
    let n_bytes = fl.truncate bytes in
    int_min (pos max_n_find) (int_of_long (quotient n_bytes page_size))
