-- ===== src/Controller/Migration.antt =====
-- src/ambix_hyb-ctl.c: `do_migration`, which moves the candidates of a FIND to the other tier.
use ambix.Base.{
  ℕ, zero, suc, ◌+◌, ◌-◌, ◌/◌, ◌%◌, ◌^◌, Bool, Option, none, some, List, [], ◌∷◌, ℤ, pos, negsuc,
  pos_part, ◌==ℤ◌, ltb, if◌then◌else◌, min, update, slice,
}
use ambix.Config.{AddrInfo, dram_mode, dram_nodes, nvram_nodes}

-- What the controller asks of the system: the free bytes of a node (`numa_node_size64`), and moving
-- pages of a process, which returns whether `move_pages` reports a failure.
pub record Os : Type 1 where
  pub World : Type 0
  pub free_space_node : World → ℕ → ℕ
  pub move_pages : World → ℤ → List ℕ → List ℕ → Bool × World

-- The conversion of a `long long` to `int`.
unfoldable pub to_int : ℕ → ℤ
to_int n =
    let word = n % 2 ^ 32 in if ltb word (2 ^ 31) then pos word else negsuc (2 ^ 32 - word - 1)

-- The arrays `addr` and `dest_nodes`, and how far they are filled.
pub record Plan : Type 0 where
  pub addr : ℕ → ℕ
  pub dest_nodes : ℕ → ℕ
  pub n_processed : ℕ

module _ (os : Os) (page_size : ℕ) (candidates : ℕ → AddrInfo) where
  unfoldable pub free_space_pages : os.World → ℕ → ℤ
  free_space_pages w node = to_int (os.free_space_node w node / page_size)

  -- The inner loop that fills the arrays for one node, with so many rounds left.
  unfoldable pub plan_pages : ℕ → ℕ → Plan → Plan
  plan_pages zero node p = p
  plan_pages (suc rounds) node p = plan_pages rounds node (record {
    addr = update p.addr p.n_processed (candidates p.n_processed).addr;
    dest_nodes = update p.dest_nodes p.n_processed node;
    n_processed = p.n_processed + 1;
  })

  -- The loop over the nodes.
  unfoldable pub plan_nodes : os.World → ℕ → List ℕ → Plan → Plan
  plan_nodes w n_found [] p = p
  plan_nodes w n_found (node ∷ nodes) p =
      let n_avail_pages = pos_part (free_space_pages w node) in
      let rest =
        plan_nodes w n_found nodes
          (plan_pages (min n_avail_pages (n_found - p.n_processed)) node p) in
      if ltb p.n_processed n_found then rest else p

  -- `for (i=1; (candidates[n_migrated+i].pid_retval == curr_pid) && (n_migrated+i < n_processed); i++);`
  -- with `i` and the rounds that are left.
  unfoldable pub group_size : ℤ → ℕ → ℕ → ℕ → ℕ
  group_size curr_pid n_migrated zero i = i
  group_size curr_pid n_migrated (suc rounds) i =
      let more = group_size curr_pid n_migrated rounds (i + 1) in
      if (candidates (n_migrated + i)).pid_retval ==ℤ curr_pid then more else i

  -- The loop that moves the pages of a group one by one. The result counts the failures.
  unfoldable pub move_singly : ℤ → Plan → ℕ → ℕ → ℕ → os.World → ℕ × os.World
  move_singly curr_pid p zero at e w = (e, w)
  move_singly curr_pid p (suc rounds) at e w =
      let r = os.move_pages w curr_pid (p.addr at ∷ []) (p.dest_nodes at ∷ []) in
      move_singly curr_pid p rounds (at + 1) (if r.0 then e + 1 else e) r.1

  -- One group: all at once, and one by one if that fails.
  unfoldable pub move_group : ℤ → Plan → ℕ → ℕ → ℕ → os.World → ℕ × os.World
  move_group curr_pid p i at e w =
      let r = os.move_pages w curr_pid (slice p.addr at i) (slice p.dest_nodes at i) in
      if r.0 then move_singly curr_pid p i at e r.1 else (e, r.1)

  -- The loop over the groups, with fuel: `none` if it runs out. A round moves on by a page at least, so
  -- one more than `n_processed - n_migrated` is enough. The result is `n_migrated` and the number of
  -- failures.
  unfoldable pub move_groups : ℕ → Plan → ℕ → ℕ → os.World → Option (ℕ × ℕ × os.World)
  move_groups zero p n_migrated e w = none
  move_groups (suc fuel) p n_migrated e w =
      let curr_pid = (candidates n_migrated).pid_retval in
      let i = group_size curr_pid n_migrated (p.n_processed - (n_migrated + 1)) 1 in
      let r = move_group curr_pid p i n_migrated e w in
      let rest = move_groups fuel p (n_migrated + i) r.0 r.1 in
      if ltb n_migrated p.n_processed then rest else some (n_migrated, e, w)

  -- The tier that a migration in this mode goes to.
  abbrev pub node_list : ℤ → List ℕ
  node_list mode = if mode ==ℤ dram_mode then nvram_nodes else dram_nodes

  abbrev pub plan_migration : ℤ → ℕ → os.World → Plan → Plan
  plan_migration mode n_found w memory =
      plan_nodes w n_found (node_list mode) (record memory { n_processed = 0 })

  -- The value is `n_migrated - e`.
  abbrev pub migration_result : Option (ℕ × ℕ × os.World) → Option (ℕ × os.World)
  migration_result none = none
  migration_result (some r) = some (r.0 - r.1, r.2)

  -- The arrays begin with what memory holds.
  unfoldable pub do_migration : ℤ → ℕ → Plan → os.World → Option (ℕ × os.World)
  do_migration mode n_found memory w =
      let p = plan_migration mode n_found w memory in
      migration_result (move_groups (p.n_processed + 1) p 0 0 w)
