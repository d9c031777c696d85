-- ===== src/Controller/Switch.antt =====
-- src/ambix_hyb-ctl.c: `do_switch`, which moves pages of both tiers round by round, and `send_find`.
use ambix.Base.{
  ℕ, zero, suc, ◌+◌, ◌-◌, ◌*◌, Bool, true, false, ◌&&◌, ◌||◌, Option, none, some, List, [], ◌∷◌, ℤ,
  pos, pos_part, ◌+ℤ◌, ◌-ℤ◌, ◌==ℤ◌, ltb, ◌==◌, if◌then◌else◌, min, update,
}
use ambix.Config.{
  AddrInfo, Req, find_op, dram_mode, nvram_mode, nvram_intensive_mode, nvram_write_mode,
  switch_mode, dram_nodes, nvram_nodes,
}
use ambix.Netlink.{Message}
use ambix.Controller.Comm.{send_req, count_candidates}
use ambix.Controller.Migration.{Os, Plan, free_space_pages, move_groups, do_migration}

-- What `do_switch` keeps for one direction: the arrays with how far they are filled, the pages
-- migrated, the failures, and whether the last round found free pages.
pub record Side : Type 0 where
  pub plan : Plan
  pub migrated : ℤ
  pub e : ℕ
  pub free : Bool

-- The pages that a direction has been through, `dram_migrated + dram_e`.
abbrev pub processed : Side → ℕ
processed side = pos_part (side.migrated +ℤ pos side.e)

-- The condition of the loop.
abbrev pub goes_on : ℕ → Side → Side → Bool
goes_on n_found dram nvram =
    (ltb (processed dram) n_found || ltb (processed nvram) n_found) && (dram.free || nvram.free)

abbrev pub fresh_side : Plan → Side
fresh_side memory = record { plan = memory; migrated = pos 0; e = 0; free = true }

-- What `do_switch` returns.
abbrev pub switch_result {ℓ} : {World : Type ℓ} → Option (Side × Side × World) → Option (ℤ × World)
switch_result none = none
switch_result (some (dram, nvram, w)) = some (dram.migrated +ℤ nvram.migrated, w)

module _ (os : Os) (page_size : ℕ) (candidates : ℕ → AddrInfo) where
  -- The inner loop that fills the arrays for one node, from `j` on with so many rounds left, from the
  -- candidates at the indices that `source` gives. It leaves `n_processed` alone.
  unfoldable pub fill_pages : (ℕ → ℕ) → ℕ → ℕ → ℕ → Plan → Plan
  fill_pages source zero j node p = p
  fill_pages source (suc rounds) j node p = fill_pages source rounds (j + 1) node (record p {
    addr = update p.addr (p.n_processed + j) (candidates (source j)).addr;
    dest_nodes = update p.dest_nodes (p.n_processed + j) node;
  })

  -- The loop over the nodes of the other tier. `source` takes the number of pages processed and `j`.
  unfoldable pub fill_nodes : os.World → ℕ → (ℕ → ℕ → ℕ) → List ℕ → Plan → Plan
  fill_nodes w n_found source [] p = p
  fill_nodes w n_found source (node ∷ nodes) p =
      let n_avail_pages = pos_part (free_space_pages os page_size candidates w node) in
      let j = min n_avail_pages (n_found - p.n_processed) in
      let filled = fill_pages (source p.n_processed) j 0 node p in
      let rest =
        fill_nodes w n_found source nodes (record filled { n_processed = p.n_processed + j }) in
      if ltb p.n_processed n_found then rest else p

  -- What a half of a round keeps, once its pages are moved.
  abbrev pub moved_side : Plan → Option (ℕ × ℕ × os.World) → Option (Side × os.World)
  moved_side p none = none
  moved_side p (some moved) = some (
    record { plan = p; migrated = pos p.n_processed -ℤ pos moved.1; e = moved.1; free = true },
    moved.2,
  )

  -- Half a round. The pages are moved group by group from the first on, with the pids at `base`.
  unfoldable pub switch_side :
      ℕ → ℕ → (ℕ → ℕ → ℕ) → List ℕ → Side → os.World → Option (Side × os.World)
  switch_side n_found base source nodes side w =
      let old_n_processed = processed side in
      let p =
        fill_nodes w n_found source nodes (record (side.plan) { n_processed = old_n_processed }) in
      let moved =
        move_groups os page_size (λ i. candidates (base + i)) (p.n_processed + 1) p 0 side.e w in
      if ltb old_n_processed p.n_processed
      then moved_side p moved
      else some (
        record { plan = p; migrated = pos p.n_processed -ℤ pos side.e; e = side.e; free = false },
        w,
      )

  -- The half from DRAM to NVRAM: the candidates behind the separator.
  abbrev pub switch_dram : ℕ → Side → os.World → Option (Side × os.World)
  switch_dram n_found =
      switch_side n_found (n_found + 1) (λ dram_processed j. n_found + 1 + j) nvram_nodes

  -- The half from NVRAM to DRAM: the candidates before it.
  abbrev pub switch_nvram : ℕ → Side → os.World → Option (Side × os.World)
  switch_nvram n_found = switch_side n_found 0 (λ nvram_processed j. nvram_processed + j) dram_nodes

  -- The loop, with fuel: `none` if it or a migration runs out.
  unfoldable pub switch_rounds : ℕ → ℕ → Side → Side → os.World → Option (Side × Side × os.World)
  switch_rounds zero n_found dram nvram w = none
  switch_rounds (suc fuel) n_found dram nvram w =
      let rest : Option (Side × Side × os.World) = elim (switch_dram n_found dram w) [
        | none ↦ none
        | some d ↦ elim (switch_nvram n_found nvram d.1) [
          | none ↦ none
          | some v ↦ switch_rounds fuel n_found d.0 v.0 v.1
        ]
      ] in
      if goes_on n_found dram nvram then rest else some (dram, nvram, w)

  -- A round with free pages processes one of `2 * n_found` pages at least, and one without is the
  -- last. The arrays begin with what memory holds.
  unfoldable pub do_switch : ℕ → Plan → os.World → Option (ℤ × os.World)
  do_switch n_found memory w =
      switch_result
        (switch_rounds (2 * n_found + 2) n_found (fresh_side memory) (fresh_side memory) w)

-- `NVRAM_MODE`, `NVRAM_INTENSIVE_MODE` or `NVRAM_WRITE_MODE`
abbrev pub is_nvram_mode : ℤ → Bool
is_nvram_mode mode =
    mode ==ℤ nvram_mode || mode ==ℤ nvram_intensive_mode || mode ==ℤ nvram_write_mode

-- A count as the value of `send_find`.
abbrev pub found_result {ℓ} : {World : Type ℓ} → Option (ℕ × World) → Option (ℤ × World)
found_result none = none
found_result (some r) = some (pos r.0, r.1)

-- What `send_find` does with the candidates that it counted.
unfoldable pub migrate_found :
    (os : Os) → ℕ → (ℕ → AddrInfo) → ℤ → ℕ → Plan → os.World → Option (ℤ × os.World)
migrate_found os page_size candidates mode n_found memory w =
    if n_found == 0
    then some (pos 0, w)
    else if mode ==ℤ dram_mode
    then found_result (do_migration os page_size candidates dram_mode n_found memory w)
    else if is_nvram_mode mode
    then found_result (do_migration os page_size candidates nvram_mode n_found memory w)
    else if mode ==ℤ switch_mode
    then do_switch os page_size candidates n_found memory w
    else some (pos 0, w)

-- The same for a count that may have run out of fuel.
abbrev pub migrate_counted :
    (os : Os) → ℕ → (ℕ → AddrInfo) → ℤ → Plan → os.World → Option ℕ → Option (ℤ × os.World)
migrate_counted os page_size candidates mode memory w none = none
migrate_counted os page_size candidates mode memory w (some n_found) =
    migrate_found os page_size candidates mode n_found memory w

abbrev pub find_req : ℤ → ℤ → Req
find_req n_pages mode = record { op_code = find_op; pid_n = n_pages; mode = mode }

-- `fuel` bounds the candidates that are counted; `none` if it is too little. The array `candidates`
-- keeps what it held where the answer does not reach.
unfoldable pub send_find :
    (os : Os)
    → ℕ
    → (Req → List Message)
    → ℕ
    → ℤ
    → ℤ
    → (ℕ → AddrInfo)
    → Plan
    → os.World
    → Option (ℤ × os.World)
send_find os page_size answer fuel n_pages mode candidates memory w =
    let found = send_req answer (find_req n_pages mode) candidates in
    migrate_counted os page_size found.1 mode memory w (count_candidates fuel 0 found.1)
