-- ===== src/ClockDwf/Migration.antt =====
-- src/tests/clock-dwf/clockdwf-ctl.c: `do_migration`, `do_switch` and `send_find`. Its `send_req` and
-- its count of the candidates are those of src/ambix_hyb-ctl.c, in `Controller.Comm`. The nodes are a
-- parameter, as are the names in `Codes`.
use ambix.Base.{
  ℕ, zero, suc, ◌+◌, Bool, Option, none, some, List, [], ◌∷◌, ℤ, ◌==ℤ◌, ltb, ◌==◌, if◌then◌else◌,
  slice,
}
use ambix.Config.{AddrInfo, Req}
use ambix.Netlink.{Message}
use ambix.Controller.Comm.{send_req, count_candidates}
use ambix.Controller.Migration.{Os}
use ambix.ClockDwf.Request.{Codes}

pub record Nodes : Type 0 where
  pub dram_node : ℕ
  pub nvram_node : ℕ

-- `for(j=0; candidates[i+j].pid_retval == curr_pid; j++)` from `j` on. No count ends it, so it has
-- fuel.
unfoldable pub group_end : (ℕ → AddrInfo) → ℤ → ℕ → ℕ → ℕ → Option ℕ
group_end candidates curr_pid zero i j = none
group_end candidates curr_pid (suc fuel) i j =
    let rest = group_end candidates curr_pid fuel i (j + 1) in
    if (candidates (i + j)).pid_retval ==ℤ curr_pid then rest else some j

module _ (os : Os) (candidates : ℕ → AddrInfo) where
  -- The call of `numa_move_pages` for the `j` pages from candidate `i` on.
  abbrev pub move_pages_from : (ℕ → ℕ) → ℕ → ℕ → os.World → Bool × os.World
  move_pages_from dest_nodes i j w =
      os.move_pages w (candidates i).pid_retval (slice (λ c. (candidates c).addr) i j)
        (slice dest_nodes 0 j)

  -- The loop over the groups, with its fuel: `none` if that or the fuel of a group runs out.
  unfoldable pub migrate_groups : ℕ → (ℕ → ℕ) → ℕ → ℕ → ℕ → os.World → Option (ℕ × os.World)
  migrate_groups n_found dest_nodes zero i n_migrated w = none
  migrate_groups n_found dest_nodes (suc fuel) i n_migrated w =
      if ltb i n_found
      then elim (group_end candidates (candidates i).pid_retval (n_found + 1) i 0) [
        | none ↦ none
        | some j ↦
            let r = move_pages_from dest_nodes i j w in
            let rest = migrate_groups n_found dest_nodes fuel (i + j) (n_migrated + j) r.1 in
            if r.0 then some (n_migrated, r.1) else rest
      ]
      else some (n_migrated, w)

  -- `dest_nodes` has `n_found` entries, and `memory` behind them.
  unfoldable pub do_migration : ℕ → ℕ → (ℕ → ℕ) → os.World → Option (ℕ × os.World)
  do_migration dest_node n_found memory w =
      let dest_nodes = λ (i : ℕ). if ltb i n_found then dest_node else memory i in
      migrate_groups n_found dest_nodes (n_found + 1) 0 0 w

  -- A page of its own, to a node.
  abbrev pub move_page : ℕ → ℕ → os.World → Bool × os.World
  move_page i dest_node w =
      os.move_pages w (candidates i).pid_retval ((candidates i).addr ∷ []) (dest_node ∷ [])

  -- The loop of `do_switch` from `i` on, so many rounds.
  unfoldable pub switch_pages : Nodes → ℕ → ℕ → ℕ → ℕ → os.World → ℕ × os.World
  switch_pages nodes n_found zero i n_switched w = (n_switched, w)
  switch_pages nodes n_found (suc rounds) i n_switched w =
      let d = move_page (i + n_found + 1) nodes.nvram_node w in
      let v = move_page i nodes.dram_node d.1 in
      let rest = switch_pages nodes n_found rounds (i + 1) (n_switched + 1) v.1 in
      if d.0 then (n_switched, d.1) else if v.0 then (n_switched, v.1) else rest

  unfoldable pub do_switch : Nodes → ℕ → os.World → ℕ × os.World
  do_switch nodes n_found w = switch_pages nodes n_found n_found 0 0 w

  -- What `send_find` does with the candidates that it counted.
  unfoldable pub migrate_found : Codes → Nodes → ℤ → ℕ → (ℕ → ℕ) → os.World → Option (ℕ × os.World)
  migrate_found codes nodes mode n_found memory w =
      if n_found == 0
      then some (0, w)
      else if mode ==ℤ codes.dram_mode
      then do_migration nodes.nvram_node n_found memory w
      else if mode ==ℤ codes.nvram_mode
      then do_migration nodes.dram_node n_found memory w
      else if mode ==ℤ codes.switch_mode
      then some (do_switch nodes n_found w)
      else some (0, w)

  abbrev pub migrate_counted :
      Codes → Nodes → ℤ → (ℕ → ℕ) → os.World → Option ℕ → Option (ℕ × os.World)
  migrate_counted codes nodes mode memory w none = none
  migrate_counted codes nodes mode memory w (some n_found) =
      migrate_found codes nodes mode n_found memory w

abbrev pub find_req : Codes → ℤ → ℤ → Req
find_req codes n_pages mode = record { op_code = codes.find_op; pid_n = n_pages; mode = mode }

-- `fuel` bounds the candidates that are counted.
unfoldable pub send_find :
    (os : Os)
    → Codes
    → Nodes
    → (Req → List Message)
    → ℕ
    → ℤ
    → ℤ
    → (ℕ → AddrInfo)
    → (ℕ → ℕ)
    → os.World
    → Option (ℕ × os.World)
send_find os codes nodes answer fuel n_pages mode candidates memory w =
    let found = send_req answer (find_req codes n_pages mode) candidates in
    migrate_counted os found.1 codes nodes mode memory w (count_candidates fuel 0 found.1)
