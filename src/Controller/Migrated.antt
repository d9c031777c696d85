-- ===== src/Controller/Migrated.antt =====
-- What `do_migration` returns.
use ambix.Base.{
  ℕ, zero, suc, ◌+◌, ◌-◌, ◌≤◌, ◌<◌, ◌≡◌, refl, ap, ◌∙◌, false, some, List, [], ◌∷◌, ℤ, pos_part,
  ltb, if◌then◌else◌, min, slice, arith, Bool-cases, inl, inr,
}
use ambix.Config.{AddrInfo}
use ambix.Controller.Migration.{
  Os, Plan, free_space_pages, plan_pages, plan_nodes, group_size, move_singly, move_group,
  move_groups, node_list, plan_migration, migration_result, do_migration,
}

module _ (os : Os) (page_size : ℕ) (candidates : ℕ → AddrInfo) where
  -- The pages that are free on some nodes.
  abbrev pub free_pages : os.World → List ℕ → ℕ
  free_pages w [] = 0
  free_pages w (node ∷ nodes) =
      pos_part (free_space_pages os page_size candidates w node) + free_pages w nodes

  n_processed-plan_pages :
      (rounds node : ℕ) (p : Plan)
      → (plan_pages os page_size candidates rounds node p).n_processed ≡ p.n_processed + rounds
  unfolding plan_pages
  n_processed-plan_pages zero node p = omega arith
  n_processed-plan_pages (suc rounds) node p = omega (arith, n_processed-plan_pages rounds node)

  n_processed-plan_nodes :
      (w : os.World) (n_found : ℕ) (nodes : List ℕ) (p : Plan)
      → p.n_processed ≤ n_found
      → (plan_nodes os page_size candidates w n_found nodes p).n_processed
        ≡ min n_found (p.n_processed + free_pages w nodes)
  unfolding plan_nodes
  n_processed-plan_nodes w n_found [] p h = omega arith
  n_processed-plan_nodes w n_found (node ∷ nodes) p h =
      elim (Bool-cases (ltb p.n_processed n_found)) [
        | inl more ↦
            let avail = pos_part (free_space_pages os page_size candidates w node) in
            let rounds : ℕ = min avail (n_found - p.n_processed) in
            let q = plan_pages os page_size candidates rounds node p in
            let count = n_processed-plan_pages rounds node p in
            let less : p.n_processed < n_found = ground arith in
            rw more (n_processed-plan_nodes w n_found nodes q (omega arith) ∙ omega arith)
        | inr full ↦ let all : p.n_processed ≡ n_found = ground arith in rw full (omega arith)
      ]

  group_size_bounds :
      (pid : ℤ) (n rounds i : ℕ)
      → (i ≤ group_size os page_size candidates pid n rounds i)
        × (group_size os page_size candidates pid n rounds i ≤ i + rounds)
  unfolding group_size
  group_size_bounds pid n zero i = omega arith
  group_size_bounds pid n (suc rounds) i = ground (arith, group_size_bounds pid n rounds (i + 1))

  move_singly_bound :
      (pid : ℤ) (p : Plan) (rounds at e : ℕ) (w : os.World)
      → (move_singly os page_size candidates pid p rounds at e w).0 ≤ e + rounds
  unfolding move_singly
  move_singly_bound pid p zero at e w = omega arith
  move_singly_bound pid p (suc rounds) at e w =
      let r = os.move_pages w pid (p.addr at ∷ []) (p.dest_nodes at ∷ []) in
      ground (arith, move_singly_bound pid p rounds (at + 1) (if r.0 then e + 1 else e) r.1)

  move_group_bound :
      (pid : ℤ) (p : Plan) (i at e : ℕ) (w : os.World)
      → (move_group os page_size candidates pid p i at e w).0 ≤ e + i
  unfolding move_group
  move_group_bound pid p i at e w =
      let r = os.move_pages w pid (slice p.addr at i) (slice p.dest_nodes at i) in
      ground (arith, move_singly_bound pid p i at e r.1)

  -- No `move_pages` reports a failure.
  abbrev pub NeverFails : Type 0
  NeverFails =
      (w : os.World) (pid : ℤ) (addr dest : List ℕ) → (os.move_pages w pid addr dest).0 ≡ false

  move_group-no_failure :
      NeverFails
      → (pid : ℤ) (p : Plan) (i at e : ℕ) (w : os.World)
      → (move_group os page_size candidates pid p i at e w).0 ≡ e
  unfolding move_group
  move_group-no_failure ok pid p i at e w =
      let works = ok w pid (slice p.addr at i) (slice p.dest_nodes at i) in rw works refl

  -- The loop over the groups ends at the end of the plan, with at most a failure for each page, and
  -- with none where no move fails.
  pub move_groups-end :
      (fuel : ℕ) (p : Plan) (n e : ℕ) (w : os.World)
      → n ≤ p.n_processed
      → p.n_processed < n + fuel
      → (r : ℕ × ℕ × os.World) × (move_groups os page_size candidates fuel p n e w ≡ some r)
        × (r.0 ≡ p.n_processed)
        × (r.1 ≤ e + (r.0 - n))
        × (NeverFails → r.1 ≡ e)
  unfolding move_groups
  move_groups-end zero p n e w h f = absurd (omega (arith, h, f))
  move_groups-end (suc fuel) p n e w h f =
      let pid = (candidates n).pid_retval in
      let i = group_size os page_size candidates pid n (p.n_processed - (n + 1)) 1 in
      let size = group_size_bounds pid n (p.n_processed - (n + 1)) 1 in
      let r = move_group os page_size candidates pid p i n e w in
      let failures = move_group_bound pid p i n e w in
      elim (Bool-cases (ltb n p.n_processed)) [
        | inl more ↦
            let less : n < p.n_processed = ground (arith, more) in
            let rest =
              move_groups-end fuel p (n + i) r.0 r.1 (omega (arith, size.1, less))
                (omega (arith, size.0, f)) in
            (
              rest.0,
              rw more (rest.1),
              rest.2,
              omega (arith, rest.3, failures, rest.2, size.1, less),
              λ ok. rest.4 ok ∙ move_group-no_failure ok pid p i n e w,
            )
        | inr done ↦
            let all : n ≡ p.n_processed = ground (arith, h, done) in
            ((n, e, w), rw done refl, all, omega arith, λ ok. refl)
      ]

  -- `do_migration` ends, and returns at most the lesser of the pages found and the pages free on the
  -- other tier, and exactly that where no move fails.
  pub do_migration-ends :
      (mode : ℤ) (n_found : ℕ) (memory : Plan) (w : os.World)
      → let most = min n_found (free_pages w (node_list os page_size candidates mode)) in
        (r : ℕ × os.World) × (do_migration os page_size candidates mode n_found memory w ≡ some r)
        × (r.0 ≤ most)
        × (NeverFails → r.0 ≡ most)
  unfolding do_migration
  do_migration-ends mode n_found memory w =
      let nodes = node_list os page_size candidates mode in
      let start = record memory { n_processed = 0 } in
      let p = plan_migration os page_size candidates mode n_found w memory in
      let count = n_processed-plan_nodes w n_found nodes start (omega arith) in
      let end = move_groups-end (p.n_processed + 1) p 0 0 w (omega arith) (omega arith) in
      let r = end.0 in
      (
        (r.0 - r.1, r.2),
        ap (migration_result os page_size candidates) end.1,
        omega (arith, count, end.2),
        λ ok. let none_failed = end.4 ok in omega (arith, count, end.2, none_failed),
      )

  -- Where no `move_pages` fails, `do_migration` ends and returns the lesser of the pages found and the
  -- pages free on the other tier.
  pub do_migration-no_failure :
      NeverFails
      → (mode : ℤ) (n_found : ℕ) (memory : Plan) (w : os.World)
      → (w' : os.World) × (do_migration os page_size candidates mode n_found memory w
          ≡ some (min n_found (free_pages w (node_list os page_size candidates mode)), w'))
  do_migration-no_failure ok mode n_found memory w =
      let r = do_migration-ends mode n_found memory w in
      (r.0.1, r.1 ∙ ap (λ c. some (c, r.0.1)) (r.3 ok))
