-- ===== src/ClockDwf/Migrated.antt =====
-- What `send_find` of clockdwf-ctl.c does with the candidates that it counted.
use ambix.Base.{
  ℕ, zero, suc, ◌+◌, ◌≤◌, ◌≡◌, refl, true, false, Option, some, ℤ, ◌==ℤ◌, ==ℤ_iff, ◌==◌, ltb,
  if◌then◌else◌, arith, Bool-cases, ◌⊎◌, inl, inr,
}
use ambix.Config.{AddrInfo}
use ambix.Controller.Migration.{Os}
use ambix.ClockDwf.Request.{Codes}
use ambix.ClockDwf.Migration.{
  Nodes, move_page, do_migration, switch_pages, do_switch, migrate_found,
}
use ambix.ClockDwf.Groups.{EndsAt, migrate_groups-ends}
use ambix.ClockDwf.Moves.{MoveLaws, move_each, do_migration-each}

switch_pages_bound :
    (os : Os) (candidates : ℕ → AddrInfo) (nodes : Nodes) (n rounds i m : ℕ) (w : os.World)
    → (switch_pages os candidates nodes n rounds i m w).0 ≤ m + rounds
unfolding switch_pages
switch_pages_bound os candidates nodes n zero i m w = omega arith
switch_pages_bound os candidates nodes n (suc rounds) i m w =
    let d = move_page os candidates (i + n + 1) nodes.nvram_node w in
    let v = move_page os candidates i nodes.dram_node d.1 in
    ground (arith, switch_pages_bound os candidates nodes n rounds (i + 1) (m + 1) v.1)

module _ (os : Os) (candidates : ℕ → AddrInfo) (n : ℕ) (ends : EndsAt candidates n) where
  -- The migration ends with a count of at most the candidates.
  abbrev pub EndsWithin : Option (ℕ × os.World) → Type 0
  EndsWithin o = (r : ℕ × os.World) × (o ≡ some r) × (r.0 ≤ n)

  do_migration-ends :
      (dest_node : ℕ) (memory : ℕ → ℕ) (w : os.World)
      → EndsWithin (do_migration os candidates dest_node n memory w)
  unfolding do_migration
  do_migration-ends dest_node memory w =
      let r =
        migrate_groups-ends candidates n ends os (λ i. if ltb i n then dest_node else memory i)
          (n + 1) 0 0 w (omega arith) (omega arith) in
      (r.0, r.1, omega (arith, r.2))

  pub migrate_found-ends :
      (codes : Codes) (nodes : Nodes) (mode : ℤ) (memory : ℕ → ℕ) (w : os.World)
      → EndsWithin (migrate_found os candidates codes nodes mode n memory w)
  unfolding migrate_found do_switch
  migrate_found-ends codes nodes mode memory w =
      let dr = do_migration-ends nodes.nvram_node memory w in
      let nv = do_migration-ends nodes.dram_node memory w in
      elim (Bool-cases (n == 0)) [
        | inl empty ↦ ((0, w), rw empty refl, omega arith)
        | inr ne ↦ elim (Bool-cases (mode ==ℤ codes.dram_mode)) [
          | inl dram ↦ (dr.0, rw (ne, dram) (dr.1), dr.2)
          | inr ne₀ ↦ elim (Bool-cases (mode ==ℤ codes.nvram_mode)) [
            | inl nvram ↦ (nv.0, rw (ne, ne₀, nvram) (nv.1), nv.2)
            | inr ne₁ ↦ elim (Bool-cases (mode ==ℤ codes.switch_mode)) [
              | inl both ↦ (
                do_switch os candidates nodes n w,
                rw (ne, ne₀, ne₁, both) refl,
                omega (arith, switch_pages_bound os candidates nodes n n 0 0 w),
              )
              | inr ne₂ ↦ ((0, w), rw (ne, ne₀, ne₁, ne₂) refl, omega arith)
            ]
          ]
        ]
      ]

other_tier :
    (mode : ℤ) (codes : Codes)
    → (mode ≡ codes.dram_mode) ⊎ (mode ≡ codes.nvram_mode)
    → (mode ==ℤ codes.dram_mode) ≡ false
    → (mode ==ℤ codes.nvram_mode) ≡ true
other_tier mode codes (inl e) ne =
    let e' = (==ℤ_iff mode codes.dram_mode).1 e in ground (arith, e', ne)
other_tier mode codes (inr e) ne = (==ℤ_iff mode codes.nvram_mode).1 e

pub migrate_found-each :
    (os : Os) (laws : MoveLaws os) (candidates : ℕ → AddrInfo) (n : ℕ)
    → EndsAt candidates n
    → (codes : Codes) (nodes : Nodes) (mode : ℤ) (memory : ℕ → ℕ) (w : os.World)
    → (mode ≡ codes.dram_mode) ⊎ (mode ≡ codes.nvram_mode)
    → let dest_node = if mode ==ℤ codes.dram_mode then nodes.nvram_node else nodes.dram_node in
      migrate_found os candidates codes nodes mode n memory w
      ≡ some (n, move_each os laws candidates dest_node n 0 w)
unfolding migrate_found
migrate_found-each os laws candidates n ends codes nodes mode memory w tier =
    elim (Bool-cases (n == 0)) [
      | inl empty ↦ let e : n ≡ 0 = ground (arith, empty) in rw (empty, e) refl
      | inr ne ↦ elim (Bool-cases (mode ==ℤ codes.dram_mode)) [
        | inl dram ↦
            rw (ne, dram) (do_migration-each os laws candidates n ends nodes.nvram_node memory w)
        | inr other ↦
            let nvram = other_tier mode codes tier other in
            rw (ne, other, nvram)
              (do_migration-each os laws candidates n ends nodes.dram_node memory w)
      ]
    ]
