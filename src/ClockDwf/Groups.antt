-- ===== src/ClockDwf/Groups.antt =====
-- `do_migration` of clockdwf-ctl.c ends: the groups that it moves, and how many pages they have.
use ambix.Base.{
  ℕ, zero, suc, ◌+◌, ◌≤◌, ◌<◌, ◌≡◌, refl, ap, true, some, ℤ, pos, ltb_ℤ, leb_ℤ, ltb, ◌==ℤ◌, ==ℤ_iff,
  arith, Bool-cases, inl, inr,
}
use native.Mathlib.Decide.{ℕ_discrete}
use ambix.Config.{AddrInfo}
use ambix.Controller.Migration.{Os}
use ambix.ClockDwf.Migration.{group_end, migrate_groups, move_pages_from}

-- The candidates end at `n`: those before it are pages of a process, and that one is not.
pub record EndsAt (candidates : ℕ → AddrInfo) (n : ℕ) : Type 0 where
  pub named : (i : ℕ) → i < n → ltb_ℤ (pos 0) (candidates i).pid_retval ≡ true
  pub stop : leb_ℤ (candidates n).pid_retval (pos 0) ≡ true

-- A pid is not a result.
pid-not_result : (a b : ℤ) → (a ==ℤ b) ≡ true → ltb_ℤ (pos 0) b ≡ true → leb_ℤ a (pos 0) ≡ true → ⊥
pid-not_result a b e p z = let same = (==ℤ_iff a b).0 e in let z' = rw same at z in ground arith

module _ (candidates : ℕ → AddrInfo) (n : ℕ) (ends : EndsAt candidates n) where
  -- A group ends at the last candidate or before, and its pages are of the process it begins with.
  group_end-ends :
      (i fuel j : ℕ)
      → i < n
      → i + j ≤ n
      → n < i + j + fuel
      → (c : ℕ) × (group_end candidates (candidates i).pid_retval fuel i j ≡ some c)
        × (j ≤ c)
        × (i + c ≤ n)
        × ((m : ℕ) → j ≤ m → m < c → (candidates (i + m)).pid_retval ≡ (candidates i).pid_retval)
  unfolding group_end
  group_end-ends i zero j b h l = absurd (omega (arith, h, l))
  group_end-ends i (suc fuel) j b h l =
      let pid = (candidates (i + j)).pid_retval in
      elim (Bool-cases (pid ==ℤ (candidates i).pid_retval)) [
        | inr other ↦
            (j, rw other refl, omega arith, h, λ m from to. absurd (omega (arith, from, to)))
        | inl more ↦ elim (ℕ_discrete (i + j) n) [
          | yes e ↦
              let stop : leb_ℤ pid (pos 0) ≡ true = rw e (ends.stop) in
              absurd (pid-not_result pid (candidates i).pid_retval more (ends.named i b) stop)
          | no ne ↦
              let r = group_end-ends i fuel (j + 1) b (omega (arith, h, ne)) (omega (arith, l)) in
              (
                r.0,
                rw more (r.1),
                omega (arith, r.2),
                r.3,
                λ m from to. elim (ℕ_discrete m j) [
                  | yes e ↦ rw e ((==ℤ_iff _ _).0 more)
                  | no ne ↦ r.4 m (omega (arith, from, ne)) to
                ],
              )
        ]
      ]

  -- The group that begins at a candidate has a page.
  pub group_end_lem :
      (i : ℕ)
      → i < n
      → (c : ℕ) × (group_end candidates (candidates i).pid_retval (n + 1) i 0 ≡ some c)
        × (1 ≤ c)
        × (i + c ≤ n)
        × ((m : ℕ) → m < c → (candidates (i + m)).pid_retval ≡ (candidates i).pid_retval)
  unfolding group_end
  group_end_lem i b =
      let z : i + 0 ≡ i = omega arith in
      let first : ((candidates (i + 0)).pid_retval ==ℤ (candidates i).pid_retval) ≡ true =
        (==ℤ_iff (candidates (i + 0)).pid_retval (candidates i).pid_retval).1
          (ap (λ (c : ℕ). (candidates c).pid_retval) z) in
      let one : n + 1 ≡ suc n = omega arith in
      let r = group_end-ends i n 1 b (omega (arith, b)) (omega (arith, b)) in
      (
        r.0,
        rw (one, first) (r.1),
        r.2,
        r.3,
        λ m to. elim (ℕ_discrete m 0) [
          | yes e ↦ rw (e, z) refl
          | no ne ↦ r.4 m (omega (arith, ne)) to
        ],
      )

  module _ (os : Os) where
    -- Whatever moves fail, the loop over the groups ends within the candidates.
    pub migrate_groups-ends :
        (dest_nodes : ℕ → ℕ) (fuel i m : ℕ) (w : os.World)
        → i ≤ n
        → n < i + fuel
        → (r : ℕ × os.World) × (migrate_groups os candidates n dest_nodes fuel i m w ≡ some r)
          × (r.0 + i ≤ m + n)
    unfolding migrate_groups
    migrate_groups-ends dest_nodes zero i m w h l = absurd (omega (arith, h, l))
    migrate_groups-ends dest_nodes (suc fuel) i m w h l = elim (Bool-cases (ltb i n)) [
      | inr done ↦ ((m, w), rw done refl, omega (arith, h))
      | inl more ↦
          let g = group_end_lem i (ground arith) in
          let r = move_pages_from os candidates dest_nodes i g.0 w in
          let rest =
            migrate_groups-ends dest_nodes fuel (i + g.0) (m + g.0) r.1 (omega (arith, g.3))
              (omega (arith, l, g.2)) in
          elim (Bool-cases (r.0)) [
            | inl fails ↦ ((m, r.1), rw (more, g.1, fails) refl, omega (arith, h))
            | inr works ↦ (rest.0, rw (more, g.1, works) (rest.1), omega (arith, rest.2))
          ]
    ]
