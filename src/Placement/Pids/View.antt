-- ===== src/Placement/Pids/View.antt =====
-- The bound processes as a list, and what the operations on the array do to that list.
use ambix.Base.{
  ℕ, zero, suc, ◌+◌, ◌-◌, ◌≤◌, ◌<◌, ◌≡◌, refl, sym, ap, ap₂, ◌∙◌, ◌&&◌, Option, List, [], ◌∷◌, ◌++◌,
  true, false, leb, ltb, if◌then◌else◌, update, slice, slice-add, slice_ext, keep, arith,
  append_assoc, append-nil, Bool-cases, inl, inr,
}
use ambix.Kernel.{Task, Processes}
use ambix.Placement.State.{Pids}
use ambix.Placement.Pids.{shift_left, update_pid_list, refresh_from, refresh_pids, is_alive}

-- The slots in use, in order.
abbrev pub bound : Pids → List (Option Task)
bound p = slice p.task_items 0 p.n_pids

pub shift_left_lem :
    (rounds i : ℕ) (items : ℕ → Option Task) (j : ℕ)
    → shift_left rounds i items j
      ≡ (if leb i j && ltb j (i + rounds) then items (j + 1) else items j)
unfolding shift_left
shift_left_lem zero i items j = ground arith
shift_left_lem (suc rounds) i items j =
    ground (arith, shift_left_lem rounds (i + 1) (update items i (items (i + 1))) j)

module _ (items : ℕ → Option Task) (rounds i : ℕ) where
  slice-shift_before : slice (shift_left rounds i items) 0 i ≡ slice items 0 i
  slice-shift_before =
      slice_ext _ items 0 0 i λ j lt. ground (arith, shift_left_lem rounds i items (0 + j))

  slice-shift_from : slice (shift_left rounds i items) i rounds ≡ slice items (i + 1) rounds
  slice-shift_from = slice_ext _ items i (i + 1) rounds moved
    where
      moved : (j : ℕ) → j < rounds → shift_left rounds i items (i + j) ≡ items (i + 1 + j)
      moved j lt =
          let e : i + j + 1 ≡ i + 1 + j = omega arith in
          ground (arith, shift_left_lem rounds i items (i + j), ap items e)

slice-split :
    (items : ℕ → Option Task) (n i : ℕ)
    → i < n
    → slice items i (n - i) ≡ items i ∷ slice items (i + 1) (n - 1 - i)
slice-split items n i h = let e : n - i ≡ suc (n - 1 - i) = omega arith in rw e

module _ (i : ℕ) (p : Pids) where
  n_pids-update : (update_pid_list i p).n_pids ≡ p.n_pids - 1
  unfolding update_pid_list
  n_pids-update = refl

  slice-update_before : slice (update_pid_list i p).task_items 0 i ≡ slice p.task_items 0 i
  unfolding update_pid_list
  slice-update_before = slice-shift_before p.task_items (p.n_pids - 1 - i) i

  slice-update_from :
      slice (update_pid_list i p).task_items i (p.n_pids - 1 - i)
      ≡ slice p.task_items (i + 1) (p.n_pids - 1 - i)
  unfolding update_pid_list
  slice-update_from = slice-shift_from p.task_items (p.n_pids - 1 - i) i

-- Dropping slot `i` removes the list's element `i` and leaves the order of the others.
pub bound-update_pid_list :
    (p : Pids) (i : ℕ)
    → i < p.n_pids
    → bound (update_pid_list i p)
      ≡ slice p.task_items 0 i ++ slice p.task_items (i + 1) (p.n_pids - 1 - i)
bound-update_pid_list p i h =
    let e : (update_pid_list i p).n_pids ≡ i + (p.n_pids - 1 - i) =
      omega (arith, n_pids-update i p) in
    let z : 0 + i ≡ i = omega arith in
    ap (slice (update_pid_list i p).task_items 0) e
    ∙ slice-add (update_pid_list i p).task_items 0 i (p.n_pids - 1 - i)
    ∙ rw z (ap₂ ◌++◌ (slice-update_before i p) (slice-update_from i p))

module _ (ps : Processes) where
  refresh_at_end :
      (i : ℕ) (p : Pids)
      → i ≡ p.n_pids
      → bound p ≡ slice p.task_items 0 i ++ keep (is_alive ps) (slice p.task_items i (p.n_pids - i))
  refresh_at_end i p e =
      let z : p.n_pids - i ≡ 0 = omega arith in rw (z, e) (sym (append-nil (bound p)))

  refresh_kept :
      (i : ℕ) (p : Pids)
      → i < p.n_pids
      → is_alive ps (p.task_items i) ≡ true
      → slice p.task_items 0 (i + 1)
          ++ keep (is_alive ps) (slice p.task_items (i + 1) (p.n_pids - (i + 1)))
        ≡ slice p.task_items 0 i ++ keep (is_alive ps) (slice p.task_items i (p.n_pids - i))
  refresh_kept i p h a =
      let z : 0 + i ≡ i = omega arith in
      let n : p.n_pids - (i + 1) ≡ p.n_pids - 1 - i = omega arith in
      let head : slice p.task_items 0 (i + 1) ≡ slice p.task_items 0 i ++ p.task_items i ∷ [] =
        rw z at (slice-add p.task_items 0 i 1) in
      rw (slice-split p.task_items p.n_pids i h, head, n, a)
        (append_assoc (slice p.task_items 0 i) (p.task_items i ∷ []) _)

  refresh_dropped :
      (i : ℕ) (p : Pids)
      → i < p.n_pids
      → is_alive ps (p.task_items i) ≡ false
      → slice (update_pid_list i p).task_items 0 i
          ++ keep
              (is_alive ps)
              (slice (update_pid_list i p).task_items i ((update_pid_list i p).n_pids - i))
        ≡ slice p.task_items 0 i ++ keep (is_alive ps) (slice p.task_items i (p.n_pids - i))
  refresh_dropped i p h a =
      rw (slice-split p.task_items p.n_pids i h, n_pids-update i p, a)
        (ap₂ (λ xs ys. xs ++ keep (is_alive ps) ys) (slice-update_before i p)
          (slice-update_from i p))

  refresh_from_lem :
      (fuel i : ℕ) (p : Pids)
      → i ≤ p.n_pids
      → p.n_pids - i ≤ fuel
      → bound (refresh_from ps fuel i p)
        ≡ slice p.task_items 0 i ++ keep (is_alive ps) (slice p.task_items i (p.n_pids - i))
  unfolding refresh_from
  refresh_from_lem zero i p h f = refresh_at_end i p (omega arith)
  refresh_from_lem (suc fuel) i p h f = elim (Bool-cases (ltb i p.n_pids)) [
    | inr e ↦ rw e (refresh_at_end i p (ground arith))
    | inl e ↦ elim (Bool-cases (is_alive ps (p.task_items i))) [
      | inl a ↦
          rw (e, a)
            (refresh_from_lem fuel (i + 1) p (ground arith) (omega arith)
              ∙ refresh_kept i p (ground arith) a)
      | inr a ↦
          rw (e, a)
            (refresh_from_lem fuel i (update_pid_list i p) (ground (arith, n_pids-update i p))
                (omega (arith, n_pids-update i p))
              ∙ refresh_dropped i p (ground arith) a)
    ]
  ]

  -- The loop ends, and what is left is the processes that are alive, in order.
  pub refresh_pids_lem : (p : Pids) → bound (refresh_pids ps p) ≡ keep (is_alive ps) (bound p)
  unfolding refresh_pids
  refresh_pids_lem p =
      let z : p.n_pids - 0 ≡ p.n_pids = omega arith in
      rw z at (refresh_from_lem p.n_pids 0 p (omega arith) (omega arith))
