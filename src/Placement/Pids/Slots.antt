-- ===== src/Placement/Pids/Slots.antt =====
-- `refresh_pids` keeps what holds of every slot in use.
use ambix.Base.{ℕ, zero, suc, ◌+◌, ◌-◌, ◌<◌, ◌≡◌, refl, Option, ltb, arith, Bool-cases, inl, inr}
use ambix.Kernel.{Task, Processes}
use ambix.Placement.State.{Pids}
use ambix.Placement.Pids.{update_pid_list, refresh_from, refresh_pids, is_alive}
use ambix.Placement.Pids.Invariant.{update-slot}

module _ (Q : Option Task → Type 0) where
  -- It holds of every slot in use.
  abbrev pub InSlots : Pids → Type 0
  InSlots p = (i : ℕ) → i < p.n_pids → Q (p.task_items i)

  n_pids-update : (i : ℕ) (p : Pids) → (update_pid_list i p).n_pids ≡ p.n_pids - 1
  unfolding update_pid_list
  n_pids-update i p = refl

  update_pid_list-slots :
      (i : ℕ) (p : Pids) → i < p.n_pids → InSlots p → InSlots (update_pid_list i p)
  update_pid_list-slots i p h q j lt =
      let below : j < p.n_pids - 1 = omega (arith, n_pids-update i p) in
      elim (update-slot i p h j below) [
        | inl (b, e) ↦ rw e (q j (omega arith))
        | inr (b, e) ↦ rw e (q (j + 1) (omega arith))
      ]

  module _ (ps : Processes) where
    refresh_from-slots : (fuel i : ℕ) (p : Pids) → InSlots p → InSlots (refresh_from ps fuel i p)
    unfolding refresh_from
    refresh_from-slots zero i p q = q
    refresh_from-slots (suc fuel) i p q = elim (Bool-cases (ltb i p.n_pids)) [
      | inr e ↦ rw e q
      | inl e ↦ elim (Bool-cases (is_alive ps (p.task_items i))) [
        | inl a ↦ rw (e, a) (refresh_from-slots fuel (i + 1) p q)
        | inr a ↦
            rw (e, a)
              (refresh_from-slots fuel i (update_pid_list i p)
                (update_pid_list-slots i p (ground arith) q))
      ]
    ]

    pub refresh_pids-slots : (p : Pids) → InSlots p → InSlots (refresh_pids ps p)
    unfolding refresh_pids
    refresh_pids-slots p q = refresh_from-slots p.n_pids 0 p q
