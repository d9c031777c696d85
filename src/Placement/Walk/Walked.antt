-- ===== src/Placement/Walk/Walked.antt =====
-- The rule for `do_page_walk`, from a state that is ready for it, and for what is found behind other
-- pages.
use ambix.Base.{ℕ, ◌<◌, subst, Bool, Option, List, [], ◌++◌, append_assoc}
use ambix.Config.{AddrInfo}
use ambix.Kernel.{Kernel}
use ambix.Kernel.Tables.{TableLaws}
use ambix.Placement.State.{State}
use ambix.Placement.Callbacks.{Callback}
use ambix.Placement.Callbacks.Bounds.{Safe, KeepsSafe}
use ambix.Placement.Walk.{do_page_walk}
use ambix.Placement.Walk.Memory.{Ready, Ready-Safe}
use ambix.Placement.Walk.Offers.{cycle}
use ambix.Placement.Walk.Alike.{KeepsAlike, Alike-refl}
use ambix.Placement.Walk.Visit.{Tallies, Inside, offer}
use ambix.Placement.Walk.Cycle.{do_page_walk-Holds}

module _ (k : Kernel) (laws : TableLaws k) (test : Option k.Pte → Bool) (b n : ℕ) (cb : Callback k)
    (keeps : KeepsSafe k b n cb) (alike : KeepsAlike k laws test cb)
    (Has : State k.Space → List AddrInfo → Type 0) (s : State k.Space) (r : Ready k b n s) where
  pub walked-Has :
      Tallies k test cb (Safe k b n s.task_items s.n_pids) Has
      → Has s []
      → (last_pid last_addr : ℕ) → last_pid < s.n_pids
      → Has
          (do_page_walk k cb last_pid last_addr s).1
          (cycle k test s.spaces s.task_items s.n_pids last_pid last_addr)
  walked-Has tally none_yet last_pid last_addr lt =
      let within : Inside k laws test b n s.task_items s.n_pids s.spaces s = record {
        safe = Ready-Safe k b n s r;
        alike = Alike-refl k laws test s.spaces;
      } in
      (do_page_walk-Holds k laws test b n s.task_items s.n_pids s.spaces r.pids.tasks cb keeps alike
        Has tally last_pid last_addr s lt (within, none_yet)).1

-- The same of the pages that stand behind others.
pub behind_Tallies :
    (k : Kernel) (test : Option k.Pte → Bool) (cb : Callback k) (IsReady : State k.Space → Type 0)
    (Has : State k.Space → List AddrInfo → Type 0) (base : List AddrInfo)
    → Tallies k test cb IsReady Has
    → Tallies k test cb IsReady (λ s xs. Has s (base ++ xs))
behind_Tallies k test cb IsReady Has base t = record {
  ends = t.ends;
  same_pid = t.same_pid;
  takes = λ m addr e s xs r more h.
      subst (Has (cb m addr e s).1) (append_assoc base xs (offer k test s addr e))
        (t.takes m addr e s (base ++ xs) r more h);
  stops = λ m addr e s xs all h. t.stops m addr e s (base ++ xs) all h;
  full =
      λ s xs ys r all h. subst (Has s) (append_assoc base xs ys) (t.full s (base ++ xs) ys r all h);
  enters = λ s pid xs h. t.enters s pid (base ++ xs) h;
}
