-- ===== src/ClockDwf/FindTests.antt =====
-- A FIND of clockdwf-ctl.c answered by clockdwf-mod.c, on a small page table.
use ambix.Base.{ℕ, ◌+◌, ◌*◌, ◌≤◌, ◌≡◌, refl, false, some, none, inl, List, [], ◌∷◌, ℤ, pos}
use ambix.Config.{max_n_per_packet, find_op, bind_op, unbind_op, dram_mode, nvram_mode, switch_mode}
use ambix.Placement.Machine.{machine, blank}
use ambix.Controller.Migration.{Os}
use ambix.ClockDwf.Tests.{small, bound}
use ambix.ClockDwf.Request.{Codes, TaskList}
use ambix.ClockDwf.Migration.{Nodes, send_find}
use ambix.ClockDwf.Groups.{EndsAt}
use ambix.ClockDwf.Moves.{MoveLaws, move_each}
use ambix.ClockDwf.Finds.{answer, stored, send_find_ends, send_find_moves}

abbrev codes : Codes
codes = record {
  max_pids = 5;
  max_pid_n = 32768;
  max_n_per_packet = max_n_per_packet;
  find_op = find_op;
  bind_op = bind_op;
  unbind_op = unbind_op;
  dram_mode = dram_mode;
  nvram_mode = nvram_mode;
  switch_mode = switch_mode;
}

abbrev nodes : Nodes
nodes = record { dram_node = 0; nvram_node = 2 }

abbrev list : TaskList
list = record { init_task = record { pid = pos 0; mm = none }; tasks = [] }

-- The pages moved, the last one first: the pid, the address and the node.
abbrev note_moves : List (ℤ × ℕ × ℕ) → ℤ → List ℕ → List ℕ → List (ℤ × ℕ × ℕ)
note_moves w pid [] dest = w
note_moves w pid (a ∷ addr) [] = w
note_moves w pid (a ∷ addr) (d ∷ dest) = note_moves ((pid, a, d) ∷ w) pid addr dest

abbrev noting : Os
noting = record {
  World = List (ℤ × ℕ × ℕ);
  free_space_node = λ w node. 0;
  move_pages = λ w pid addr dest. (false, note_moves w pid addr dest);
}

noting-MoveLaws : MoveLaws noting
noting-MoveLaws = record {
  works = λ w pid addr dest. refl;
  no_pages = λ w pid. refl;
  one_by_one = λ w pid a d addr dest. refl;
}

send_find_ends_example :
    (c : ℕ) × EndsAt
      (stored machine small codes refl list bound noting nodes (pos 2) dram_mode blank)
      c
    × (c ≤ 2 * 2 + 1)
    × ((r : ℕ × List (ℤ × ℕ × ℕ)) × (send_find noting codes nodes
            (answer machine small codes refl list bound noting nodes)
            (2 * 2 + 2)
            (pos 2)
            dram_mode
            blank
            (λ i. 0)
            []
          ≡ some r)
        × (r.0 ≤ c))
send_find_ends_example =
    send_find_ends machine small codes refl list bound noting nodes (pos 2) dram_mode blank (λ i. 0)
      []

send_find_moves_example :
    let out = stored machine small codes refl list bound noting nodes (pos 2) dram_mode blank in
    (c : ℕ) × EndsAt out c
    × (send_find noting codes nodes
          (answer machine small codes refl list bound noting nodes)
          (2 * 2 + 2)
          (pos 2)
          dram_mode
          blank
          (λ i. 0)
          []
        ≡ some (c, move_each noting noting-MoveLaws out 2 c 0 []))
send_find_moves_example =
    send_find_moves machine small codes refl list bound noting nodes noting-MoveLaws (pos 2)
      dram_mode blank (λ i. 0) [] (inl refl)
