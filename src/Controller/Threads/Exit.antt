-- ===== src/Controller/Threads/Exit.antt =====
-- No deadlock; and once `exit` is typed the threads return, so that `main` does.
use ambix.Base.{ℕ, ◌+◌, ◌*◌, ◌≤◌, ◌≡◌, List, [], ◌∷◌}
use ambix.Controller.Threads.{
  Thread, stdin_thread, socket_thread, memcheck_thread, Job, bind_job, find_section, Phase, idle,
  works, waits_comm, sends, waits_placement, locked, locked_waits, locked_sends, ended, State, Step,
}

abbrev cost : List Job → ℕ
cost [] = 0
cost (bind_job ∷ js) = 3 + cost js
cost (find_section n ∷ js) = 3 + 3 * n + cost js

-- The steps that a thread has before it, when `exit_sig` is set.
abbrev steps_left : Phase → ℕ
steps_left idle = 1
steps_left (works js) = 2 + cost js
steps_left (waits_comm js) = 4 + cost js
steps_left (sends js) = 3 + cost js
steps_left (waits_placement n js) = 4 + 3 * n + cost js
steps_left (locked n js) = 3 + 3 * n + cost js
steps_left (locked_waits n js) = 5 + 3 * n + cost js
steps_left (locked_sends n js) = 4 + 3 * n + cost js
steps_left ended = 0

abbrev pub total_left : State → ℕ
total_left s =
    steps_left (s.phases stdin_thread)
    + steps_left (s.phases socket_thread)
    + steps_left (s.phases memcheck_thread)

-- A step uses up a step that was left, if it reads no request.
abbrev Used : State → State → ℕ → Type 0
Used s t n = total_left t + n + 4 * s.requests ≤ total_left s + 4 * t.requests

abbrev pub CanStep : State → Type 0
CanStep s = (t : State) × Step s t

abbrev pub AllEnded : State → Type 0
AllEnded s = (th : Thread) → s.phases th ≡ ended
