-- ===== src/Controller/LineTests.antt =====
-- The theorems on the command line and the client socket, on concrete inputs.
use Prim.Native.String.{String}
use text.Mathlib.Text.{◌==◌ as ◌eq◌}
use ambix.Base.{◌≡◌, refl, inr, true, false, List, [], ◌∷◌, ℤ, pos, negsuc, if◌then◌else◌, arith}
use ambix.Config.{dram_mode, nvram_mode, nvram_write_mode}
use ambix.Controller.Commands.{call_find, Flags, send_command, process_stdin}
use ambix.Controller.Calls.{AreValidCalls, AreFlags, process_stdin_lem, send_command-negative}
use ambix.Controller.Socket.{written, short, Attempt}

-- `strtok` and `strtol` on the lines below.
abbrev split_line : String → List String
split_line line =
    if line eq "bind 42\n"
    then "bind" ∷ "42\n" ∷ []
    else if line eq "toggle all\n"
    then "toggle" ∷ "all\n" ∷ []
    else []

abbrev number_of : String → ℤ
number_of word = if word eq "42\n" then pos 42 else if word eq "-1" then negsuc 0 else pos 0

abbrev session : List String
session = "bind 42\n" ∷ "toggle all\n" ∷ "exit\n" ∷ []

abbrev all_on : Flags
all_on = record { switch_act = pos 1; thresh_act = pos 1 }

process_stdin_lem_example :
    AreValidCalls (process_stdin split_line number_of session all_on).0
    × AreFlags (process_stdin split_line number_of session all_on).1
process_stdin_lem_example =
    process_stdin_lem split_line number_of session all_on (inr refl, inr refl)

send_minus_one :
    (send_command split_line number_of ("-1" ∷ "dram\n" ∷ [])
      ≡ call_find (negsuc 0) nvram_mode ∷ [])
    × (send_command split_line number_of ("-1" ∷ "nvram\n" ∷ [])
        ≡ call_find (negsuc 0) dram_mode ∷ [])
    × (send_command split_line number_of ("-1" ∷ "dramwr\n" ∷ [])
        ≡ call_find (negsuc 0) nvram_write_mode ∷ [])
send_minus_one = send_command-negative split_line number_of "-1" 0 refl (omega arith)

-- A client binds itself, one is cut off, and one unbinds process 9.
abbrev clients : List Attempt
clients =
    record { binds = true; getpid = pos 7; mode = pos 0; link = written; pid_arg = pos 0 }
    ∷ record { binds = true; getpid = pos 8; mode = pos 0; link = short; pid_arg = pos 0 }
    ∷ record { binds = false; getpid = pos 8; mode = pos 0; link = written; pid_arg = pos 9 }
    ∷ []
