-- ===== src/Controller/Calls.antt =====
-- Which calls the command line makes, and what it leaves in the flags.
use Prim.Native.String.{String}
use ambix.Base.{
  ℕ, ◌^◌, ◌<◌, ◌≡◌, refl, true, false, ◌⊎◌, inl, inr, List, [], ◌∷◌, ◌++◌, ℤ, pos, negsuc,
  Bool-cases, arith, ◌||◌, ◌==ℤ◌,
}
use text.Mathlib.Text.{◌==◌ as ◌eq◌}
use ambix.Config.{dram_mode, nvram_mode, nvram_write_mode, switch_mode}
use ambix.Placement.Pids.{is_invalid_pid}
use ambix.Controller.Migration.{to_int}
use ambix.Controller.Commands.{
  Call, call_bind, call_unbind, call_find, Flags, toggle, is_pid, int_of_long, bind_command,
  unbind_command, send_command, switch_command, toggle_command, run_command, process_stdin,
}

-- A call whose pid the module does not refuse, or that finds in one of four modes.
abbrev pub IsValidCall : Call → Type 0
IsValidCall (call_bind pid) = is_invalid_pid pid ≡ false
IsValidCall (call_unbind pid) = is_invalid_pid pid ≡ false
IsValidCall (call_find n mode) =
    mode ==ℤ dram_mode || mode ==ℤ nvram_mode || mode ==ℤ nvram_write_mode || mode ==ℤ switch_mode
    ≡ true

abbrev pub AreValidCalls : List Call → Type 0
AreValidCalls [] = Unit {0}
AreValidCalls (c ∷ cs) = IsValidCall c × AreValidCalls cs

-- A flag is off or on.
abbrev pub IsFlag : ℤ → Type 0
IsFlag x = (x ≡ pos 0) ⊎ (x ≡ pos 1)

abbrev pub AreFlags : Flags → Type 0
AreFlags f = IsFlag f.switch_act × IsFlag f.thresh_act

int_of_long-pid : (pid : ℤ) → is_pid pid ≡ true → is_invalid_pid (int_of_long pid) ≡ false
unfolding int_of_long to_int is_invalid_pid
int_of_long-pid (pos n) h = ground arith
int_of_long-pid (negsuc n) h = ground arith

int_of_long-negative : (n : ℕ) → n < 2 ^ 31 → int_of_long (negsuc n) ≡ negsuc n
unfolding int_of_long to_int
int_of_long-negative n h = ground arith

append-AreValidCalls :
    (xs ys : List Call) → AreValidCalls xs → AreValidCalls ys → AreValidCalls (xs ++ ys)
append-AreValidCalls [] ys h l = l
append-AreValidCalls (x ∷ xs) ys h l = (h.0, append-AreValidCalls xs ys h.1 l)

toggle-IsFlag : (x : ℤ) → IsFlag x → IsFlag (toggle x)
toggle-IsFlag x (inl e) = inr (rw e refl)
toggle-IsFlag x (inr e) = inl (rw e refl)

module _ (strtok : String → List String) (strtol : String → ℤ) where
  bind_command-AreValidCalls :
      (words : List String) → AreValidCalls (bind_command strtok strtol words)
  unfolding bind_command
  bind_command-AreValidCalls [] = _
  bind_command-AreValidCalls (word ∷ words) = elim (Bool-cases (is_pid (strtol word))) [
    | inl good ↦ rw good (int_of_long-pid (strtol word) good, _)
    | inr bad ↦ rw bad _
  ]

  unbind_command-AreValidCalls :
      (words : List String) → AreValidCalls (unbind_command strtok strtol words)
  unfolding unbind_command
  unbind_command-AreValidCalls [] = _
  unbind_command-AreValidCalls (word ∷ words) = elim (Bool-cases (is_pid (strtol word))) [
    | inl good ↦ rw good (int_of_long-pid (strtol word) good, _)
    | inr bad ↦ rw bad _
  ]

  send_command-AreValidCalls :
      (words : List String) → AreValidCalls (send_command strtok strtol words)
  unfolding send_command
  send_command-AreValidCalls [] = _
  send_command-AreValidCalls (word ∷ []) = _
  send_command-AreValidCalls (word ∷ tier ∷ words) = elim (Bool-cases (tier eq "dram\n")) [
    | inl dram ↦ rw dram (refl, _)
    | inr ne₀ ↦ elim (Bool-cases (tier eq "nvram\n")) [
      | inl nvram ↦ rw (ne₀, nvram) (refl, _)
      | inr ne₁ ↦ elim (Bool-cases (tier eq "dramwr\n")) [
        | inl dramwr ↦ rw (ne₀, ne₁, dramwr) (refl, _)
        | inr ne₂ ↦ rw (ne₀, ne₁, ne₂) _
      ]
    ]
  ]

  switch_command-AreValidCalls :
      (words : List String) → AreValidCalls (switch_command strtok strtol words)
  unfolding switch_command
  switch_command-AreValidCalls [] = _
  switch_command-AreValidCalls (word ∷ words) = (refl, _)

  toggle_command-AreFlags :
      (words : List String) (f : Flags)
      → AreFlags f
      → AreFlags (toggle_command strtok strtol words f)
  unfolding toggle_command
  toggle_command-AreFlags [] f h = h
  toggle_command-AreFlags (word ∷ words) f (h, l) =
      let flipped = toggle-IsFlag f.switch_act h in
      let turned = toggle-IsFlag f.thresh_act l in
      elim (Bool-cases (word eq "switch\n")) [
        | inl both ↦ rw both (flipped, l)
        | inr ne₀ ↦ elim (Bool-cases (word eq "thresh\n")) [
          | inl thresh ↦ rw (ne₀, thresh) (h, turned)
          | inr ne₁ ↦ elim (Bool-cases (word eq "all\n")) [
            | inl every ↦ rw (ne₀, ne₁, every) (flipped, turned)
            | inr ne₂ ↦ rw (ne₀, ne₁, ne₂) (h, l)
          ]
        ]
      ]

  run_command-AreValidCalls :
      (words : List String) (f : Flags)
      → AreFlags f
      → AreValidCalls (run_command strtok strtol words f).0
        × AreFlags (run_command strtok strtol words f).1
  unfolding run_command
  run_command-AreValidCalls [] f h = (_, h)
  run_command-AreValidCalls (word ∷ words) f h = elim (Bool-cases (word eq "bind")) [
    | inl binds ↦ rw binds (bind_command-AreValidCalls words, h)
    | inr ne₀ ↦ elim (Bool-cases (word eq "unbind")) [
      | inl unbinds ↦ rw (ne₀, unbinds) (unbind_command-AreValidCalls words, h)
      | inr ne₁ ↦ elim (Bool-cases (word eq "send")) [
        | inl sends ↦ rw (ne₀, ne₁, sends) (send_command-AreValidCalls words, h)
        | inr ne₂ ↦ elim (Bool-cases (word eq "switch")) [
          | inl switches ↦ rw (ne₀, ne₁, ne₂, switches) (switch_command-AreValidCalls words, h)
          | inr ne₃ ↦ elim (Bool-cases (word eq "toggle")) [
            | inl toggles ↦ rw (ne₀, ne₁, ne₂, ne₃, toggles) (_, toggle_command-AreFlags words f h)
            | inr ne₄ ↦ rw (ne₀, ne₁, ne₂, ne₃, ne₄) (_, h)
          ]
        ]
      ]
    ]
  ]

  -- Whatever is typed, the command line binds and unbinds only pids that the module does not refuse
  -- as invalid, finds only in the modes DRAM, NVRAM, NVRAM write and switch, and leaves each flag 0 or 1.
  pub process_stdin_lem :
      (lines : List String) (f : Flags)
      → AreFlags f
      → AreValidCalls (process_stdin strtok strtol lines f).0
        × AreFlags (process_stdin strtok strtol lines f).1
  unfolding process_stdin
  process_stdin_lem [] f h = (_, h)
  process_stdin_lem (line ∷ lines) f h = elim (Bool-cases (line eq "exit\n")) [
    | inl exits ↦ rw exits (_, h)
    | inr goes_on ↦
        let r = run_command strtok strtol (strtok line) f in
        let one = run_command-AreValidCalls (strtok line) f h in
        let rest = process_stdin_lem lines r.1 one.1 in
        rw goes_on
          (append-AreValidCalls r.0 (process_stdin strtok strtol lines r.1).0 one.0 rest.0, rest.1)
  ]

  -- The count of a `send` goes to the module as it is typed: where `strtol` gives a negative number
  -- down to -2^31, so is the count of the FIND, for each of the three tiers.
  pub send_command-negative :
      (word : String) (n : ℕ)
      → strtol word ≡ negsuc n
      → n < 2 ^ 31
      → (send_command strtok strtol (word ∷ "dram\n" ∷ []) ≡ call_find (negsuc n) nvram_mode ∷ [])
        × (send_command strtok strtol (word ∷ "nvram\n" ∷ []) ≡ call_find (negsuc n) dram_mode ∷ [])
        × (send_command strtok strtol (word ∷ "dramwr\n" ∷ [])
            ≡ call_find (negsuc n) nvram_write_mode ∷ [])
  unfolding send_command
  send_command-negative word n e h =
      let same = int_of_long-negative n h in rw (e, same) (refl, refl, refl)
