-- ===== src/Shell/Unknown.antt =====
-- A command that the shell does not know.
use zer0s.Prelude.{ℕ, ◌≡◌, ◌≢◌, refl, arith, false, List, [], ◌∷◌, ◌==◌, bytes, utf8}
use zer0s.Console.{text}
use zer0s.Strings.Scan.{AllBytes}
use zer0s.Machine.{Machine, running}
use zer0s.Shell.{string_compare, run_command, show}
use zer0s.Shell.Commands.{differs}

-- The commands, in the order of the comparisons.
abbrev pub known : List (List ℕ)
known =
    bytes "help"
    ∷ bytes "mem"
    ∷ bytes "procs"
    ∷ bytes "heap"
    ∷ bytes "kmalloc"
    ∷ bytes "clear"
    ∷ bytes "info"
    ∷ bytes "echo"
    ∷ bytes "status"
    ∷ bytes "hex"
    ∷ bytes "about"
    ∷ bytes "reboot"
    ∷ []

abbrev pub NotIn : List ℕ → List (List ℕ) → Type 0
NotIn s [] = Unit
NotIn s (t ∷ ts) = (s ≢ t) × NotIn s ts

abbrev AllLists : List (List ℕ) → Type 0
AllLists [] = Unit
AllLists (t ∷ ts) = AllBytes t × AllLists ts

known_bytes : AllLists known
unfolding bytes utf8
known_bytes = omega arith

-- None of the comparisons holds.
abbrev NoMatch : List ℕ → List (List ℕ) → Type 0
NoMatch s [] = Unit
NoMatch s (t ∷ ts) = ((string_compare s t == 0) ≡ false) × NoMatch s ts

NotIn-NoMatch :
    (s : List ℕ) (ts : List (List ℕ)) → AllBytes s → AllLists ts → NotIn s ts → NoMatch s ts
NotIn-NoMatch s [] all lists out = tt
NotIn-NoMatch s (t ∷ ts) all lists out =
    (differs s t all lists.0 out.0, NotIn-NoMatch s ts all lists.1 out.1)

-- A command that is none of the twelve and not empty prints the message that names it, and changes
-- nothing else.
pub run_command_unknown :
    (cmd args : List ℕ) (m : Machine)
    → AllBytes cmd
    → cmd ≢ []
    → NotIn cmd known
    → run_command cmd args m
      ≡ running (
          show
            (text (bytes "\nUnknown command: ")
              ∷ text cmd
              ∷ text (bytes "\nType 'help' for commands\n")
              ∷ [])
            m)
unfolding run_command
run_command_unknown cmd args m all nonempty out =
    let n = NotIn-NoMatch cmd known all known_bytes out in
    let no_empty = differs cmd [] all tt nonempty in
    rw
      (
        n.0, n.1.0, n.1.1.0, n.1.1.1.0, n.1.1.1.1.0, n.1.1.1.1.1.0, n.1.1.1.1.1.1.0,
        n.1.1.1.1.1.1.1.0, n.1.1.1.1.1.1.1.1.0, n.1.1.1.1.1.1.1.1.1.0, n.1.1.1.1.1.1.1.1.1.1.0,
        n.1.1.1.1.1.1.1.1.1.1.1.0, no_empty,
      )
      refl
