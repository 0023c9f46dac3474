-- ===== src/Keyboard/Delivery.antt =====
-- A line that is typed, from the keys to the shell.
use zer0s.Prelude.{
  newline, ℕ, ◌+◌, ◌≤◌, ◌<◌, ◌≡◌, ◌≢◌, refl, ap, ◌∙◌, arith, true, false, List, [], ◌∷◌, ◌++◌,
  length, store,
}
use zer0s.Console.{terminal_writechar, terminal_writestring}
use zer0s.Strings.Stored.{StoredString}
use zer0s.Machine.{Machine, Run, running, halted, diverges}
use zer0s.Shell.{shell_handle_command}
use zer0s.Keyboard.{Keyboard, press_enter, end_line, write, handle_key, handle_scancode}
use zer0s.Keyboard.Tables.{ascii_of}
use zer0s.Keyboard.Line.{is_plain, IsPlain, type_char, press_key-plain, handle_scancode-plain}

-- What runs behind code that returns.
unfoldable pub and_then :
    Run (Keyboard × Machine)
    → (Keyboard × Machine → Run (Keyboard × Machine))
    → Run (Keyboard × Machine)
and_then (running s) f = f s
and_then (halted s) f = halted s
and_then diverges f = diverges

and_then-running : (r : Run (Keyboard × Machine)) → and_then r running ≡ r
unfolding and_then
and_then-running (running s) = refl
and_then-running (halted s) = refl
and_then-running diverges = refl

-- One key event after the other.
unfoldable pub handle_scancodes : List ℕ → Keyboard → Machine → Run (Keyboard × Machine)
handle_scancodes [] k m = running (k, m)
handle_scancodes (scancode ∷ scancodes) k m =
    and_then (handle_scancode scancode k m) (λ s. handle_scancodes scancodes s.0 s.1)

unfoldable pub type_word : List ℕ → Keyboard → Keyboard
type_word [] k = k
type_word (c ∷ word) k = type_word word (type_char c k)

abbrev pub chars : List ℕ → List ℕ
chars [] = []
chars (key ∷ keys) = ascii_of key false ∷ chars keys

abbrev pub AllPlain : List ℕ → Type 0
AllPlain [] = Unit
AllPlain (key ∷ keys) = (is_plain key ≡ true) × AllPlain keys

abbrev pub shown : List ℕ → Machine → Machine
shown word m = record m { console = terminal_writestring word m.console }

pub type_char-IsPlain : (c : ℕ) (k : Keyboard) → IsPlain k → IsPlain (type_char c k)
unfolding type_char
type_char-IsPlain c k idle = record { shift = idle.shift; caps = idle.caps; accent = idle.accent }

pub type_char-pos : (c : ℕ) (k : Keyboard) → (type_char c k).cmd_pos ≡ k.cmd_pos + 1
unfolding type_char
type_char-pos c k = refl

handle_scancodes-suc :
    (key : ℕ) (keys : List ℕ) (k k' : Keyboard) (m m' : Machine)
    → handle_scancode key k m ≡ running (k', m')
    → handle_scancodes (key ∷ keys) k m ≡ handle_scancodes keys k' m'
unfolding handle_scancodes and_then
handle_scancodes-suc key keys k k' m m' e =
    ap (λ r. and_then r (λ s. handle_scancodes keys s.0 s.1)) e

pub handle_scancodes-plain :
    (keys rest : List ℕ) (k : Keyboard) (m : Machine)
    → AllPlain keys
    → IsPlain k
    → k.cmd_pos + length keys ≤ 255
    → handle_scancodes (keys ++ rest) k m
      ≡ handle_scancodes rest (type_word (chars keys) k) (shown (chars keys) m)
unfolding type_word terminal_writestring
handle_scancodes-plain [] rest k m all idle room = refl
handle_scancodes-plain (key ∷ keys) rest k m (plain, all) idle room =
    let c = ascii_of key false in
    handle_scancodes-suc key (keys ++ rest) k (type_char c k) m (write c m) (
      handle_scancode-plain key k m plain
      ∙ ap running (press_key-plain key k m plain idle (omega arith)))
    ∙ handle_scancodes-plain keys rest (type_char c k) (write c m) all (type_char-IsPlain c k idle)
        (omega (arith, type_char-pos c k))

type_word-pos :
    (word : List ℕ) (k : Keyboard) → (type_word word k).cmd_pos ≡ k.cmd_pos + length word
unfolding type_word
type_word-pos [] k = omega arith
type_word-pos (c ∷ word) k = omega (arith, type_word-pos word (type_char c k), type_char-pos c k)

abbrev pub terminated : Keyboard → ℕ → ℕ
terminated k = store k.cmd_buffer k.cmd_pos 0

type_word-IsPlain :
    (word : List ℕ) (k : Keyboard)
    → IsPlain k
    → IsPlain
        (record (type_word word k) { dead_key = false; cmd_buffer = terminated (type_word word k) })
unfolding type_word
type_word-IsPlain [] k idle = record { shift = idle.shift; caps = idle.caps; accent = refl }
type_word-IsPlain (c ∷ word) k idle =
    type_word-IsPlain word (type_char c k) (type_char-IsPlain c k idle)

type_word-below :
    (word : List ℕ) (k : Keyboard) (j : ℕ)
    → j < k.cmd_pos
    → (type_word word k).cmd_buffer j ≡ k.cmd_buffer j
unfolding type_word type_char
type_word-below [] k j lt = refl
type_word-below (c ∷ word) k j lt =
    type_word-below word (type_char c k) j (omega arith) ∙ ground (arith, lt)

abbrev NonZero : List ℕ → Type 0
NonZero [] = Unit
NonZero (c ∷ word) = (c ≢ 0) × NonZero word

AllPlain-NonZero : (keys : List ℕ) → AllPlain keys → NonZero (chars keys)
AllPlain-NonZero [] all = tt
AllPlain-NonZero (key ∷ keys) (plain, all) =
    (λ e. ground (arith, plain, e), AllPlain-NonZero keys all)

type_word-StoredString :
    (word : List ℕ) (k : Keyboard)
    → NonZero word
    → StoredString (terminated (type_word word k)) k.cmd_pos word
unfolding StoredString type_word type_char
type_word-StoredString [] k all = ground arith
type_word-StoredString (c ∷ word) k (ne, all) =
    let pos = type_word-pos word (type_char c k) in
    let first = type_word-below word (type_char c k) k.cmd_pos (omega (arith, type_char-pos c k)) in
    (ground (arith, pos, first), ne, type_word-StoredString word (type_char c k) all)

-- The shell was given exactly the word as its line, behind the newline on the screen.
pub record IsDelivered (word : List ℕ) (m : Machine) (r : Run (Keyboard × Machine)) : Type 0 where
  pub line : Keyboard
  pub stored : StoredString line.cmd_buffer 0 word
  pub idle : IsPlain line
  pub returned :
      r
      ≡ end_line line (
          shell_handle_command line.cmd_buffer (record m {
            console = terminal_writechar newline (terminal_writestring word m.console);
          }))

pub handle_scancodes-single :
    (scancode : ℕ) (k : Keyboard) (m : Machine)
    → handle_scancodes (scancode ∷ []) k m ≡ handle_scancode scancode k m
unfolding handle_scancodes
handle_scancodes-single scancode k m = and_then-running (handle_scancode scancode k m)

handle_scancode-enter : (k : Keyboard) (m : Machine) → handle_scancode 0x1C k m ≡ press_enter k m
unfolding handle_scancode handle_key
handle_scancode-enter k m = refl

handle_scancodes-enter :
    (k : Keyboard) (m : Machine)
    → handle_scancodes (0x1C ∷ []) k m
      ≡ end_line
          (record k { dead_key = false; cmd_buffer = terminated k })
          (shell_handle_command (terminated k) (write newline m))
unfolding press_enter
handle_scancodes-enter k m = handle_scancodes-single 0x1C k m ∙ handle_scancode-enter k m

-- On an empty line, with no shift key, no caps lock and no accent pending, at most 255 keys that
-- put out plain characters, and the enter key, show those characters and a newline, and the shell
-- gets exactly them as its line.
pub handle_scancodes-IsDelivered :
    (keys : List ℕ) (k : Keyboard) (m : Machine)
    → AllPlain keys
    → IsPlain k
    → k.cmd_pos ≡ 0
    → length keys ≤ 255
    → IsDelivered (chars keys) m (handle_scancodes (keys ++ (0x1C ∷ [])) k m)
handle_scancodes-IsDelivered keys k m all idle empty few =
    let typed = type_word (chars keys) k in
    record {
      line = record typed { dead_key = false; cmd_buffer = terminated typed };
      stored = simp empty at (type_word-StoredString (chars keys) k (AllPlain-NonZero keys all));
      idle = type_word-IsPlain (chars keys) k idle;
      returned =
          handle_scancodes-plain keys (0x1C ∷ []) k m all idle (omega arith)
          ∙ handle_scancodes-enter typed (shown (chars keys) m);
    }
