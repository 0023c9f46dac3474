-- ===== src/Keyboard.antt =====
-- The keyboard driver of kernel/arch/x86_64/keyboard.c.
pub mod Tables
pub mod Typing
pub mod Total
pub mod Line
pub mod Accents
pub mod Delivery
pub mod CommandLine
pub mod Erase
mod Tests
use zer0s.Prelude.{
  ℕ, zero, suc, ◌+◌, ◌-◌, ◌%◌, Bool, true, false, ◌&&◌, ◌||◌, not, Option, none, some, List, [],
  ◌∷◌, bit_and, ltb, leb, ◌==◌, if◌then◌else◌, store, u8, newline, backspace, bytes,
}
use zer0s.Console.{Console, terminal_writechar, terminal_writestring}
use zer0s.Machine.{Machine, Run, running, halted, diverges}
use zer0s.Shell.{shell_handle_command}
use zer0s.Keyboard.Tables.{tab, char_is, handle_dead_key, ascii_of}

-- The statics of the file; the flags are Booleans.
pub record Keyboard : Type 0 where
  pub shift_pressed : Bool
  pub ctrl_pressed : Bool
  pub alt_pressed : Bool
  pub caps_lock : Bool
  pub num_lock : Bool
  pub scroll_lock : Bool
  pub dead_key : Bool
  pub dead_char : ℕ
  pub cmd_buffer : ℕ → ℕ
  pub cmd_pos : ℕ

-- What the ports 0x64 and 0x60 answer, after a number of earlier reads, is the hardware's.
module _ (status answer : ℕ → ℕ) where
  -- The scan code, and the reads done. `none`: no code has come within the fuel.
  unfoldable pub keyboard_read_scancode : (fuel reads : ℕ) → Option (ℕ × ℕ)
  keyboard_read_scancode zero reads = none
  keyboard_read_scancode (suc fuel) reads = elim (bit_and (status reads) 1 == 0) [
    | true ↦ keyboard_read_scancode fuel (reads + 1)
    | false ↦ some (u8 (answer (reads + 1)), reads + 2)
  ]

-- `if (cmd_pos < 255) cmd_buffer[cmd_pos++] = c;`
unfoldable pub append_char : ℕ → Keyboard → Keyboard
append_char c k =
    if ltb k.cmd_pos 255
    then record k { cmd_buffer = store k.cmd_buffer k.cmd_pos c; cmd_pos = k.cmd_pos + 1 }
    else k

abbrev pub write : ℕ → Machine → Machine
write c m = record m { console = terminal_writechar c m.console }

-- What follows the call of the shell: the line starts again.
unfoldable pub end_line : Keyboard → Run Machine → Run (Keyboard × Machine)
end_line k (running m) = running (record k { cmd_pos = 0; cmd_buffer = store k.cmd_buffer 0 0 }, m)
end_line k (halted m) = halted (k, m)
end_line k diverges = diverges

unfoldable pub press_enter : Keyboard → Machine → Run (Keyboard × Machine)
press_enter k m =
    let line = record k { dead_key = false; cmd_buffer = store k.cmd_buffer k.cmd_pos 0 } in
    end_line line (shell_handle_command line.cmd_buffer (write newline m))

unfoldable pub press_backspace : Keyboard → Machine → Keyboard × Machine
press_backspace k m =
    if ltb 0 k.cmd_pos
    then (
      record k { dead_key = false; cmd_pos = k.cmd_pos - 1 },
      write backspace (write b' ' (write backspace m)),
    )
    else (record k { dead_key = false }, m)

unfoldable pub press_tab : Keyboard → Machine → Keyboard × Machine
press_tab k m = (append_char tab (record k { dead_key = false }), write tab m)

unfoldable pub press_escape : Keyboard → Machine → Keyboard × Machine
press_escape k m = (
  record k { dead_key = false; cmd_pos = 0; cmd_buffer = store k.cmd_buffer 0 0 },
  record m {
    console = terminal_writestring (bytes "^C\nZer0S> ") (terminal_writechar newline m.console);
  },
)

abbrev pub is_lower : ℕ → Bool
is_lower c = leb b'a' c && leb c b'z'

-- A letter behind a dead key: the composed character, or the accent is put in front of it.
unfoldable pub combine : ℕ → Keyboard → Machine → ℕ × Keyboard × Machine
combine ascii k m =
    let result = handle_dead_key ascii k.dead_char in
    if k.dead_key && not (ascii == 0) && is_lower ascii
    then (if not (result == ascii)
        then (result, record k { dead_key = false }, m)
        else (ascii, record (append_char k.dead_char k) { dead_key = false }, write k.dead_char m))
    else (ascii, k, m)

unfoldable pub is_accent : ℕ → Bool
unfolding char_is
is_accent ascii = char_is ascii "´" || char_is ascii "`" || char_is ascii "^" || char_is ascii "~"

-- A character goes to the buffer and the screen while the buffer has room.
unfoldable pub put_char : ℕ → Keyboard → Machine → Keyboard × Machine
put_char c k m =
    if ltb k.cmd_pos 255
    then (
      record k { cmd_buffer = store k.cmd_buffer k.cmd_pos c; cmd_pos = k.cmd_pos + 1 },
      write c m,
    )
    else (k, m)

unfoldable pub echo_char : ℕ → Keyboard → Machine → Keyboard × Machine
echo_char ascii k m =
    if not (ascii == 0) && leb b' ' ascii && leb ascii b'~'
    then put_char
        (if k.caps_lock && not k.shift_pressed && is_lower ascii
          then ascii - b'a' + b'A'
          else ascii)
        k m
    else if ascii == tab
    then put_char ascii k m
    else (k, m)

-- The accent of a dead key is kept, and all else is put out.
unfoldable pub accent_or_echo : ℕ → Keyboard → Machine → Keyboard × Machine
accent_or_echo ascii k m =
    if not k.dead_key && is_accent ascii
    then (record k { dead_key = true; dead_char = ascii }, m)
    else echo_char ascii k m

-- The block for all other keys.
unfoldable pub press_key : ℕ → Keyboard → Machine → Keyboard × Machine
press_key key k m =
    let (ascii, k', m') = combine (ascii_of key k.shift_pressed) k m in accent_or_echo ascii k' m'

unfoldable pub handle_key :
    (key : ℕ) → (pressed : Bool) → Keyboard → Machine → Run (Keyboard × Machine)
handle_key key pressed k m =
    if (key == 0x2A) || (key == 0x36)
    then running (record k { shift_pressed = pressed }, m)
    else if key == 0x1D
    then running (record k { ctrl_pressed = pressed }, m)
    else if key == 0x38
    then running (record k { alt_pressed = pressed }, m)
    else if (key == 0x3A) && pressed
    then running (record k { caps_lock = not k.caps_lock }, m)
    else if (key == 0x45) && pressed
    then running (record k { num_lock = not k.num_lock }, m)
    else if (key == 0x46) && pressed
    then running (record k { scroll_lock = not k.scroll_lock }, m)
    else if (key == 0x1C) && pressed
    then press_enter k m
    else if (key == 0x0E) && pressed
    then running (press_backspace k m)
    else if (key == 0x0F) && pressed
    then running (press_tab k m)
    else if (key == 0x01) && pressed
    then running (press_escape k m)
    else if pressed
    then running (press_key key k m)
    else running (k, m)

-- `keyboard_handler` behind the read: `& 0x7F` is a remainder of a byte, and bit 7 the release.
unfoldable pub handle_scancode : ℕ → Keyboard → Machine → Run (Keyboard × Machine)
handle_scancode scancode k m = handle_key (scancode % 0x80) (ltb scancode 0x80) k m

unfoldable pub keyboard_handler :
    (status answer : ℕ → ℕ) → (fuel reads : ℕ) → Keyboard → Machine → Run (Keyboard × Machine)
keyboard_handler status answer fuel reads k m =
    elim (keyboard_read_scancode status answer fuel reads) [
      | none ↦ diverges
      | some (scancode, reads') ↦ handle_scancode scancode k m
    ]

unfoldable pub keyboard_init : Console → Console
keyboard_init t =
    terminal_writestring (bytes "[INFO] Supported: ç, á, é, í, ó, ú, â, ê, ô, ã, õ, ñ\n")
      (terminal_writestring (bytes "[INFO] Keyboard driver initialized (ABNT2 support)\n") t)
