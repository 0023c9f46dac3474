-- ===== src/Keyboard/Total.antt =====
-- What a key event does to the driver and the shared state.
use zer0s.Prelude.{newline, ℕ, ◌%◌, ◌≡◌, refl, ◌∙◌, arith, Bool, false, store}
use zer0s.Machine.{Machine, Run, running, halted, diverges, Ensures}
use zer0s.Machine.Sound.{IsSound, Ensures-if}
use zer0s.Shell.Total.{shell_handle_command-IsSound}
use zer0s.Keyboard.{
  Keyboard, combine, put_char, echo_char, accent_or_echo, press_key, press_tab, press_backspace,
  press_escape, press_enter, end_line, write, handle_key, handle_scancode,
}
use zer0s.Keyboard.Tables.{ascii_of}
use zer0s.Keyboard.Typing.{
  IsTyping, press_key-IsTyping, press_tab-IsTyping, press_backspace-IsTyping, press_escape-IsTyping,
  cleared-IsTyping,
}

-- Of the shared state, only the console is another one.
abbrev pub OnlyConsole : Machine → Machine → Type 0
OnlyConsole m m' = (m'.frames ≡ m.frames) × (m'.heap ≡ m.heap) × (m'.ports ≡ m.ports)

echo_char-OnlyConsole : (c : ℕ) (k : Keyboard) (m : Machine) → OnlyConsole m (echo_char c k m).1
unfolding echo_char put_char
echo_char-OnlyConsole c k m = ground arith

accent_or_echo-OnlyConsole :
    (c : ℕ) (k : Keyboard) (m : Machine) → OnlyConsole m (accent_or_echo c k m).1
unfolding accent_or_echo
accent_or_echo-OnlyConsole c k m = ground (arith, echo_char-OnlyConsole c k m)

combine-OnlyConsole : (c : ℕ) (k : Keyboard) (m : Machine) → OnlyConsole m (combine c k m).2
unfolding combine
combine-OnlyConsole c k m = ground arith

pub press_key-OnlyConsole :
    (key : ℕ) (k : Keyboard) (m : Machine) → OnlyConsole m (press_key key k m).1
unfolding press_key
press_key-OnlyConsole key k m =
    let first = combine-OnlyConsole (ascii_of key k.shift_pressed) k m in
    let second =
      accent_or_echo-OnlyConsole (combine (ascii_of key k.shift_pressed) k m).0
        (combine (ascii_of key k.shift_pressed) k m).1
        (combine (ascii_of key k.shift_pressed) k m).2 in
    (second.0 ∙ first.0, second.1 ∙ first.1, second.2 ∙ first.2)

pub press_backspace-OnlyConsole :
    (k : Keyboard) (m : Machine) → OnlyConsole m (press_backspace k m).1
unfolding press_backspace
press_backspace-OnlyConsole k m = ground arith

OnlyConsole-IsSound : (m m' : Machine) → OnlyConsole m m' → IsSound m → IsSound m'
OnlyConsole-IsSound m m' only sound = rw (only.0, only.1) sound

-- The driver and the shared state are in order.
abbrev pub IsReady : Keyboard × Machine → Type 0
IsReady s = IsTyping s.0 × IsSound s.1

end_line-IsReady :
    (k : Keyboard) (r : Run Machine)
    → IsTyping k
    → k.dead_key ≡ false
    → Ensures IsSound r
    → Ensures IsReady (end_line k r)
unfolding end_line
end_line-IsReady k (running m) typing no_accent sound = (cleared-IsTyping _ refl no_accent, sound)
end_line-IsReady k (halted m) typing no_accent sound = (typing, sound)
end_line-IsReady k diverges typing no_accent sound = sound

press_enter-IsReady :
    (k : Keyboard) (m : Machine) → IsReady (k, m) → Ensures IsReady (press_enter k m)
unfolding press_enter
press_enter-IsReady k m (typing, sound) =
    let line : Keyboard = record k {
      dead_key = false;
      cmd_buffer = store k.cmd_buffer k.cmd_pos 0;
    } in
    let typing' : IsTyping line = record {
      room = typing.room;
      text = λ i lt. ground (arith, typing.text i lt);
      accent = λ h. cc;
    } in
    end_line-IsReady line _ typing' refl (
      shell_handle_command-IsSound line.cmd_buffer k.cmd_pos (write newline m)
        (omega (arith, typing.room)) (ground arith) sound)

-- A change of the flags alone.
flags-IsReady :
    (k k' : Keyboard) (m : Machine)
    → IsReady (k, m)
    → k'.cmd_buffer ≡ k.cmd_buffer
    → k'.cmd_pos ≡ k.cmd_pos
    → k'.dead_key ≡ k.dead_key
    → k'.dead_char ≡ k.dead_char
    → IsReady (k', m)
flags-IsReady k k' m (typing, sound) b p d c = (
  record {
    room = rw p typing.room;
    text = rw (b, p) typing.text;
    accent = rw (d, c) typing.accent;
  },
  sound,
)

-- From a driver and a shared state that are in order, every scan code is handled to the end: the
-- handler returns, or `reboot` halts it, and both are in order afterwards.
pub handle_scancode-IsReady :
    (scancode : ℕ) (k : Keyboard) (m : Machine)
    → IsReady (k, m)
    → Ensures IsReady (handle_scancode scancode k m)
unfolding handle_scancode handle_key
handle_scancode-IsReady scancode k m (typing, sound) =
    let ready : IsReady (k, m) = (typing, sound) in
    let key = scancode % 128 in
    let pressed : IsReady (press_key key k m) = (
      press_key-IsTyping key m (omega arith) typing,
      OnlyConsole-IsSound m (press_key key k m).1 (press_key-OnlyConsole key k m) sound,
    ) in
    let erased : IsReady (press_backspace k m) = (
      press_backspace-IsTyping m typing,
      OnlyConsole-IsSound m (press_backspace k m).1 (press_backspace-OnlyConsole k m) sound,
    ) in
    let tabbed : IsReady (press_tab k m) =
      (press_tab-IsTyping m typing, unfold press_tab in sound) in
    let escaped : IsReady (press_escape k m) =
      (press_escape-IsTyping k m, unfold press_escape in sound) in
    let flag = λ (k' : Keyboard). flags-IsReady k k' m ready in
    let shift = λ (b : Bool). flag (record k { shift_pressed = b }) refl refl refl refl in
    let ctrl = λ (b : Bool). flag (record k { ctrl_pressed = b }) refl refl refl refl in
    let alt = λ (b : Bool). flag (record k { alt_pressed = b }) refl refl refl refl in
    let caps = λ (b : Bool). flag (record k { caps_lock = b }) refl refl refl refl in
    let num = λ (b : Bool). flag (record k { num_lock = b }) refl refl refl refl in
    let scroll = λ (b : Bool). flag (record k { scroll_lock = b }) refl refl refl refl in
    search
      (
        Ensures-if,
        press_enter-IsReady k m ready,
        pressed,
        erased,
        tabbed,
        escaped,
        ready,
        shift,
        ctrl,
        alt,
        caps,
        num,
        scroll,
      )
      depth 30
