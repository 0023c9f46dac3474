-- ===== src/Keyboard/Tests.antt =====
-- Runs of the keyboard driver.
use zer0s.Prelude.{◌≡◌, refl, arith, false, true, bytes, utf8}
use zer0s.Keyboard.{Keyboard}
use zer0s.Keyboard.Tables.{ascii_of, handle_dead_key}
use zer0s.Keyboard.Typing.{IsTyping}

abbrev idle : Keyboard
idle = record {
  shift_pressed = false;
  ctrl_pressed = false;
  alt_pressed = false;
  caps_lock = false;
  num_lock = false;
  scroll_lock = false;
  dead_key = false;
  dead_char = 0;
  cmd_buffer = λ i. 0;
  cmd_pos = 0;
}

-- The tilde is pending.
abbrev pending : Keyboard
pending = record idle { dead_key = true; dead_char = b'~' }

pending-IsTyping : IsTyping pending
pending-IsTyping = record {
  room = omega arith;
  text = λ i lt. ground arith;
  accent = λ h. ground arith;
}

letter : ascii_of 0x23 false ≡ b'h'
unfolding ascii_of bytes utf8
letter = refl

shifted : ascii_of 0x08 true ≡ b'&'
unfolding ascii_of bytes utf8
shifted = refl

-- The last byte of the two that stand for ñ.
tilde_on_n : handle_dead_key b'n' b'~' ≡ 0xB1
unfolding handle_dead_key bytes utf8
tilde_on_n = refl
