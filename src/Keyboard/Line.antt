-- ===== src/Keyboard/Line.antt =====
-- The keys that put out a character of their own.
use zer0s.Prelude.{
  ℕ, ◌+◌, ◌%◌, ◌<◌, ◌≡◌, refl, arith, Bool, true, false, ◌&&◌, ◌||◌, not, ltb, leb, lt→ltb, ◌==◌,
  store, bytes, utf8, holds_below, holds_below_lem,
}
use zer0s.Machine.{Machine, running}
use zer0s.Keyboard.{
  Keyboard, combine, is_accent, put_char, echo_char, accent_or_echo, press_key, write, handle_key,
  handle_scancode,
}
use zer0s.Keyboard.Tables.{ascii_of}
use zer0s.Keyboard.Typing.{is_printable}

-- The keys that have a block of their own in the handler.
abbrev is_special : ℕ → Bool
is_special key =
    (key == 0x2A)
    || (key == 0x36)
    || (key == 0x1D)
    || (key == 0x38)
    || (key == 0x3A)
    || (key == 0x45)
    || (key == 0x46)
    || (key == 0x1C)
    || (key == 0x0E)
    || (key == 0x0F)
    || (key == 0x01)

-- A key that puts out a printable character which is no accent, without a shift key.
abbrev pub is_plain : ℕ → Bool
is_plain key =
    ltb key 128 && is_printable (ascii_of key false) && not (is_accent (ascii_of key false))

plain_table : holds_below (λ key. not (is_plain key) || not (is_special key)) 128 ≡ true
unfolding holds_below ascii_of is_accent bytes utf8
plain_table = refl

plain_no_special : (key : ℕ) → is_plain key ≡ true → is_special key ≡ false
plain_no_special key plain = ground (arith, holds_below_lem _ 128 plain_table key (ground arith))

-- No character is pending, and letters are small.
pub record IsPlain (k : Keyboard) : Type 0 where
  pub shift : k.shift_pressed ≡ false
  pub caps : k.caps_lock ≡ false
  pub accent : k.dead_key ≡ false

unfoldable pub type_char : ℕ → Keyboard → Keyboard
type_char c k = record k { cmd_buffer = store k.cmd_buffer k.cmd_pos c; cmd_pos = k.cmd_pos + 1 }

put_char-room :
    (c : ℕ) (k : Keyboard) (m : Machine)
    → k.cmd_pos < 255
    → put_char c k m ≡ (type_char c k, write c m)
unfolding put_char type_char
put_char-room c k m room = rw (lt→ltb k.cmd_pos 255 room) refl

echo_char-plain :
    (c : ℕ) (k : Keyboard) (m : Machine)
    → is_printable c ≡ true
    → k.caps_lock ≡ false
    → k.cmd_pos < 255
    → echo_char c k m ≡ (type_char c k, write c m)
unfolding echo_char
echo_char-plain c k m printable caps room =
    let nonzero : (c == 0) ≡ false = ground (arith, printable) in
    let low : leb b' ' c ≡ true = ground (arith, printable) in
    let high : leb c b'~' ≡ true = ground (arith, printable) in
    simp (nonzero, low, high, caps) (put_char-room c k m room)

pub press_key-plain :
    (key : ℕ) (k : Keyboard) (m : Machine)
    → is_plain key ≡ true
    → IsPlain k
    → k.cmd_pos < 255
    → press_key key k m ≡ (type_char (ascii_of key false) k, write (ascii_of key false) m)
unfolding press_key combine accent_or_echo
press_key-plain key k m plain idle room =
    let accent : is_accent (ascii_of key false) ≡ false = ground (arith, plain) in
    simp (idle.shift, idle.accent, accent)
      (echo_char-plain (ascii_of key false) k m (ground (arith, plain)) idle.caps room)

pub handle_scancode-plain :
    (key : ℕ) (k : Keyboard) (m : Machine)
    → is_plain key ≡ true
    → handle_scancode key k m ≡ running (press_key key k m)
unfolding handle_scancode handle_key
handle_scancode-plain key k m plain =
    let same : key % 128 ≡ key = ground (arith, plain) in
    let down : ltb key 128 ≡ true = ground (arith, plain) in
    let ordinary = plain_no_special key plain in
    let n1 : (key == 0x2A) ≡ false = ground (arith, ordinary) in
    let n2 : (key == 0x36) ≡ false = ground (arith, ordinary) in
    let n3 : (key == 0x1D) ≡ false = ground (arith, ordinary) in
    let n4 : (key == 0x38) ≡ false = ground (arith, ordinary) in
    let n5 : (key == 0x3A) ≡ false = ground (arith, ordinary) in
    let n6 : (key == 0x45) ≡ false = ground (arith, ordinary) in
    let n7 : (key == 0x46) ≡ false = ground (arith, ordinary) in
    let n8 : (key == 0x1C) ≡ false = ground (arith, ordinary) in
    let n9 : (key == 0x0E) ≡ false = ground (arith, ordinary) in
    let n10 : (key == 0x0F) ≡ false = ground (arith, ordinary) in
    let n11 : (key == 0x01) ≡ false = ground (arith, ordinary) in
    rw (same, down, n1, n2, n3, n4, n5, n6, n7, n8, n9, n10, n11) refl
