-- ===== src/Keyboard/Accents.antt =====
-- What the driver makes of accents.
use zer0s.Prelude.{
  ℕ, ◌<◌, ◌≡◌, ◌≢◌, inl, inr, refl, ap, ◌∙◌, arith, Bool, true, false, ◌&&◌, ◌||◌, not, ◌==◌, bytes,
  utf8, holds_below, holds_below_lem,
}
use zer0s.Machine.{Machine}
use zer0s.Keyboard.{Keyboard, combine, is_lower, is_accent, echo_char, accent_or_echo, press_key}
use zer0s.Keyboard.Tables.{tab, ascii_of, handle_dead_key}
use zer0s.Keyboard.Typing.{IsTyping, IsAccent, is_printable}

-- The driver takes the character for nothing that it could put out.
abbrev is_lost : ℕ → Bool
is_lost c = not (is_accent c) && not (is_printable c) && not (c == tab)

lost_table :
    holds_below
      (λ c.
        let test = λ (r : ℕ). (r == c) || is_lost r in
        test (handle_dead_key c b'`')
        && test (handle_dead_key c b'^')
        && test (handle_dead_key c b'~'))
      256
    ≡ true
unfolding holds_below handle_dead_key is_accent bytes utf8
lost_table = refl

lost :
    (c d : ℕ)
    → c < 256
    → IsAccent d
    → handle_dead_key c d ≢ c
    → is_lost (handle_dead_key c d) ≡ true
lost c d lt (inl e) ne = ground (arith, e, ne, holds_below_lem _ 256 lost_table c lt)
lost c d lt (inr (inl e)) ne = ground (arith, e, ne, holds_below_lem _ 256 lost_table c lt)
lost c d lt (inr (inr e)) ne = ground (arith, e, ne, holds_below_lem _ 256 lost_table c lt)

accent_or_echo-lost :
    (c : ℕ) (k : Keyboard) (m : Machine) → is_lost c ≡ true → accent_or_echo c k m ≡ (k, m)
unfolding accent_or_echo echo_char
accent_or_echo-lost c k m gone = ground (arith, gone)

combine-composed :
    (c : ℕ) (k : Keyboard) (m : Machine)
    → k.dead_key ≡ true
    → is_lower c ≡ true
    → handle_dead_key c k.dead_char ≢ c
    → combine c k m ≡ (handle_dead_key c k.dead_char, record k { dead_key = false }, m)
unfolding combine
combine-composed c k m pending small composes =
    let letter : (c == 0) ≡ false = ground (arith, small) in
    let other : (handle_dead_key c k.dead_char == c) ≡ false = ground (arith, composes) in
    ground (arith, pending, small, letter, other)

-- A small letter that composes with the pending accent is lost: neither the line nor the screen
-- changes, and the accent is no longer pending.
pub press_key-composed :
    (key : ℕ) (k : Keyboard) (m : Machine)
    → IsTyping k
    → k.dead_key ≡ true
    → is_lower (ascii_of key k.shift_pressed) ≡ true
    → handle_dead_key (ascii_of key k.shift_pressed) k.dead_char ≢ ascii_of key k.shift_pressed
    → press_key key k m ≡ (record k { dead_key = false }, m)
unfolding press_key
press_key-composed key k m typing pending small composes =
    let c = ascii_of key k.shift_pressed in
    let made = combine-composed c k m pending small composes in
    let gone = lost c k.dead_char (ground (arith, small)) (typing.accent pending) composes in
    ap (λ (s : ℕ × Keyboard × Machine). accent_or_echo s.0 s.1 s.2) made
    ∙ accent_or_echo-lost _ (record k { dead_key = false }) m gone

acute_sign : (shift : Bool) → shift ≡ false → ascii_of 0x2D shift ≡ 0xB4
unfolding ascii_of bytes utf8
acute_sign shift e = rw e refl

combine-acute : (k : Keyboard) (m : Machine) → combine 0xB4 k m ≡ (0xB4, k, m)
unfolding combine
combine-acute k m = ground arith

acute_lost : is_lost 0xB4 ≡ true
unfolding is_accent bytes utf8
acute_lost = refl

-- The key of the acute accent, without a shift key, does nothing.
pub press_key-acute :
    (k : Keyboard) (m : Machine) → k.shift_pressed ≡ false → press_key 0x2D k m ≡ (k, m)
unfolding press_key
press_key-acute k m shift =
    let first : combine (ascii_of 0x2D k.shift_pressed) k m ≡ (0xB4, k, m) =
      ap (λ (c : ℕ). combine c k m) (acute_sign k.shift_pressed shift) ∙ combine-acute k m in
    ap (λ (s : ℕ × Keyboard × Machine). accent_or_echo s.0 s.1 s.2) first
    ∙ accent_or_echo-lost 0xB4 k m acute_lost
