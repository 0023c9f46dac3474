-- ===== src/Keyboard/Typing.antt =====
-- Which characters reach the command buffer.
use native.Mathlib.Decide.{ℕ_discrete}
use zer0s.Prelude.{
  ℕ, ◌+◌, ◌-◌, ◌≤◌, ◌<◌, ◌≡◌, ◌≢◌, ◌⊎◌, inl, inr, refl, arith, Bool, Bool-cases, true, false, ◌&&◌,
  ◌||◌, not, ltb, leb, ◌==◌, if◌then◌else◌, bytes, utf8, holds_below, holds_below_lem,
}
use zer0s.Machine.{Machine}
use zer0s.Keyboard.{
  Keyboard, append_char, combine, is_lower, is_accent, put_char, echo_char, accent_or_echo,
  press_key, press_tab, press_backspace, press_escape,
}
use zer0s.Keyboard.Tables.{tab, ascii_of, handle_dead_key}

abbrev pub is_printable : ℕ → Bool
is_printable c = leb b' ' c && leb c b'~'

-- The characters that some key puts out: the tab, and the printable ones but `;`, `:`, `x`, `X`,
-- `z` and `Z`.
abbrev pub is_typeable : ℕ → Bool
is_typeable c =
    (c == tab)
    || is_printable c
      && not (c == b';')
      && not (c == b':')
      && not (c == b'x')
      && not (c == b'X')
      && not (c == b'z')
      && not (c == b'Z')

abbrev pub IsAccent : ℕ → Type 0
IsAccent c = (c ≡ b'`') ⊎ ((c ≡ b'^') ⊎ (c ≡ b'~'))

-- The command buffer holds typeable characters, of which there are at most 255, and a pending dead
-- key is one of the three accents that the driver knows as such.
pub record IsTyping (k : Keyboard) : Type 0 where
  pub room : k.cmd_pos ≤ 255
  pub text : (i : ℕ) → i < k.cmd_pos → is_typeable (k.cmd_buffer i) ≡ true
  pub accent : k.dead_key ≡ true → IsAccent k.dead_char

-- What a key means, for all keys.
key_table :
    holds_below
      (λ key.
        let c = ascii_of key false in
        let d = ascii_of key true in
        (not (is_printable c) || is_typeable c) && (not (is_printable d) || is_typeable d))
      128
    ≡ true
unfolding holds_below ascii_of bytes utf8
key_table = refl

-- An accent and a character make that character, or one that is not printable.
accent_table :
    holds_below
      (λ c.
        let test = λ (r : ℕ). (r == c) || not (is_printable r) && not (r == tab) in
        test (handle_dead_key c b'`')
        && test (handle_dead_key c b'^')
        && test (handle_dead_key c b'~'))
      256
    ≡ true
unfolding holds_below handle_dead_key bytes utf8
accent_table = refl

abbrev IsTypeable : ℕ → Type 0
IsTypeable c = is_printable c ≡ true → is_typeable c ≡ true

ascii_of-IsTypeable : (key : ℕ) (shift : Bool) → key < 128 → IsTypeable (ascii_of key shift)
ascii_of-IsTypeable key true lt p = ground (arith, holds_below_lem _ 128 key_table key lt)
ascii_of-IsTypeable key false lt p = ground (arith, holds_below_lem _ 128 key_table key lt)

composed :
    (c d : ℕ)
    → c < 256
    → IsAccent d
    → (handle_dead_key c d ≡ c)
      ⊎ ((is_printable (handle_dead_key c d) ≡ false) × (handle_dead_key c d ≢ tab))
composed c d lt (inl e) = rw e (ground (arith, holds_below_lem _ 256 accent_table c lt))
composed c d lt (inr (inl e)) = rw e (ground (arith, holds_below_lem _ 256 accent_table c lt))
composed c d lt (inr (inr e)) = rw e (ground (arith, holds_below_lem _ 256 accent_table c lt))

accent_typeable : (d : ℕ) → IsAccent d → is_typeable d ≡ true
accent_typeable d h = ground arith

is_accent-IsAccent : (c : ℕ) → is_accent c ≡ true → IsAccent c
unfolding is_accent bytes utf8
is_accent-IsAccent c h = ground arith

append_char-IsTyping :
    (c : ℕ) {k : Keyboard} → IsTyping k → is_typeable c ≡ true → IsTyping (append_char c k)
unfolding append_char
append_char-IsTyping c {k} is typeable = elim (Bool-cases (ltb k.cmd_pos 255)) [
  | inr full ↦ rw full is
  | inl room ↦ rw room (record {
    room = ground arith;
    text = λ i lt. elim (ℕ_discrete k.cmd_pos i) [
      | yes e ↦ ground arith
      | no ne ↦ ground (arith, is.text i (omega arith))
    ];
    accent = is.accent;
  })
]

put_char-IsTyping :
    (c : ℕ) {k : Keyboard} (m : Machine)
    → IsTyping k
    → is_typeable c ≡ true
    → IsTyping (put_char c k m).0
unfolding put_char
put_char-IsTyping c {k} m is typeable = elim (Bool-cases (ltb k.cmd_pos 255)) [
  | inr full ↦ rw full is
  | inl room ↦ rw room (unfold append_char in (rw room at (append_char-IsTyping c is typeable)))
]

-- Caps lock makes a typeable letter a typeable capital.
caps_typeable :
    (c : ℕ) (a b : Bool)
    → is_typeable c ≡ true
    → is_typeable (if a && b && is_lower c then c - b'a' + b'A' else c) ≡ true
caps_typeable c a b h = ground arith

echo_char-IsTyping :
    (c : ℕ) {k : Keyboard} (m : Machine) → IsTyping k → IsTypeable c → IsTyping (echo_char c k m).0
unfolding echo_char
echo_char-IsTyping c {k} m is typeable =
    elim (Bool-cases (not (c == 0) && leb b' ' c && leb c b'~')) [
      | inl printable ↦
          let fine : is_typeable c ≡ true = typeable (ground arith) in
          rw printable
            (put_char-IsTyping _ m is (caps_typeable c k.caps_lock (not k.shift_pressed) fine))
      | inr other ↦ elim (Bool-cases (c == tab)) [
        | inl is_tab ↦ rw (other, is_tab) (put_char-IsTyping c m is (ground arith))
        | inr no_tab ↦ rw (other, no_tab) is
      ]
    ]

accent_or_echo-IsTyping :
    (c : ℕ) {k : Keyboard} (m : Machine)
    → IsTyping k
    → IsTypeable c
    → IsTyping (accent_or_echo c k m).0
unfolding accent_or_echo
accent_or_echo-IsTyping c {k} m is typeable = elim (Bool-cases (not k.dead_key && is_accent c)) [
  | inl h ↦
      rw h (record {
        room = is.room;
        text = is.text;
        accent = λ t. is_accent-IsAccent c (ground arith);
      })
  | inr h ↦ rw h (echo_char-IsTyping c m is typeable)
]

released : {k : Keyboard} → IsTyping k → IsTyping (record k { dead_key = false })
released is = record { room = is.room; text = is.text; accent = λ h. cc }

combine-IsTyping :
    (c : ℕ) {k : Keyboard} (m : Machine)
    → IsTyping k
    → IsTypeable c
    → IsTyping (combine c k m).1 × IsTypeable (combine c k m).0
unfolding combine
combine-IsTyping c {k} m is typeable =
    elim (Bool-cases (k.dead_key && not (c == 0) && is_lower c)) [
      | inr plain ↦ rw plain (is, typeable)
      | inl letter ↦
          let accent = is.accent (ground arith) in
          elim (composed c k.dead_char (ground arith) accent) [
            | inl same ↦
                let eq : (handle_dead_key c k.dead_char == c) ≡ true = ground arith in
                rw (letter, eq)
                  (
                    released (append_char-IsTyping k.dead_char is (accent_typeable _ accent)),
                    typeable,
                  )
            | inr (hidden, no_tab) ↦
                let eq : (handle_dead_key c k.dead_char == c) ≡ false = ground arith in
                rw (letter, eq) (released is, λ p. ground arith)
          ]
    ]

pub press_key-IsTyping :
    (key : ℕ) {k : Keyboard} (m : Machine) → key < 128 → IsTyping k → IsTyping (press_key key k m).0
unfolding press_key
press_key-IsTyping key {k} m lt is =
    let (is', typeable) = combine-IsTyping _ m is (ascii_of-IsTypeable key k.shift_pressed lt) in
    accent_or_echo-IsTyping _ _ is' typeable

pub press_backspace-IsTyping :
    {k : Keyboard} (m : Machine) → IsTyping k → IsTyping (press_backspace k m).0
unfolding press_backspace
press_backspace-IsTyping {k} m is = elim (Bool-cases (ltb 0 k.cmd_pos)) [
  | inl some_left ↦ rw some_left (record {
    room = omega (arith, is.room);
    text = λ i lt. is.text i (omega arith);
    accent = λ h. cc;
  })
  | inr none_left ↦ rw none_left (released is)
]

pub press_tab-IsTyping : {k : Keyboard} (m : Machine) → IsTyping k → IsTyping (press_tab k m).0
unfolding press_tab
press_tab-IsTyping m is = append_char-IsTyping tab (released is) refl

-- An empty line.
pub cleared-IsTyping : (k : Keyboard) → k.cmd_pos ≡ 0 → k.dead_key ≡ false → IsTyping k
cleared-IsTyping k e d = record {
  room = omega arith;
  text = λ i lt. absurd (omega arith);
  accent = λ h. ground arith;
}

pub press_escape-IsTyping : (k : Keyboard) (m : Machine) → IsTyping (press_escape k m).0
unfolding press_escape
press_escape-IsTyping k m = cleared-IsTyping _ refl refl
