-- ===== src/Keyboard/Tables.antt =====
-- The characters of kernel/arch/x86_64/keyboard.c: scan code tables and accents.
use Prim.Native.String.{String}
use zer0s.Prelude.{
  ℕ, ◌+◌, ◌*◌, Bool, ◌||◌, List, [], ◌∷◌, ◌++◌, ◌==◌, if◌then◌else◌, get_or, replicate, u8,
  sign_extend, newline, backspace, bytes,
}

abbrev pub tab : ℕ
tab = 0x09

-- The `int` that gcc makes of a character constant: its bytes in the UTF-8 of the source, the first
-- one highest. Kept in a `char`, only the lowest byte is left.
unfoldable pub constant : String → ℕ
constant s = value 0 (bytes s)
  where
    value : ℕ → List ℕ → ℕ
    value acc [] = acc
    value acc (b ∷ bs) = value (acc * 256 + b) bs

-- `c == '…'` for a `char`, which is widened with its sign.
unfoldable pub char_is : ℕ → String → Bool
unfolding constant
char_is c s = sign_extend 32 c == constant s

-- The entries that the initialisers leave out are 0.
unfoldable pub scancode_normal : List ℕ
scancode_normal =
    0 ∷ 0 ∷ bytes "1234567890-="
    ++ (backspace ∷ tab ∷ bytes "qwertyuiop[]"
        ++ (newline ∷ 0 ∷ bytes "asdfghjkl;'`"
            ++ (0 ∷ bytes "\\zxcvbnm,./" ++ (0 ∷ 0 ∷ 0 ∷ b' ' ∷ []))))

unfoldable pub scancode_shift : List ℕ
unfolding constant
scancode_shift =
    0 ∷ 0 ∷ bytes "!@#$%"
    ++ (u8 (constant "¨") ∷ bytes "&*()_+"
        ++ (backspace ∷ tab ∷ bytes "QWERTYUIOP{}"
            ++ (newline ∷ 0 ∷ bytes "ASDFGHJKL:\"~"
                ++ (0 ∷ bytes "|ZXCVBNM<>?" ++ (0 ∷ 0 ∷ 0 ∷ b' ' ∷ [])))))

unfoldable pub scancode_abnt2_normal : List ℕ
unfolding constant
scancode_abnt2_normal =
    replicate 0x27 0 ++ (u8 (constant "ç") ∷ 0 ∷ b'~' ∷ 0 ∷ 0 ∷ b'^' ∷ u8 (constant "´") ∷ [])

unfoldable pub scancode_abnt2_shift : List ℕ
unfolding constant
scancode_abnt2_shift = replicate 0x27 0 ++ (u8 (constant "Ç") ∷ 0 ∷ b'^' ∷ 0 ∷ 0 ∷ b'~' ∷ b'`' ∷ [])

unfoldable pub acute : List (ℕ × ℕ)
unfolding constant
acute =
    (b'a', u8 (constant "á"))
    ∷ (b'e', u8 (constant "é"))
    ∷ (b'i', u8 (constant "í"))
    ∷ (b'o', u8 (constant "ó"))
    ∷ (b'u', u8 (constant "ú"))
    ∷ (b'A', u8 (constant "Á"))
    ∷ (b'E', u8 (constant "É"))
    ∷ (b'I', u8 (constant "Í"))
    ∷ (b'O', u8 (constant "Ó"))
    ∷ (b'U', u8 (constant "Ú"))
    ∷ []

unfoldable pub grave : List (ℕ × ℕ)
unfolding constant
grave =
    (b'a', u8 (constant "à"))
    ∷ (b'e', u8 (constant "è"))
    ∷ (b'i', u8 (constant "ì"))
    ∷ (b'o', u8 (constant "ò"))
    ∷ (b'u', u8 (constant "ù"))
    ∷ (b'A', u8 (constant "À"))
    ∷ (b'E', u8 (constant "È"))
    ∷ (b'I', u8 (constant "Ì"))
    ∷ (b'O', u8 (constant "Ò"))
    ∷ (b'U', u8 (constant "Ù"))
    ∷ []

unfoldable pub circumflex : List (ℕ × ℕ)
unfolding constant
circumflex =
    (b'a', u8 (constant "â"))
    ∷ (b'e', u8 (constant "ê"))
    ∷ (b'i', u8 (constant "î"))
    ∷ (b'o', u8 (constant "ô"))
    ∷ (b'u', u8 (constant "û"))
    ∷ (b'A', u8 (constant "Â"))
    ∷ (b'E', u8 (constant "Ê"))
    ∷ (b'I', u8 (constant "Î"))
    ∷ (b'O', u8 (constant "Ô"))
    ∷ (b'U', u8 (constant "Û"))
    ∷ []

unfoldable pub tilde : List (ℕ × ℕ)
unfolding constant
tilde =
    (b'a', u8 (constant "ã"))
    ∷ (b'n', u8 (constant "ñ"))
    ∷ (b'o', u8 (constant "õ"))
    ∷ (b'A', u8 (constant "Ã"))
    ∷ (b'N', u8 (constant "Ñ"))
    ∷ (b'O', u8 (constant "Õ"))
    ∷ []

-- The chain of comparisons with the base character.
unfoldable pub compose : List (ℕ × ℕ) → ℕ → ℕ
compose [] base_char = base_char
compose ((c, accented) ∷ rest) base_char =
    let other = compose rest base_char in if base_char == c then accented else other

unfoldable pub handle_dead_key : (base_char accent : ℕ) → ℕ
unfolding char_is compose acute grave circumflex tilde
handle_dead_key base_char accent =
    if char_is accent "´"
    then compose acute base_char
    else if char_is accent "`"
    then compose grave base_char
    else if char_is accent "^"
    then compose circumflex base_char
    else if char_is accent "~"
    then compose tilde base_char
    else base_char

-- The character of a key, with the four keys of the ABNT2 layout looked up in tables of their own.
unfoldable pub ascii_of : (key : ℕ) → (shift : Bool) → ℕ
unfolding scancode_normal scancode_shift scancode_abnt2_normal scancode_abnt2_shift
ascii_of key shift =
    if (key == 0x27) || (key == 0x29) || (key == 0x2C) || (key == 0x2D)
    then get_or (if shift then scancode_abnt2_shift else scancode_abnt2_normal) key 0
    else get_or (if shift then scancode_shift else scancode_normal) key 0
