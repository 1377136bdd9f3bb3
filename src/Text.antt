-- ===== src/Text.antt =====
-- What vmsim/ui_app.c uses of C's strings: `strtok`, `sscanf` and `strcmp`. A string is the list of its
-- bytes, without the byte 0 at its end.
pub mod Decimal
use Prim.Native.Char.{code}
use Prim.Native.String.{String}
use vmsim.Prelude.{
  ℕ, zero, suc, ◌+◌, ◌-◌, ◌*◌, ◌%◌, ◌^◌, Bool, true, false, ◌&&◌, ◌||◌, not, Option, none, some,
  List, [], ◌∷◌, ◌==◌, if◌then◌else◌, ltb, leb,
}

-- the bytes of a literal
abbrev pub codes : String → List ℕ
codes String.[] = []
codes (String.◌∷◌ c s) = code c ∷ codes s

-- `!strcmp(s, t)`
unfoldable pub same_text : List ℕ → List ℕ → Bool
same_text [] [] = true
same_text [] (d ∷ t) = false
same_text (c ∷ s) [] = false
same_text (c ∷ s) (d ∷ t) = (c == d) && same_text s t

-- `isspace`
unfoldable pub is_space : ℕ → Bool
is_space c = (c == b' ') || (leb 9 c && leb c 13)

unfoldable pub is_digit : ℕ → Bool
is_digit c = leb b'0' c && leb c b'9'

unfoldable pub skip_space : List ℕ → List ℕ
skip_space [] = []
skip_space (c ∷ s) = if is_space c then skip_space s else c ∷ s

-- the value of the digits at the front
unfoldable pub read_digits : ℕ → List ℕ → ℕ
read_digits acc [] = acc
read_digits acc (c ∷ s) =
    let rest = read_digits (acc * 10 + (c - b'0')) s in if is_digit c then rest else acc

-- the conversion by `strtoul` on 64 bits, stored in an `unsigned`
unfoldable pub to_unsigned : Bool → ℕ → ℕ
to_unsigned negative v =
    if ltb v (2 ^ 64) then (if negative then (2 ^ 64 - v) % 2 ^ 32 else v % 2 ^ 32) else 2 ^ 32 - 1

unfoldable pub scan_digits : Bool → List ℕ → Option ℕ
scan_digits negative [] = none
scan_digits negative (c ∷ s) =
    if is_digit c then some (to_unsigned negative (read_digits 0 (c ∷ s))) else none

unfoldable pub scan_sign : List ℕ → Option ℕ
scan_sign [] = none
scan_sign (c ∷ s) =
    if c == b'-'
    then scan_digits true s
    else if c == b'+'
    then scan_digits false s
    else scan_digits false (c ∷ s)

-- `sscanf(s, " %u ", &n)`; `none` if it stores nothing
unfoldable pub scan_unsigned : List ℕ → Option ℕ
scan_unsigned s = scan_sign (skip_space s)

-- the word at the front, up to `limit` bytes
unfoldable pub word_of : ℕ → List ℕ → List ℕ
word_of zero s = []
word_of (suc limit) [] = []
word_of (suc limit) (c ∷ s) = if is_space c then [] else c ∷ word_of limit s

-- a token with what follows the space that ends it
abbrev pub Token : Type 0
Token = List ℕ × List ℕ

-- the bytes up to the next space, and those after it
unfoldable pub split_space : List ℕ → Token
split_space [] = ([], [])
split_space (c ∷ s) =
    let rest = split_space s in if c == b' ' then ([], s) else (c ∷ rest.0, rest.1)

-- `strtok(s, " ")`, or `strtok(NULL, " ")` on what the last token left
unfoldable pub strtok : List ℕ → Option Token
strtok [] = none
strtok (c ∷ s) = if c == b' ' then strtok s else some (split_space (c ∷ s))
