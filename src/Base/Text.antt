-- ===== src/Base/Text.antt =====
-- The functions of Go's `strings`, `strconv` and `encoding/hex` that the program calls, over native
-- texts. Case mappings are written out where a mapped character can reach an ASCII letter: the
-- program only compares mapped texts with ASCII words.
pub mod Numbers
use Prim.Native.Char.{Char, code}
use Prim.Native.String
use Prim.Native.String.{◌++◌}
use container_provisioner_k.Base.{
  ℕ, zero, suc, ◌-◌, ◌/◌, ◌%◌, String, Bool, true, ◌&&◌, ◌||◌, List, [], ◌∷◌, ltb, leb, ◌==◌,
  if◌then◌else◌, ◌≡◌, refl, nat_eq, string_eq,
}
use container_provisioner_k.Base.Int.{ℤ, pos, negsuc}
use text.Mathlib.Text.{starts_with as begins_with}

-- The `n`-th character of a table, or a default.
nth_char : ℕ → String → Char → Char
nth_char n String.[] d = d
nth_char zero (String.◌∷◌ c s) d = c
nth_char (suc n) (String.◌∷◌ c s) d = nth_char n s d

map_chars : (Char → Char) → String → String
map_chars f String.[] = String.[]
map_chars f (String.◌∷◌ c s) = String.◌∷◌ (f c) (map_chars f s)

-- U+017F and U+0131 are the two characters outside ASCII whose upper case is in ASCII.
upper_char : Char → Char
unfolding nth_char
upper_char c =
    let n = code c in
    if leb 97 n && leb n 122
    then nth_char (n - 97) "ABCDEFGHIJKLMNOPQRSTUVWXYZ" c
    else if n == 0x17f
    then "S"
    else if n == 0x131
    then "I"
    else c

-- U+212A and U+0130 are the two characters outside ASCII whose lower case is in ASCII.
lower_char : Char → Char
unfolding nth_char
lower_char c =
    let n = code c in
    if leb 65 n && leb n 90
    then nth_char (n - 65) "abcdefghijklmnopqrstuvwxyz" c
    else if n == 0x212a
    then "k"
    else if n == 0x130
    then "i"
    else c

-- strings.ToUpper
unfoldable pub to_upper : String → String
unfolding map_chars upper_char
to_upper = map_chars upper_char

-- strings.ToLower
unfoldable pub to_lower : String → String
unfolding map_chars lower_char
to_lower = map_chars lower_char

-- unicode.IsSpace
is_space : Char → Bool
is_space c =
    let n = code c in
    (leb 9 n && leb n 13)
    || n == 32
    || n == 0x85
    || n == 0xa0
    || n == 0x1680
    || (leb 0x2000 n && leb n 0x200a)
    || n == 0x2028
    || n == 0x2029
    || n == 0x202f
    || n == 0x205f
    || n == 0x3000

trim_left : String → String
trim_left String.[] = String.[]
trim_left (String.◌∷◌ c s) = let rest = trim_left s in if is_space c then rest else String.◌∷◌ c s

-- Drops a character from the end while only spaces follow it.
trim_right : String → String
trim_right String.[] = String.[]
trim_right (String.◌∷◌ c s) =
    let rest = trim_right s in if is_space c && rest == "" then String.[] else String.◌∷◌ c rest

-- strings.TrimSpace
unfoldable pub trim_space : String → String
unfolding trim_left trim_right is_space
trim_space s = trim_right (trim_left s)

-- strings.Contains
unfoldable pub contains : String → String → Bool
contains String.[] t = t == ""
contains (String.◌∷◌ c s) t = begins_with (String.◌∷◌ c s) t || contains s t

-- The bytes of a text: Go's `len`.
abbrev pub byte_len : String → ℕ
byte_len s = String.len s

-- Go's `s[:n]` for `n ≤ len(s)`, less a character that the cut would split: Go keeps its first bytes.
abbrev pub byte_prefix : ℕ → String → String
byte_prefix n s = String.slice s 0 n

digits : ℕ → ℕ → String → String
digits zero n out = out
digits (suc f) n out =
    let c = nth_char (n % 10) "0123456789" "0" in
    let more = digits f (n / 10) (String.◌∷◌ c out) in if ltb n 10 then String.◌∷◌ c out else more

-- strconv.Itoa of a number that is not negative: `n` has at most `n + 1` digits.
unfoldable pub itoa : ℕ → String
unfolding digits nth_char
itoa n = digits (suc n) n ""

-- `%d` and strconv.FormatInt at base 10
unfoldable pub format_int : ℤ → String
unfolding itoa
format_int (pos n) = itoa n
format_int (negsuc n) = "-" ++ itoa (suc n)

-- hex.EncodeToString
unfoldable pub hex_encode : List ℕ → String
unfolding nth_char
hex_encode [] = ""
hex_encode (b ∷ bs) =
    String.◌∷◌ (nth_char (b / 16) "0123456789abcdef" "0")
      (String.◌∷◌ (nth_char (b % 16) "0123456789abcdef" "0") (hex_encode bs))

trim_test : trim_space "  tcp \n" ≡ "tcp"
unfolding trim_space
trim_test = refl

upper_test : to_upper "udp4" ≡ "UDP4"
unfolding to_upper
upper_test = refl

itoa_test : itoa 65535 ≡ "65535"
unfolding itoa
itoa_test = refl

contains_test : contains "pods: exceeded quota" "exceeded quota" ≡ true
unfolding contains
contains_test = refl

hex_test : hex_encode (255 ∷ 1 ∷ []) ≡ "ff01"
unfolding hex_encode
hex_test = refl
