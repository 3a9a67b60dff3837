-- ===== src/Base/Text/Numbers.antt =====
-- Go's `strconv.ParseInt(s, 10, 64)`, `strconv.Atoi` and `strconv.ParseBool`; reading a printed number.
use Prim.Native.Char.{Char, code}
use Prim.Native.String.{◌++◌}
use text.Mathlib.TextLemmas.{cons-append, nil-append, cons-ne-nil}
use container_provisioner_k.Base.{
  ℕ, zero, suc, ◌+◌, ◌-◌, ◌*◌, ◌/◌, ◌%◌, ◌^◌, ◌<◌, String, Bool, true, false, ◌&&◌, ◌||◌, Option,
  none, some, leb, ltb, if◌then◌else◌, ◌≡◌, ◌≢◌, refl, ap, ◌∙◌, arith, Bool-cases, inl, inr, ◌==◌,
  nat_eq, string_eq, eq_iff,
}
use container_provisioner_k.Base.Int.{ℤ, pos, negsuc}
use container_provisioner_k.Base.Text.{itoa, format_int, nth_char, digits}

abbrev digit_value : Char → Option ℕ
digit_value c = if leb 48 (code c) && leb (code c) 57 then some (code c - 48) else none

-- The number that is read, digit by digit, after `n`.
unfoldable pub parse_digits : ℕ → String → Option ℕ
parse_digits n String.[] = some n
parse_digits n (String.◌∷◌ c s) = elim (digit_value c) [
  | none ↦ none
  | some d ↦ parse_digits (n * 10 + d) s
]

abbrev positive : Option ℕ → Option ℤ
positive none = none
positive (some n) = if ltb n (2 ^ 63) then some (pos n) else none

abbrev negative : Option ℕ → Option ℤ
negative none = none
negative (some zero) = some (pos 0)
negative (some (suc n)) = if ltb n (2 ^ 63) then some (negsuc n) else none

abbrev unsigned : String → Option ℕ
unsigned s = if s == "" then none else parse_digits 0 s

-- strconv.ParseInt(s, 10, 64) and strconv.Atoi, where int has 64 bits; `none` is an error.
unfoldable pub parse_int64 : String → Option ℤ
unfolding parse_digits
parse_int64 String.[] = none
parse_int64 (String.◌∷◌ c s) =
    if code c == 45
    then negative (unsigned s)
    else if code c == 43
    then positive (unsigned s)
    else positive (parse_digits 0 (String.◌∷◌ c s))

-- strconv.ParseBool
unfoldable pub parse_bool : String → Option Bool
parse_bool s =
    if s == "1" || s == "t" || s == "T" || s == "TRUE" || s == "true" || s == "True"
    then some true
    else if s == "0" || s == "f" || s == "F" || s == "FALSE" || s == "false" || s == "False"
    then some false
    else none

digit_char : (d : ℕ) → d < 10 → code (nth_char d "0123456789" "0") ≡ 48 + d
unfolding nth_char
digit_char zero h = refl
digit_char (suc zero) h = refl
digit_char (suc (suc zero)) h = refl
digit_char (suc (suc (suc zero))) h = refl
digit_char (suc (suc (suc (suc zero)))) h = refl
digit_char (suc (suc (suc (suc (suc zero))))) h = refl
digit_char (suc (suc (suc (suc (suc (suc zero)))))) h = refl
digit_char (suc (suc (suc (suc (suc (suc (suc zero))))))) h = refl
digit_char (suc (suc (suc (suc (suc (suc (suc (suc zero)))))))) h = refl
digit_char (suc (suc (suc (suc (suc (suc (suc (suc (suc zero))))))))) h = refl
digit_char (suc (suc (suc (suc (suc (suc (suc (suc (suc (suc d)))))))))) h = absurd (omega arith)

digit_value-digit : (d : ℕ) → d < 10 → digit_value (nth_char d "0123456789" "0") ≡ some d
digit_value-digit d h = ground (arith, digit_char d h)

parse_digits-digit :
    (m d : ℕ) (rest : String)
    → d < 10
    → parse_digits m (String.◌∷◌ (nth_char d "0123456789" "0") rest)
      ≡ parse_digits (m * 10 + d) rest
unfolding parse_digits
parse_digits-digit m d rest h = rw (digit_value-digit d h, parse_digits) refl

-- Reading what was printed before `rest`.
parse_digits-digits :
    (fuel n : ℕ) (rest : String)
    → n < fuel
    → parse_digits 0 (digits fuel n rest) ≡ parse_digits n rest
unfolding digits
parse_digits-digits zero n rest h = absurd (omega arith)
parse_digits-digits (suc fuel) n rest h =
    let low : n % 10 < 10 = omega arith in
    elim (Bool-cases (ltb n 10)) [
      | inl small ↦
          let e : 0 * 10 + n % 10 ≡ n = ground arith in
          rw (small, parse_digits-digit 0 (n % 10) rest low, e) refl
      | inr large ↦
          let e : n / 10 * 10 + n % 10 ≡ n = omega arith in
          let again =
            parse_digits-digits fuel (n / 10) (String.◌∷◌ (nth_char (n % 10) "0123456789" "0") rest)
              (ground arith) in
          rw (large, again, parse_digits-digit (n / 10) (n % 10) rest low, e) refl
    ]

pub parse_digits-itoa : (n : ℕ) → parse_digits 0 (itoa n) ≡ some n
unfolding itoa parse_digits
parse_digits-itoa n = parse_digits-digits (suc n) n "" (omega arith)

-- A text of digits has no sign.
parse_int64-digits :
    (s : String) (n : ℕ) → s ≢ "" → parse_digits 0 s ≡ some n → parse_int64 s ≡ positive (some n)
unfolding parse_int64 parse_digits
parse_int64-digits String.[] n ne h = absurd (ne refl)
parse_int64-digits (String.◌∷◌ c s) n ne h = ground arith

digits-nonempty : (fuel n : ℕ) (rest : String) → rest ≢ "" → digits fuel n rest ≢ ""
unfolding digits
digits-nonempty zero n rest h = h
digits-nonempty (suc fuel) n rest h = elim (Bool-cases (ltb n 10)) [
  | inl small ↦ rw small (cons-ne-nil _ _)
  | inr large ↦ rw large (digits-nonempty fuel (n / 10) _ (cons-ne-nil _ _))
]

itoa-nonempty : (n : ℕ) → itoa n ≢ ""
unfolding itoa digits
itoa-nonempty n = elim (Bool-cases (ltb n 10)) [
  | inl small ↦ rw small (cons-ne-nil _ _)
  | inr large ↦ rw large (digits-nonempty n (n / 10) _ (cons-ne-nil _ _))
]

pub parse_int64-itoa : (n : ℕ) → n < 2 ^ 63 → parse_int64 (itoa n) ≡ some (pos n)
parse_int64-itoa n h =
    ground (arith, parse_int64-digits (itoa n) n (itoa-nonempty n) (parse_digits-itoa n))

-- The integers that an int64 holds.
abbrev pub FitsInt64 : ℤ → Type 0
FitsInt64 (pos n) = n < 2 ^ 63
FitsInt64 (negsuc n) = n < 2 ^ 63

parse_int64-minus : (t : String) → parse_int64 ("-" ++ t) ≡ negative (unsigned t)
unfolding parse_int64
parse_int64-minus t =
    let e : "-" ++ t ≡ String.◌∷◌ "-" t =
      cons-append "-" "" t ∙ ap (String.◌∷◌ "-") (nil-append t) in
    rw e refl

-- An int64 comes back from its decimal text.
pub parse_int64-format_int : (z : ℤ) → FitsInt64 z → parse_int64 (format_int z) ≡ some z
unfolding format_int
parse_int64-format_int (pos n) h = parse_int64-itoa n h
parse_int64-format_int (negsuc n) h = ground (
  arith,
  parse_int64-minus (itoa (suc n)),
  itoa-nonempty (suc n),
  parse_digits-itoa (suc n),
  eq_iff (itoa (suc n)) "",
)
