-- ===== src/Strconv.antt =====
-- What the program uses of Go's package `strconv`, and the verbs of `fmt` that print numbers.
pub mod Printed
use nexentastor_csi_driver_b.Base.{
  ℕ, zero, suc, ◌+◌, ◌-◌, ◌*◌, ◌/◌, ◌%◌, ◌^◌, Text, is_empty, ℤ, pos, negsuc, ltb, leb, ◌==◌,
  length, Bool, true, false, ◌&&◌, ◌||◌, Option, none, some, List, [], ◌∷◌, ◌++◌, if◌then◌else◌,
}

-- A digit of a base up to 36.
abbrev pub digit : ℕ → ℕ
digit d = if ltb d 10 then b'0' + d else b'a' + (d - 10)

-- The digits of a number, the first ones first; `fuel` steps are at hand.
unfoldable pub digits_from : ℕ → ℕ → ℕ → Text
digits_from b zero n = []
digits_from b (suc fuel) n =
    let rest = digits_from b fuel (n / b) in
    if ltb n b then digit n ∷ [] else rest ++ (digit (n % b) ∷ [])

-- `strconv.Itoa(n)` for the base 10, and `%x` for the base 16.
unfoldable pub digits : ℕ → ℕ → Text
digits b n = digits_from b (suc n) n

unfoldable pub zeros : ℕ → Text
zeros zero = []
zeros (suc n) = b'0' ∷ zeros n

-- The verbs `%0wd` and `%0wx`: zeros on the left up to a width of `w`.
unfoldable pub padded : ℕ → Text → Text
padded w s = zeros (w - length s) ++ s

abbrev between : ℕ → ℕ → ℕ → Bool
between low high c = leb low c && leb c high

-- The value of a byte as a digit; the value 36 is no digit of any base.
abbrev pub digit_value : ℕ → ℕ
digit_value c =
    if between b'0' b'9' c
    then c - b'0'
    else if between b'a' b'z' c
    then c - b'a' + 10
    else if between b'A' b'Z' c
    then c - b'A' + 10
    else 36

-- The loop of `strconv.ParseUint`, without a bound.
unfoldable pub natural_from : ℕ → ℕ → Text → Option ℕ
natural_from b n [] = some n
natural_from b n (c ∷ s) = elim (ltb (digit_value c) b) [
  | true ↦ natural_from b (n * b + digit_value c) s
  | false ↦ none
]

abbrev natural : ℕ → Text → Option ℕ
natural b [] = none
natural b (c ∷ s) = natural_from b 0 (c ∷ s)

-- The bounds of `strconv.ParseInt` for `bits` bits.
abbrev positive : ℕ → Option ℕ → Option ℤ
positive bits none = none
positive bits (some n) = if ltb n (2 ^ (bits - 1)) then some (pos n) else none

abbrev negated : ℕ → ℤ
negated zero = pos 0
negated (suc n) = negsuc n

abbrev negative : ℕ → Option ℕ → Option ℤ
negative bits none = none
negative bits (some n) = if leb n (2 ^ (bits - 1)) then some (negated n) else none

-- `strconv.ParseInt(s, b, bits)` for a base that is given; `none` is an error.
unfoldable pub parse_int : ℕ → ℕ → Text → Option ℤ
parse_int b bits [] = none
parse_int b bits (c ∷ s) =
    if c == b'-'
    then negative bits (natural b s)
    else if c == b'+'
    then positive bits (natural b s)
    else positive bits (natural b (c ∷ s))

-- `strconv.Atoi(s)`.
unfoldable pub atoi : Text → Option ℤ
atoi s = parse_int 10 64 s
