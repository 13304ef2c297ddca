-- ===== src/Strconv/Printed.antt =====
-- A number that is printed is parsed back.
use nexentastor_csi_driver_b.Base.{
  ℕ, zero, suc, ◌+◌, ◌-◌, ◌*◌, ◌/◌, ◌%◌, ◌^◌, ◌≤◌, ◌<◌, Text, is_empty, is_empty-append, All, pos,
  ltb, ◌==◌, false, some, [], ◌∷◌, ◌++◌, ◌≡◌, inl, inr, refl, sym, ◌∙◌, ap, arith, Bool-cases,
}
use nexentastor_csi_driver_b.Strconv.{
  digit, digits_from, digits, digit_value, natural_from, parse_int,
}

-- What the proofs need of a base, which `omega` shows for each that is used.
pub record IsBase (b : ℕ) : Type 0 where
  pub some_digits : 2 ≤ b
  pub few_digits : b ≤ 36
  pub whole : (n : ℕ) → (n / b) * b + n % b ≡ n
  pub rest : (n : ℕ) → n % b < b
  pub less : (n : ℕ) → b ≤ n → n / b < n

pub eight-IsBase : IsBase 8
eight-IsBase = record {
  some_digits = omega arith;
  few_digits = omega arith;
  whole = λ n. omega arith;
  rest = λ n. omega arith;
  less = λ n h. omega arith;
}

pub ten-IsBase : IsBase 10
ten-IsBase = record {
  some_digits = omega arith;
  few_digits = omega arith;
  whole = λ n. omega arith;
  rest = λ n. omega arith;
  less = λ n h. omega arith;
}

pub sixteen-IsBase : IsBase 16
sixteen-IsBase = record {
  some_digits = omega arith;
  few_digits = omega arith;
  whole = λ n. omega arith;
  rest = λ n. omega arith;
  less = λ n h. omega arith;
}

digit_value-digit : (d : ℕ) → d < 36 → digit_value (digit d) ≡ d
digit_value-digit d h = ground arith

natural_from-append :
    (b n : ℕ) (s : Text) (c : ℕ) (m : ℕ)
    → natural_from b n s ≡ some m
    → digit_value c < b
    → natural_from b n (s ++ (c ∷ [])) ≡ some (m * b + digit_value c)
unfolding natural_from
natural_from-append b n [] c m h d = ground arith
natural_from-append b n (x ∷ s) c m h d =
    ground (arith, natural_from-append b (n * b + digit_value x) s c m)

natural_from-one : (b d : ℕ) → b ≤ 36 → d < b → natural_from b 0 (digit d ∷ []) ≡ some d
unfolding natural_from
natural_from-one b d few small = ground (arith, digit_value-digit d)

digit_value-small : (b d : ℕ) → b ≤ 36 → d < b → digit_value (digit d) < b
digit_value-small b d few small = ground (arith, digit_value-digit d)

module _ (b : ℕ) (base : IsBase b) where
  pub natural_from-digits_from :
      (fuel n : ℕ) → n < fuel → natural_from b 0 (digits_from b fuel n) ≡ some n
  unfolding digits_from
  natural_from-digits_from zero n h = absurd (omega arith)
  natural_from-digits_from (suc fuel) n h = elim (Bool-cases (ltb n b)) [
    | inl few ↦ rw few (natural_from-one b n base.few_digits (ground arith))
    | inr many ↦
        let less = base.less n (ground arith) in
        rw many (
          natural_from-append b 0 (digits_from b fuel (n / b)) (digit (n % b)) (n / b)
            (natural_from-digits_from fuel (n / b) (omega (arith, less)))
            (digit_value-small b (n % b) base.few_digits (base.rest n))
          ∙ rw
              (
                digit_value-digit (n % b) (omega (arith, base.rest n, base.few_digits)),
                base.whole n,
              )
              refl)
  ]

  digits_from-nonempty : (fuel n : ℕ) → is_empty (digits_from b (suc fuel) n) ≡ false
  unfolding digits_from
  digits_from-nonempty fuel n = elim (Bool-cases (ltb n b)) [
    | inl few ↦ rw few
    | inr many ↦ rw many (is_empty-append (digits_from b fuel (n / b)) [] (digit (n % b)))
  ]

  pub digits-nonempty : (n : ℕ) → is_empty (digits b n) ≡ false
  unfolding digits
  digits-nonempty n = digits_from-nonempty n n

  pub natural_from-digits : (n : ℕ) → natural_from b 0 (digits b n) ≡ some n
  unfolding digits
  natural_from-digits n = natural_from-digits_from (suc n) n (omega arith)

  -- Two numbers that are printed alike are equal.
  pub digits_inj : (n m : ℕ) → digits b n ≡ digits b m → n ≡ m
  unfolding digits
  digits_inj n m h =
      let left = natural_from-digits_from (suc n) n (omega arith) in
      let right = natural_from-digits_from (suc m) m (omega arith) in
      let same : some n ≡ some m = sym left ∙ ap (natural_from b 0) h ∙ right in cc same

  -- A byte that is a digit of the base.
  abbrev pub IsDigit : ℕ → Type 0
  IsDigit c = digit_value c < b

  append-All : (s t : Text) → All IsDigit s → All IsDigit t → All IsDigit (s ++ t)
  append-All [] t h k = k
  append-All (x ∷ s) t h k = (h.0, append-All s t h.1 k)

  digits_from-IsDigit : (fuel n : ℕ) → n < fuel → All IsDigit (digits_from b fuel n)
  unfolding digits_from
  digits_from-IsDigit zero n h = tt
  digits_from-IsDigit (suc fuel) n h = elim (Bool-cases (ltb n b)) [
    | inl few ↦ rw few (digit_value-small b n base.few_digits (ground arith), tt)
    | inr many ↦ rw many (
        append-All (digits_from b fuel (n / b)) (digit (n % b) ∷ [])
          (digits_from-IsDigit fuel (n / b) (omega (arith, base.less n (ground arith))))
          (digit_value-small b (n % b) base.few_digits (base.rest n), tt))
  ]

  pub digits-IsDigit : (n : ℕ) → All IsDigit (digits b n)
  unfolding digits
  digits-IsDigit n = digits_from-IsDigit (suc n) n (omega arith)

not_sign : (c : ℕ) → digit_value c < 36 → (c == b'-' ≡ false) × (c == b'+' ≡ false)
not_sign c h = (ground arith, ground arith)

-- A text that starts with a digit has no sign.
pub parse_int-unsigned :
    (b bits n : ℕ) (s : Text)
    → b ≤ 36
    → is_empty s ≡ false
    → All (λ c. digit_value c < b) s
    → natural_from b 0 s ≡ some n
    → n < 2 ^ (bits - 1)
    → parse_int b bits s ≡ some (pos n)
unfolding parse_int
parse_int-unsigned b bits n [] small full ds e fits = cc
parse_int-unsigned b bits n (c ∷ s) small full ds e fits =
    let (minus, plus) = not_sign c (omega (arith, ds.0)) in
    rw (minus, plus, e) (ground (arith, fits))

-- `strconv.ParseInt` reads a number that is printed in its base and fits.
pub parse_int-digits :
    (b bits n : ℕ) → IsBase b → n < 2 ^ (bits - 1) → parse_int b bits (digits b n) ≡ some (pos n)
unfolding digits
parse_int-digits b bits n base fits =
    parse_int-unsigned b bits n (digits b n) base.few_digits (digits_from-nonempty b base n n)
      (digits-IsDigit b base n) (natural_from-digits_from b base (suc n) n (omega arith)) fits
