-- ===== src/Node/Device/Names.antt =====
-- The LUN of a device can be read off its name.
use mathlib.Core.List.{append_cancel_left, append_cancel_right, append_assoc}
use nexentastor_csi_driver_b.Base.{
  ℕ, zero, suc, ◌-◌, Text, bytes, join, ltb, length, true, false, some, [], ◌∷◌, ◌++◌, ◌≡◌, ◌≢◌,
  inl, inr, refl, sym, ◌∙◌, ap, arith, Bool-cases,
}
use nexentastor_csi_driver_b.Strconv.{digits, digits_from, zeros, padded, natural_from}
use nexentastor_csi_driver_b.Strconv.Printed.{
  natural_from-digits, digits_inj, digits-IsDigit, ten-IsBase, sixteen-IsBase,
}
use nexentastor_csi_driver_b.Node.Device.{trim_last, lun_text, construct_dev_by_path}

trim_last-append : (c : ℕ) (s : Text) → trim_last c (s ++ (c ∷ [])) ≡ s
unfolding trim_last
trim_last-append c [] = ground arith
trim_last-append c (x ∷ []) = ground arith
trim_last-append c (x ∷ y ∷ s) = ap (λ t. x ∷ t) (trim_last-append c (y ∷ s))

one_padded : padded 13 (digits 10 1) ≡ zeros 12 ++ (b'1' ∷ [])
unfolding padded zeros digits digits_from
one_padded = refl

-- The text of a large LUN and of a small one.
lun_text-large :
    (n : ℕ) → ltb 255 n ≡ true → lun_text n ≡ bytes "0x" ++ (padded 4 (digits 16 n) ++ zeros 12)
unfolding lun_text
lun_text-large n h =
    let p = padded 4 (digits 16 n) in
    rw h (
      ap (λ z. trim_last b'1' (bytes "0x" ++ (p ++ z))) one_padded
      ∙ ap (λ z. trim_last b'1' (bytes "0x" ++ z)) (sym (append_assoc p (zeros 12) (b'1' ∷ [])))
      ∙ trim_last-append b'1' (bytes "0x" ++ (p ++ zeros 12)))

lun_text-small : (n : ℕ) → ltb 255 n ≡ false → lun_text n ≡ digits 10 n
unfolding lun_text
lun_text-small n h = rw h

natural_from-zeros : (k : ℕ) (s : Text) → natural_from 16 0 (zeros k ++ s) ≡ natural_from 16 0 s
unfolding zeros natural_from
natural_from-zeros zero s = refl
natural_from-zeros (suc k) s = natural_from-zeros k s

padded_inj : (n m : ℕ) → padded 4 (digits 16 n) ≡ padded 4 (digits 16 m) → n ≡ m
unfolding padded
padded_inj n m h =
    let shown = λ (k : ℕ).
      natural_from-zeros (4 - length (digits 16 k)) (digits 16 k)
      ∙ natural_from-digits 16 sixteen-IsBase k in
    let same : some n ≡ some m = sym (shown n) ∙ ap (natural_from 16 0) h ∙ shown m in cc same

large_inj : (n m : ℕ) → ltb 255 n ≡ true → ltb 255 m ≡ true → lun_text n ≡ lun_text m → n ≡ m
large_inj n m a b h =
    let shown : bytes "0x" ++ (padded 4 (digits 16 n) ++ zeros 12)
        ≡ bytes "0x" ++ (padded 4 (digits 16 m) ++ zeros 12) =
      sym (lun_text-large n a) ∙ h ∙ lun_text-large m b in
    padded_inj n m (
      append_cancel_right (padded 4 (digits 16 n)) (padded 4 (digits 16 m)) (zeros 12)
        (append_cancel_left (bytes "0x") _ _ shown))

-- A small LUN is a decimal number, which has no `x`.
mixed : (n m : ℕ) → ltb 255 n ≡ true → ltb 255 m ≡ false → lun_text m ≢ lun_text n
mixed n m a b h =
    let shown : digits 10 m ≡ bytes "0x" ++ (padded 4 (digits 16 n) ++ zeros 12) =
      sym (lun_text-small m b) ∙ h ∙ lun_text-large n a in
    let plain = digits-IsDigit 10 ten-IsBase m in absurd (omega (arith, (rw shown at plain).1.0))

small_inj : (n m : ℕ) → ltb 255 n ≡ false → ltb 255 m ≡ false → lun_text n ≡ lun_text m → n ≡ m
small_inj n m a b h =
    digits_inj 10 ten-IsBase n m (sym (lun_text-small n a) ∙ h ∙ lun_text-small m b)

lun_text_inj : (n m : ℕ) → lun_text n ≡ lun_text m → n ≡ m
lun_text_inj n m h = elim (Bool-cases (ltb 255 n)) [
  | inl a ↦ elim (Bool-cases (ltb 255 m)) [
    | inl b ↦ large_inj n m a b h
    | inr b ↦ absurd (mixed n m a b (sym h))
  ]
  | inr a ↦ elim (Bool-cases (ltb 255 m)) [
    | inl b ↦ absurd (mixed m n b a h)
    | inr b ↦ small_inj n m a b h
  ]
]

-- Two LUNs of a target at a portal have different device names.
pub construct_dev_by_path_inj :
    (portal target : Text) (n m : ℕ)
    → construct_dev_by_path portal target n ≡ construct_dev_by_path portal target m
    → n ≡ m
unfolding construct_dev_by_path join
construct_dev_by_path_inj portal target n m h = lun_text_inj n m (
    append_cancel_left (bytes "-lun-") _ _ (
      append_cancel_left target _ _ (
        append_cancel_left (bytes "-iscsi-") _ _ (
          append_cancel_left portal _ _
            (append_cancel_left (bytes "/dev/disk/by-path/ip-") _ _ h)))))
