-- ===== src/Base/Texts.antt =====
-- Go strings as lists of bytes, with what the program uses of the package `strings`.
use Prim.Native.Nat.{ℕ}
use Prim.Native.Char.{code}
use Prim.Native.String.{String}
use mathlib.Core.Path.{◌≡◌, refl, ap, ◌∙◌}
use mathlib.Core.Logic.{◌↔◌, ◌≢◌}
use mathlib.Core.Bool.{Bool, true, false, ◌&&◌, ◌||◌}
use mathlib.Core.List.{List, [], ◌∷◌, ◌++◌}
use native.Mathlib.Omega.{arith}
use nexentastor_csi_driver_b.Base.Tests.{◌==◌, if◌then◌else◌, All}

abbrev pub Text : Type 0
Text = List ℕ

-- A literal of the source, as bytes; every literal of the program is ASCII.
abbrev pub bytes : String → Text
bytes String.[] = []
bytes (String.◌∷◌ c s) = code c ∷ bytes s

-- Go's `==` on strings.
unfoldable pub eq_text : Text → Text → Bool
eq_text [] [] = true
eq_text [] (y ∷ t) = false
eq_text (x ∷ s) [] = false
eq_text (x ∷ s) (y ∷ t) = x == y && eq_text s t

-- `len(s) == 0` and `s == ""`.
abbrev pub is_empty {ℓ} : {A : Type ℓ} → List A → Bool
is_empty [] = true
is_empty (x ∷ xs) = false

-- `strings.HasPrefix(s, p)`.
unfoldable pub has_prefix : Text → Text → Bool
has_prefix s [] = true
has_prefix [] (y ∷ p) = false
has_prefix (x ∷ s) (y ∷ p) = x == y && has_prefix s p

-- `strings.Contains(s, sub)`.
unfoldable pub contains_text : Text → Text → Bool
unfolding has_prefix
contains_text [] sub = has_prefix [] sub
contains_text (x ∷ s) sub = has_prefix (x ∷ s) sub || contains_text s sub

abbrev pub cons_head : ℕ → List Text → List Text
cons_head x [] = (x ∷ []) ∷ []
cons_head x (w ∷ ws) = (x ∷ w) ∷ ws

-- `strings.Split(s, sep)` for a separator of one byte.
unfoldable pub split : ℕ → Text → List Text
split c [] = [] ∷ []
split c (x ∷ s) = let rest = split c s in if x == c then [] ∷ rest else cons_head x rest

-- `strings.Join(words, sep)` for a separator of one byte.
unfoldable pub join : ℕ → List Text → Text
join c [] = []
join c (w ∷ []) = w
join c (w ∷ v ∷ ws) = w ++ (c ∷ join c (v ∷ ws))

-- The byte `c` does not occur in the text.
abbrev pub Lacks : ℕ → Text → Type 0
Lacks c = All (λ x. x ≢ c)

pub eq_text_iff : (s t : Text) → (eq_text s t ≡ true) ↔ (s ≡ t)
unfolding eq_text
eq_text_iff [] [] = (λ _. refl, λ _. refl)
eq_text_iff [] (y ∷ t) = (λ h. cc, λ h. cc)
eq_text_iff (x ∷ s) [] = (λ h. cc, λ h. cc)
eq_text_iff (x ∷ s) (y ∷ t) =
    (λ h. ground (arith, (eq_text_iff s t).0), λ h. ground (arith, (eq_text_iff s t).1))

pub eq_text_refl : (s : Text) → eq_text s s ≡ true
eq_text_refl s = (eq_text_iff s s).1 refl

-- A text without the separator is one word, and the separator ends the word before it.
pub split-Lacks : (c : ℕ) (s : Text) → Lacks c s → split c s ≡ s ∷ []
unfolding split
split-Lacks c [] h = refl
split-Lacks c (x ∷ s) h = ground (arith, split-Lacks c s h.1)

pub split-append : (c : ℕ) (s t : Text) → Lacks c s → split c (s ++ (c ∷ t)) ≡ s ∷ split c t
unfolding split
split-append c [] t h = ground arith
split-append c (x ∷ s) t h = ground (arith, split-append c s t h.1)

pub split_pair : (c : ℕ) (s t : Text) → Lacks c s → Lacks c t → split c (s ++ (c ∷ t)) ≡ s ∷ t ∷ []
split_pair c s t h k = split-append c s t h ∙ ap (λ ws. s ∷ ws) (split-Lacks c t k)

pub is_empty-append : (s t : Text) (x : ℕ) → is_empty (s ++ (x ∷ t)) ≡ false
is_empty-append [] t x = refl
is_empty-append (y ∷ s) t x = refl
