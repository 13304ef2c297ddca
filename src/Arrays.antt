-- ===== src/Arrays.antt =====
-- pkg/arrays/arrays.go: helpers on arrays of strings. A regular expression is its test on a string.
pub mod Laws
use nexentastor_csi_driver_b.Base.{
  ℕ, ◌+◌, Text, eq_text, Bool, true, false, List, [], ◌∷◌, ◌++◌, if◌then◌else◌, length, ◌==◌,
}

-- `ContainsString`.
pub contains_string : List Text → Text → Bool
contains_string [] value = false
contains_string (v ∷ array) value = if eq_text v value then true else contains_string array value

-- The loop of `FindRegexpIndexesString`, from the index `i` on.
find_from : ℕ → List Text → (Text → Bool) → List ℕ
find_from i [] re = []
find_from i (v ∷ array) re =
    let rest = find_from (i + 1) array re in if re v then i ∷ rest else rest

-- `FindRegexpIndexesString`.
pub find_regexp_indexes_string : List Text → (Text → Bool) → List ℕ
unfolding find_from
find_regexp_indexes_string array re = find_from 0 array re

-- `AppendIfRegexpNotExistString`.
pub append_if_regexp_not_exist_string : List Text → (Text → Bool) → Text → List Text
append_if_regexp_not_exist_string array re value =
    if length (find_regexp_indexes_string array re) == 0 then array ++ (value ∷ []) else array
