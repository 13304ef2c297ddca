-- ===== src/FilePath.antt =====
-- What the program uses of Go's package `path/filepath`, on Unix.
pub mod Plain
use mathlib.Core.List.{reverse}
use nexentastor_csi_driver_b.Base.{
  ℕ, Text, bytes, eq_text, is_empty, split, join, Bool, true, false, ◌||◌, List, [], ◌∷◌, ◌++◌,
  if◌then◌else◌, ◌==◌,
}

abbrev pub dot : Text
dot = bytes "."

abbrev pub dot_dot : Text
dot_dot = bytes ".."

-- `..` removes the name above it; at the root it is dropped.
abbrev up : Bool → List Text → List Text
up rooted [] = if rooted then [] else dot_dot ∷ []
up rooted (name ∷ above) = if eq_text name dot_dot then dot_dot ∷ name ∷ above else above

-- One element of a path, on the elements before it, the last one first.
clean_step : Bool → Text → List Text → List Text
clean_step rooted name above =
    if is_empty name || eq_text name dot
    then above
    else if eq_text name dot_dot
    then up rooted above
    else name ∷ above

clean_loop : Bool → List Text → List Text → List Text
clean_loop rooted [] above = above
clean_loop rooted (name ∷ names) above = clean_loop rooted names (clean_step rooted name above)

abbrev is_rooted : Text → Bool
is_rooted [] = false
is_rooted (x ∷ s) = x == b'/'

-- `filepath.Clean(s)`.
unfoldable pub clean : Text → Text
unfolding clean_loop clean_step
clean s =
    let rooted = is_rooted s in
    let out = join b'/' (reverse (clean_loop rooted (split b'/' s) [])) in
    if rooted then b'/' ∷ out else if is_empty out then dot else out

-- `filepath.Join(a, b)`.
unfoldable pub join_path : Text → Text → Text
join_path [] [] = []
join_path [] (y ∷ b) = clean (y ∷ b)
join_path (x ∷ a) b = clean ((x ∷ a) ++ (b'/' ∷ b))

-- The text up to its last slash, the slash included.
up_to_slash : Text → Text
up_to_slash [] = []
up_to_slash (x ∷ s) =
    let rest = up_to_slash s in
    if is_empty rest then (if x == b'/' then x ∷ [] else []) else x ∷ rest

-- `filepath.Dir(s)`.
unfoldable pub dir : Text → Text
unfolding up_to_slash clean
dir s = clean (up_to_slash s)
