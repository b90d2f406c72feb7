-- ===== src/Config/Paths.antt =====
-- What internal/config/config.go uses of `path/filepath` on Unix, and `resolveStateDir`.
pub mod Within
use mathlib.Core.Option
use mathlib.Core.List.{reverse}
use alib_fetcher.Base.{
  ℕ, List, [], ◌∷◌, ◌++◌, Text, text, Option, none, some, Bool, true, false, ◌||◌, if◌then◌else◌,
  text_eq, is_empty, has_prefix, join, split, cut_last,
}

unfoldable pub is_abs : Text → Bool
is_abs path = has_prefix path (text "/")

-- A `..` behind the parts that are kept, of which the last one comes first.
abbrev pub pop_part : Bool → List Text → List Text
pop_part rooted [] = if rooted then [] else text ".." ∷ []
pop_part rooted (q ∷ qs) = if text_eq q (text "..") then text ".." ∷ q ∷ qs else qs

unfoldable pub push_part : Bool → List Text → Text → List Text
push_part rooted stack part =
    if is_empty part || text_eq part (text ".")
    then stack
    else if text_eq part (text "..")
    then pop_part rooted stack
    else part ∷ stack

unfoldable pub clean_parts : Bool → List Text → List Text → List Text
clean_parts rooted stack [] = reverse stack
clean_parts rooted stack (part ∷ parts) = clean_parts rooted (push_part rooted stack part) parts

-- The path from the root through these directories.
unfoldable pub rooted_path : List Text → Text
rooted_path parts = 47 ∷ join parts (text "/")

abbrev pub relative_path : List Text → Text
relative_path [] = text "."
relative_path (part ∷ parts) = join (part ∷ parts) (text "/")

-- `filepath.Clean`
unfoldable pub clean : Text → Text
clean path =
    let parts = clean_parts (is_abs path) [] (split 47 path) in
    if is_abs path then rooted_path parts else relative_path parts

-- `filepath.Join`
unfoldable pub join_path : Text → Text → Text
join_path dir file =
    if is_empty dir then (if is_empty file then [] else clean file) else clean (dir ++ 47 ∷ file)

-- `filepath.Dir`
unfoldable pub dir_of : Text → Text
dir_of path = elim (cut_last path (text "/")) [
  | none ↦ clean []
  | some (before, after) ↦ clean (before ++ 47 ∷ [])
]

-- `filepath.Abs`; the working directory may be unknown.
unfoldable pub abs : Option Text → Text → Option Text
abs cwd path = if is_abs path then some (clean path) else Option.map (λ dir. join_path dir path) cwd

abbrev pub default_state_path : Text
default_state_path = text "/var/lib/alib-fetcher"

-- `stringValue`, `intValue` and `boolValue`.
abbrev pub value_or {ℓ} : {A : Type ℓ} → Option A → A → A
value_or none fallback = fallback
value_or (some value) fallback = value

-- `none` is the error "resolve state_path".
unfoldable pub resolve_state_dir : Option Text → Option Text → Text → Option Text
resolve_state_dir cwd value config_path =
    let state_dir = value_or value default_state_path in
    Option.map clean
      (abs cwd (if is_abs state_dir then state_dir else join_path (dir_of config_path) state_dir))
