-- ===== src/Views/Masks.antt =====
-- internal/http/handlers/view_helpers.go: shortened secrets and texts, as lists of runes.
pub mod Shown
use mathlib.Core.List
use vetka_backend_panel.Prelude.{
  ℕ, ◌-◌, String, ◌||◌, List, [], ◌++◌, ◌==◌, if◌then◌else◌, ltb, leb, length, take, drop,
  replicate,
}
use Prim.Native.Char.{Char}
use vetka_backend_panel.Prelude.Text.{runes, of_runes, trim_space}

abbrev pub bullet : Char
bullet = "•"

-- The last `n` runes.
abbrev pub take_last : ℕ → List Char → List Char
take_last n cs = drop (length cs - n) cs

unfoldable pub mask_runes : List Char → List Char
mask_runes cs =
    if leb (length cs) 4
    then replicate (length cs) bullet
    else if leb (length cs) 8
    then List.◌++◌ (take 2 cs) (List.◌++◌ (replicate 4 bullet) (take_last 2 cs))
    else List.◌++◌ (take 4 cs) (List.◌++◌ (replicate 8 bullet) (take_last 4 cs))

unfoldable pub mask_secret_compact : String → String
unfolding mask_runes runes of_runes trim_space
mask_secret_compact value = of_runes (mask_runes (runes (trim_space value)))

abbrev pub dots : List Char
dots = runes "..."

unfoldable pub truncate_runes : List Char → ℕ → List Char
unfolding runes
truncate_runes cs size =
    if leb (length cs) size || leb size 3 then cs else List.◌++◌ (take (size - 1) cs) dots

unfoldable pub truncate_text : String → ℕ → String
unfolding truncate_runes runes of_runes
truncate_text value size = of_runes (truncate_runes (runes value) size)
