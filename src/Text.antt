-- ===== src/Text.antt =====
-- Texts, paths and URLs. A URL is its text; what the crate `url` does with it is a parameter where
-- it is needed.
pub use Prim.Native.String.{String, ◌++◌ as ◌<>◌}
pub use text.Mathlib.Text.{◌==◌ as str_eq}
pub use text.Mathlib.TextEquality.{eq_iff}
pub use text.Mathlib.TextPositions.{eq_refl}
use Prim.Native.Char.{code}
use percas.Base.{Bool, false, ◌==◌, if◌then◌else◌}

abbrev pub Url : Type 0
Url = String

-- `PathBuf`.
abbrev pub FilePath : Type 0
FilePath = String

-- Whether a text ends in a slash; `last` is the answer for the text read so far.
unfoldable pub ends_in_slash : Bool → String → Bool
ends_in_slash last String.[] = last
ends_in_slash last (String.◌∷◌ c s) = ends_in_slash (code c == b'/') s

-- `Path::join` with a relative name.
unfoldable pub join : FilePath → String → FilePath
unfolding ends_in_slash
join base name =
    if str_eq base ""
    then name
    else if ends_in_slash false base
    then base <> name
    else base <> ("/" <> name)
