-- ===== src/Cli/Paths.antt =====
-- Paths of the command line, as on Unix (portus-window-cli/src/validation.rs). A path is a text in
-- which an item from 0x110000 on stands for bytes that are no UTF-8.
use portus_window.Base.{
  ℕ, Bool, true, false, ◌&&◌, List, [], ◌∷◌, ◌++◌, if◌then◌else◌, ltb, ◌==◌, is_empty,
  ends_with_char, Text, text, Result, ok, err, ◌>>=◌,
}

abbrev pub PathBuf : Type 0
PathBuf = List ℕ

-- What the process reads of its surroundings.
pub record Surroundings : Type 0 where
  pub current_dir : Result Text PathBuf
  pub read_to_string : PathBuf → Result Text Text
  pub stdin : Result Text Text

unfoldable pub is_utf8 : PathBuf → Bool
is_utf8 [] = true
is_utf8 (c ∷ path) = ltb c 0x110000 && is_utf8 path

-- `to_str` with an error.
unfoldable to_str : Text → PathBuf → Result Text Text
unfolding is_utf8
to_str error path = if is_utf8 path then ok path else err error

unfoldable is_absolute : PathBuf → Bool
is_absolute [] = false
is_absolute (c ∷ path) = c == b'/'

-- `join` of a path that is not absolute.
unfoldable join : PathBuf → PathBuf → PathBuf
join base path =
    if is_empty base
    then path
    else if ends_with_char base b'/'
    then base ++ path
    else base ++ b'/' ∷ path

-- `current_dir` and its error.
unfoldable working_dir : Surroundings → Result Text PathBuf
working_dir host = elim host.current_dir [
  | ok dir ↦ ok dir
  | err error ↦ err (text "could not resolve current directory: " ++ error)
]

unfoldable pub absolute_utf8_path : Surroundings → PathBuf → Text → Result Text Text
unfolding to_str is_absolute join working_dir
absolute_utf8_path host path purpose =
    let invalid = purpose ++ text " path must be valid UTF-8" in
    let joined = working_dir host >>= λ dir. to_str invalid (join dir path) in
    if is_empty path
    then err (purpose ++ text " path must not be empty")
    else if is_absolute path
    then to_str invalid path
    else joined
