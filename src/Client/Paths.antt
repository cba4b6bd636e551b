-- ===== src/Client/Paths.antt =====
-- Where files come from and go to on native platforms: `provision_file` of
-- rust-client/glopfile/src/uploader_client/native.rs and `DownloadFile::new` of downloader_client/native.rs,
-- with the paths of the Rust standard library on Unix, for paths in Unicode.
pub mod Children
use glopfile.Base.{
  ℕ, Bool, true, false, List, [], ◌∷◌, ◌++◌, Option, none, some, Result, ok, err, ◌>>◌, ok_or, ◌==◌,
  if◌then◌else◌, ◌||◌,
}
use glopfile.Text.{Text, text_eq}
use glopfile.Client.Errors.{Error}

-- The parts of a path between its separators.
abbrev pub add_first : ℕ → List Text → List Text
add_first c [] = (c ∷ []) ∷ []
add_first c (part ∷ parts) = (c ∷ part) ∷ parts

unfoldable pub parts : Text → List Text
parts [] = [] ∷ []
parts (c ∷ s) = let rest = parts s in if c == b'/' then [] ∷ rest else add_first c rest

-- The last part that is not empty and not `.`.
unfoldable pub last_component : List Text → Option Text
last_component [] = none
last_component (part ∷ rest) = elim (last_component rest) [
  | some found ↦ some found
  | none ↦ if text_eq part [] || text_eq part (b'.' ∷ []) then none else some part
]

-- `Path::file_name`.
unfoldable pub file_name : Text → Option Text
unfolding parts last_component
file_name path = elim (last_component (parts path)) [
  | none ↦ none
  | some part ↦ if text_eq part (b'.' ∷ b'.' ∷ []) then none else some part
]

-- Whether a path ends in a separator, and `Path::join`.
unfoldable pub ends_in_separator : Text → Bool
ends_in_separator [] = false
ends_in_separator (c ∷ []) = c == b'/'
ends_in_separator (c ∷ d ∷ s) = ends_in_separator (d ∷ s)

abbrev pub child : Text → Text → Text
child [] name = name
child (c ∷ s) name = if ends_in_separator (c ∷ s) then (c ∷ s) ++ name else (c ∷ s) ++ (b'/' ∷ name)

unfoldable pub join : Text → Text → Text
unfolding ends_in_separator
join dir [] = child dir []
join dir (c ∷ name) = if c == b'/' then c ∷ name else child dir (c ∷ name)

-- The path of the file that `DownloadFile::new` creates, for the file name of the metadata.
unfoldable pub output_path : Option Text → Text → Text
unfolding join
output_path none name = name
output_path (some dir) name = join dir name

-- The file name that `provision_file` gives to a file that it could open.
unfoldable pub provisioned_name : Result Error (Unit {0}) → Text → Result Error Text
unfolding file_name
provisioned_name opened path = do
  opened
  ok_or (file_name path) (Error.invalid_input "invalid file path")
