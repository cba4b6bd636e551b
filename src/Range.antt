-- ===== src/Range.antt =====
-- The `Range` and `Content-Range` headers, glopfile-relay/src/range.rs. A header is `none` if the
-- request has none, and holds what `HeaderValue::to_str` of the http library reads: a text, or
-- `none` if the value is not visible ASCII.
pub mod RoundTrip
use Prim.Native.String.{String}
use glopfile.Base.{
  ℕ, Bool, true, false, ◌||◌, List, [], ◌∷◌, Option, none, some, Result, ok, err, ◌>>=◌, ok_or,
  ◌==◌, if◌then◌else◌, add_u64,
}
use glopfile.Text.{
  Text, codes, text_eq, strip_prefix, contains, split_once, rsplit_once, trim, parse_u64,
}
use glopfile.Session.Types.{Position}

pub data DownloadPosition : Type 0 where
  at : Position → DownloadPosition
  eof : DownloadPosition

abbrev pub Header : Type 0
Header = Option (Option Text)

-- The `match` on the trimmed ends of the range.
download_range : Text → Text → Result String DownloadPosition
download_range [] end =
    if text_eq end (codes "0") then ok DownloadPosition.eof else err "suffix ranges unimplemented"
download_range (c ∷ start) [] = do
  position ← ok_or (parse_u64 (c ∷ start)) "malformed range"
  ok (DownloadPosition.at position)
download_range (c ∷ start) (d ∷ end) = err "partial ranges unimplemented"

download_specs : Text × Text → Result String DownloadPosition
unfolding download_range
download_specs (start, end) =
    if contains b',' end
    then err "multiple ranges unimplemented"
    else download_range (trim start) (trim end)

unfoldable pub download_position : Header → Result String DownloadPosition
unfolding download_specs
download_position none = ok (DownloadPosition.at 0)
download_position (some header) = do
  value ← ok_or header "malformed range"
  specs ← ok_or (strip_prefix (codes "bytes=") value) "unsupported range unit"
  ends ← ok_or (split_once b'-' specs) "malformed range"
  download_specs ends

abbrev malformed : String
malformed = "malformed content range"

-- `<position>-<last>/<size>`.
content_range : Text → Text → Result String Position
content_range range size = do
  ends ← ok_or (split_once b'-' range) malformed
  start ← ok_or (parse_u64 ends.0) malformed
  last ← ok_or (parse_u64 ends.1) malformed
  total ← ok_or (parse_u64 size) malformed
  if total == add_u64 last 1 then ok start else err "partial ranges unimplemented"

upload_spec : Text × Text → Result String Position
unfolding content_range
upload_spec (range, size) =
    if text_eq range (codes "*") then ok_or (parse_u64 size) malformed else content_range range size

unfoldable pub upload_position : Header → Result String Position
unfolding upload_spec
upload_position none = ok 0
upload_position (some header) = do
  value ← ok_or header malformed
  spec ← ok_or (strip_prefix (codes "bytes ") value) "unsupported range unit"
  parts ← ok_or (rsplit_once b'/' (trim spec)) malformed
  upload_spec parts
