-- ===== src/Client/Headers.antt =====
-- The range headers that the client of rust-client/glopfile/src/api_client.rs sends.
use glopfile.Base.{ℕ, ◌-◌, ◌∷◌, ◌++◌, ltb, if◌then◌else◌}
use glopfile.Text.{Text, codes}
use glopfile.Text.Decimal.{show}

-- The `Range` header of `download_content`: `bytes={content_offset}-`.
abbrev pub resume_range : ℕ → Text
resume_range offset = codes "bytes=" ++ (show offset ++ b'-' ∷ codes "")

-- The `Range` header of `finish_download`.
abbrev pub finish_range : Text
finish_range = codes "bytes=-0"

-- `bytes {position}-{last_position}/{file_size}`.
abbrev pub content_range_of : ℕ → ℕ → ℕ → Text
content_range_of position last size =
    codes "bytes " ++ (show position ++ b'-' ∷ (show last ++ b'/' ∷ show size))

-- The `Content-Range` header of `upload_file`, where `last_position` is `file_size - 1`. An
-- encrypted file is never empty, so the subtraction is exact.
unfoldable pub content_range : ℕ → ℕ → Text
content_range position file_size =
    if ltb position file_size
    then content_range_of position (file_size - 1) file_size
    else codes "bytes */" ++ show file_size
