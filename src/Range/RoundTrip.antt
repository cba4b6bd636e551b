-- ===== src/Range/RoundTrip.antt =====
-- The headers that the client sends, rust-client/glopfile/src/api_client.rs, as the relay reads them,
-- glopfile-relay/src/range.rs.
use glopfile.Base.{
  ℕ, ◌-◌, ◌<◌, ◌≤◌, ◌≡◌, refl, true, false, [], ◌∷◌, ◌++◌, some, ok, err, arith, ◌==◌, ltb,
  if◌then◌else◌, add_u64, u64_mod, All-append, All-mono, Bool-cases, inl, inr, append_assoc,
}
use glopfile.Text.{
  Text, codes, is_digit, is_space, trim, strip_prefix, text_eq, parse_u64, split_once, contains,
}
use glopfile.Text.Split.{
  Lacks, LacksSpace, strip_prefix-append, contains_of_Lacks, split_once-append, rsplit_once-append,
  trim_of_LacksSpace,
}
use glopfile.Text.Decimal.{show, IsNumeral, show-IsNumeral, show-AreDigits, parse_u64-show}
use glopfile.Client.Headers.{resume_range, finish_range, content_range_of, content_range}
use glopfile.Range.{DownloadPosition, download_position, download_range, upload_position}

show-Lacks : (x n : ℕ) → is_digit x ≡ false → Lacks x (show n)
show-Lacks x n h =
    All-mono (λ c. is_digit c ≡ true) (λ c. (c == x) ≡ false) (show n) (λ c d. ground arith)
      (show-AreDigits n)

show-LacksSpace : (n : ℕ) → LacksSpace (show n)
show-LacksSpace n =
    All-mono (λ c. is_digit c ≡ true) (λ c. is_space c ≡ false) (show n) (λ c d. ground arith)
      (show-AreDigits n)

download_range-numeral :
    (s : Text) (n : ℕ)
    → IsNumeral s
    → parse_u64 s ≡ some n
    → download_range s [] ≡ ok (DownloadPosition.at n)
unfolding download_range
download_range-numeral [] n h e = absurd h
download_range-numeral (c ∷ s) n h e = rw e

finish_understood : download_position (some (some finish_range)) ≡ ok DownloadPosition.eof
unfolding download_position strip_prefix split_once contains trim
finish_understood = refl

-- A client that resumes a download at an offset below 2 ^ 64 is understood to resume there, and one
-- that has everything to be done.
pub resume_understood :
    (n : ℕ)
    → n < u64_mod
    → (download_position (some (some (resume_range n))) ≡ ok (DownloadPosition.at n))
      × (download_position (some (some finish_range)) ≡ ok DownloadPosition.eof)
unfolding download_position
resume_understood n h = (
  rw
      (
        strip_prefix-append (codes "bytes=") (show n ++ b'-' ∷ []),
        split_once-append b'-' (show n) [] (show-Lacks b'-' n refl),
        trim_of_LacksSpace (show n) (show-LacksSpace n),
        contains_of_Lacks b',' [] tt,
        trim_of_LacksSpace [] tt,
      )
      (download_range-numeral (show n) n (show-IsNumeral n) (parse_u64-show n h)),
  finish_understood,
)

-- The range of a content range header, behind its unit.
abbrev spec_of : ℕ → ℕ → ℕ → Text
spec_of p e z = show p ++ b'-' ∷ (show e ++ b'/' ∷ show z)

spec_of-LacksSpace : (p e z : ℕ) → LacksSpace (spec_of p e z)
spec_of-LacksSpace p e z =
    let lacks = λ (c : ℕ). is_space c ≡ false in
    All-append lacks (show p) (b'-' ∷ (show e ++ b'/' ∷ show z)) (show-LacksSpace p) (
      refl,
      All-append lacks (show e) (b'/' ∷ show z) (show-LacksSpace e) (refl, show-LacksSpace z),
    )

not_star : (p : Text) (t : Text) → IsNumeral p → text_eq (p ++ b'-' ∷ t) (codes "*") ≡ false
not_star [] t h = absurd h
not_star (c ∷ s) t h = ground arith

-- A `Content-Range` header with the decimal spellings of three numbers below 2 ^ 64 is accepted
-- exactly if its size is one more than its last position, as the wrapping sum of 64 bits has it,
-- and then the upload starts at its first position.
pub content_range_understood :
    (p e z : ℕ)
    → p < u64_mod
    → e < u64_mod
    → z < u64_mod
    → upload_position (some (some (content_range_of p e z)))
      ≡ (if z == add_u64 e 1 then ok p else err "partial ranges unimplemented")
unfolding upload_position
content_range_understood p e z hp he hz =
    rw
      (
        strip_prefix-append (codes "bytes ") (spec_of p e z),
        trim_of_LacksSpace (spec_of p e z) (spec_of-LacksSpace p e z),
        ← append_assoc (show p) (b'-' ∷ show e) (b'/' ∷ show z),
        rsplit_once-append b'/' (show p ++ b'-' ∷ show e) (show z) (show-Lacks b'/' z refl),
      )
      (rw
        (
          not_star (show p) (show e) (show-IsNumeral p),
          split_once-append b'-' (show p) (show e) (show-Lacks b'-' p refl),
          parse_u64-show p hp,
          parse_u64-show e he,
          parse_u64-show z hz,
        )
        refl)

star_understood :
    (z : ℕ) → z < u64_mod → upload_position (some (some (codes "bytes */" ++ show z))) ≡ ok z
unfolding upload_position
star_understood z h =
    rw
      (
        strip_prefix-append (codes "bytes ") (codes "*/" ++ show z),
        trim_of_LacksSpace (codes "*/" ++ show z) (refl, (refl, show-LacksSpace z)),
        rsplit_once-append b'/' (codes "*") (show z) (show-Lacks b'/' z refl),
        parse_u64-show z h,
      )
      refl

-- What the client sends from an offset of a file of less than 2 ^ 64 bytes on, the relay
-- understands as an upload from that offset, also at the end of the file, where there is nothing
-- left to send.
pub upload_offset_understood :
    (position file_size : ℕ)
    → position ≤ file_size
    → file_size < u64_mod
    → upload_position (some (some (content_range position file_size))) ≡ ok position
unfolding content_range
upload_offset_understood p z h b = elim (Bool-cases (ltb p z)) [
  | inl more ↦
      rw (more, content_range_understood p (z - 1) z (ground arith) (omega arith) b) (ground arith)
  | inr done ↦ rw (done, star_understood z b) (ground arith)
]
