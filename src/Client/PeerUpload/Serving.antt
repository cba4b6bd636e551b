-- ===== src/Client/PeerUpload/Serving.antt =====
-- The data requests of the downloader of rust-client/glopfile/src/downloader_client.rs as the
-- uploader of rust-client/glopfile/src/uploader_client.rs answers them.
use glopfile.Base.{
  ℕ, ◌+◌, ◌-◌, ◌≤◌, ◌<◌, ◌≡◌, refl, Bytes, [], ◌∷◌, some, Result, ok, proceed, arith, length, take,
  drop, length-take, length-drop, Bool-cases, true, false, inl, inr, sym, ap, ltb, ◌==◌, u64_mod,
  add_u64,
}
use glopfile.Client.Errors.{Error}
use glopfile.Client.PeerMessages.{DataRequest, DownloaderMessage, UploaderMessage}
use glopfile.Client.PeerDownload.{Outcome, next_data_request, request_len, chunk_size}
use glopfile.Client.PeerUpload.{read_at_exact, served, data_channel_message, saturating_add}

pub read_lem :
    (file : Bytes) (offset len : ℕ)
    → length file < u64_mod
    → offset + len ≤ length file
    → read_at_exact file offset len ≡ some (take len (drop offset file))
unfolding read_at_exact
read_lem file offset len b h =
    let same : saturating_add offset len ≡ offset + len = omega (arith, b, h) in
    let fits : ltb (length file) (offset + len) ≡ false = ground (arith, h) in
    let ordered : ltb (offset + len) offset ≡ false = ground arith in
    let exact : offset + len - offset ≡ len = omega arith in rw (same, fits, ordered, exact) refl

-- What a downloader asks for lies inside the content.
request_bounds :
    (total received requested : ℕ) (request : DataRequest)
    → total < u64_mod
    → requested ≤ total
    → next_data_request total received requested ≡ some (some request)
    → (request.offset ≡ requested)
      × (requested + request.len ≤ total)
      × (0 < request.len)
      × (request.len ≤ chunk_size)
unfolding next_data_request
request_bounds total received requested request b h e = elim (Bool-cases (ltb requested received)) [
  | inl behind ↦ let wrong = rw behind at e in ground arith
  | inr ahead ↦ elim (Bool-cases (request_len total received requested == 0)) [
    | inl none_left ↦ let wrong = rw (ahead, none_left) at e in ground arith
    | inr some_left ↦
        let made : record { offset = requested; len = request_len total received requested }
            ≡ request =
          ground (arith, rw (ahead, some_left) at e) in
        let len : request_len total received requested ≡ request.len = ap (λ r. r.len) made in
        (
          sym (ap (λ r. r.offset) made),
          ground (arith, len, b, h),
          ground (arith, len, some_left),
          ground (arith, len),
        )
  ]
]

-- For a file of less than 2 ^ 64 bytes, every data request that a downloader of it makes at an
-- offset inside it is answered, over a channel that takes the answer, with just the bytes of the
-- file that it names, at its offset; it names at least one byte and at most a chunk.
pub requests_served :
    (file : Bytes) (received requested : ℕ) (request : DataRequest)
    → length file < u64_mod
    → requested ≤ length file
    → next_data_request (length file) received requested ≡ some (some request)
    → (data_channel_message file (λ m. ok tt) (ok (some (DownloaderMessage.data_request request)))
        ≡ record {
          sent =
              UploaderMessage.data_response requested (take request.len (drop requested file)) ∷ [];
          progress = (requested + request.len, length file) ∷ [];
          outcome = Outcome.returned proceed;
        })
      × (length (take request.len (drop requested file)) ≡ request.len)
      × (0 < request.len)
      × (request.len ≤ chunk_size)
unfolding next_data_request data_channel_message
requests_served file received requested request b h e =
    let (offset, inside, more, chunk) =
      request_bounds (length file) received requested request b h e in
    let bytes = read_lem file requested request.len b inside in
    let whole : length (take request.len (drop requested file)) ≡ request.len =
      omega (
        arith,
        length-take request.len (drop requested file),
        length-drop requested file,
        inside,
      ) in
    let total : add_u64 requested request.len ≡ requested + request.len =
      omega (arith, inside, b) in
    (rw (offset, bytes, total) refl, whole, more, chunk)

-- A data request that reaches behind the end of the file, which is at least two bytes short of 2 ^
-- 64, makes the uploader panic.
pub long_request_panics :
    (file : Bytes) (send : UploaderMessage → Result Error (Unit {0})) (request : DataRequest)
    → length file + 1 < u64_mod
    → length file < request.offset + request.len
    → data_channel_message file send (ok (some (DownloaderMessage.data_request request)))
      ≡ served Outcome.panicked
unfolding data_channel_message read_at_exact
long_request_panics file send request b h =
    let beyond : ltb (length file) (saturating_add request.offset request.len) ≡ true =
      ground (arith, b, h) in
    rw beyond refl
