-- ===== src/Client/RelayDownload/Encrypted.antt =====
-- A relayed download of rust-client/glopfile/src/api_client.rs against the upload that it is of.
use glopfile.Base.{
  ℕ, ◌≡◌, refl, ◌∙◌, ap, Bytes, List, [], ◌∷◌, map, All, Option, Bool, Result, ok, err, length,
  flatten, arith,
}
use glopfile.Client.Cipher.{
  Cipher, Usage, nonce_size, read_plaintext_to_end, encrypt, decrypt, from_plaintext,
}
use glopfile.Client.Cipher.Buffers.{decrypt-encrypt}
use glopfile.Client.Errors.{Error}
use glopfile.Client.Decrypted.{IoError, fresh}
use glopfile.Client.RelayDownload.{Exchange, End, download_content}
use glopfile.Client.RelayDownload.Resuming.{IsServing, resumed_whole}

module _ (cipher : Cipher) (describe : Error → IoError) where
  -- The decryption of the pending write: an error becomes an `io::Error`.
  abbrev pub as_io : Result Error Bytes → Result IoError Bytes
  as_io (err e) = err (describe e)
  as_io (ok plaintext) = ok plaintext

  unfoldable pub decrypt_content : Bytes → Result IoError Bytes
  decrypt_content bytes = as_io (decrypt cipher Usage.content bytes)

  -- `encrypt_file`, from the reads of the file.
  unfoldable pub encrypt_file : (filler nonce : Bytes) → List Bytes → Bytes
  encrypt_file filler nonce pieces =
      encrypt cipher nonce Usage.content (read_plaintext_to_end filler pieces)

  read_lem :
      (filler : Bytes) (pieces : List Bytes)
      → read_plaintext_to_end filler pieces ≡ from_plaintext filler (flatten pieces)
  unfolding read_plaintext_to_end from_plaintext
  read_lem filler pieces = refl

  content_lem :
      (filler nonce : Bytes) (pieces : List Bytes)
      → length filler ≡ nonce_size
      → length nonce ≡ nonce_size
      → decrypt_content (encrypt_file filler nonce pieces) ≡ ok (flatten pieces)
  unfolding decrypt_content encrypt_file
  content_lem filler nonce pieces f n =
      rw
        (
          read_lem filler pieces,
          (decrypt-encrypt cipher nonce filler (flatten pieces) Usage.content n f).0,
        )
        refl

  abbrev of_io : Bytes → Result IoError Bytes
  of_io b = ok b

  ok_lem : (ws : List Bytes) (p : Bytes) → map (of_io) ws ≡ of_io p ∷ [] → ws ≡ p ∷ []
  ok_lem [] p e = absurd (ground (e, arith))
  ok_lem (w ∷ []) p e = ground (e, arith)
  ok_lem (w ∷ v ∷ ws) p e = absurd (ground (e, arith))

  -- A download through the relay that ends well has written just the file that the uploader read, once,
  -- if the relay sends the content that `encrypt_file` made of the file, from each offset that it is
  -- asked for and as far as the stream comes, if the nonces have 12 bytes, and if the downloader expects
  -- as many bytes as the content has; however many attempts broke off, stalled or were refused.
  pub relayed_download_is_upload :
      (is_success : ℕ → Bool) (is_server_error : ℕ → Option Bool) {Url : Type 0} (url : Option Url)
      (size : ℕ) (filler nonce : Bytes) (pieces : List Bytes) (xs : List (ℕ → Exchange))
      → length filler ≡ nonce_size
      → length nonce ≡ nonce_size
      → All (IsServing (encrypt_file filler nonce pieces)) xs
      → (download_content is_success is_server_error decrypt_content
          (length (encrypt_file filler nonce pieces))
          url
          size
          xs
          fresh).end
        ≡ End.finished
      → (download_content is_success is_server_error decrypt_content
          (length (encrypt_file filler nonce pieces))
          url
          size
          xs
          fresh).written
        ≡ flatten pieces ∷ []
  relayed_download_is_upload is_success is_server_error url size filler nonce pieces xs f n a q =
      ok_lem _ (flatten pieces) (
        resumed_whole is_success is_server_error decrypt_content (encrypt_file filler nonce pieces)
          url size xs a q
        ∙ ap (λ (r : Result IoError Bytes). r ∷ []) (content_lem filler nonce pieces f n))
