-- ===== src/Client/Links/RoundTrip.antt =====
-- Links that are made by rust-client/glopfile/src/uploader_client.rs and read by
-- rust-client/glopfile/src/downloader_client.rs.
use glopfile.Base.{
  ◌∙◌, ap, ℕ, ◌≡◌, ◌≢◌, refl, true, Bool-cases, inl, inr, Bytes, ◌++◌, Option, none, some, Result,
  ok, err, All, All-append, length, arith,
}
use glopfile.Text.{Text, codes, contains}
use glopfile.Text.Split.{Lacks, strip_prefix-append, contains_of_Lacks}
use glopfile.Ids.{Base64, key_size, serialized}
use glopfile.Ids.Spelling.{key_from_string-serialized}
use glopfile.Client.Errors.{Error}
use glopfile.Client.Links.{
  UrlLibrary, behind, is_plain, download_url_without_cipher_key, formatted_download_url_and_key,
  provisioned_link, link_key, link_id, id_of, with_key, and_id, link_parts, parse_download_url,
}

abbrev pub IsPlain : Text → Type 0
IsPlain = All (λ c. is_plain c ≡ true)

download_IsPlain : IsPlain (codes "download/")
download_IsPlain = (refl, (refl, (refl, (refl, (refl, (refl, (refl, (refl, (refl, tt)))))))))

cipher_key_IsPlain : IsPlain (codes "cipher_key=")
cipher_key_IsPlain =
    (refl, (refl, (refl, (refl, (refl, (refl, (refl, (refl, (refl, (refl, (refl, tt)))))))))))

module _ (urls : UrlLibrary) (base64 : Base64) where
  link_key-serialized :
      (key : Bytes)
      → length key ≡ key_size
      → link_key urls base64 (some (codes "cipher_key=" ++ serialized base64 key)) ≡ ok key
  unfolding link_key
  link_key-serialized key l =
      rw
        (
          strip_prefix-append (codes "cipher_key=") (serialized base64 key),
          (key_from_string-serialized base64 key).0,
          l,
        )
        refl

  link_id-path :
      (id : Text) → Lacks b'/' id → link_id urls base64 (codes "/download/" ++ id) ≡ some (ok id)
  unfolding link_id
  link_id-path id l =
      rw (strip_prefix-append (codes "/download/") id, contains_of_Lacks b'/' id l) refl

  read_lem :
      (text : Text) (v : urls.Url) (key : Bytes) (id : Text)
      → length key ≡ key_size
      → Lacks b'/' id
      → urls.parse text ≡ some v
      → urls.path v ≡ codes "/download/" ++ id
      → urls.fragment v ≡ some (codes "cipher_key=" ++ serialized base64 key)
      → parse_download_url urls base64 text ≡ some (ok (id, key))
  unfolding parse_download_url
  read_lem text v key id l n e f g = rw (e, f, g, link_key-serialized key l, link_id-path id n) refl

  -- The link that an uploader shows is read by a downloader as the id and the key that it was made of,
  -- if the id has no `/`, the key has 32 bytes, both are spelled in letters, digits and what stands for
  -- itself in a URL, and the endpoint's URL can be a base and has no fragment.
  pub parse_download_url-provisioned_link :
      (endpoint : urls.Url) (key : Bytes) (id : Text)
      → urls.can_be_base endpoint ≡ true
      → urls.fragment endpoint ≡ none
      → length key ≡ key_size
      → IsPlain id
      → IsPlain (serialized base64 key)
      → Lacks b'/' id
      → (link : Text) × (provisioned_link urls base64 endpoint key id ≡ some link)
        × (parse_download_url urls base64 link ≡ some (ok (id, key)))
  unfolding provisioned_link formatted_download_url_and_key download_url_without_cipher_key
  parse_download_url-provisioned_link endpoint key id b none_yet l p q n =
      let (v, e, f, g) =
        urls.parse-display endpoint (codes "download/" ++ id)
          (codes "cipher_key=" ++ serialized base64 key) b
          (All-append (λ (c : ℕ). is_plain c ≡ true) (codes "download/") id download_IsPlain p)
          (All-append (λ (c : ℕ). is_plain c ≡ true) (codes "cipher_key=") (serialized base64 key)
            cipher_key_IsPlain q) in
      (
        formatted_download_url_and_key urls base64
            (download_url_without_cipher_key urls base64 endpoint id) key,
        rw (contains_of_Lacks b'/' id n) refl,
        read_lem _ v key id l n e f
            (g ∙ ap (λ o. some (behind o (codes "cipher_key=" ++ serialized base64 key))) none_yet),
      )

  id_of-returns : (o : Option Text) → id_of urls base64 o ≢ none
  id_of-returns none = λ q. ground (q, arith)
  id_of-returns (some id) = elim (Bool-cases (contains b'/' id)) [
    | inl e ↦ rw e (λ q. ground (q, arith))
    | inr e ↦ rw e (λ q. ground (q, arith))
  ]

  with_key-returns :
      (key : Bytes) (o : Option (Result Error Text)) → o ≢ none → with_key urls base64 key o ≢ none
  with_key-returns key none n = absurd (n refl)
  with_key-returns key (some (err e)) n = λ q. ground (q, arith)
  with_key-returns key (some (ok id)) n = λ q. ground (q, arith)

  and_id-returns : (r : Result Error Bytes) (path : Text) → and_id urls base64 r path ≢ none
  unfolding link_id
  and_id-returns (err e) path = λ q. ground (q, arith)
  and_id-returns (ok key) path = with_key-returns key _ (id_of-returns _)

  link_parts-returns : (o : Option urls.Url) → link_parts urls base64 o ≢ none
  link_parts-returns none = λ q. ground (q, arith)
  link_parts-returns (some u) = and_id-returns _ _

  -- No text makes `parse_download_url` panic, whatever the URL library makes of it.
  pub parse_download_url_returns : (text : Text) → parse_download_url urls base64 text ≢ none
  unfolding parse_download_url
  parse_download_url_returns text = link_parts-returns (urls.parse text)
