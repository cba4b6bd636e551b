-- ===== src/Examples/Linking.antt =====
-- The theorems on links and metadata at concrete inputs.
use glopfile.Base.{
  append_assoc, ap, ℕ, zero, suc, ◌+◌, ◌≡◌, refl, ap, ◌∙◌, Bytes, List, [], ◌∷◌, ◌++◌, replicate,
  Option, none, some, Bool, true, false, ok, leb, ◌==◌, All, map, All-mono, arith,
}
use glopfile.Text.{Text, codes, split_once}
use glopfile.Text.Split.{split_once-append}
use glopfile.Ids.{Base64, is_url_char, serialized, encode, to_url_char}
use glopfile.Client.Errors.{
  response_ok, retry_after, is_retried, adjust, retriability, error_retriability,
}
use glopfile.Client.Cipher.{encrypt, from_plaintext, into_plaintext}
use glopfile.Client.Upload.{HttpResponse, tries_again}
use glopfile.Client.Requests.{Attempt, Awaited, retry, successful}
use glopfile.Client.Metadata.{FileMeta, Json, Utf8, encoded_metadata, provision_file, fetch_meta}
use glopfile.Client.Metadata.RoundTrip.{fetch_meta-provision_file}
use glopfile.Client.Links.{UrlLibrary, behind, is_plain, provisioned_link, parse_download_url}
use glopfile.Client.Links.RoundTrip.{IsPlain, parse_download_url-provisioned_link}
use glopfile.Examples.Ciphers.{plain}

-- A Base64 of the examples: each byte is as many letters `a`, and a `b`.
abbrev pub spell_byte : ℕ → Text → Text
spell_byte zero s = b'b' ∷ s
spell_byte (suc n) s = b'a' ∷ spell_byte n s

abbrev pub spell : Bytes → Text
spell [] = []
spell (b ∷ bytes) = spell_byte b (spell bytes)

abbrev pub push : ℕ → Option Bytes → Option Bytes
push n none = none
push n (some bytes) = some (n ∷ bytes)

abbrev pub read : ℕ → Text → Option Bytes
read n [] = some []
read n (c ∷ s) = elim (c == b'a') [ true ↦ read (suc n) s | false ↦ push n (read 0 s) ]

spell_byte-url :
    (n : ℕ) (s : Text)
    → All (λ c. is_url_char c ≡ false) s
    → All (λ c. is_url_char c ≡ false) (spell_byte n s)
spell_byte-url zero s h = (refl, h)
spell_byte-url (suc n) s h = (refl, spell_byte-url n s h)

pub spell-url : (bytes : Bytes) → All (λ c. is_url_char c ≡ false) (spell bytes)
spell-url [] = tt
spell-url (b ∷ bytes) = spell_byte-url b (spell bytes) (spell-url bytes)

read-spell_byte : (k n : ℕ) (s : Text) → read k (spell_byte n s) ≡ push (k + n) (read 0 s)
read-spell_byte k zero s = ap (λ (m : ℕ). push m (read 0 s)) (omega arith)
read-spell_byte k (suc n) s =
    read-spell_byte (suc k) n s ∙ ap (λ (m : ℕ). push m (read 0 s)) (omega arith)

pub read-spell : (bytes : Bytes) → read 0 (spell bytes) ≡ some bytes
read-spell [] = refl
read-spell (b ∷ bytes) =
    read-spell_byte 0 b (spell bytes)
    ∙ ap (λ (m : ℕ). push m (read 0 (spell bytes))) (omega arith)
    ∙ ap (push b) (read-spell bytes)

abbrev spelled : Base64
spelled = record {
  encode = spell;
  decode = read 0;
  decode-encode = read-spell;
  standard = spell-url;
}

-- URLs without anything but a path and a fragment.
abbrev Url : Type 0
Url = Text × Option Text

abbrev url_of : Text → Option (Text × Text) → Url
url_of s none = (s, none)
url_of s (some (p, f)) = (p, some f)

plain-Lacks : (c : ℕ) → is_plain c ≡ true → (c == b'#') ≡ false
plain-Lacks c h = ground arith

abbrev shown : Url → Text
shown (p, none) = p
shown (p, some g) = p ++ b'#' ∷ g

read_lem :
    (p f : Text)
    → All (λ c. is_plain c ≡ true) p
    → url_of ((b'/' ∷ p) ++ b'#' ∷ f) (split_once b'#' ((b'/' ∷ p) ++ b'#' ∷ f))
      ≡ (b'/' ∷ p, some f)
read_lem p f h =
    rw
      (split_once-append b'#' (b'/' ∷ p) f
        (refl, All-mono (λ c. is_plain c ≡ true) (λ c. (c == b'#') ≡ false) p plain-Lacks h))
      refl

parse-display :
    (u : Url) (p f : Text)
    → true ≡ true
    → All (λ c. is_plain c ≡ true) p
    → All (λ c. is_plain c ≡ true) f
    → (v : Url) × (some (
          url_of
            (shown (b'/' ∷ p, u.1) ++ b'#' ∷ f)
            (split_once b'#' (shown (b'/' ∷ p, u.1) ++ b'#' ∷ f)))
        ≡ some v)
      × (v.0 ≡ b'/' ∷ p)
      × (v.1 ≡ some (behind u.1 f))
parse-display (q, none) p f b h k =
    ((b'/' ∷ p, some f), ap (λ v. some v) (read_lem p f h), refl, refl)
parse-display (q, some g) p f b h k = (
  (b'/' ∷ p, some (g ++ b'#' ∷ f)),
  rw (append_assoc p (b'#' ∷ g) (b'#' ∷ f)) (ap (λ v. some v) (read_lem p (g ++ b'#' ∷ f) h)),
  refl,
  refl,
)

abbrev urls : UrlLibrary
urls = record {
  Url = Url;
  parse = λ s. some (url_of s (split_once b'#' s));
  path = λ u. u.0;
  fragment = λ u. u.1;
  can_be_base = λ u. true;
  set_path = λ p u. (p, u.1);
  display = shown;
  parse-display = parse-display;
}

abbrev key : Bytes
key = replicate 32 1

spell_byte-IsPlain :
    (n : ℕ) (s : Text) → IsPlain (map to_url_char s) → IsPlain (map to_url_char (spell_byte n s))
unfolding to_url_char
spell_byte-IsPlain zero s h = (refl, h)
spell_byte-IsPlain (suc n) s h = (refl, spell_byte-IsPlain n s h)

spell-IsPlain : (bytes : Bytes) → IsPlain (map to_url_char (spell bytes))
spell-IsPlain [] = tt
spell-IsPlain (b ∷ bytes) = spell_byte-IsPlain b (spell bytes) (spell-IsPlain bytes)

key-IsPlain : IsPlain (serialized spelled key)
unfolding serialized encode
key-IsPlain = spell-IsPlain key

parse_download_url-provisioned_link_example :
    (link : Text) × (provisioned_link urls spelled ([], none) key (codes "Ab-1") ≡ some link)
    × (parse_download_url urls spelled link ≡ some (ok (codes "Ab-1", key)))
parse_download_url-provisioned_link_example =
    parse_download_url-provisioned_link urls spelled ([], none) key (codes "Ab-1") refl refl refl
      (refl, (refl, (refl, (refl, tt)))) key-IsPlain (refl, (refl, (refl, (refl, tt))))

-- Metadata as the length of the file and its name.
abbrev read_meta : Text → Option FileMeta
read_meta [] = none
read_meta (n ∷ name) = some (record { file_name = name; file_size = n })

meta_lem :
    (m : FileMeta) (s : Text) → some (m.file_size ∷ m.file_name) ≡ some s → read_meta s ≡ some m
meta_lem m s e = ground (e, arith)

abbrev json : Json
json = record {
  write_meta = λ m. some (m.file_size ∷ m.file_name);
  read_meta = read_meta;
  read_download = λ bytes. some (record { encrypted_content_url = []; encoded = bytes });
  read_provision = λ bytes. none;
  read-write_meta = meta_lem;
}

abbrev utf8 : Utf8
utf8 = record { encode = λ s. s; decode = λ b. some b; decode-encode = λ s. refl }

abbrev meta : FileMeta
meta = record { file_name = 8 ∷ []; file_size = 3 }

abbrev is_success : ℕ → Bool
is_success status = leb status 299

abbrev is_server_error : ℕ → Option Bool
is_server_error status = some (leb 500 status)

abbrev form : Text
form = spell (replicate 12 1 ++ (3 ∷ 8 ∷ replicate 16 0))

abbrev found : HttpResponse
found = record { status = 200; retry_after = none; body = ok form }

-- A response of an overloaded server, and then one that carries the form.
abbrev replies : List Attempt
replies =
    record {
      reply = ok (record { status = 503; retry_after = none; body = ok [] });
      scheduled = some 1;
    }
    ∷ record { reply = ok found; scheduled = none }
    ∷ []

replies_end :
    retry is_server_error (successful is_success "failed to fetch download details") replies
    ≡ Awaited.ended (ok found)
unfolding retry response_ok retry_after tries_again is_retried adjust retriability
    error_retriability
replies_end = refl

form_provisioned :
    provision_file json utf8 spelled plain is_success is_server_error
      (replicate 12 0)
      (replicate 12 1)
      meta
      []
    ≡ ok (form, Awaited.waiting)
unfolding provision_file encoded_metadata encrypt from_plaintext into_plaintext retry
form_provisioned = refl

fetch_meta-provision_file_example :
    fetch_meta json utf8 spelled plain is_success is_server_error replies
    ≡ Awaited.ended (ok (record { encrypted_content_url = []; file_meta = meta }))
fetch_meta-provision_file_example =
    fetch_meta-provision_file json utf8 spelled plain is_success is_server_error (replicate 12 0)
      (replicate 12 1) meta [] replies form Awaited.waiting found form [] refl refl form_provisioned
      replies_end refl refl
