-- ===== src/Client/Paths/Children.antt =====
-- In which folder a download ends, rust-client/glopfile/src/downloader_client/native.rs.
use glopfile.Base.{
  ℕ, ◌≡◌, ◌≢◌, refl, ◌∙◌, true, false, Bool-cases, Option-cases, inl, inr, List, [], ◌∷◌, Option,
  none, some, Result, ok, err, ok_or, ◌==◌, ◌||◌, All,
}
use glopfile.Text.{Text, text_eq}
use glopfile.Text.Split.{Lacks}
use glopfile.Client.Errors.{Error}
use glopfile.Client.Paths.{
  add_first, parts, last_component, file_name, child, join, output_path, provisioned_name,
}

-- A name that is one component of a path.
abbrev pub IsPlain : Text → Type 0
IsPlain name = Lacks b'/' name × (name ≢ []) × (name ≢ b'.' ∷ []) × (name ≢ b'.' ∷ b'.' ∷ [])

add_first-Lack :
    (c : ℕ) (ps : List Text)
    → (c == b'/') ≡ false
    → All (Lacks b'/') ps
    → All (Lacks b'/') (add_first c ps)
add_first-Lack c [] n h = ((n, tt), tt)
add_first-Lack c (p ∷ ps) n h = ((n, h.0), h.1)

parts-Lack : (s : Text) → All (Lacks b'/') (parts s)
unfolding parts
parts-Lack [] = (tt, tt)
parts-Lack (c ∷ s) = elim (Bool-cases (c == b'/')) [
  | inl sep ↦ rw sep (tt, parts-Lack s)
  | inr other ↦ rw other (add_first-Lack c (parts s) other (parts-Lack s))
]

-- A part that counts.
usual : (p : Text) → (text_eq p [] || text_eq p (b'.' ∷ [])) ≡ false → (p ≢ []) × (p ≢ b'.' ∷ [])
usual p h = (
  λ q. let t : (text_eq p [] || text_eq p (b'.' ∷ [])) ≡ true = rw q refl in cc (t, h),
  λ q. let t : (text_eq p [] || text_eq p (b'.' ∷ [])) ≡ true = rw q refl in cc (t, h),
)

last_component-Plain :
    (ps : List Text) (name : Text)
    → All (Lacks b'/') ps
    → last_component ps ≡ some name
    → Lacks b'/' name × (name ≢ []) × (name ≢ b'.' ∷ [])
unfolding last_component
last_component-Plain [] name l e = cc
last_component-Plain (p ∷ ps) name l e = elim (Option-cases (last_component ps)) [
  | inl nothing ↦ elim (Bool-cases (text_eq p [] || text_eq p (b'.' ∷ []))) [
    | inl skipped ↦ let never = rw (nothing, skipped) at e in cc (never)
    | inr counts ↦
        let found = rw (nothing, counts) at e in
        let same : p ≡ name = cc (found) in rw (← same) (let u = usual p counts in (l.0, u.0, u.1))
  ]
  | inr (found, later) ↦ last_component-Plain ps name l.1 (later ∙ rw later at e)
]

file_name-Plain : (path name : Text) → file_name path ≡ some name → IsPlain name
unfolding file_name
file_name-Plain path name e = elim (Option-cases (last_component (parts path))) [
  | inl nothing ↦ let never = rw (nothing, file_name) at e in cc (never)
  | inr (part, last) ↦ elim (Bool-cases (text_eq part (b'.' ∷ b'.' ∷ []))) [
    | inl up ↦ let never = rw (last, up, file_name) at e in cc (never)
    | inr usual_ ↦
        let kept = rw (last, usual_, file_name) at e in
        let same : part ≡ name = cc (kept) in
        let plain = last_component-Plain (parts path) part (parts-Lack path) last in
        rw (← same) (
          plain.0,
          plain.1,
          plain.2,
          λ q. let t : text_eq part (b'.' ∷ b'.' ∷ []) ≡ true = rw q refl in cc (t, usual_),
        )
  ]
]

join-child : (dir name : Text) → Lacks b'/' name → join dir name ≡ child dir name
unfolding join
join-child dir [] l = refl
join-child dir (c ∷ name) l = rw l.0 refl

some_of_ok :
    {A E : Type 0} (o : Option A) (e : E) {a : A}
    → ◌≡◌ {A = Result E A} (ok_or o e) (ok a)
    → o ≡ some a
some_of_ok none e h = cc
some_of_ok (some b) e h = cc

-- The name that an uploader gives to a file is one component, so that a download of it ends in just that
-- place of the output folder, however the folder is spelled. But a download does not look at the name, and
-- a name that begins with a separator leads to the place that it names, whatever the output folder is.
pub output_path-provisioned_name :
    (opened : Result Error (Unit {0})) (path dir name other : Text)
    → provisioned_name opened path ≡ ok name
    → IsPlain name
      × (output_path (some dir) name ≡ child dir name)
      × (output_path (some dir) (b'/' ∷ other) ≡ b'/' ∷ other)
unfolding output_path provisioned_name
output_path-provisioned_name (err e) path dir name other h = cc
output_path-provisioned_name (ok u) path dir name other h =
    let plain =
      file_name-Plain path name
        (some_of_ok (file_name path) (Error.invalid_input "invalid file path") h) in
    (plain, join-child dir name plain.0, refl)
