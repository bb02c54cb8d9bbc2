-- ===== src/Api/Paths.antt =====
-- Which files `handle_static_file` looks up.
use ott_quic.Common.{
  ℕ, zero, suc, ◌≡◌, ◌⊎◌, inl, inr, refl, sym, ap, ◌∙◌, Bool, true, false, not, ◌&&◌, ◌||◌, Option,
  none, some, [], ◌∷◌, ◌++◌, ◌==◌, length, take, drop, Bool-cases, Option-cases, arith,
}
use mathlib.Core.Path.{subst}
use ott_quic.Text.{Text, codes, same_text, same_exact, without, after_text, cut, fits}
use ott_quic.Http.{HttpRequest}
use ott_quic.Api.Static.{
  Target, refused, file, below, locate, target, has_slash, plain_path, ends_with_slash, File,
  handle_static_file, lookup,
}

-- Whether two dots follow each other.
abbrev pub dotted : Text → Bool
dotted [] = false
dotted (c ∷ []) = false
dotted (c ∷ (d ∷ t)) = ((c == b'.') && (d == b'.')) || dotted (d ∷ t)

-- A path below web/ or data/ that does not go up.
abbrev pub IsInside : Text → Type 0
IsInside path =
    (dotted path ≡ false)
    × (((rest : Text) × (path ≡ codes "web/" ++ rest))
        ⊎ ((rest : Text) × (path ≡ codes "data/" ++ rest)))

two_dots : (c d : ℕ) (t : Text) → dotted (c ∷ (d ∷ t)) ≡ false → dotted (d ∷ t) ≡ false
two_dots c d t h = ground arith

after_text-step :
    (c d : ℕ) (t : Text)
    → ((c == b'.') && (d == b'.')) ≡ false
    → after_text (codes "..") (c ∷ (d ∷ t)) ≡ after_text (codes "..") (d ∷ t)
unfolding after_text without
after_text-step c d t h = elim (Bool-cases (46 == c)) [
  | inr e ↦ rw (e, after_text, without) refl
  | inl e ↦
      let other : (46 == d) ≡ false = ground arith in rw (e, after_text, without) (rw other refl)
]

after_text-found :
    (c d : ℕ) (t : Text)
    → ((c == b'.') && (d == b'.')) ≡ true
    → after_text (codes "..") (c ∷ (d ∷ t)) ≡ some t
unfolding after_text without
after_text-found c d t h =
    let first : (46 == c) ≡ true = ground arith in
    let second : (46 == d) ≡ true = ground arith in rw (first, after_text, without) (rw second refl)

after_text-dotted : (t : Text) → after_text (codes "..") t ≡ none → dotted t ≡ false
after_text-dotted [] h = refl
after_text-dotted (c ∷ []) h = refl
after_text-dotted (c ∷ (d ∷ t)) h = elim (Bool-cases ((c == b'.') && (d == b'.'))) [
  | inl e ↦ let found = after_text-found c d t e in absurd (cc)
  | inr e ↦
      let step = after_text-step c d t e in
      let later = after_text-dotted (d ∷ t) (sym step ∙ h) in rw e later
]

dotted-cons : (c : ℕ) (t : Text) → (c == b'.') ≡ false → dotted t ≡ false → dotted (c ∷ t) ≡ false
dotted-cons c [] e h = refl
dotted-cons c (d ∷ t) e h = rw e h

dotted-take : (n : ℕ) (t : Text) → dotted t ≡ false → dotted (take n t) ≡ false
dotted-take zero t h = refl
dotted-take (suc n) [] h = refl
dotted-take (suc zero) (c ∷ t) h = refl
dotted-take (suc (suc n)) (c ∷ []) h = refl
dotted-take (suc (suc n)) (c ∷ (d ∷ t)) h =
    let later = dotted-take (suc n) (d ∷ t) (two_dots c d t h) in
    let here : ((c == b'.') && (d == b'.')) ≡ false = ground arith in rw here later

dotted-drop : (t : Text) → dotted t ≡ false → dotted (drop 1 t) ≡ false
dotted-drop [] h = refl
dotted-drop (c ∷ []) h = refl
dotted-drop (c ∷ (d ∷ t)) h = two_dots c d t h

dotted-index :
    (t : Text)
    → ends_with_slash t ≡ true
    → dotted t ≡ false
    → dotted (t ++ codes "index.html") ≡ false
unfolding ends_with_slash
dotted-index [] e h = cc
dotted-index (c ∷ []) e h =
    let other : (c == 46) ≡ false = ground arith in dotted-cons c (codes "index.html") other refl
dotted-index (c ∷ (d ∷ t)) e h =
    let later = dotted-index (d ∷ t) e (two_dots c d t h) in
    let here : ((c == b'.') && (d == b'.')) ≡ false = ground arith in rw here later

abbrev pub AllInside : Target → Type 0
AllInside (refused r) = Unit
AllInside (file rel path) = IsInside path

below-AllInside :
    (base subpath : Text) → IsInside (base ++ cut 256 subpath) → AllInside (below base subpath)
unfolding below
below-AllInside base subpath h = elim (Bool-cases (length subpath == 0)) [
  | inl e ↦ rw (e, below) tt
  | inr e ↦ elim (Bool-cases (fits 4096 (base ++ cut 256 subpath))) [
    | inl f ↦ rw (e, below) (rw f h)
    | inr f ↦ rw (e, below) (rw f tt)
  ]
]

web_path : (subpath : Text) → dotted subpath ≡ false → AllInside (below (codes "web/") subpath)
web_path subpath h =
    let short = cut 256 subpath in
    below-AllInside (codes "web/") subpath
      (dotted-cons b'/' short refl (dotted-take 255 subpath h), inl (short, refl))

without-append : (p text rest : Text) → without p text ≡ some rest → text ≡ p ++ rest
unfolding without
without-append [] text rest h = ground arith
without-append (p ∷ ps) [] rest h = cc
without-append (p ∷ ps) (c ∷ text) rest h = elim (Bool-cases (p == c)) [
  | inr e ↦ let no : none ≡ some rest = rw (e, without) at h in cc
  | inl e ↦
      let found : without ps text ≡ some rest = ground arith in
      let same : c ≡ p = ground arith in
      rw same (ap (λ t. p ∷ t) (without-append ps text rest found))
]

data_path :
    (rest : Text)
    → dotted (codes "data/" ++ rest) ≡ false
    → AllInside (below [] (codes "data/" ++ rest))
data_path rest h =
    below-AllInside [] (codes "data/" ++ rest)
      (dotted-take 255 (codes "data/" ++ rest) h, inr (take 250 rest, refl))

locate-AllInside : (path : Text) → dotted path ≡ false → AllInside (locate path)
unfolding locate
locate-AllInside path h =
    let sub = drop 1 path in
    let below_root : dotted sub ≡ false = dotted-drop path h in
    elim (Bool-cases (same_exact path (codes "/"))) [
      | inl r ↦ rw (r, locate) (web_path (codes "index.html") refl)
      | inr r ↦ elim (Option-cases (without (codes "/data/") path)) [
        | inr (rest, w) ↦
            let split : sub ≡ codes "data/" ++ rest =
              ap (λ t. drop 1 t) (without-append (codes "/data/") path rest w) in
            rw (r, locate)
              (rw w (
                subst (λ (t : Text). AllInside (below [] t)) (sym split)
                  (data_path rest (ap dotted (sym split) ∙ below_root))))
        | inl w ↦ elim (Bool-cases (ends_with_slash sub)) [
          | inr e ↦ rw (r, locate) (rw w (rw e (web_path sub below_root)))
          | inl e ↦ elim (Bool-cases (fits 256 (sub ++ codes "index.html"))) [
            | inl f ↦
                rw (r, locate)
                  (rw w (
                    rw e (
                      rw f (web_path (sub ++ codes "index.html") (dotted-index sub e below_root)))))
            | inr f ↦ rw (r, locate) (rw w (rw e (rw f tt)))
          ]
        ]
      ]
    ]

target-AllInside : (raw : Text) → AllInside (target raw)
unfolding target
target-AllInside raw = elim (Bool-cases (has_slash raw)) [
  | inr s ↦ rw (s, target) tt
  | inl s ↦ elim (Option-cases (after_text (codes "..") (plain_path 255 raw))) [
    | inr (rest, a) ↦ rw (s, target) (rw a tt)
    | inl a ↦
        let flat = after_text-dotted (plain_path 255 raw) a in
        rw (s, target) (rw a (locate-AllInside (plain_path 255 raw) flat))
  ]
]

-- A path that was looked up, if one was.
abbrev pub LooksInside : Option Text → Type 0
LooksInside none = Unit
LooksInside (some path) = IsInside path

looked :
    (files : Text → Option File) (allocated : Bool) (req : HttpRequest) (t : Target)
    → AllInside t
    → LooksInside (lookup files allocated req t).1
unfolding lookup
looked files allocated req (refused r) h = tt
looked files allocated req (file rel path) h = elim (Option-cases (files path)) [
  | inl e ↦ rw (e, lookup) h
  | inr (f, e) ↦ rw (e, lookup) h
]

-- Whatever path a request has, the file that `handle_static_file` looks up stands below web/ or
-- data/, and its path does not contain "..".
pub handle_static_file-LooksInside :
    (files : Text → Option File) (allocated : Bool) (req : HttpRequest)
    → LooksInside (handle_static_file files allocated req).1
unfolding handle_static_file
handle_static_file-LooksInside files allocated req =
    let inside = target-AllInside req.path in
    elim (Bool-cases
      (not (same_text req.method (codes "GET")) && not (same_text req.method (codes "HEAD")))) [
        | inl m ↦ rw (m, handle_static_file) tt
        | inr m ↦ rw (m, handle_static_file) (looked files allocated req (target req.path) inside)
      ]
