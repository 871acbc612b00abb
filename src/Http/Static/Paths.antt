-- ===== src/Http/Static/Paths.antt =====
-- Which files the static handler of server/src/http/QuantumSafeHttp.cpp can open, and the types that
-- it gives them.
use management_sensors.Prelude.{
  ◌⊎◌, ◌≢◌, pop_back, ℕ, zero, suc, ◌≡◌, refl, ap, true, false, Text, codes, [], ◌∷◌, ◌++◌, map,
  append_assoc, none, starts_with, find_text, rfind_char, ends_with_char, ◌==◌, arith,
  if◌then◌else◌, Bool-cases, Option-cases, inl, inr, text_eq, drop,
}
use management_sensors.Http.{
  Verb, head, Request, Response, status_ok, Body, file_body, empty_body, OpenResult, opened,
  no_such_file, open_error,
}
use management_sensors.Http.Responses.{
  bad_request, not_found, server_error, success_head, success_file,
}
use management_sensors.Http.Static.{
  strip_slash, path_cat, illegal_target, is_get_or_head, file_path, serve_file, open_path,
  handle_request, to_lower, iequals, extension, mime_type, type_of_extension,
}

abbrev index_html : Text
index_html = codes "index.html"

-- After a slash at its end, a text without ".." can be followed by `index.html`.
find_text-index :
    (t : Text)
    → find_text (codes "..") t ≡ none
    → ends_with_char b'/' t ≡ true
    → find_text (codes "..") (t ++ index_html) ≡ none
unfolding find_text starts_with ends_with_char
find_text-index [] h e = absurd (cc)
find_text-index (c ∷ []) h e = ground arith
find_text-index (c ∷ d ∷ t) h e = ground (arith, find_text-index (d ∷ t))

-- The document root without its slash.
abbrev pub root : Text → Text
root [] = []
root (c ∷ base) = strip_slash (c ∷ base)

path_cat-root : (base path : Text) → path_cat base path ≡ root base ++ path
unfolding path_cat
path_cat-root [] path = refl
path_cat-root (c ∷ base) path = refl

-- The part of the file's path that the request names.
abbrev pub named : Text → Text
named target = if ends_with_char b'/' target then target ++ index_html else target

file_path-root : (base target : Text) → file_path base target ≡ root base ++ named target
unfolding file_path
file_path-root base target = elim (Bool-cases (ends_with_char b'/' target)) [
  | inl e ↦
      rw (e, file_path)
        (rw (path_cat-root base target) (append_assoc (root base) target index_html))
  | inr e ↦ rw (e, file_path) (path_cat-root base target)
]

legal-dots : (target : Text) → illegal_target target ≡ false → find_text (codes "..") target ≡ none
unfolding illegal_target
legal-dots [] h = absurd (cc)
legal-dots (c ∷ t) h = ground arith

legal-slash : (target : Text) → illegal_target target ≡ false → (r : Text) × (target ≡ b'/' ∷ r)
unfolding illegal_target
legal-slash [] h = absurd (cc)
legal-slash (c ∷ t) h = (t, ground arith)

named-dots :
    (target : Text) → illegal_target target ≡ false → find_text (codes "..") (named target) ≡ none
named-dots target h = elim (Bool-cases (ends_with_char b'/' target)) [
  | inl e ↦ rw e (find_text-index target (legal-dots target h) e)
  | inr e ↦ rw e (legal-dots target h)
]

named-slash :
    (target : Text) → illegal_target target ≡ false → (r : Text) × (named target ≡ b'/' ∷ r)
named-slash target h =
    let (r, q) = legal-slash target h in
    elim (Bool-cases (ends_with_char b'/' target)) [
      | inl e ↦ (r ++ index_html, rw e (ap (λ t. t ++ index_html) q))
      | inr e ↦ (r, rw e q)
    ]

-- The body of a successful answer about a file.
abbrev pub content : Verb → Text → ℕ → Body
content head path size = empty_body size
content _ path size = file_body path size

-- The document root without a slash at its end: exactly one is taken away if it has one.
abbrev pub WithoutSlash : Text → Text → Type 0
WithoutSlash doc_root base =
    (doc_root ≡ base ++ b'/' ∷ []) ⊎ (doc_root ≡ base) × ((t : Text) → doc_root ≢ t ++ b'/' ∷ [])

ends_with-slash : (t : Text) → ends_with_char b'/' t ≡ true → t ≡ pop_back t ++ b'/' ∷ []
unfolding ends_with_char pop_back
ends_with-slash [] h = absurd (cc)
ends_with-slash (c ∷ []) h = ground arith
ends_with-slash (c ∷ d ∷ t) h = ap (λ s. c ∷ s) (ends_with-slash (d ∷ t) h)

slash-ends_with : (t : Text) → ends_with_char b'/' (t ++ b'/' ∷ []) ≡ true
unfolding ends_with_char
slash-ends_with [] = refl
slash-ends_with (c ∷ []) = refl
slash-ends_with (c ∷ d ∷ t) = slash-ends_with (d ∷ t)

nonempty : (t : Text) → [] ≢ t ++ b'/' ∷ []
nonempty [] e = cc
nonempty (c ∷ t) e = cc

root-WithoutSlash : (doc_root : Text) → WithoutSlash doc_root (root doc_root)
unfolding strip_slash
root-WithoutSlash [] = inr (refl, nonempty)
root-WithoutSlash (c ∷ base) = elim (Bool-cases (ends_with_char b'/' (c ∷ base))) [
  | inl e ↦ rw (e, strip_slash) (inl (ends_with-slash (c ∷ base) e))
  | inr e ↦ rw (e, strip_slash) (inr (refl, λ t same. absurd (cc (slash-ends_with t, same, e))))
]

-- The answer is about a file below the document root: its path is the root, without a slash at its end,
-- and a part that begins with a slash and holds no "..".
pub record Served (open_file : Text → OpenResult) (req : Request) (doc_root : Text) (r : Response)
    : Type 0 where
  pub base : Text
  pub below : WithoutSlash doc_root base
  pub part : Text
  pub size : ℕ
  pub file : open_file (base ++ part) ≡ opened size
  pub slash : (rest : Text) × (part ≡ b'/' ∷ rest)
  pub no_dots : find_text (codes "..") part ≡ none
  pub body : r.body ≡ content req.method (base ++ part) size
  pub type : r.content_type ≡ mime_type (base ++ part)

open_path-ok :
    (v : Text) (o : Text → OpenResult) (req : Request) (path : Text) (r : OpenResult)
    → (open_path v o req path r).status ≡ status_ok
    → (size : ℕ) × (r ≡ opened size)
      × ((open_path v o req path r).body ≡ content req.method path size)
      × ((open_path v o req path r).content_type ≡ mime_type path)
unfolding open_path serve_file not_found server_error success_head success_file
open_path-ok v o req path no_such_file h = absurd (cc)
open_path-ok v o req path (open_error m) h = absurd (cc)
open_path-ok v o req path (opened size) h = (size, refl, ground arith, ground arith)

opened-Served :
    (v : Text) (o : Text → OpenResult) (req : Request) (doc_root : Text)
    → illegal_target req.target ≡ false
    → (open_path v o req
        (root doc_root ++ named req.target)
        (o (root doc_root ++ named req.target))).status
      ≡ status_ok
    → Served o req doc_root (
        open_path v o req
          (root doc_root ++ named req.target)
          (o (root doc_root ++ named req.target)))
opened-Served v o req doc_root legal h =
    let path = root doc_root ++ named req.target in
    let (size, file, body, type) = open_path-ok v o req path (o path) h in
    record {
      base = root doc_root;
      below = root-WithoutSlash doc_root;
      part = named req.target;
      size = size;
      file = file;
      slash = named-slash req.target legal;
      no_dots = named-dots req.target legal;
      body = body;
      type = type;
    }

-- Whatever the request, the static handler answers 200 only with a file below the document
-- root: the root without a slash at its end, followed by a part that begins with a slash and has no "..".
pub handle_request-Served :
    (v : Text) (o : Text → OpenResult) (req : Request) (doc_root : Text)
    → (handle_request v o req doc_root).status ≡ status_ok
    → Served o req doc_root (handle_request v o req doc_root)
unfolding handle_request bad_request
handle_request-Served v o req doc_root = elim (Bool-cases (is_get_or_head req.method)) [
  | inr e ↦ rw (e, handle_request) (λ h. absurd (cc))
  | inl e ↦ elim (Bool-cases (illegal_target req.target)) [
    | inl bad ↦ rw (e, handle_request) (rw (bad, handle_request) (λ h. absurd (cc)))
    | inr legal ↦
        rw (e, handle_request)
          (rw (legal, handle_request)
            (rw (file_path-root doc_root req.target) (opened-Served v o req doc_root legal)))
  ]
]

to_lower_idem : (c : ℕ) → to_lower (to_lower c) ≡ to_lower c
unfolding to_lower
to_lower_idem c = ground arith

to_lower-dot : (c : ℕ) → (to_lower c == b'.') ≡ (c == b'.')
unfolding to_lower
to_lower-dot c = ground arith

map-to_lower_idem : (s : Text) → map to_lower (map to_lower s) ≡ map to_lower s
map-to_lower_idem [] = refl
map-to_lower_idem (c ∷ s) = cc (to_lower_idem c, map-to_lower_idem s)

iequals-to_lower : (s t : Text) → iequals (map to_lower s) t ≡ iequals s t
unfolding iequals
iequals-to_lower s t = ap (λ x. text_eq x (map to_lower t)) (map-to_lower_idem s)

rfind-to_lower : (s : Text) → rfind_char b'.' (map to_lower s) ≡ rfind_char b'.' s
unfolding rfind_char
rfind-to_lower [] = refl
rfind-to_lower (c ∷ s) = ground (arith, to_lower-dot c, rfind-to_lower s)

drop-map : (f : ℕ → ℕ) (n : ℕ) (s : Text) → drop n (map f s) ≡ map f (drop n s)
drop-map f zero s = refl
drop-map f (suc n) [] = refl
drop-map f (suc n) (c ∷ s) = drop-map f n s

extension-to_lower : (path : Text) → extension (map to_lower path) ≡ map to_lower (extension path)
unfolding extension
extension-to_lower path = elim (Option-cases (rfind_char b'.' path)) [
  | inl e ↦ rw (rfind-to_lower path, extension) (rw (e, extension))
  | inr (i, e) ↦ rw (rfind-to_lower path, extension) (rw (e, extension) (drop-map to_lower i path))
]

type-to_lower : (ext : Text) → type_of_extension (map to_lower ext) ≡ type_of_extension ext
unfolding type_of_extension
type-to_lower ext = simp iequals-to_lower

-- The content type does not depend on the case of the path's letters.
pub mime_type-to_lower : (path : Text) → mime_type (map to_lower path) ≡ mime_type path
unfolding mime_type
mime_type-to_lower path = rw (extension-to_lower path) (type-to_lower (extension path))
