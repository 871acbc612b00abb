-- ===== src/Json/Print/Lines.antt =====
-- Texts of several lines, for libs/json/JsonUtils.cpp.
use management_sensors.Prelude.{
  ℕ, ◌≡◌, refl, sym, ap, ◌∙◌, inl, inr, Bool-cases, Text, [], ◌∷◌, ◌++◌, append_assoc,
  if◌then◌else◌, ◌==◌, arith, Without,
}
use management_sensors.Json.Print.{newline}

-- The text with `before` after each newline.
abbrev pub indent_lines : Text → Text → Text
indent_lines before [] = []
indent_lines before (c ∷ t) =
    let rest = indent_lines before t in if c == newline then c ∷ (before ++ rest) else c ∷ rest

pub indent_lines-append :
    (before s t : Text)
    → indent_lines before (s ++ t) ≡ indent_lines before s ++ indent_lines before t
indent_lines-append before [] t = refl
indent_lines-append before (c ∷ s) t = elim (Bool-cases (c == newline)) [
  | inl hit ↦ rw hit (
      ap (λ x. c ∷ x)
        (ap (λ x. before ++ x) (indent_lines-append before s t)
          ∙ sym (append_assoc before (indent_lines before s) (indent_lines before t))))
  | inr miss ↦ rw miss (ap (λ x. c ∷ x) (indent_lines-append before s t))
]

pub indent_lines-Without : (before t : Text) → Without newline t → indent_lines before t ≡ t
indent_lines-Without before [] h = refl
indent_lines-Without before (c ∷ t) (p, h) = ground (arith, p, indent_lines-Without before t h)

-- A line that starts with the indent, up to its separator, and the lines after it.
pub line-indent :
    (before indent head value value' sep rest rest' : Text)
    → indent_lines before indent ≡ indent
    → indent_lines before head ≡ head
    → value' ≡ indent_lines before value
    → indent_lines before sep ≡ sep ++ before
    → rest' ++ before ≡ before ++ indent_lines before rest
    → ((before ++ indent) ++ (head ++ (value' ++ (sep ++ rest')))) ++ before
      ≡ before ++ indent_lines before (indent ++ (head ++ (value ++ (sep ++ rest))))
line-indent before indent head value value' sep rest rest' i h v s r =
    simp (append_assoc, indent_lines-append, i, h, v, s, r) refl

-- The lines between two brackets.
pub block-indent :
    (before indent lines lines' : Text) (first last : ℕ)
    → ((t : Text)
        → indent_lines before (first ∷ newline ∷ t)
          ≡ first ∷ newline ∷ (before ++ indent_lines before t))
    → indent_lines before (last ∷ []) ≡ last ∷ []
    → indent_lines before indent ≡ indent
    → lines' ++ before ≡ before ++ indent_lines before lines
    → first ∷ newline ∷ (lines' ++ ((before ++ indent) ++ last ∷ []))
      ≡ indent_lines before (first ∷ newline ∷ (lines ++ (indent ++ last ∷ [])))
block-indent before indent lines lines' first last f l i r =
    let tail = indent ++ last ∷ [] in
    let inner : lines' ++ ((before ++ indent) ++ last ∷ [])
        ≡ before ++ indent_lines before (lines ++ tail) =
      ap (λ t. lines' ++ t) (append_assoc before indent (last ∷ []))
      ∙ (sym (append_assoc lines' before tail)
          ∙ (ap (λ t. t ++ tail) r ∙ simp (append_assoc, indent_lines-append, i, l) refl)) in
    ap (λ t. first ∷ newline ∷ t) inner ∙ sym (f (lines ++ tail))
