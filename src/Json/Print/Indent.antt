-- ===== src/Json/Print/Indent.antt =====
-- The layout of `JsonUtils::print` in libs/json/JsonUtils.cpp.
use management_sensors.Prelude.{
  ℕ, ℤ, ◌≡◌, ◌≢◌, refl, sym, ap, ◌∙◌, Bool, Text, codes, [], ◌∷◌, ◌++◌, append_assoc, append-nil,
  arith, Without, All-append,
}
use management_sensors.Json.{
  Value, null, boolean, int64, uint64, double, string, array, object, Items, nil, item, Members,
  end, member, Library,
}
use management_sensors.Json.Print.Lines.{
  indent_lines, indent_lines-Without, line-indent, block-indent,
}
use management_sensors.Json.Print.{
  newline, items_separator, members_separator, print, print_items, print_members, to_string,
}

-- The keys in a value have no newline.
unfoldable mutual
  pub KeysWithout : Value → Type 0
  KeysWithout (array xs) = ItemsWithout xs
  KeysWithout (object m) = MembersWithout m
  KeysWithout _ = Unit

  pub ItemsWithout : Items → Type 0
  ItemsWithout nil = Unit
  ItemsWithout (item v xs) = KeysWithout v × ItemsWithout xs

  pub MembersWithout : Members → Type 0
  MembersWithout end = Unit
  MembersWithout (member k v m) = Without newline k × KeysWithout v × MembersWithout m

items_separator-lines :
    (before : Text) (xs : Items)
    → indent_lines before (items_separator xs) ≡ items_separator xs ++ before
unfolding items_separator
items_separator-lines before nil = ap (λ x. newline ∷ x) (append-nil before)
items_separator-lines before (item v xs) = ap (λ x. b',' ∷ newline ∷ x) (append-nil before)

members_separator-lines :
    (before : Text) (m : Members)
    → indent_lines before (members_separator m) ≡ members_separator m ++ before
unfolding members_separator
members_separator-lines before end = ap (λ x. newline ∷ x) (append-nil before)
members_separator-lines before (member k v m) = ap (λ x. b',' ∷ newline ∷ x) (append-nil before)

-- The values that the serializer writes.
data Scalar : Value → Type 0 where
  scalar_null : Scalar null
  scalar_boolean : (b : Bool) → Scalar (boolean b)
  scalar_int64 : (z : ℤ) → Scalar (int64 z)
  scalar_uint64 : (n : ℕ) → Scalar (uint64 n)
  scalar_double : (d : ℕ) → Scalar (double d)
  scalar_string : (t : Text) → Scalar (string t)

abbrev key_text : Text → Text
key_text key = codes "  \"" ++ (key ++ codes "\" : ")

module _ (lib : Library) where
  print-Scalar : (v : Value) → Scalar v → (indent : Text) → print lib v indent ≡ lib.serialize v
  unfolding print
  print-Scalar null scalar_null indent = refl
  print-Scalar _ (scalar_boolean b) indent = refl
  print-Scalar _ (scalar_int64 z) indent = refl
  print-Scalar _ (scalar_uint64 n) indent = refl
  print-Scalar _ (scalar_double d) indent = refl
  print-Scalar _ (scalar_string t) indent = refl

  print-object :
      (m : Members) (indent : Text)
      → print lib (object m) indent
        ≡ b'{' ∷ newline ∷ (print_members lib m indent ++ (indent ++ b'}' ∷ []))
  unfolding print
  print-object m indent = refl

  print-array :
      (xs : Items) (indent : Text)
      → print lib (array xs) indent
        ≡ b'[' ∷ newline ∷ (print_items lib xs indent ++ (indent ++ b']' ∷ []))
  unfolding print
  print-array xs indent = refl

  print_items-nil : (indent : Text) → print_items lib nil indent ≡ []
  unfolding print_items
  print_items-nil indent = refl

  print_members-end : (indent : Text) → print_members lib end indent ≡ []
  unfolding print_members
  print_members-end indent = refl

  print_items-item :
      (v : Value) (xs : Items) (indent : Text)
      → print_items lib (item v xs) indent
        ≡ indent
          ++ (codes "  "
              ++ (print lib v (indent ++ codes "  ")
                  ++ (items_separator xs ++ print_items lib xs indent)))
  unfolding print_items
  print_items-item v xs indent = refl

  print_members-member :
      (key : Text) (v : Value) (m : Members) (indent : Text)
      → print_members lib (member key v m) indent
        ≡ indent
          ++ (key_text key
              ++ (print lib v (indent ++ codes "  ")
                  ++ (members_separator m ++ print_members lib m indent)))
  unfolding print_members
  print_members-member key v m indent =
      ap (λ t. indent ++ (codes "  \"" ++ t))
        (sym (
          append_assoc key (codes "\" : ") (
            print lib v (indent ++ codes "  ")
            ++ (members_separator m ++ print_members lib m indent))))

module _ (lib : Library) (one_line : (v : Value) → Without newline (lib.serialize v))
    (before : Text) where
  Scalar-indent :
      (v : Value)
      → Scalar v
      → (indent : Text) → print lib v (before ++ indent) ≡ indent_lines before (print lib v indent)
  Scalar-indent v sc indent =
      print-Scalar lib v sc (before ++ indent)
      ∙ (sym (indent_lines-Without before (lib.serialize v) (one_line v))
          ∙ ap (indent_lines before) (sym (print-Scalar lib v sc indent)))

  key-Without : (key : Text) → Without newline key → Without newline (key_text key)
  key-Without key h =
      All-append (λ d. d ≢ newline) (codes "  \"") (key ++ codes "\" : ")
        (ground arith, (ground arith, (ground arith, tt)))
        (All-append (λ d. d ≢ newline) key (codes "\" : ") h
          (ground arith, (ground arith, (ground arith, (ground arith, tt)))))

  deeper : (indent : Text) → Without newline indent → Without newline (indent ++ codes "  ")
  deeper indent h =
      All-append (λ d. d ≢ newline) indent (codes "  ") h (ground arith, (ground arith, tt))

  mutual
    unfolding KeysWithout ItemsWithout MembersWithout

    print-indent :
        (v : Value) (indent : Text)
        → Without newline indent
        → KeysWithout v
        → print lib v (before ++ indent) ≡ indent_lines before (print lib v indent)
    print-indent (object m) indent h k =
        let inside = print_members-indent m indent h k in
        print-object lib m (before ++ indent)
        ∙ (block-indent before indent (print_members lib m indent)
              (print_members lib m (before ++ indent)) b'{' b'}' (λ t. refl) refl
              (indent_lines-Without before indent h) inside
            ∙ ap (indent_lines before) (sym (print-object lib m indent)))
    print-indent (array xs) indent h k =
        let inside = print_items-indent xs indent h k in
        print-array lib xs (before ++ indent)
        ∙ (block-indent before indent (print_items lib xs indent)
              (print_items lib xs (before ++ indent)) b'[' b']' (λ t. refl) refl
              (indent_lines-Without before indent h) inside
            ∙ ap (indent_lines before) (sym (print-array lib xs indent)))
    print-indent null indent h k = Scalar-indent null scalar_null indent
    print-indent (boolean b) indent h k = Scalar-indent (boolean b) (scalar_boolean b) indent
    print-indent (int64 z) indent h k = Scalar-indent (int64 z) (scalar_int64 z) indent
    print-indent (uint64 n) indent h k = Scalar-indent (uint64 n) (scalar_uint64 n) indent
    print-indent (double d) indent h k = Scalar-indent (double d) (scalar_double d) indent
    print-indent (string t) indent h k = Scalar-indent (string t) (scalar_string t) indent

    print_items-indent :
        (xs : Items) (indent : Text)
        → Without newline indent
        → ItemsWithout xs
        → print_items lib xs (before ++ indent) ++ before
          ≡ before ++ indent_lines before (print_items lib xs indent)
    print_items-indent nil indent h k =
        ap (λ t. t ++ before) (print_items-nil lib (before ++ indent))
        ∙ (sym (append-nil before)
            ∙ ap (λ t. before ++ indent_lines before t) (sym (print_items-nil lib indent)))
    print_items-indent (item v xs) indent h (kv, k) =
        let value =
          ap (print lib v) (append_assoc before indent (codes "  "))
          ∙ print-indent v (indent ++ codes "  ") (deeper indent h) kv in
        ap (λ t. t ++ before) (print_items-item lib v xs (before ++ indent))
        ∙ (line-indent before indent (codes "  ") (print lib v (indent ++ codes "  "))
              (print lib v ((before ++ indent) ++ codes "  ")) (items_separator xs)
              (print_items lib xs indent) (print_items lib xs (before ++ indent))
              (indent_lines-Without before indent h) refl value (items_separator-lines before xs)
              (print_items-indent xs indent h k)
            ∙ ap (λ t. before ++ indent_lines before t) (sym (print_items-item lib v xs indent)))

    print_members-indent :
        (m : Members) (indent : Text)
        → Without newline indent
        → MembersWithout m
        → print_members lib m (before ++ indent) ++ before
          ≡ before ++ indent_lines before (print_members lib m indent)
    print_members-indent end indent h k =
        ap (λ t. t ++ before) (print_members-end lib (before ++ indent))
        ∙ (sym (append-nil before)
            ∙ ap (λ t. before ++ indent_lines before t) (sym (print_members-end lib indent)))
    print_members-indent (member key v m) indent h (kk, kv, k) =
        let value =
          ap (print lib v) (append_assoc before indent (codes "  "))
          ∙ print-indent v (indent ++ codes "  ") (deeper indent h) kv in
        ap (λ t. t ++ before) (print_members-member lib key v m (before ++ indent))
        ∙ (line-indent before indent (key_text key) (print lib v (indent ++ codes "  "))
              (print lib v ((before ++ indent) ++ codes "  ")) (members_separator m)
              (print_members lib m indent) (print_members lib m (before ++ indent))
              (indent_lines-Without before indent h)
              (indent_lines-Without before (key_text key) (key-Without key kk)) value
              (members_separator-lines before m) (print_members-indent m indent h k)
            ∙ ap (λ t. before ++ indent_lines before t)
                (sym (print_members-member lib key v m indent)))

  -- If the serializer writes one line and no key has a newline, then what `print` writes at an indent is
  -- what `toString` writes, with the indent after each newline.
  pub print-to_string :
      (v : Value) → KeysWithout v → print lib v before ≡ indent_lines before (to_string lib v)
  unfolding to_string
  print-to_string v k = ap (print lib v) (sym (append-nil before)) ∙ print-indent v [] tt k
