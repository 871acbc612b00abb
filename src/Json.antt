-- ===== src/Json.antt =====
-- boost::json as the program uses it. A value is the documented sum of its kinds; an object keeps its
-- members in the order of insertion. The parser and the serializer, which are not the program's, are
-- fields of `Library`, and so are the texts of the exceptions that the accessors throw. A double is
-- the bit pattern of its IEEE format: the program only passes doubles on.
pub mod Print
use management_sensors.Prelude.{
  ℕ, ℤ, ◌≡◌, refl, ap, arith, text_eq_iff, Bool, true, false, Text, text_eq, Outcome, ok, throw,
  std_exception, Option, none, some, if◌then◌else◌,
}

mutual
  pub data Value : Type 0 where
    null : Value
    boolean : Bool → Value
    int64 : ℤ → Value
    uint64 : ℕ → Value
    double : ℕ → Value
    string : Text → Value
    array : Items → Value
    object : Members → Value

  pub data Items : Type 0 where
    nil : Items
    item : Value → Items → Items

  pub data Members : Type 0 where
    end : Members
    member : Text → Value → Members → Members

pub record Library : Type 0 where
  pub parse : Text → Outcome Value
  pub serialize : Value → Text
  pub wrong_kind : Text
  pub no_such_key : Text

-- obj.find(key), on which `contains` and `at` rest.
unfoldable pub find : Text → Members → Option Value
find k end = none
find k (member j v m) = if text_eq j k then some v else find k m

-- obj.contains(key)
unfoldable pub contains : Text → Members → Bool
contains k m = elim (find k m) [ none ↦ false | some v ↦ true ]

-- obj[key] = v: an old member keeps its place, a new one goes to the end.
unfoldable pub set : Text → Value → Members → Members
set k v end = member k v end
set k v (member j w m) = if text_eq j k then member j v m else member j w (set k v m)

module _ (lib : Library) where
  -- obj.at(key)
  unfoldable pub at : Text → Members → Outcome Value
  at k m = elim (find k m) [ none ↦ throw (std_exception lib.no_such_key) | some v ↦ ok v ]

  unfoldable pub as_object : Value → Outcome Members
  as_object (object m) = ok m
  as_object _ = throw (std_exception lib.wrong_kind)

  -- as_string(), and value_to<std::string>.
  unfoldable pub as_string : Value → Outcome Text
  as_string (string t) = ok t
  as_string _ = throw (std_exception lib.wrong_kind)

  unfoldable pub as_int64 : Value → Outcome ℤ
  as_int64 (int64 z) = ok z
  as_int64 _ = throw (std_exception lib.wrong_kind)

  unfoldable pub as_bool : Value → Outcome Bool
  as_bool (boolean b) = ok b
  as_bool _ = throw (std_exception lib.wrong_kind)

  unfoldable pub as_double : Value → Outcome ℕ
  as_double (double d) = ok d
  as_double _ = throw (std_exception lib.wrong_kind)

pub find-set :
    (k j : Text) (v : Value) (m : Members)
    → find j (set k v m) ≡ (if text_eq k j then some v else find j m)
unfolding find set
find-set k j v end = refl
find-set k j v (member i w m) =
    ground (arith, find-set k j v m, text_eq_iff i k, text_eq_iff i j, text_eq_iff k j)

-- `at` sees of an object only what `find` finds.
pub at-same :
    (lib : Library) (k : Text) (m m' : Members) → find k m' ≡ find k m → at lib k m' ≡ at lib k m
unfolding at
at-same lib k m m' e =
    ap (λ o. elim o [ none ↦ throw (std_exception lib.no_such_key) | some v ↦ ok v ]) e
