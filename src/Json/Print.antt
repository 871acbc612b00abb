-- ===== src/Json/Print.antt =====
-- libs/json/JsonUtils.cpp: the printer that the logs use. The stream is the text that is written.
pub mod Lines
pub mod Indent
use management_sensors.Prelude.{ℕ, [], ◌∷◌, ◌++◌, Text, codes}
use management_sensors.Json.{Value, array, object, Items, nil, item, Members, end, member, Library}

abbrev newline : ℕ
newline = 10

-- `std::next(it) != end ? ",\n" : "\n"`
unfoldable pub items_separator : Items → Text
items_separator nil = newline ∷ []
items_separator (item v xs) = b',' ∷ newline ∷ []

unfoldable pub members_separator : Members → Text
members_separator end = newline ∷ []
members_separator (member k v m) = b',' ∷ newline ∷ []

module _ (lib : Library) where
  unfoldable mutual
    unfolding items_separator members_separator

    -- `JsonUtils::print`
    pub print : Value → Text → Text
    print (object m) indent = b'{' ∷ newline ∷ (print_members m indent ++ (indent ++ b'}' ∷ []))
    print (array xs) indent = b'[' ∷ newline ∷ (print_items xs indent ++ (indent ++ b']' ∷ []))
    print v indent = lib.serialize v

    -- The loop over an array.
    pub print_items : Items → Text → Text
    print_items nil indent = []
    print_items (item v xs) indent =
        indent
        ++ (codes "  "
            ++ (print v (indent ++ codes "  ") ++ (items_separator xs ++ print_items xs indent)))

    -- The loop over an object.
    pub print_members : Members → Text → Text
    print_members end indent = []
    print_members (member k v m) indent =
        indent
        ++ (codes "  \""
            ++ (k
                ++ (codes "\" : "
                    ++ (print v (indent ++ codes "  ")
                        ++ (members_separator m ++ print_members m indent)))))

  -- `JsonUtils::toString`
  unfoldable pub to_string : Value → Text
  to_string v = print v []
