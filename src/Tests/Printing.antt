-- ===== src/Tests/Printing.antt =====
-- Values as the logs show them: libs/json/JsonUtils.cpp.
use management_sensors.Prelude.{◌≡◌, refl, codes, ok, arith, []}
use management_sensors.Json.{Value, null, array, item, nil, object, set, end, Library}
use management_sensors.Json.Print.{print, to_string}
use management_sensors.Json.Print.Lines.{indent_lines}
use management_sensors.Json.Print.Indent.{KeysWithout, print-to_string}

-- A serializer that writes every value as a one.
abbrev ones : Library
ones = record {
  parse = λ t. ok null;
  serialize = λ v. codes "1";
  wrong_kind = [];
  no_such_key = [];
}

abbrev two_ones : Value
two_ones = object (set (codes "a") (array (item null (item null nil))) end)

two_ones-KeysWithout : KeysWithout two_ones
unfolding KeysWithout set
two_ones-KeysWithout = ((ground arith, tt), (tt, (tt, tt)), tt)

print-to_string_example :
    print ones two_ones (codes "> ") ≡ indent_lines (codes "> ") (to_string ones two_ones)
print-to_string_example =
    print-to_string ones (λ v. (ground arith, tt)) (codes "> ") two_ones two_ones-KeysWithout

two_ones-text : to_string ones two_ones ≡ codes "{\n  \"a\" : [\n    1,\n    1\n  ]\n}"
unfolding to_string print set
two_ones-text = refl
