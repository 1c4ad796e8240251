-- ===== src/Json/Tests.antt =====
-- Runs of the readers, and their theorems at them.
use zoal_atc.Common.{◌≡◌, refl, true, [], ◌∷◌, ◌++◌, some, codes, map, arith}
use zoal_atc.Json.{
  json_raw_field, json_unquote, json_escape, skip_value, parse_string_at, string_body, skip_ws,
  expect,
}
use zoal_atc.Json.Search.{
  json_string_field, json_string_array_field, array_at, array_loop, field_value_pos, value_loop,
  find_behind, quoted_key,
}
use zoal_atc.Json.Found.{Binds, field_value_pos-Binds}
use zoal_atc.Json.Escape.{shown, unquote-escape}
use zoal_atc.Json.Values.{
  null, bool, num, str, arr, obj, nil, item, Members, end, member, print, MembersWellFormed,
}
use zoal_atc.Json.Skip.{skip_value-print}
use zoal_atc.Json.Object.{lookup_field, fields_of, json_raw_field-print}

-- A string that looks like the end of the object, and a nested field of the same name.
abbrev members : Members
members = member (codes "note") (str (codes "}\",\"ok\":true")) (
    member (codes "inner") (obj (member (codes "ok") (bool true) end))
      (member (codes "ok") (arr (item (num (codes "17")) (item null nil))) end))

members-WellFormed : MembersWellFormed members
members-WellFormed = ground arith

json_raw_field-print_example :
    json_raw_field (print (obj members)) (codes "ok")
    ≡ lookup_field (codes "ok") (fields_of members)
json_raw_field-print_example = json_raw_field-print (codes "ok") members members-WellFormed

skip_value-print_example : skip_value (print (obj members) ++ codes ",7") ≡ some (codes ",7")
skip_value-print_example = skip_value-print (obj members) (codes ",7") members-WellFormed refl

unquote-escape_example :
    json_unquote (b'"' ∷ json_escape (codes "a\"\\b") ++ b'"' ∷ [])
    ≡ some (map shown (codes "a\"\\b"))
unquote-escape_example = unquote-escape (codes "a\"\\b")

-- The older readers look anywhere: a key that stands in a nested object comes first.
nested_first :
    json_string_field (codes "{\"a\":{\"type\":\"x\"},\"type\":\"y\"}") (codes "type")
    ≡ some (codes "x")
unfolding json_string_field parse_string_at string_body field_value_pos value_loop find_behind
    skip_ws expect
nested_first = refl

topics :
    json_string_array_field (codes "{\"t\" : [ \"a\", \"b\" ]}") (codes "t")
    ≡ codes "a" ∷ codes "b" ∷ []
unfolding json_string_array_field array_at array_loop parse_string_at string_body field_value_pos
    value_loop find_behind skip_ws expect
topics = refl

spaced : field_value_pos (codes "{\"id\" : 7}") (codes "id") ≡ some (codes "7}")
unfolding field_value_pos value_loop find_behind skip_ws expect
spaced = refl

field_value_pos-Binds_example : Binds (quoted_key (codes "id")) (codes "{\"id\" : 7}") (codes "7}")
field_value_pos-Binds_example =
    field_value_pos-Binds (codes "{\"id\" : 7}") (codes "id") (codes "7}") spaced
