-- ===== src/Json/Object.antt =====
-- `json_raw_field` of src/transport/json_util.cpp against an association list.
use zoal_atc.Common.{
  ◌≡◌, refl, ap, ◌∙◌, Option, none, some, List, [], ◌∷◌, ◌++◌, arith, if◌then◌else◌, ◌>>=◌, Bytes,
  text_eq, take-prefix, map, append_assoc, All,
}
use zoal_atc.Json.{skip_ws, expect, raw_field_at, json_raw_field, json_escape}
use zoal_atc.Json.Escape.{shown, parse_string_at-escape}
use zoal_atc.Json.Fuel.{fields_loop, fields_loop_step}
use zoal_atc.Json.Values.{
  obj, Members, end, member, quoted, print, print_members, print_more_members, MembersWellFormed,
}
use zoal_atc.Json.Nesting.{quoted-append}
use zoal_atc.Json.Skip.{Stops, IsRaw, print-IsRaw}

-- An object as its keys, each with the text of its value.
abbrev pub Field : Type 0
Field = Bytes × Bytes

abbrev pub more_text : List Field → Bytes
more_text [] = []
more_text ((k, v) ∷ fs) = b',' ∷ (quoted k ++ (b':' ∷ v ++ more_text fs))

abbrev pub fields_text : List Field → Bytes
fields_text [] = []
fields_text ((k, v) ∷ fs) = quoted k ++ (b':' ∷ v ++ more_text fs)

-- The compact text of the object.
abbrev pub object_text : List Field → Bytes
object_text fs = b'{' ∷ fields_text fs ++ b'}' ∷ []

-- The first value whose key, as the reader shows it, is this key.
unfoldable pub lookup_field : Bytes → List Field → Option Bytes
lookup_field key [] = none
lookup_field key ((k, v) ∷ fs) = if text_eq (map shown k) key then some v else lookup_field key fs

skip_ws-raw : (v rest : Bytes) → IsRaw v → skip_ws (v ++ rest) ≡ v ++ rest
unfolding skip_ws
skip_ws-raw [] rest h = absurd h.starts
skip_ws-raw (c ∷ v) rest h = rw h.starts

raw_field_at-field :
    (next : Bytes → Option Bytes) (key k v rest : Bytes)
    → IsRaw v
    → Stops rest
    → raw_field_at next key (b'"' ∷ json_escape k ++ b'"' ∷ b':' ∷ (v ++ rest))
      ≡ (if text_eq (map shown k) key then some v else (expect b',' (skip_ws rest) >>= next))
unfolding raw_field_at expect skip_ws
raw_field_at-field next key k v rest h s = ground (
  arith,
  parse_string_at-escape k (b':' ∷ (v ++ rest)),
  skip_ws-raw v rest h,
  h.skipped rest s,
  take-prefix v rest,
)

field-append :
    (k v more rest : Bytes)
    → (quoted k ++ (b':' ∷ v ++ more)) ++ rest
      ≡ b'"' ∷ json_escape k ++ b'"' ∷ b':' ∷ (v ++ (more ++ rest))
field-append k v more rest =
    append_assoc (quoted k) (b':' ∷ v ++ more) rest
    ∙ quoted-append k ((b':' ∷ v ++ more) ++ rest)
    ∙ ap (λ (t : Bytes). b'"' ∷ json_escape k ++ b'"' ∷ b':' ∷ t) (append_assoc v more rest)

more-Stops : (fs : List Field) (rest : Bytes) → Stops (more_text fs ++ b'}' ∷ rest)
more-Stops [] rest = refl
more-Stops ((k, v) ∷ fs) rest = refl

-- The loop from a field on, and from what follows a field on.
loop-field :
    (key k v : Bytes) (fs : List Field) (rest : Bytes)
    → IsRaw v
    → fields_loop key ((quoted k ++ (b':' ∷ v ++ more_text fs)) ++ b'}' ∷ rest) ≡ (
        if text_eq (map shown k) key
        then some v
        else (expect b',' (skip_ws (more_text fs ++ b'}' ∷ rest)) >>= fields_loop key))
unfolding skip_ws
loop-field key k v fs rest h =
    ap (fields_loop key) (field-append k v (more_text fs) (b'}' ∷ rest))
    ∙ fields_loop_step key _
    ∙ raw_field_at-field (fields_loop key) key k v _ h (more-Stops fs rest)

loop-more :
    (key : Bytes) (fs : List Field) (rest : Bytes)
    → All (λ f. IsRaw f.1) fs
    → (expect b',' (skip_ws (more_text fs ++ b'}' ∷ rest)) >>= fields_loop key)
      ≡ lookup_field key fs
unfolding lookup_field expect skip_ws
loop-more key [] rest h = refl
loop-more key ((k, v) ∷ fs) rest (h, hs) =
    loop-field key k v fs rest h
    ∙ ap (λ (r : Option Bytes). if text_eq (map shown k) key then some v else r)
        (loop-more key fs rest hs)

loop-fields :
    (key : Bytes) (fs : List Field) (rest : Bytes)
    → All (λ f. IsRaw f.1) fs
    → fields_loop key (fields_text fs ++ b'}' ∷ rest) ≡ lookup_field key fs
loop-fields key [] rest h =
    fields_loop_step key (b'}' ∷ rest) ∙ unfold skip_ws raw_field_at lookup_field in refl
loop-fields key ((k, v) ∷ fs) rest (h, hs) =
    loop-field key k v fs rest h
    ∙ unfold lookup_field in
      ap (λ (r : Option Bytes). if text_eq (map shown k) key then some v else r)
        (loop-more key fs rest hs)

-- Read from the compact text of an object, the raw field of a key is the text of the first value at
-- the top level whose own key, as it is `shown`, is that key, and there is none if there is no such
-- key; what is nested in the values never answers, whatever keys, quotes and brackets it holds. Each
-- value's text is one that `skip_value` steps over, such as any well-formed JSON value.
pub json_raw_field-object_text :
    (key : Bytes) (fs : List Field)
    → All (λ f. IsRaw f.1) fs
    → json_raw_field (object_text fs) key ≡ lookup_field key fs
unfolding json_raw_field skip_ws expect
json_raw_field-object_text key fs h = loop-fields key fs [] h

-- An object of well-formed values, as such a list.
abbrev pub fields_of : Members → List Field
fields_of end = []
fields_of (member k v ms) = (k, print v) ∷ fields_of ms

more_text-fields_of : (ms : Members) → print_more_members ms ≡ more_text (fields_of ms)
more_text-fields_of end = refl
more_text-fields_of (member k v ms) =
    ap (λ (t : Bytes). b',' ∷ (quoted k ++ (b':' ∷ print v ++ t))) (more_text-fields_of ms)

fields_text-fields_of : (ms : Members) → print_members ms ≡ fields_text (fields_of ms)
fields_text-fields_of end = refl
fields_text-fields_of (member k v ms) =
    ap (λ (t : Bytes). quoted k ++ (b':' ∷ print v ++ t)) (more_text-fields_of ms)

fields_of-IsRaw : (ms : Members) → MembersWellFormed ms → All (λ f. IsRaw f.1) (fields_of ms)
fields_of-IsRaw end h = tt
fields_of-IsRaw (member k v ms) (h, hs) = (print-IsRaw v h, fields_of-IsRaw ms hs)

-- Read from the compact text of a JSON object with well-formed values, the raw field of a key is
-- the text of the first value at the top level whose own key is read as that key, and there is
-- none if no key at the top level is. A key is read as it was written, but for each control
-- character without a short escape, which is read as `?` (`shown`).
pub json_raw_field-print :
    (key : Bytes) (ms : Members)
    → MembersWellFormed ms
    → json_raw_field (print (obj ms)) key ≡ lookup_field key (fields_of ms)
json_raw_field-print key ms h =
    ap (λ (t : Bytes). json_raw_field (b'{' ∷ t ++ b'}' ∷ []) key) (fields_text-fields_of ms)
    ∙ json_raw_field-object_text key (fields_of ms) (fields_of-IsRaw ms h)
