-- ===== src/Json/Values.antt =====
-- JSON values and their text, as a description of what the readers are given.
use zoal_atc.Common.{
  ℕ, ◌≡◌, ◌≢◌, Bool, true, false, [], ◌∷◌, ◌++◌, ◌==◌, ◌||◌, ◌&&◌, leb, Bytes, codes, All,
}
use zoal_atc.Json.{json_escape}

-- JSON values, without white space. A number is its text.
mutual
  pub data Value : Type 0 where
    null : Value
    bool : Bool → Value
    num : Bytes → Value
    str : Bytes → Value
    arr : Items → Value
    obj : Members → Value

  pub data Items : Type 0 where
    nil : Items
    item : Value → Items → Items

  pub data Members : Type 0 where
    end : Members
    member : Bytes → Value → Members → Members

abbrev pub quoted : Bytes → Bytes
quoted s = b'"' ∷ json_escape s ++ b'"' ∷ []

abbrev mutual
  pub print : Value → Bytes
  print null = codes "null"
  print (bool true) = codes "true"
  print (bool false) = codes "false"
  print (num text) = text
  print (str s) = quoted s
  print (arr xs) = b'[' ∷ print_items xs ++ b']' ∷ []
  print (obj ms) = b'{' ∷ print_members ms ++ b'}' ∷ []

  -- Each item with a comma behind it but the last.
  pub print_items : Items → Bytes
  print_items nil = []
  print_items (item v xs) = print v ++ print_more xs

  pub print_more : Items → Bytes
  print_more nil = []
  print_more (item v xs) = b',' ∷ print v ++ print_more xs

  pub print_members : Members → Bytes
  print_members end = []
  print_members (member k v ms) = quoted k ++ (b':' ∷ print v ++ print_more_members ms)

  pub print_more_members : Members → Bytes
  print_more_members end = []
  print_more_members (member k v ms) =
      b',' ∷ (quoted k ++ (b':' ∷ print v ++ print_more_members ms))

-- A number's text: digits, signs, a point, an exponent.
abbrev pub number_char : ℕ → Bool
number_char c =
    leb b'0' c && leb c b'9' || c == b'-' || c == b'+' || c == b'.' || c == b'e' || c == b'E'

abbrev pub IsNumber : Bytes → Type 0
IsNumber text = (text ≢ []) × All (λ c. number_char c ≡ true) text

abbrev mutual
  pub IsWellFormed : Value → Type 0
  IsWellFormed null = Unit
  IsWellFormed (bool b) = Unit
  IsWellFormed (num text) = IsNumber text
  IsWellFormed (str s) = Unit
  IsWellFormed (arr xs) = AllWellFormed xs
  IsWellFormed (obj ms) = MembersWellFormed ms

  pub AllWellFormed : Items → Type 0
  AllWellFormed nil = Unit
  AllWellFormed (item v xs) = IsWellFormed v × AllWellFormed xs

  pub MembersWellFormed : Members → Type 0
  MembersWellFormed end = Unit
  MembersWellFormed (member k v ms) = IsWellFormed v × MembersWellFormed ms
