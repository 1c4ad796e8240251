-- ===== src/Navdata/Tests.antt =====
-- The navigation data (src/navdata/navdata_service.cpp) at concrete inputs. Places are numbers here, a
-- place is valid unless it is zero, and near if the latitudes are the same.
use zoal_atc.Common.{
  ℕ, ◌+◌, ◌/◌, ◌≡◌, refl, Bool, true, false, not, List, [], ◌∷◌, arith, ◌==◌, Bytes, codes, length,
  text_eq, All, ◌&&◌, ◌≢◌, text_ne, inl, inr,
}
use zoal_atc.Navdata.{NavdataRequest, apt, vrp, build_navdata_frame, build_fixes_frame}
use zoal_atc.Navdata.Lines.{is_header_code}
use zoal_atc.Navdata.Blocks.{Geometry, extract_airport_blocks}
use zoal_atc.Navdata.Publisher.{Entry, entry_of, offer_all, full_frame}
use zoal_atc.Json.{is_space, json_escape}
use zoal_atc.Navdata.Ends.{IsLine}
use zoal_atc.Navdata.Fields.{
  Field, IsField, Stops, Kind, airport, seaplane_base, heliport, row_code, IsPlain,
}
use zoal_atc.Navdata.File.{
  FileRow, Airfield, IsFileRow, IsAirfield, file_text, last_row, selected,
  extract_airport_blocks-file_text,
}
use zoal_atc.Navdata.Store.{Answers, handle_request-Answers}

abbrev flat_earth : Geometry ℕ
flat_earth = record {
  zero = 0;
  read = length;
  halfway = λ a b. (a + b) / 2;
  valid = λ lat lon. not (lat == 0);
  near = λ p q radius. p.0 == q.0;
  positive = λ r. not (r == 0);
}

-- A field behind two spaces.
abbrev spaced : Bytes → Field
spaced word = record { space = b' '; gap = codes " "; word = word }

abbrev skyport : Airfield
skyport = record {
  crlf = true;
  header = record {
    kind = heliport;
    elevation = spaced (codes "13");
    tower = spaced (codes "1");
    buildings = spaced (codes "0");
    ident = spaced (codes "6n5");
    behind = codes " East 34 St";
  };
  rows =
      (true, record { code = codes "1201"; behind = codes " 40 73" })
      ∷ (false, record { code = []; behind = [] })
      ∷ [];
}

abbrev klga : Airfield
klga = record {
  crlf = false;
  header = record {
    kind = airport;
    elevation = spaced (codes "21");
    tower = spaced (codes "1");
    buildings = spaced (codes "0");
    ident = spaced (codes "KLGA");
    behind = [];
  };
  rows = [];
}

abbrev prelude : List FileRow
prelude = (true, record { code = codes "I"; behind = [] }) ∷ []

-- Tests for the conditions on a line and on a word.
is_line : Bytes → Bool
is_line [] = true
is_line (c ∷ line) = not (c == 10) && (not (c == 13) && is_line line)

is_line-IsLine : (line : Bytes) → is_line line ≡ true → IsLine line
unfolding is_line
is_line-IsLine [] h = tt
is_line-IsLine (c ∷ line) h = ((ground arith, ground arith), is_line-IsLine line (ground arith))

no_space : Bytes → Bool
no_space [] = true
no_space (c ∷ word) = not (is_space c) && no_space word

no_space-All : (word : Bytes) → no_space word ≡ true → All (λ (c : ℕ). is_space c ≡ false) word
unfolding no_space
no_space-All [] h = tt
no_space-All (c ∷ word) h = (ground arith, no_space-All word (ground arith))

spaced-IsField : (c : ℕ) (word : Bytes) → no_space (c ∷ word) ≡ true → IsField (spaced (c ∷ word))
spaced-IsField c word h = (refl, (refl, tt), ((λ e. cc), no_space-All (c ∷ word) h))

word-IsPlain :
    (c : ℕ) (word behind : Bytes)
    → no_space (c ∷ word) ≡ true
    → Stops behind
    → is_header_code (c ∷ word) ≡ false
    → IsPlain (record { code = c ∷ word; behind = behind })
unfolding text_eq
word-IsPlain c word behind h s n = inr (((λ e. cc), no_space-All (c ∷ word) h), s, other)
  where
    other : (kind : Kind) → (c ∷ word) ≢ row_code kind
    other airport = text_ne _ _ (ground (arith, n))
    other seaplane_base = text_ne _ _ (ground (arith, n))
    other heliport = text_ne _ _ (ground (arith, n))

prelude_rows : All IsFileRow prelude
prelude_rows = (
  (
    word-IsPlain b'I' [] [] (unfold no_space in refl) tt (unfold text_eq in refl),
    is_line-IsLine (codes "I") (unfold is_line in refl),
    text_ne _ _ (unfold text_eq in refl),
  ),
  tt,
)

skyport_is : IsAirfield skyport
unfolding no_space is_line text_eq
skyport_is = (
  (
    (
      spaced-IsField b'1' (codes "3") refl,
      (
        spaced-IsField b'1' [] refl,
        (spaced-IsField b'0' [] refl, (spaced-IsField b'6' (codes "n5") refl, tt)),
      ),
    ),
    refl,
  ),
  is_line-IsLine (codes "17  13  1  0  6n5 East 34 St") refl,
  (
    (
      word-IsPlain b'1' (codes "201") (codes " 40 73") refl refl refl,
      is_line-IsLine (codes "1201 40 73") refl,
      text_ne _ _ refl,
    ),
    ((inl (refl, refl), tt, text_ne _ _ refl), tt),
  ),
)

klga_is : IsAirfield klga
unfolding no_space is_line
klga_is = (
  (
    (
      spaced-IsField b'2' (codes "1") refl,
      (
        spaced-IsField b'1' [] refl,
        (spaced-IsField b'0' [] refl, (spaced-IsField b'K' (codes "LGA") refl, tt)),
      ),
    ),
    tt,
  ),
  is_line-IsLine (codes "1  21  1  0  KLGA") refl,
  tt,
)

extract_airport_blocks-file_text_example :
    extract_airport_blocks flat_earth
      (file_text prelude (skyport ∷ klga ∷ []) (last_row true (codes " ")))
      (codes "6N5" ∷ [])
    ≡ selected (codes "6N5" ∷ []) (skyport ∷ klga ∷ [])
extract_airport_blocks-file_text_example =
    extract_airport_blocks-file_text flat_earth prelude (skyport ∷ klga ∷ []) true (codes " ")
      (codes "6N5" ∷ []) prelude_rows (skyport_is, (klga_is, tt)) refl
      (is_line-IsLine (codes "99 ") (unfold is_line in refl))

-- The lines of the heliport alone, each ended by a newline.
selected-skyport :
    selected (codes "6N5" ∷ []) (skyport ∷ klga ∷ [])
    ≡ codes "17  13  1  0  6n5 East 34 St\n1201 40 73\n\n"
unfolding text_eq
selected-skyport = refl

-- A hash of one byte, for the length.
abbrev by_length : Bytes → Bytes
by_length text = length text ∷ []

abbrev two_entries : List Entry
two_entries =
    entry_of apt (codes "KJFK") (codes "global") (codes "abc")
    ∷ entry_of vrp [] (codes "global") (codes "de")
    ∷ []

abbrev asked : NavdataRequest
asked = record { kind = vrp; scan = false; icao = []; md5 = 2 ∷ []; file = [] }

handle_request-Answers_example :
    Answers by_length two_entries asked (offer_all by_length two_entries ([], []))
handle_request-Answers_example = handle_request-Answers by_length two_entries [] asked

-- The whole frame of a text holds it, with its hash and where it is from.
full_frame-apt :
    full_frame (entry_of apt (codes "KJFK") (codes "global") (codes "1 \"x\"")) (codes "ab")
    ≡ codes
        "{\"type\":\"navdata_apt\",\"icao\":\"KJFK\",\"md5\":\"ab\",\"source\":\"global\",\"text\":\"1 \\\"x\\\"\"}"
unfolding full_frame build_navdata_frame build_fixes_frame json_escape
full_frame-apt = refl
