-- ===== src/Speech.antt =====
-- src/transport/speech_text.cpp: a reply as the voice reads it.
mod Tests
use zoal_atc.Common.{
  ℕ, zero, suc, ◌-◌, Bool, true, false, not, ◌&&◌, ◌||◌, List, [], ◌∷◌, ◌++◌, Option, none, some,
  map, take, drop, get_or, length, ◌==◌, ltb, leb, if◌then◌else◌, Bytes, codes, text_eq,
}
use zoal_atc.Endpoint.{is_nil, to_lower}

abbrev pub digit_words : List Bytes
digit_words =
    codes "zero"
    ∷ codes "one"
    ∷ codes "two"
    ∷ codes "three"
    ∷ codes "four"
    ∷ codes "five"
    ∷ codes "six"
    ∷ codes "seven"
    ∷ codes "eight"
    ∷ codes "niner"
    ∷ []

abbrev pub is_digit : ℕ → Bool
is_digit c = leb b'0' c && leb c b'9'

abbrev pub digit_word : ℕ → Bytes
digit_word c = get_or digit_words (c - b'0') []

-- Each digit's word behind a space.
abbrev pub spaced_words : Bytes → Bytes
spaced_words [] = []
spaced_words (c ∷ digits) = b' ' ∷ (digit_word c ++ spaced_words digits)

unfoldable pub digit_speech : Bytes → Bytes
digit_speech [] = []
digit_speech (c ∷ digits) = digit_word c ++ spaced_words digits

-- A word without a full stop at its end.
unfoldable pub without_stop : Bytes → Bytes
without_stop [] = []
without_stop (c ∷ word) = if c == b'.' && is_nil word then [] else c ∷ without_stop word

unfoldable pub ends_with_stop : Bytes → Bool
ends_with_stop [] = false
ends_with_stop (c ∷ word) = if is_nil word then c == b'.' else ends_with_stop word

abbrev pub all_digits : Bytes → Bool
all_digits [] = true
all_digits (c ∷ text) = is_digit c && all_digits text

-- Whether `find('.')` gives this place.
abbrev pub dot_is_at : ℕ → Bytes → Bool
dot_is_at i [] = false
dot_is_at zero (c ∷ text) = c == b'.'
dot_is_at (suc i) (c ∷ text) = not (c == b'.') && dot_is_at i text

unfoldable pub is_frequency : Bytes → Bool
is_frequency core =
    dot_is_at 3 core
    && leb 5 (length core)
    && leb (length core) 7
    && get_or core 0 0 == b'1'
    && all_digits (take 3 core)
    && all_digits (drop 4 core)

-- Zeros at the end go, but for the first digit.
abbrev pub without_zeros : Bytes → Bytes
without_zeros [] = []
without_zeros (c ∷ digits) =
    let rest = without_zeros digits in if c == b'0' && is_nil rest then [] else c ∷ rest

unfoldable pub shortened : Bytes → Bytes
shortened [] = []
shortened (c ∷ digits) = c ∷ without_zeros digits

unfoldable pub expand_word : Bytes → Bool → Bytes
unfolding ends_with_stop without_stop is_frequency digit_speech shortened
expand_word word is_heading_value =
    let core = if ends_with_stop word then without_stop word else word in
    let tail = if ends_with_stop word then codes "." else [] in
    if is_heading_value && (length core == 3 && all_digits core)
    then digit_speech core ++ tail
    else if is_frequency core
    then digit_speech (take 3 core)
      ++ (codes " point" ++ (spaced_words (shortened (drop 4 core)) ++ tail))
    else word

pub record Reading : Type 0 where
  pub out : Bytes
  pub word : Bytes
  pub previous_word : Bytes
  pub pending_space : Bool

unfoldable pub flush_word : Reading → Reading
unfolding expand_word without_stop
flush_word r = if is_nil r.word then r else record {
  out =
      r.out
      ++ ((if r.pending_space then codes " " else [])
          ++ expand_word r.word (text_eq r.previous_word (codes "heading")));
  word = [];
  previous_word = to_lower (without_stop r.word);
  pending_space = false;
}

abbrev pub is_pause : ℕ → Bool
is_pause c = c == b',' || c == b';' || c == b':'

abbrev pub is_gap : ℕ → Bool
is_gap c = c == b' ' || c == b'\t' || c == b'\n' || c == b'\r'

unfoldable pub take_char : ℕ → Reading → Reading
unfolding flush_word
take_char c r =
    let flushed = flush_word r in
    let started = not (is_nil flushed.out) in
    if is_pause c
    then record flushed {
      out = if started then flushed.out ++ c ∷ [] else flushed.out;
      pending_space = started;
    }
    else if is_gap c
    then record flushed { pending_space = started }
    else record r { word = r.word ++ c ∷ [] }

unfoldable pub take_chars : Bytes → Reading → Reading
unfolding take_char
take_chars [] r = r
take_chars (c ∷ reply) r = take_chars reply (take_char c r)

unfoldable pub radio_text : Bytes → Bytes
unfolding take_chars
radio_text reply =
    (flush_word (
      take_chars reply
        (record { out = []; word = []; previous_word = []; pending_space = false }))).out
