-- ===== src/Transcript/Frame.antt =====
-- The text of a transcript's frame (src/stt/transcript_frame.cpp).
use zoal_atc.Common.{
  ℕ, ◌≡◌, refl, Bool, true, false, List, [], ◌∷◌, if◌then◌else◌, Bytes, codes, to_decimal,
  append_assoc,
}
use zoal_atc.Json.{json_escape}
use zoal_atc.Json.Values.{
  Value, bool, num, str, arr, obj, Items, nil, item, Members, end, member, print, print_more,
}
use zoal_atc.Transcript.{
  TranscriptWord, Transcript, word_text, more_words, word_list, build_transcript_frame,
}

module _ {Double : Type 0} (json_number : Double → Bytes) where
  abbrev pub word_value : TranscriptWord Double → Value
  word_value word = obj (
      member (codes "text") (str word.text) (
        member (codes "start_ms") (num (to_decimal word.start_ms)) (
          member (codes "end_ms") (num (to_decimal word.end_ms))
            (member (codes "confidence") (num (json_number word.confidence)) end))))

  abbrev pub word_items : List (TranscriptWord Double) → Items
  word_items [] = nil
  word_items (word ∷ words) = item (word_value word) (word_items words)

  -- A transcript of silence has the mark `no_speech`, no words and an empty text.
  abbrev pub words_member : Bool → List (TranscriptWord Double) → Members → Members
  words_member no_speech [] rest = rest
  words_member true (word ∷ words) rest = rest
  words_member false (word ∷ words) rest =
      member (codes "words") (arr (word_items (word ∷ words))) rest

  abbrev pub silence_member : Bool → Members → Members
  silence_member true rest = member (codes "no_speech") (bool true) rest
  silence_member false rest = rest

  abbrev pub transcript_members : Bytes → ℕ → ℕ → Transcript Double → Members
  transcript_members session_id sequence duration_ms transcript =
      member (codes "type") (str (codes "transcript")) (
        member (codes "session_id") (str session_id) (
          member (codes "sequence") (num (to_decimal sequence)) (
            member (codes "duration_ms") (num (to_decimal duration_ms)) (
              member (codes "confidence") (num (json_number transcript.confidence)) (
                silence_member transcript.no_speech (
                  member (codes "model") (str transcript.model) (
                    words_member transcript.no_speech transcript.words (
                      member (codes "text")
                        (str (if transcript.no_speech then [] else transcript.text)) end))))))))

  word_text-print :
      (word : TranscriptWord Double) → word_text json_number word ≡ print (word_value word)
  unfolding word_text json_escape
  word_text-print word = simp append_assoc

  more_words-print :
      (words : List (TranscriptWord Double))
      → more_words json_number words ≡ print_more (word_items words)
  unfolding more_words
  more_words-print [] = refl
  more_words-print (word ∷ words) =
      rw (word_text-print word, more_words-print words) (simp append_assoc)

  frame-print :
      (session_id : Bytes) (sequence duration_ms : ℕ) (ok : Bool) (text : Bytes)
      (confidence : Double) (no_speech : Bool) (words : List (TranscriptWord Double))
      (model : Bytes)
      → let transcript : Transcript Double = record {
        ok = ok;
        text = text;
        confidence = confidence;
        no_speech = no_speech;
        words = words;
        model = model;
      } in
        build_transcript_frame json_number session_id sequence duration_ms transcript
        ≡ print (obj (transcript_members session_id sequence duration_ms transcript))
  unfolding build_transcript_frame word_list json_escape
  frame-print session_id sequence duration_ms ok text confidence true [] model = simp append_assoc
  frame-print session_id sequence duration_ms ok text confidence true (word ∷ words) model =
      simp append_assoc
  frame-print session_id sequence duration_ms ok text confidence false [] model = simp append_assoc
  frame-print session_id sequence duration_ms ok text confidence false (word ∷ words) model =
      rw (word_text-print word, more_words-print words) (simp append_assoc)

  -- A transcript's frame is one JSON object of its fields, each word an object of its own, whatever the
  -- texts hold: a transcript of silence is marked, and has neither words nor a text. The confidences
  -- stand as `json_number` prints them.
  pub build_transcript_frame-print :
      (session_id : Bytes) (sequence duration_ms : ℕ) (transcript : Transcript Double)
      → build_transcript_frame json_number session_id sequence duration_ms transcript
        ≡ print (obj (transcript_members session_id sequence duration_ms transcript))
  build_transcript_frame-print session_id sequence duration_ms t =
      frame-print session_id sequence duration_ms t.ok t.text t.confidence t.no_speech t.words
        t.model
