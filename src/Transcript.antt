-- ===== src/Transcript.antt =====
-- src/stt/transcript_frame.cpp and the records of
-- include/zoal_atc/stt/transcriber.hpp. A `double`, and how `json_number` prints one, are parameters.
pub mod Frame
mod Tests
use zoal_atc.Common.{
  ℕ, Bool, List, [], ◌∷◌, ◌++◌, Option, none, some, if◌then◌else◌, Bytes, codes, text_eq,
  to_decimal,
}
use zoal_atc.Json.{json_escape}
use zoal_atc.Json.Search.{json_string_field}

pub record TranscriptWord (Double : Type 0) : Type 0 where
  pub text : Bytes
  pub start_ms : ℕ
  pub end_ms : ℕ
  pub confidence : Double

pub record Transcript (Double : Type 0) : Type 0 where
  pub ok : Bool
  pub text : Bytes
  pub confidence : Double
  pub no_speech : Bool
  pub words : List (TranscriptWord Double)
  pub model : Bytes

module _ {Double : Type 0} (json_number : Double → Bytes) where
  unfoldable pub word_text : TranscriptWord Double → Bytes
  word_text word =
      codes "{\"text\":\""
      ++ (json_escape word.text
          ++ (codes "\",\"start_ms\":"
              ++ (to_decimal word.start_ms
                  ++ (codes ",\"end_ms\":"
                      ++ (to_decimal word.end_ms
                          ++ (codes ",\"confidence\":"
                              ++ (json_number word.confidence ++ codes "}")))))))

  -- The words from the second on.
  unfoldable pub more_words : List (TranscriptWord Double) → Bytes
  more_words [] = []
  more_words (word ∷ words) = codes "," ++ (word_text word ++ more_words words)

  unfoldable pub word_list : Bool → List (TranscriptWord Double) → Bytes
  word_list no_speech [] = []
  word_list no_speech (word ∷ words) =
      if no_speech
      then []
      else codes ",\"words\":[" ++ (word_text word ++ (more_words words ++ codes "]"))

  unfoldable pub build_transcript_frame : Bytes → ℕ → ℕ → Transcript Double → Bytes
  build_transcript_frame session_id sequence duration_ms transcript =
      codes "{\"type\":\"transcript\",\"session_id\":\""
      ++ (json_escape session_id
          ++ (codes "\",\"sequence\":"
              ++ (to_decimal sequence
                  ++ (codes ",\"duration_ms\":"
                      ++ (to_decimal duration_ms
                          ++ (codes ",\"confidence\":"
                              ++ (json_number transcript.confidence
                                  ++ ((if transcript.no_speech
                                        then codes ",\"no_speech\":true"
                                        else [])
                                      ++ (codes ",\"model\":\""
                                          ++ (json_escape transcript.model
                                              ++ (codes "\""
                                                  ++ (word_list transcript.no_speech
                                                        transcript.words
                                                      ++ (codes ",\"text\":\""
                                                          ++ (json_escape (
                                                            if transcript.no_speech
                                                            then []
                                                            else transcript.text)
                                                            ++ codes "\"}"))))))))))))))

-- The prompt of an stt_context frame, empty where it has none; nothing of any other frame.
abbrev pub context_of : Option Bytes → Option Bytes → Option Bytes
context_of none prompt = none
context_of (some type) prompt =
    if text_eq type (codes "stt_context")
    then some (elim prompt [ none ↦ [] | some text ↦ text ])
    else none

unfoldable pub parse_stt_context : Bytes → Option Bytes
parse_stt_context payload =
    context_of (json_string_field payload (codes "type"))
      (json_string_field payload (codes "prompt"))
