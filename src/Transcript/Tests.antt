-- ===== src/Transcript/Tests.antt =====
-- A transcript's frame at a turn of two words; a `double` is its printed text here.
use zoal_atc.Common.{◌≡◌, true, false, [], ◌∷◌, Bytes, codes}
use zoal_atc.Json.Values.{obj, print}
use zoal_atc.Transcript.{Transcript, build_transcript_frame}
use zoal_atc.Transcript.Frame.{transcript_members, build_transcript_frame-print}

abbrev heard : Transcript Bytes
heard = record {
  ok = true;
  text = codes "request taxi";
  confidence = codes "0.9";
  no_speech = false;
  words =
      record { text = codes "request"; start_ms = 0; end_ms = 400; confidence = codes "1" }
      ∷ record { text = codes "taxi"; start_ms = 400; end_ms = 700; confidence = codes "0.8" }
      ∷ [];
  model = codes "small \"en\"";
}

build_transcript_frame-print_example :
    build_transcript_frame (λ (text : Bytes). text) (codes "me") 3 700 heard
    ≡ print (obj (transcript_members (λ (text : Bytes). text) (codes "me") 3 700 heard))
build_transcript_frame-print_example =
    build_transcript_frame-print (λ (text : Bytes). text) (codes "me") 3 700 heard
