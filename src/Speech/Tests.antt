-- ===== src/Speech/Tests.antt =====
-- Replies that src/transport/speech_text.cpp prepares.
use zoal_atc.Common.{◌≡◌, refl, codes, text_eq}
use zoal_atc.Speech.{
  radio_text, take_chars, take_char, flush_word, expand_word, without_stop, ends_with_stop,
  is_frequency, digit_speech, shortened,
}

frequency :
    radio_text (codes "N123AB, contact  Tower 133.400.")
    ≡ codes "N123AB, contact Tower one three three point four."
unfolding radio_text take_chars take_char flush_word expand_word without_stop ends_with_stop
    is_frequency digit_speech shortened text_eq
frequency = refl

heading :
    radio_text (codes ", Heading 240; climb 3000, altimeter 29.92")
    ≡ codes "Heading two four zero; climb 3000, altimeter 29.92"
unfolding radio_text take_chars take_char flush_word expand_word without_stop ends_with_stop
    is_frequency digit_speech shortened text_eq
heading = refl
