-- ===== src/Navdata/Fields.antt =====
-- The lines of an apt.dat as they are written, and what `line_fields`, `header_icao` and `is_terminator` of
-- src/navdata/navdata_service.cpp read of them.
use zoal_atc.Common.{
  ℕ, ◌≡◌, ◌≢◌, ◌⊎◌, inl, inr, refl, ap, ◌∙◌, Bool, true, false, List, [], ◌∷◌, ◌++◌, map, ◌==◌,
  Bytes, codes, text_eq, text_eq_iff, get_or, append_assoc, append-nil, All, arith,
}
use zoal_atc.Json.{is_space}
use zoal_atc.Endpoint.{lower, to_lower}
use zoal_atc.Navdata.Lines.{
  upper, to_upper, fields_loop, line_fields, is_header_code, header_icao, is_terminator,
}

-- A field of a line with the white space in front of it: one character and any more.
pub record Field : Type 0 where
  pub space : ℕ
  pub gap : Bytes
  pub word : Bytes

abbrev pub fields_text : List Field → Bytes → Bytes
fields_text [] rest = rest
fields_text (f ∷ fs) rest = f.space ∷ f.gap ++ (f.word ++ fields_text fs rest)

abbrev pub IsGap : Bytes → Type 0
IsGap gap = All (λ (c : ℕ). is_space c ≡ true) gap

abbrev pub IsWord : Bytes → Type 0
IsWord word = (word ≢ []) × All (λ (c : ℕ). is_space c ≡ false) word

abbrev pub IsField : Field → Type 0
IsField f = (is_space f.space ≡ true) × IsGap f.gap × IsWord f.word

-- What ends a word: the end of the line, or white space.
abbrev pub Stops : Bytes → Type 0
Stops [] = Unit
Stops (c ∷ text) = is_space c ≡ true

fields_loop-gap :
    (gap text : Bytes) → IsGap gap → fields_loop (gap ++ text) [] ≡ fields_loop text []
unfolding fields_loop
fields_loop-gap [] text h = refl
fields_loop-gap (c ∷ gap) text (h, hs) = rw h (fields_loop-gap gap text hs)

fields_loop-word :
    (word text field : Bytes)
    → All (λ (c : ℕ). is_space c ≡ false) word
    → fields_loop (word ++ text) field ≡ fields_loop text (field ++ word)
unfolding fields_loop
fields_loop-word [] text field h = rw (append-nil field) refl
fields_loop-word (c ∷ word) text field (h, hs) = rw h (
    fields_loop-word word text (field ++ c ∷ []) hs
    ∙ ap (fields_loop text) (append_assoc field (c ∷ []) word))

fields_loop-stop :
    (text word : Bytes)
    → Stops text
    → word ≢ []
    → fields_loop text word ≡ word ∷ fields_loop text []
unfolding fields_loop
fields_loop-stop text [] s h = absurd (h refl)
fields_loop-stop [] (c ∷ word) s h = refl
fields_loop-stop (d ∷ text) (c ∷ word) s h = rw s refl

line_fields-gap : (gap text : Bytes) → IsGap gap → line_fields (gap ++ text) ≡ line_fields text
unfolding line_fields
line_fields-gap gap text h = fields_loop-gap gap text h

line_fields-word :
    (word text : Bytes)
    → IsWord word
    → Stops text
    → line_fields (word ++ text) ≡ word ∷ line_fields text
unfolding line_fields
line_fields-word word text (n, h) s =
    fields_loop-word word text [] h ∙ fields_loop-stop text word s n

fields_text-Stops :
    (fs : List Field) (rest : Bytes) → All IsField fs → Stops rest → Stops (fields_text fs rest)
fields_text-Stops [] rest h s = s
fields_text-Stops (f ∷ fs) rest (h, hs) s = h.0

line_fields-text :
    (fs : List Field) (rest : Bytes)
    → All IsField fs
    → Stops rest
    → line_fields (fields_text fs rest) ≡ map (λ (f : Field). f.word) fs ++ line_fields rest
line_fields-text [] rest h s = refl
line_fields-text (f ∷ fs) rest ((sp, g, w), hs) s =
    line_fields-gap (f.space ∷ f.gap) (f.word ++ fields_text fs rest) (sp, g)
    ∙ line_fields-word f.word (fields_text fs rest) w (fields_text-Stops fs rest hs s)
    ∙ ap (◌∷◌ f.word) (line_fields-text fs rest hs s)

-- The rows that begin an airport.
pub data Kind : Type 0 where
  airport seaplane_base heliport : Kind

abbrev pub row_code : Kind → Bytes
row_code airport = codes "1"
row_code seaplane_base = codes "16"
row_code heliport = codes "17"

-- The code, three fields, the identifier, and what stands behind it.
pub record Header : Type 0 where
  pub kind : Kind
  pub elevation : Field
  pub tower : Field
  pub buildings : Field
  pub ident : Field
  pub behind : Bytes

abbrev pub header_fields : Header → List Field
header_fields h = h.elevation ∷ h.tower ∷ h.buildings ∷ h.ident ∷ []

abbrev pub header_text : Header → Bytes
header_text h = row_code h.kind ++ fields_text (header_fields h) h.behind

abbrev pub IsHeader : Header → Type 0
IsHeader h = All IsField (header_fields h) × Stops h.behind

row_code-IsWord : (kind : Kind) → IsWord (row_code kind)
row_code-IsWord airport = ((λ e. cc), (refl, tt))
row_code-IsWord seaplane_base = ((λ e. cc), (refl, (refl, tt)))
row_code-IsWord heliport = ((λ e. cc), (refl, (refl, tt)))

is_header_code-row_code : (kind : Kind) → is_header_code (row_code kind) ≡ true
is_header_code-row_code airport = unfold text_eq in refl
is_header_code-row_code seaplane_base = unfold text_eq in refl
is_header_code-row_code heliport = unfold text_eq in refl

pub header_icao-header_text :
    (h : Header) → IsHeader h → header_icao (header_text h) ≡ to_upper h.ident.word
unfolding header_icao
header_icao-header_text h (f, s) =
    let fields =
      line_fields-word (row_code h.kind) (fields_text (header_fields h) h.behind)
        (row_code-IsWord h.kind) (f.0.0)
      ∙ ap (◌∷◌ (row_code h.kind)) (line_fields-text (header_fields h) h.behind f s) in
    rw (fields, is_header_code-row_code h.kind) refl

-- A row by its code and what stands behind it; an empty one has neither.
pub record Row : Type 0 where
  pub code : Bytes
  pub behind : Bytes

abbrev pub row_text : Row → Bytes
row_text row = row.code ++ row.behind

-- A row begins no airport.
abbrev pub IsPlain : Row → Type 0
IsPlain row =
    ((row.code ≡ []) × (row.behind ≡ []))
    ⊎ (IsWord row.code × Stops row.behind × ((kind : Kind) → row.code ≢ row_code kind))

row_code-first : (row : Row) → IsPlain row → get_or (line_fields (row_text row)) 0 [] ≡ row.code
row_code-first row (inl (e, f)) = rw (e, f) (unfold line_fields fields_loop in refl)
row_code-first row (inr (w, s, n)) = rw (line_fields-word row.code row.behind w s) refl

is_header_code-row : (row : Row) → IsPlain row → is_header_code row.code ≡ false
is_header_code-row row (inl (e, f)) = rw e (unfold text_eq in refl)
is_header_code-row row (inr (w, s, n)) = ground (
  arith,
  n airport,
  n seaplane_base,
  n heliport,
  text_eq_iff row.code (codes "1"),
  text_eq_iff row.code (codes "16"),
  text_eq_iff row.code (codes "17"),
)

pub header_icao-row_text : (row : Row) → IsPlain row → header_icao (row_text row) ≡ []
unfolding header_icao
header_icao-row_text row h = rw (row_code-first row h, is_header_code-row row h) refl

pub is_terminator-row_text :
    (row : Row) → IsPlain row → is_terminator (row_text row) ≡ text_eq row.code (codes "99")
unfolding is_terminator
is_terminator-row_text row h = rw (row_code-first row h) refl

-- Whether two identifiers are the same but for small and capital letters.
abbrev pub same_ident : Bytes → Bytes → Bool
same_ident x y = text_eq (to_lower x) (to_lower y)

upper_iff_lower : (c d : ℕ) → (upper c == upper d) ≡ (lower c == lower d)
upper_iff_lower c d = ground arith

pub text_eq-to_upper : (x y : Bytes) → text_eq (to_upper x) (to_upper y) ≡ same_ident x y
unfolding text_eq
text_eq-to_upper [] [] = refl
text_eq-to_upper [] (d ∷ y) = refl
text_eq-to_upper (c ∷ x) [] = refl
text_eq-to_upper (c ∷ x) (d ∷ y) = rw (upper_iff_lower c d, text_eq-to_upper x y) refl
