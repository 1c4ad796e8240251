-- ===== src/Navdata/Ends.antt =====
-- The ends of the lines that src/navdata/navdata_service.cpp reads.
use zoal_atc.Common.{
  ℕ, ◌≡◌, ◌≢◌, refl, ap, Bool, true, false, [], ◌∷◌, ◌++◌, if◌then◌else◌, Bytes, All, All-append,
  arith,
}
use zoal_atc.Navdata.Lines.{without_cr}

-- A line as it stands in the file, with or without a carriage return at its end.
abbrev pub ended : Bool → Bytes → Bytes
ended crlf line = if crlf then line ++ 13 ∷ [] else line

-- No line break of either kind is in it.
abbrev pub IsLine : Bytes → Type 0
IsLine line = All (λ (c : ℕ). (c ≢ 10) × (c ≢ 13)) line

without_cr-snoc : (line : Bytes) → without_cr (line ++ 13 ∷ []) ≡ line
unfolding without_cr
without_cr-snoc [] = refl
without_cr-snoc (c ∷ []) = refl
without_cr-snoc (c ∷ d ∷ line) = ap (◌∷◌ c) (without_cr-snoc (d ∷ line))

without_cr-IsLine : (line : Bytes) → IsLine line → without_cr line ≡ line
unfolding without_cr
without_cr-IsLine [] h = refl
without_cr-IsLine (c ∷ []) ((a, b), h) = ground arith
without_cr-IsLine (c ∷ d ∷ line) (a, h) = ap (◌∷◌ c) (without_cr-IsLine (d ∷ line) h)

pub without_cr-ended :
    (crlf : Bool) (line : Bytes) → IsLine line → without_cr (ended crlf line) ≡ line
without_cr-ended true line h = without_cr-snoc line
without_cr-ended false line h = without_cr-IsLine line h

IsLine-All : (line : Bytes) → IsLine line → All (λ (c : ℕ). c ≢ 10) line
IsLine-All [] h = tt
IsLine-All (c ∷ line) ((a, b), h) = (a, IsLine-All line h)

pub ended-All :
    (crlf : Bool) (line : Bytes) → IsLine line → All (λ (c : ℕ). c ≢ 10) (ended crlf line)
ended-All true line h =
    All-append (λ (c : ℕ). c ≢ 10) line (13 ∷ []) (IsLine-All line h) ((λ e. omega (arith, e)), tt)
ended-All false line h = IsLine-All line h
