-- ===== src/Navdata/Store.antt =====
-- What the publisher of src/navdata/navdata_service.cpp answers to a request.
use zoal_atc.Common.{
  ◌≡◌, ◌≢◌, refl, ap, ◌∙◌, ◌⊎◌, inl, inr, true, false, List, [], ◌∷◌, ◌++◌, Option, none, some,
  Bool-cases, Bytes, text_eq, text_eq_iff, text_ne, All,
}
use zoal_atc.Navdata.{NavdataRequest}
use zoal_atc.Navdata.Publisher.{
  Entry, Published, find_entry, full_frame, offer, offer_all, handle_request,
}

-- One of the entries has the hash, and is what was found.
abbrev pub Found : (Bytes → Bytes) → Bytes → List Entry → Option Entry → Type 0
Found md5_hex hash entries found =
    (before : List Entry) × (entry : Entry) × (behind : List Entry) × (entries
      ≡ before ++ entry ∷ behind)
    × (md5_hex entry.text ≡ hash)
    × (found ≡ some entry)

abbrev pub Missing : (Bytes → Bytes) → Bytes → List Entry → Type 0
Missing md5_hex hash entries = All (λ (entry : Entry). md5_hex entry.text ≢ hash) entries

known_first :
    (md5_hex : Bytes → Bytes) (hash : Bytes) (entry : Entry) (p : Published)
    → text_eq (md5_hex entry.text) hash ≡ true
    → find_entry hash (offer md5_hex entry p).0 ≡ some entry
unfolding find_entry offer
known_first md5_hex hash entry p e = rw e refl

other_first :
    (md5_hex : Bytes → Bytes) (hash : Bytes) (entry : Entry) (p : Published)
    → text_eq (md5_hex entry.text) hash ≡ false
    → find_entry hash (offer md5_hex entry p).0 ≡ find_entry hash p.0
unfolding find_entry offer
other_first md5_hex hash entry p e = rw e refl

find_entry-offer_all :
    (md5_hex : Bytes → Bytes) (hash : Bytes) (entries : List Entry) (p : Published)
    → Found md5_hex hash entries (find_entry hash (offer_all md5_hex entries p).0)
      ⊎ (Missing md5_hex hash entries
          × (find_entry hash (offer_all md5_hex entries p).0 ≡ find_entry hash p.0))
unfolding offer_all
find_entry-offer_all md5_hex hash [] p = inr (tt, refl)
find_entry-offer_all md5_hex hash (entry ∷ entries) p =
    elim (find_entry-offer_all md5_hex hash entries (offer md5_hex entry p)) [
      | inl (before, e, behind, f, g, h) ↦ inl (entry ∷ before, e, behind, ap (◌∷◌ entry) f, g, h)
      | inr (missing, h) ↦ elim (Bool-cases (text_eq (md5_hex entry.text) hash)) [
        | inl same ↦ inl (
          [],
          entry,
          entries,
          refl,
          (text_eq_iff (md5_hex entry.text) hash).0 same,
          h ∙ known_first md5_hex hash entry p same,
        )
        | inr other ↦ inr (
          (text_ne (md5_hex entry.text) hash other, missing),
          h ∙ other_first md5_hex hash entry p other,
        )
      ]
    ]

-- The answer to a request: the frame of what was found.
abbrev pub Answers : (Bytes → Bytes) → List Entry → NavdataRequest → Published → Type 0
Answers md5_hex entries request p =
    ((before : List Entry) × (entry : Entry) × (behind : List Entry) × (entries
        ≡ before ++ entry ∷ behind)
      × (md5_hex entry.text ≡ request.md5)
      × (handle_request request p ≡ (true, (p.0, p.1 ++ full_frame entry request.md5 ∷ []))))
    ⊎ (Missing md5_hex request.md5 entries × (handle_request request p ≡ (false, p)))

find_entry-nil : (hash : Bytes) → find_entry hash [] ≡ none
unfolding find_entry
find_entry-nil hash = refl

-- After any texts have been offered, a request is answered with the frame of one of them whose
-- hash it names, and where none of them has that hash nothing is sent and the request is refused.
pub handle_request-Answers :
    (md5_hex : Bytes → Bytes) (entries : List Entry) (sent : List Bytes) (request : NavdataRequest)
    → Answers md5_hex entries request (offer_all md5_hex entries ([], sent))
unfolding handle_request
handle_request-Answers md5_hex entries sent request =
    elim (find_entry-offer_all md5_hex request.md5 entries ([], sent)) [
      | inl (before, entry, behind, e, f, h) ↦
          inl (before, entry, behind, e, f, rw (h, handle_request) refl)
      | inr (missing, h) ↦ inr (missing, rw (h ∙ find_entry-nil request.md5, handle_request) refl)
    ]
