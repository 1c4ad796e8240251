-- ===== src/Navdata/Publisher.antt =====
-- NavdataPublisher of src/navdata/navdata_service.cpp: each text is offered by its hash, and sent when it
-- is asked for. The hash, what the files hold and the arithmetic on a `double` are arguments; the lines
-- for the log are left out.
use zoal_atc.Common.{
  ℕ, Bool, true, false, List, [], ◌∷◌, ◌++◌, Option, none, some, if◌then◌else◌, Bytes, codes,
  text_eq,
}
use zoal_atc.Endpoint.{is_nil}
use zoal_atc.Navdata.{
  NavdataKind, apt, cifp, airspace, vrp, fixes, atc, NavdataRequest, build_navdata_hash_frame,
  build_navdata_frame, build_fixes_hash_frame, build_fixes_frame,
}
use zoal_atc.Navdata.Lines.{to_upper}
use zoal_atc.Navdata.Blocks.{
  Geometry, extract_regional_airport_blocks, find_airport_reference, extract_rows_in_box, or_else,
}

pub record Entry : Type 0 where
  pub kind : NavdataKind
  pub icao : Bytes
  pub source : Bytes
  pub text : Bytes
  pub file : Bytes

-- `by_hash_`, the newest entry of a hash in front of those that it replaces.
abbrev pub Store : Type 0
Store = List (Bytes × Entry)

unfoldable pub find_entry : Bytes → Store → Option Entry
find_entry hash [] = none
find_entry hash ((key, entry) ∷ store) =
    let later = find_entry hash store in if text_eq key hash then some entry else later

-- The store and the frames that were sent.
abbrev pub Published : Type 0
Published = Store × List Bytes

unfoldable pub hash_frame : Entry → Bytes → Bytes
unfolding build_fixes_hash_frame build_navdata_hash_frame
hash_frame entry hash = elim entry.kind [
  | fixes ↦ build_fixes_hash_frame entry.file hash entry.source
  | _ ↦ build_navdata_hash_frame entry.kind entry.icao hash entry.source
]

unfoldable pub full_frame : Entry → Bytes → Bytes
unfolding build_fixes_frame build_navdata_frame
full_frame entry hash = elim entry.kind [
  | fixes ↦ build_fixes_frame entry.file hash entry.source entry.text
  | _ ↦ build_navdata_frame entry.kind entry.icao hash entry.source entry.text
]

-- `offer` and `offer_fixes`.
unfoldable pub offer : (Bytes → Bytes) → Entry → Published → Published
unfolding hash_frame
offer md5_hex entry (store, sent) =
    let hash = md5_hex entry.text in ((hash, entry) ∷ store, sent ++ hash_frame entry hash ∷ [])

-- Whether the hash is known, with the frame sent if it is.
unfoldable pub handle_request : NavdataRequest → Published → Bool × Published
unfolding find_entry full_frame
handle_request request (store, sent) = elim (find_entry request.md5 store) [
  | none ↦ (false, (store, sent))
  | some entry ↦ (true, (store, sent ++ full_frame entry request.md5 ∷ []))
]

-- A candidate for a file: its source and its text, if it can be opened.
abbrev pub Candidate : Type 0
Candidate = Bytes × Option Bytes

-- What is found on the disk.
pub record Files : Type 0 where
  pub apts : List Candidate
  pub cifp_text : Option Bytes
  pub airspace_text : Option Bytes
  pub atc_text : Option Bytes
  pub vrp_text : Option Bytes
  pub fix_files : List Candidate
  pub nav_files : List Candidate

abbrev pub entry_of : NavdataKind → Bytes → Bytes → Bytes → Entry
entry_of kind icao source text = record {
  kind = kind;
  icao = icao;
  source = source;
  text = text;
  file = [];
}

abbrev pub fixes_entry : Bytes → Bytes → Bytes → Entry
fixes_entry file source text = record {
  kind = fixes;
  icao = [];
  source = source;
  text = text;
  file = file;
}

module _ {Double : Type 0} (g : Geometry Double) where
  -- The entries for apt.dat, each source with the airport, and the first place found.
  unfoldable pub apt_entries :
      Double → Bytes → List Candidate → List Entry × Option (Double × Double)
  unfolding extract_regional_airport_blocks find_airport_reference
  apt_entries radius_nm wanted [] = ([], none)
  apt_entries radius_nm wanted ((source, text) ∷ candidates) =
      let (entries, reference) = apt_entries radius_nm wanted candidates in
      elim text [
        | none ↦ (entries, reference)
        | some apt_text ↦
            let scoped = extract_regional_airport_blocks g apt_text (wanted ∷ []) radius_nm in
            if is_nil scoped then (entries, reference) else (
              entry_of apt wanted source scoped ∷ entries,
              or_else (find_airport_reference g scoped wanted) reference,
            )
      ]

  abbrev pub file_entry : NavdataKind → Bytes → Option Bytes → List Entry
  file_entry kind icao none = []
  file_entry kind icao (some text) =
      if is_nil text then [] else entry_of kind icao (codes "global") text ∷ []

  -- The first copy with rows in the box.
  unfoldable pub fix_entry : Bytes → ℕ → Double → Double × Double → List Candidate → List Entry
  unfolding extract_rows_in_box
  fix_entry file lat_field radius_nm place [] = []
  fix_entry file lat_field radius_nm place ((source, text) ∷ candidates) =
      let next = fix_entry file lat_field radius_nm place candidates in
      elim text [
        | none ↦ next
        | some rows ↦
            let scoped = extract_rows_in_box g rows lat_field place radius_nm in
            if is_nil scoped then next else fixes_entry file source scoped ∷ []
      ]

  unfoldable pub publish_fixes : Double → Files → Option (Double × Double) → List Entry
  unfolding fix_entry
  publish_fixes radius_nm files none = []
  publish_fixes radius_nm files (some place) =
      fix_entry (codes "fix") 0 radius_nm place files.fix_files
      ++ fix_entry (codes "nav") 1 radius_nm place files.nav_files

  -- All that is offered for an airport, in order; the radii are a hundred and a hundred and fifty
  -- nautical miles.
  unfoldable pub airport_entries : Double → Double → Files → Bytes → List Entry
  unfolding apt_entries publish_fixes
  airport_entries apt_radius fix_radius files icao =
      let wanted = to_upper icao in
      let (apts, reference) = apt_entries apt_radius wanted files.apts in
      if is_nil wanted
      then []
      else apts
        ++ (file_entry cifp wanted files.cifp_text
            ++ (file_entry airspace [] files.airspace_text
                ++ (file_entry atc [] files.atc_text
                    ++ (file_entry vrp [] files.vrp_text
                        ++ publish_fixes fix_radius files reference))))

unfoldable pub offer_all : (Bytes → Bytes) → List Entry → Published → Published
unfolding offer
offer_all md5_hex [] p = p
offer_all md5_hex (entry ∷ entries) p = offer_all md5_hex entries (offer md5_hex entry p)

unfoldable pub publish_for_airport :
    {Double : Type 0}
    → Geometry Double
    → Double
    → Double
    → (Bytes → Bytes)
    → Files
    → Bytes
    → Published
    → Published
unfolding offer_all airport_entries
publish_for_airport g apt_radius fix_radius md5_hex files icao p =
    offer_all md5_hex (airport_entries g apt_radius fix_radius files icao) p
