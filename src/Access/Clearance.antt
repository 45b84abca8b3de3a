-- ===== src/Access/Clearance.antt =====
-- What the mandatory layer of packages/asas-access promises.
use asas.Base.{
  ℕ, ◌≡◌, refl, String, false, Option, none, some, List, [], ◌∷◌, ◌++◌, arith, str_eq, ◌==◌, ℤ,
  ltb_ℤ, get_key,
}
use asas.Access.Mac.{
  ClearanceLevel, RecordMarking, Mac, Stamped, Profile, subject_access_profile, levels_from,
  marks_of, record_markings, subject_rank, clears, or_given, mac_allows,
}

-- In the ranks of the record's organisation the stamp is known, the subject's level is known, and it is
-- not lower.
abbrev pub Outranks : List (String × ℤ) → Option String → String → Type 0
Outranks ranks level code =
    (needed : ℤ) × (get_key str_eq code ranks ≡ some needed)
    × ((rank : ℤ) × (subject_rank ranks level needed ≡ some rank) × (ltb_ℤ rank needed ≡ false))

abbrev pub IsClear : List ClearanceLevel → Option ℕ → Option String → Option String → Type 0
IsClear levels org level none = Unit
IsClear levels none level (some code) = ⊥
IsClear levels (some org) level (some code) = Outranks (levels_from levels org []) level code

module _ {U : Type 0} (mac : Mac) (source : Option (U → Option Profile)) (entity_type : String)
    (r : Stamped) (given : Option ℕ) where
  abbrev org : Option ℕ
  org = or_given r.org_id given

  abbrev marks : List String
  marks = record_markings mac.markings org entity_type r.id

marks_of-other :
    (ms : List RecordMarking) (m : RecordMarking) (o : ℕ) (entity_type : String) (id : ℕ)
    → (m.org_id == o) ≡ false
    → marks_of (ms ++ m ∷ []) (some o) entity_type id ≡ marks_of ms (some o) entity_type id
unfolding marks_of
marks_of-other [] m o entity_type id h = ground (arith, h)
marks_of-other (x ∷ xs) m o entity_type id h =
    ground (arith, h, marks_of-other xs m o entity_type id h)

record_markings-other :
    (ms : List RecordMarking) (m : RecordMarking) (o : ℕ) (entity_type : String) (id : Option ℕ)
    → (m.org_id == o) ≡ false
    → record_markings (ms ++ m ∷ []) (some o) entity_type id
      ≡ record_markings ms (some o) entity_type id
unfolding record_markings
record_markings-other ms m o entity_type none h = refl
record_markings-other ms m o entity_type (some id) h = marks_of-other ms m o entity_type id h

levels_from-other :
    (ls : List ClearanceLevel) (l : ClearanceLevel) (o : ℕ) (ranks : List (String × ℤ))
    → (l.org_id == o) ≡ false
    → levels_from (ls ++ l ∷ []) o ranks ≡ levels_from ls o ranks
unfolding levels_from
levels_from-other [] l o ranks h = rw h refl
levels_from-other (x ∷ ls) l o ranks h = levels_from-other ls l o _ h

clears-other :
    (ls : List ClearanceLevel) (l : ClearanceLevel) (o : ℕ) (level code : Option String)
    → (l.org_id == o) ≡ false
    → clears (ls ++ l ∷ []) (some o) level code ≡ clears ls (some o) level code
unfolding clears
clears-other ls l o level none h = refl
clears-other ls l o level (some code) h = rw (levels_from-other ls l o [] h) refl

-- Tenants do not see into each other: neither a level nor a marking that another organisation adds
-- changes who sees a record of this one.
pub other_org_rows :
    {U : Type 0} (mac : Mac) (source : Option (U → Option Profile)) (user : Option U)
    (entity_type : String) (r : Stamped) (given : Option ℕ) (o : ℕ) (l : ClearanceLevel)
    (m : RecordMarking)
    → r.org_id ≡ some o
    → (l.org_id == o) ≡ false
    → (m.org_id == o) ≡ false
    → mac_allows
        (record mac { levels = mac.levels ++ l ∷ []; markings = mac.markings ++ m ∷ [] })
        source
        user
        entity_type
        (some r)
        given
      ≡ mac_allows mac source user entity_type (some r) given
unfolding mac_allows
other_org_rows mac source none entity_type r given o l m own el em =
    rw (own, record_markings-other mac.markings m o entity_type r.id em) refl
other_org_rows mac source (some u) entity_type r given o l m own el em =
    rw
      (
        own,
        record_markings-other mac.markings m o entity_type r.id em,
        clears-other mac.levels l o (subject_access_profile source u).0 r.classification_code el,
      )
      refl
