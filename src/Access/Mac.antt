-- ===== src/Access/Mac.antt =====
-- The mandatory layer, packages/asas-access/src/asas_access/mac.py. The caches are read as the tables
-- that they hold; sets are lists; `none` is what a subject source answers that raises.
use asas.Base.{
  ℕ, ◌==◌, String, Bool, true, false, Option, none, some, List, [], ◌∷◌, if◌then◌else◌, str_eq,
  ◌||◌, ◌&&◌, not, ℤ, ltb_ℤ, get_key, put_key, is_some,
}
use asas.Access.Principals.{member}

pub record ClearanceLevel : Type 0 where
  pub org_id : ℕ
  pub code : String
  pub rank : ℤ

pub record RecordMarking : Type 0 where
  pub org_id : ℕ
  pub entity_type : String
  pub record_id : ℕ
  pub marking_code : String

-- The tables, and the entity types that opted in.
pub record Mac : Type 0 where
  pub levels : List ClearanceLevel
  pub markings : List RecordMarking
  pub classified : List String

-- What the layer reads of a host's record.
pub record Stamped : Type 0 where
  pub id : Option ℕ
  pub org_id : Option ℕ
  pub classification_code : Option String

-- A clearance level and the markings that a subject holds.
abbrev pub Profile : Type 0
Profile = Option String × List String

abbrev pub no_profile : Profile
no_profile = (none, [])

-- The profile of who is known; missing and raising sources give the empty one.
unfoldable pub subject_access_profile {ℓ} : {U : Type ℓ} → Option (U → Option Profile) → U → Profile
subject_access_profile none u = no_profile
subject_access_profile (some source) u = elim (source u) [ none ↦ no_profile | some p ↦ p ]

-- The ranks of one organisation, by code.
unfoldable pub levels_from : List ClearanceLevel → ℕ → List (String × ℤ) → List (String × ℤ)
unfolding put_key
levels_from [] org ranks = ranks
levels_from (l ∷ ls) org ranks =
    levels_from ls org (if l.org_id == org then put_key str_eq l.code l.rank ranks else ranks)

-- The stamps of a record: within its organisation, or by its id alone where that is unknown.
abbrev pub stamps : Option ℕ → String → ℕ → RecordMarking → Bool
stamps none entity_type id m = str_eq m.entity_type entity_type && m.record_id == id
stamps (some org) entity_type id m =
    m.org_id == org && str_eq m.entity_type entity_type && m.record_id == id

unfoldable pub marks_of : List RecordMarking → Option ℕ → String → ℕ → List String
marks_of [] org entity_type id = []
marks_of (m ∷ ms) org entity_type id =
    let rest = marks_of ms org entity_type id in
    if stamps org entity_type id m then m.marking_code ∷ rest else rest

unfoldable pub record_markings : List RecordMarking → Option ℕ → String → Option ℕ → List String
unfolding marks_of
record_markings ms org entity_type none = []
record_markings ms org entity_type (some id) = marks_of ms org entity_type id

-- `marks <= held`
unfoldable pub subset : List String → List String → Bool
unfolding member
subset [] held = true
subset (m ∷ ms) held = member m held && subset ms held

abbrev pub min_ℤ : ℤ → ℤ → ℤ
min_ℤ a b = if ltb_ℤ b a then b else a

-- `min(ranks.values())`, above a first value
unfoldable pub lowest : ℤ → List (String × ℤ) → ℤ
lowest r [] = r
lowest r ((code, s) ∷ rest) = lowest (min_ℤ r s) rest

-- The subject's rank: unassigned subjects hold the minimum of the catalog, of which the record's rank is one.
unfoldable pub subject_rank : List (String × ℤ) → Option String → ℤ → Option ℤ
unfolding get_key lowest
subject_rank ranks none record_rank = some (lowest record_rank ranks)
subject_rank ranks (some level) record_rank = get_key str_eq level ranks

abbrev pub reaches : Option ℤ → ℤ → Bool
reaches none record_rank = false
reaches (some rank) record_rank = not (ltb_ℤ rank record_rank)

unfoldable pub rank_clears : List (String × ℤ) → Option String → String → Bool
unfolding get_key subject_rank
rank_clears ranks level code = elim (get_key str_eq code ranks) [
  | none ↦ false
  | some record_rank ↦ reaches (subject_rank ranks level record_rank) record_rank
]

-- A stamp of an organisation that cannot be resolved denies.
unfoldable pub clears : List ClearanceLevel → Option ℕ → Option String → Option String → Bool
unfolding levels_from rank_clears
clears levels org level none = true
clears levels none level (some code) = false
clears levels (some org) level (some code) = rank_clears (levels_from levels org []) level code

abbrev pub is_empty : List String → Bool
is_empty xs = elim xs [ [] ↦ true | x ∷ rest ↦ false ]

abbrev pub or_given : Option ℕ → Option ℕ → Option ℕ
or_given none given = given
or_given (some org) given = some org

abbrev pub is_unclassified : Option String → List String → Bool
is_unclassified classification marks = not (is_some classification) && is_empty marks

unfoldable pub mac_allows {ℓ} :
    {U : Type ℓ}
    → Mac
    → Option (U → Option Profile)
    → Option U
    → String
    → Option Stamped
    → Option ℕ
    → Bool
unfolding record_markings subject_access_profile subset clears
mac_allows mac source user entity_type none record_org_id = true
mac_allows mac source user entity_type (some r) record_org_id =
    let org = or_given r.org_id record_org_id in
    let marks = record_markings mac.markings org entity_type r.id in
    if not (member entity_type mac.classified) || is_unclassified r.classification_code marks
    then true
    else elim user [
      | none ↦ false
      | some u ↦
          let (level, held) = subject_access_profile source u in
          subset marks held && clears mac.levels org level r.classification_code
    ]
