-- ===== src/Workflow/Conditions.antt =====
-- packages/asas-workflow/src/asas_workflow/conditions.py and `get_path` of models.py. A clause's value
-- that is absent is null, and so is a field that is missing.
use asas.Base.{
  ◌==◌, String, Bool, true, false, Option, none, some, List, [], ◌∷◌, not, ◌&&◌, ◌||◌,
  if◌then◌else◌, Json, null, obj, Fields, get_field,
}
use Prim.Native.Char.{Char, code}
use asas.Workflow.Order.{same_json, less, truthy, within}

pub data Op : Type 0 where
  eq ne gt gte lt lte is_in contains is_null : Op
  other : String → Op

pub record Clause : Type 0 where
  pub path : String
  pub op : Op
  pub value : Json

pub data Condition : Type 0 where
  all any : List Clause → Condition
  single : Clause → Condition

abbrev first_part : Char → List String → List String
first_part c [] = String.◌∷◌ c String.[] ∷ []
first_part c (p ∷ ps) = String.◌∷◌ c p ∷ ps

-- `path.split(".")`
unfoldable pub split_dots : String → List String
split_dots String.[] = String.[] ∷ []
split_dots (String.◌∷◌ c s) =
    let rest = split_dots s in if code c == 46 then String.[] ∷ rest else first_part c rest

unfoldable pub walk_path : Json → List String → Json
unfolding get_field
walk_path v [] = v
walk_path v (p ∷ ps) = elim v [
  | obj o ↦ elim (get_field p o) [ none ↦ null | some w ↦ walk_path w ps ]
  | _ ↦ null
]

unfoldable pub get_path : Fields → String → Json
unfolding walk_path split_dots
get_path data_ path = walk_path (obj data_) (split_dots path)

abbrev pub is_none : Json → Bool
is_none v = elim v [ null ↦ true | _ ↦ false ]

-- A comparison that raises a TypeError does not match.
abbrev pub or_false : Option Bool → Bool
or_false o = elim o [ none ↦ false | some b ↦ b ]

abbrev pub negated : Option Bool → Bool
negated o = elim o [ none ↦ false | some b ↦ not b ]

unfoldable pub compare_op : Op → Json → Json → Bool
unfolding less same_json within
compare_op eq actual expected = same_json actual expected
compare_op ne actual expected = not (same_json actual expected)
compare_op gt actual expected = or_false (less expected actual)
compare_op gte actual expected = negated (less actual expected)
compare_op lt actual expected = or_false (less actual expected)
compare_op lte actual expected = negated (less expected actual)
compare_op is_in actual expected = truthy expected && within actual expected
compare_op contains actual expected = within expected actual
compare_op is_null actual expected = false
compare_op (other name) actual expected = false

abbrev pub is_null_op : Op → Bool
is_null_op op = elim op [ is_null ↦ true | _ ↦ false ]

abbrev pub same_bool : Bool → Bool → Bool
same_bool a b = if a then b else not b

unfoldable pub matches : Fields → Clause → Bool
unfolding get_path compare_op
matches data_ c =
    let actual = get_path data_ c.path in
    if is_null_op c.op
    then same_bool (is_none actual) (if is_none c.value then true else truthy c.value)
    else if is_none actual
    then false
    else compare_op c.op actual c.value

unfoldable pub all_match : Fields → List Clause → Bool
unfolding matches
all_match data_ [] = true
all_match data_ (c ∷ cs) = matches data_ c && all_match data_ cs

unfoldable pub any_matches : Fields → List Clause → Bool
unfolding matches
any_matches data_ [] = false
any_matches data_ (c ∷ cs) = matches data_ c || any_matches data_ cs

unfoldable pub evaluate : Option Condition → Fields → Bool
unfolding all_match any_matches
evaluate none data_ = true
evaluate (some (all cs)) data_ = all_match data_ cs
evaluate (some (any cs)) data_ = any_matches data_ cs
evaluate (some (single c)) data_ = matches data_ c
