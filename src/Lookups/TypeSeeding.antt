-- ===== src/Lookups/TypeSeeding.antt =====
-- How packages/asas-lookups/src/asas_lookups/seeding.py seeds one type from a file: `_link_pass` and
-- `_seed_type`. The values of the file have different codes.
use asas.Base.{
  ℕ, suc, ◌==◌, String, Bool, false, Option, none, some, List, [], ◌∷◌, map, not, ◌&&◌, ◌||◌,
  is_some, if◌then◌else◌, str_eq, first_where, update_first,
}
use asas.Lookups.Model.{SortMode, by_label, by_sort_order, LookupType, LookupValue, Store}
use asas.Lookups.Types.{TypeArgs, TypeEnsured, type_ready, not_open, scope_differs, ensure_type}
use asas.Lookups.OrgSeeding.{bumped}
use asas.Lookups.Values.{SeedValue, Wrote, is_platform_row, ensure_value, backfill_meta}

-- A pointer that is set or that the file does not name stays; `none` is a target that is no value.
unfoldable pub pointer : ℕ → List LookupValue → Option String → Option ℕ → Option (Option ℕ)
unfolding first_where
pointer type_id vs none current = some current
pointer type_id vs (some target) current =
    if str_eq target "" || is_some current
    then some current
    else elim (first_where (is_platform_row type_id target) vs) [
      | none ↦ none
      | some t ↦ some (some t.id)
    ]

-- A ValueError, or the values and whether a pointer was set.
pub data Linked : Type 0 where
  dangling : Linked
  linked_to : List LookupValue → Bool → Linked

abbrev pub newly : Option ℕ → Option ℕ → Bool
newly before after = not (is_some before) && is_some after

abbrev pub with_pointers : Option ℕ → Option ℕ → LookupValue → LookupValue
with_pointers parent successor v = record v { parent_id = parent; superseded_by_id = successor }

abbrev pub set_pointers :
    ℕ → String → LookupValue → List LookupValue → Option (Option ℕ) → Option (Option ℕ) → Linked
set_pointers type_id code v vs none successor = dangling
set_pointers type_id code v vs (some parent) none = dangling
set_pointers type_id code v vs (some parent) (some successor) =
    linked_to (update_first (is_platform_row type_id code) (with_pointers parent successor) vs)
      (newly v.parent_id parent || newly v.superseded_by_id successor)

unfoldable pub link_row : ℕ → SeedValue → List LookupValue → Linked
unfolding first_where pointer update_first
link_row type_id s vs = elim (first_where (is_platform_row type_id s.code) vs) [
  | none ↦ linked_to vs false
  | some v ↦
      set_pointers type_id s.code v vs (pointer type_id vs s.parent_code v.parent_id)
        (pointer type_id vs s.superseded_by v.superseded_by_id)
]

unfoldable pub link_pass : ℕ → List SeedValue → List LookupValue → Bool → Linked
unfolding link_row
link_pass type_id [] vs changed = linked_to vs changed
link_pass type_id (s ∷ ss) vs changed = elim (link_row type_id s vs) [
  | dangling ↦ dangling
  | linked_to ws set ↦ link_pass type_id ss ws (changed || set)
]

abbrev pub order_of : SortMode → Option ℕ → ℕ → ℕ
order_of mode (some order) index = order
order_of by_label none index = 0
order_of by_sort_order none index = index

abbrev pub topped : ℕ → SeedValue → Wrote → Wrote
topped type_id s w =
    let (vs, changed) = backfill_meta type_id s.code s.meta w.values in
    if w.changed then w else record w { values = vs; changed = changed }

unfoldable pub seed_values : LookupType → List SeedValue → ℕ → Wrote → Wrote
unfolding ensure_value backfill_meta
seed_values t [] index w = w
seed_values t (s ∷ ss) index w =
    let one =
      topped t.id s
        (ensure_value t.id s (order_of t.default_sort s.sort_order index) w.values w.next) in
    seed_values t ss (suc index) (record one { changed = w.changed || one.changed })

-- A refusal of the type, or a pointer to no value, after which the values that were seeded stay.
pub data TypeSeeded : Type 0 where
  refused : TypeSeeded
  dangling_pointer : Store → TypeSeeded
  seeded : Store → TypeSeeded

abbrev pub with_version : LookupType → LookupType → LookupType
with_version t u = if t.id == u.id then bumped false u else u

abbrev pub finish_type : LookupType → Store → ℕ → Linked → List LookupValue → TypeSeeded
finish_type t st next dangling vs = dangling_pointer (record st { values = vs; next_value = next })
finish_type t st next (linked_to ws changed) vs = seeded (record st {
  types = if changed then map (with_version t) st.types else st.types;
  values = ws;
  next_value = next;
})

abbrev pub seed_ready : LookupType → List SeedValue → Store → TypeSeeded
seed_ready t ss st =
    let w =
      seed_values t ss 0 (record { values = st.values; next = st.next_value; changed = false }) in
    finish_type t st w.next (link_pass t.id ss w.values w.changed) w.values

abbrev pub seed_ensured : List SeedValue → TypeEnsured → TypeSeeded
seed_ensured ss not_open = refused
seed_ensured ss scope_differs = refused
seed_ensured ss (type_ready t st) = seed_ready t ss st

unfoldable pub seed_type : TypeArgs → List SeedValue → Store → TypeSeeded
unfolding ensure_type seed_values link_pass
seed_type a ss st = seed_ensured ss (ensure_type a st)
