-- ===== src/Lookups/Types.antt =====
-- `ensure_type` of packages/asas-lookups/src/asas_lookups/seeding.py.
use asas.Base.{
  ℕ, suc, String, Bool, Option, none, some, [], ◌∷◌, ◌++◌, not, ◌&&◌, is_some, if◌then◌else◌,
  str_eq, first_where,
}
use asas.Lookups.Model.{TypeScope, platform, SortMode, LookupType, Store, is_org, same_scope}

-- The keyword arguments, a name or a scope that is left out being none.
pub record TypeArgs : Type 0 where
  pub key : String
  pub name : Option String
  pub description : Option String
  pub is_open : Bool
  pub is_hierarchical : Bool
  pub code_system : Option String
  pub default_sort : SortMode
  pub scope : Option TypeScope

-- A ValueError, or the type and the tables.
pub data TypeEnsured : Type 0 where
  not_open scope_differs : TypeEnsured
  type_ready : LookupType → Store → TypeEnsured

abbrev pub or_scope : Option TypeScope → TypeScope → TypeScope
or_scope none s = s
or_scope (some e) s = e

abbrev pub stored_scope : Option LookupType → TypeScope
stored_scope none = platform
stored_scope (some t) = t.scope

abbrev pub or_key : Option String → String → String
or_key none key = key
or_key (some name) key = name

unfoldable pub new_type : TypeArgs → TypeScope → ℕ → LookupType
new_type a scope id = record {
  id = id;
  key = a.key;
  name = or_key a.name a.key;
  description = a.description;
  is_open = a.is_open;
  is_hierarchical = a.is_hierarchical;
  code_system = a.code_system;
  scope = scope;
  default_sort = a.default_sort;
  version = 1;
}

unfoldable pub add_type : TypeArgs → TypeScope → Store → TypeEnsured
unfolding new_type
add_type a scope st =
    let t = new_type a scope st.next_type in
    type_ready t (record st { types = st.types ++ t ∷ []; next_type = suc st.next_type })

abbrev pub has_key : String → LookupType → Bool
has_key key t = str_eq t.key key

unfoldable pub keep_type : Option TypeScope → LookupType → Store → TypeEnsured
keep_type explicit t st =
    if is_some explicit && not (same_scope t.scope (or_scope explicit t.scope))
    then scope_differs
    else type_ready t st

unfoldable pub ensure_type : TypeArgs → Store → TypeEnsured
unfolding first_where add_type keep_type
ensure_type a st =
    let found = first_where (has_key a.key) st.types in
    let scope = or_scope a.scope (stored_scope found) in
    if a.is_open && not (is_org scope)
    then not_open
    else elim found [ none ↦ add_type a scope st | some t ↦ keep_type a.scope t st ]
