-- ===== src/Workflow/Order.antt =====
-- What Python's `==`, `<` and `in` answer on the JSON values that
-- packages/asas-workflow/src/asas_workflow/conditions.py compares. `none` is a TypeError.
use asas.Base.{
  ℕ, ◌==◌, String, Bool, true, false, Option, none, some, not, ◌&&◌, ◌||◌, if◌then◌else◌, str_eq,
  suc, Json, null, bool, num, str, arr, obj, Items, nil, cons, Fields, end, field, get_field, ℤ,
  pos, eq_ℤ, ltb_ℤ, is_some,
}
use Prim.Native.Nat.{Ordering}
use Prim.Native.String.{compare as compare_str}
use Prim.Native.Char.{code}

-- A bool is a number: True is 1.
abbrev pub number : Json → Option ℤ
number null = none
number (bool b) = some (if b then pos 1 else pos 0)
number (num n) = some n
number (str s) = none
number (arr xs) = none
number (obj o) = none

abbrev pub size : Fields → ℕ
size end = 0
size (field k v rest) = suc (size rest)

unfoldable mutual
  unfolding get_field

  pub same_json : Json → Json → Bool
  same_json null b = elim b [ null ↦ true | _ ↦ false ]
  same_json (bool x) b = elim (number b) [
    | none ↦ false
    | some n ↦ eq_ℤ (if x then pos 1 else pos 0) n
  ]
  same_json (num x) b = elim (number b) [ none ↦ false | some n ↦ eq_ℤ x n ]
  same_json (str x) b = elim b [ str y ↦ str_eq x y | _ ↦ false ]
  same_json (arr xs) b = elim b [ arr ys ↦ same_items xs ys | _ ↦ false ]
  same_json (obj o) b = elim b [ obj p ↦ size o == size p && covered o p | _ ↦ false ]

  pub same_items : Items → Items → Bool
  same_items nil ys = elim ys [ nil ↦ true | cons y rest ↦ false ]
  same_items (cons x xs) ys = elim ys [
    | nil ↦ false
    | cons y rest ↦ same_json x y && same_items xs rest
  ]

  -- Each key of the first dict has an equal value in the second.
  pub covered : Fields → Fields → Bool
  covered end p = true
  covered (field k v rest) p = elim (get_field k p) [
    | none ↦ false
    | some w ↦ same_json v w && covered rest p
  ]

unfoldable mutual
  unfolding same_json

  -- `a < b`
  pub less : Json → Json → Option Bool
  less null b = none
  less (bool x) b = elim (number b) [
    | none ↦ none
    | some n ↦ some (ltb_ℤ (if x then pos 1 else pos 0) n)
  ]
  less (num x) b = elim (number b) [ none ↦ none | some n ↦ some (ltb_ℤ x n) ]
  less (str x) b = elim b [
    | str y ↦ some (elim (compare_str x y) [ Ordering.lt ↦ true | _ ↦ false ])
    | _ ↦ none
  ]
  less (arr xs) b = elim b [ arr ys ↦ less_items xs ys | _ ↦ none ]
  less (obj o) b = none

  pub less_items : Items → Items → Option Bool
  less_items nil ys = some (elim ys [ nil ↦ false | cons y rest ↦ true ])
  less_items (cons x xs) ys = elim ys [
    | nil ↦ some false
    | cons y rest ↦
        let first = less x y in
        let later = less_items xs rest in if same_json x y then later else first
  ]

-- `bool(v)`
abbrev pub truthy : Json → Bool
truthy null = false
truthy (bool b) = b
truthy (num n) = not (eq_ℤ n (pos 0))
truthy (str s) = not (str_eq s "")
truthy (arr xs) = elim xs [ nil ↦ false | cons x rest ↦ true ]
truthy (obj o) = elim o [ end ↦ false | field k v rest ↦ true ]

unfoldable pub starts : String → String → Bool
starts String.[] s = true
starts (String.◌∷◌ c p) String.[] = false
starts (String.◌∷◌ c p) (String.◌∷◌ d s) = code c == code d && starts p s

-- `p in s` on texts
unfoldable pub occurs : String → String → Bool
unfolding starts
occurs p String.[] = starts p String.[]
occurs p (String.◌∷◌ d s) = starts p (String.◌∷◌ d s) || occurs p s

unfoldable pub listed : Json → Items → Bool
unfolding same_json
listed x nil = false
listed x (cons y rest) = same_json x y || listed x rest

-- `x in y`, where a TypeError is `false`
unfoldable pub within : Json → Json → Bool
unfolding occurs listed get_field
within x null = false
within x (bool b) = false
within x (num n) = false
within x (str s) = elim x [ str p ↦ occurs p s | _ ↦ false ]
within x (arr ys) = listed x ys
within x (obj o) = elim x [ str k ↦ is_some (get_field k o) | _ ↦ false ]
