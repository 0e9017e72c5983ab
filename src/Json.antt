-- ===== src/Json.antt =====
-- What the program uses of nlohmann/json, with the laws that its documentation gives. `none` stands
-- for an exception.
pub mod Packed
use nexus_mainframe.Common.{
  ℕ, ◌≡◌, refl, List, [], ◌∷◌, Str, Bool, true, false, Option, none, some, map, if◌then◌else◌,
  str_eq,
}
use nexus_mainframe.Common.Ints.{ℤ, IsInt}

-- The first field of a name in an initialiser list.
unfoldable pub field {ℓ} : {J : Type ℓ} → Str → List (Str × J) → Option J
field k [] = none
field k ((j, v) ∷ fs) = let rest = field k fs in if str_eq k j then some v else rest

unfoldable pub has_field {ℓ} : {J : Type ℓ} → Str → List (Str × J) → Bool
has_field k fs = elim (field k fs) [ none ↦ false | some v ↦ true ]

pub has_field-some {ℓ} :
    {J : Type ℓ} (k : Str) (fs : List (Str × J)) {v : J}
    → field k fs ≡ some v
    → has_field k fs ≡ true
unfolding has_field
has_field-some k fs e = rw (has_field, e) refl

pub has_field-none {ℓ} :
    {J : Type ℓ} (k : Str) (fs : List (Str × J)) → field k fs ≡ none → has_field k fs ≡ false
unfolding has_field
has_field-none k fs e = rw (has_field, e) refl

-- `j[key] = value` on an object that is still being built.
unfoldable pub set_field {ℓ} : {J : Type ℓ} → Str → J → List (Str × J) → List (Str × J)
set_field k v [] = (k, v) ∷ []
set_field k v ((j, w) ∷ fs) =
    let rest = set_field k v fs in if str_eq k j then (k, v) ∷ fs else (j, w) ∷ rest

-- `at_string` is `j[key].get<std::string>()`, `at_int` the same at `int`, `at` is `j[key]`, `assign` is `j[key] = value`, `first`
-- is `j[0]`; the `value_…` are `j.value(key, fallback)`. `dump_indented` is `dump(2)` or `dump(4)`: no
-- caller uses both.
pub record Json (J : Type 0) : Type 0 where
  pub null : J
  pub object : List (Str × J) → J
  pub array : List J → J
  pub string : Str → J
  pub boolean : Bool → J
  pub integer : ℤ → J
  pub is_null : J → Bool
  pub is_string : J → Bool
  pub is_empty : J → Bool
  pub contains : J → Str → Bool
  pub elements : J → Option (List J)
  pub at : J → Str → Option J
  pub first : J → Option J
  pub get_string : J → Option Str
  pub at_string : J → Str → Option Str
  pub at_int : J → Str → Option ℤ
  pub value_string : J → Str → Str → Option Str
  pub value_boolean : J → Str → Bool → Option Bool
  pub value_int : J → Str → ℤ → Option ℤ
  pub value_strings : J → Str → List Str → Option (List Str)
  pub value_json : J → Str → J → Option J
  pub assign : J → Str → J → Option J
  pub merge_patch : J → J → J
  pub dump : J → Option Str
  pub dump_indented : J → Option Str
  pub parse : Str → Option J
  pub is_null-null : is_null null ≡ true
  pub is_null-object : (fs : List (Str × J)) → is_null (object fs) ≡ false
  pub is_string-string : (s : Str) → is_string (string s) ≡ true
  pub is_empty-array : (j : J) (js : List J) → is_empty (array (j ∷ js)) ≡ false
  pub contains-object : (fs : List (Str × J)) (k : Str) → contains (object fs) k ≡ has_field k fs
  pub elements-array : (js : List J) → elements (array js) ≡ some js
  pub at-object :
      (fs : List (Str × J)) (k : Str) (j : J) → field k fs ≡ some j → at (object fs) k ≡ some j
  pub assign-object :
      (fs : List (Str × J)) (k : Str) (j : J)
      → assign (object fs) k j ≡ some (object (set_field k j fs))
  pub first-array : (j : J) (js : List J) → first (array (j ∷ js)) ≡ some j
  pub get_string-string : (s : Str) → get_string (string s) ≡ some s
  pub at_string-object :
      (fs : List (Str × J)) (k s : Str)
      → field k fs ≡ some (string s)
      → at_string (object fs) k ≡ some s
  pub value_string-object :
      (fs : List (Str × J)) (k d s : Str)
      → field k fs ≡ some (string s)
      → value_string (object fs) k d ≡ some s
  pub value_string_absent :
      (fs : List (Str × J)) (k d : Str) → field k fs ≡ none → value_string (object fs) k d ≡ some d
  pub value_boolean-object :
      (fs : List (Str × J)) (k : Str) (d b : Bool)
      → field k fs ≡ some (boolean b)
      → value_boolean (object fs) k d ≡ some b
  pub value_int-object :
      (fs : List (Str × J)) (k : Str) (d i : ℤ)
      → IsInt i
      → field k fs ≡ some (integer i)
      → value_int (object fs) k d ≡ some i
  pub value_strings-object :
      (fs : List (Str × J)) (k : Str) (d ss : List Str)
      → field k fs ≡ some (array (map string ss))
      → value_strings (object fs) k d ≡ some ss
  pub value_json-object :
      (fs : List (Str × J)) (k : Str) (d j : J)
      → field k fs ≡ some j
      → value_json (object fs) k d ≡ some j
  pub value_json_absent :
      (fs : List (Str × J)) (k : Str) (d : J)
      → field k fs ≡ none
      → value_json (object fs) k d ≡ some d
  pub parse-dump : (j : J) (s : Str) → dump j ≡ some s → parse s ≡ some j
  pub parse-dump_indented : (j : J) (s : Str) → dump_indented j ≡ some s → parse s ≡ some j

-- The JSON library at `double`.
pub record Reals (J D : Type 0) (json : Json J) : Type 0 where
  pub zero : D
  pub one : D
  pub real : D → J
  pub value_real : J → Str → D → Option D
  pub value_real-object :
      (fs : List (Str × J)) (k : Str) (d x : D)
      → field k fs ≡ some (real x)
      → value_real (json.object fs) k d ≡ some x
