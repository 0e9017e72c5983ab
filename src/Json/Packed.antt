-- ===== src/Json/Packed.antt =====
-- A JSON library that meets the laws: a value is its own text, under a tag for its kind; lists and
-- objects are packed with the lengths of their parts.
use nexus_mainframe.Common.{
  ℕ, zero, suc, ◌≤◌, ◌≡◌, refl, sym, ap, ◌∙◌, List, [], ◌∷◌, ◌++◌, Str, length, take, drop,
  take-append, length-append, drop-append, Bool, true, false, Option, none, some, map, arith,
}
use nexus_mainframe.Common.Ints.{ℤ, pos, negsuc}
use nexus_mainframe.Json.{Json, Reals, field, has_field, set_field}

unfoldable pub pack : List Str → Str
pack [] = []
pack (s ∷ ss) = length s ∷ s ++ pack ss

-- Each round takes a part off; there are no more parts than numbers.
unfoldable pub unpack : ℕ → Str → List Str
unpack zero t = []
unpack (suc fuel) [] = []
unpack (suc fuel) (n ∷ t) = take n t ∷ unpack fuel (drop n t)

pub unpack-pack : (fuel : ℕ) (ss : List Str) → length (pack ss) ≤ fuel → unpack fuel (pack ss) ≡ ss
unfolding pack unpack
unpack-pack zero [] h = refl
unpack-pack (suc fuel) [] h = refl
unpack-pack zero (s ∷ ss) h = absurd (omega arith)
unpack-pack (suc fuel) (s ∷ ss) h = ground (
  arith,
  take-append s (pack ss),
  drop-append s (pack ss),
  unpack-pack fuel ss (omega (arith, length-append s (pack ss))),
)

unfoldable pub parts : List (Str × Str) → List Str
parts [] = []
parts ((k, v) ∷ fs) = k ∷ v ∷ parts fs

unfoldable pub pairs : List Str → List (Str × Str)
pairs (k ∷ v ∷ ps) = (k, v) ∷ pairs ps
pairs _ = []

pairs-parts : (fs : List (Str × Str)) → pairs (parts fs) ≡ fs
unfolding pairs parts
pairs-parts [] = refl
pairs-parts ((k, v) ∷ fs) = ap (λ (l : List (Str × Str)). (k, v) ∷ l) (pairs-parts fs)

abbrev pub object : List (Str × Str) → Str
object fs = 2 ∷ pack (parts fs)

abbrev pub array : List Str → Str
array js = 3 ∷ pack js

-- What is no object has no fields.
abbrev pub fields : Str → List (Str × Str)
fields (suc (suc zero) ∷ t) = pairs (unpack (length t) t)
fields _ = []

pub fields-object : (fs : List (Str × Str)) → fields (object fs) ≡ fs
fields-object fs =
    ap pairs (unpack-pack (length (pack (parts fs))) (parts fs) (omega arith)) ∙ pairs-parts fs

-- Null becomes an object.
abbrev pub assign : Str → Str → Str → Option Str
assign [] k v = some (object ((k, v) ∷ []))
assign (suc (suc zero) ∷ t) k v = some (object (set_field k v (pairs (unpack (length t) t))))
assign _ k v = none

pub assign-object :
    (fs : List (Str × Str)) (k v : Str) → assign (object fs) k v ≡ some (object (set_field k v fs))
assign-object fs k v = ap (λ l. some (object (set_field k v l))) (fields-object fs)

abbrev pub elements : Str → Option (List Str)
elements (suc (suc (suc zero)) ∷ t) = some (unpack (length t) t)
elements _ = none

pub elements-array : (js : List Str) → elements (array js) ≡ some js
elements-array js = ap some (unpack-pack (length (pack js)) js (omega arith))

abbrev pub head_of : Option (List Str) → Option Str
head_of (some (j ∷ js)) = some j
head_of _ = none

abbrev pub string : Str → Str
string s = 1 ∷ s

abbrev pub text_of : Str → Option Str
text_of (suc zero ∷ s) = some s
text_of _ = none

abbrev pub cons_text : Option Str → Option (List Str) → Option (List Str)
cons_text (some s) (some ss) = some (s ∷ ss)
cons_text _ _ = none

abbrev pub texts_of : List Str → Option (List Str)
texts_of [] = some []
texts_of (j ∷ js) = cons_text (text_of j) (texts_of js)

texts_of-string : (ss : List Str) → texts_of (map string ss) ≡ some ss
texts_of-string [] = refl
texts_of-string (s ∷ ss) = ap (cons_text (some s)) (texts_of-string ss)

abbrev pub all_texts : Option (List Str) → Option (List Str)
all_texts none = none
all_texts (some js) = texts_of js

abbrev pub strings_of : Str → Option (List Str)
strings_of j = all_texts (elements j)

pub strings_of-array : (ss : List Str) → strings_of (array (map string ss)) ≡ some ss
strings_of-array ss = ap all_texts (elements-array (map string ss)) ∙ texts_of-string ss

abbrev pub has_value : Option Str → Bool
has_value none = false
has_value (some v) = true

abbrev pub boolean : Bool → Str
boolean true = 4 ∷ 1 ∷ []
boolean false = 4 ∷ 0 ∷ []

abbrev pub boolean_of : Str → Option Bool
boolean_of (suc (suc (suc (suc zero))) ∷ zero ∷ []) = some false
boolean_of (suc (suc (suc (suc zero))) ∷ suc zero ∷ []) = some true
boolean_of _ = none

pub boolean_of-boolean : (b : Bool) → boolean_of (boolean b) ≡ some b
boolean_of-boolean true = refl
boolean_of-boolean false = refl

abbrev pub integer : ℤ → Str
integer (pos n) = 5 ∷ 0 ∷ n ∷ []
integer (negsuc n) = 5 ∷ 1 ∷ n ∷ []

abbrev pub int_of : Str → Option ℤ
int_of (suc (suc (suc (suc (suc zero)))) ∷ zero ∷ n ∷ []) = some (pos n)
int_of (suc (suc (suc (suc (suc zero)))) ∷ suc zero ∷ n ∷ []) = some (negsuc n)
int_of _ = none

pub int_of-integer : (i : ℤ) → int_of (integer i) ≡ some i
int_of-integer (pos n) = refl
int_of-integer (negsuc n) = refl

-- Null, and the objects and arrays without a part.
abbrev pub is_empty : Str → Bool
is_empty [] = true
is_empty (suc (suc zero) ∷ []) = true
is_empty (suc (suc (suc zero)) ∷ []) = true
is_empty _ = false

pub is_empty-array : (j : Str) (js : List Str) → is_empty (array (j ∷ js)) ≡ false
unfolding pack
is_empty-array j js = refl

abbrev pub is_null : Str → Bool
is_null [] = true
is_null _ = false

abbrev pub or_else {ℓ} : {A : Type ℓ} → Option Str → A → (Str → Option A) → Option A
or_else none d read = some d
or_else (some v) d read = read v

abbrev pub get_text : Option Str → Option Str
get_text none = none
get_text (some v) = text_of v

abbrev pub get_int : Option Str → Option ℤ
get_int none = none
get_int (some v) = int_of v

pub get_field :
    (fs : List (Str × Str)) (k : Str) {o : Option Str}
    → field k fs ≡ o
    → field k (fields (object fs)) ≡ o
get_field fs k e = ap (field k) (fields-object fs) ∙ e

abbrev pub packed : Json Str
packed = record {
  null = [];
  object = object;
  array = array;
  string = string;
  boolean = boolean;
  integer = integer;
  is_null = is_null;
  is_string = λ j. has_value (text_of j);
  is_empty = is_empty;
  contains = λ j k. has_field k (fields j);
  elements = elements;
  at = λ j k. field k (fields j);
  first = λ j. head_of (elements j);
  get_string = text_of;
  at_string = λ j k. get_text (field k (fields j));
  at_int = λ j k. get_int (field k (fields j));
  value_string = λ j k d. or_else (field k (fields j)) d text_of;
  value_boolean = λ j k d. or_else (field k (fields j)) d boolean_of;
  value_int = λ j k d. or_else (field k (fields j)) d int_of;
  value_strings = λ j k d. or_else (field k (fields j)) d strings_of;
  value_json = λ j k d. or_else (field k (fields j)) d (λ v. some v);
  assign = assign;
  merge_patch = λ j patch. patch;
  dump = λ j. some j;
  dump_indented = λ j. some j;
  parse = λ s. some s;
  is_null-null = refl;
  is_null-object = λ fs. refl;
  is_string-string = λ s. refl;
  is_empty-array = is_empty-array;
  contains-object = λ fs k. ap (has_field k) (fields-object fs);
  elements-array = elements-array;
  at-object = λ fs k j e. get_field fs k e;
  assign-object = assign-object;
  first-array = λ j js. ap head_of (elements-array (j ∷ js));
  get_string-string = λ s. refl;
  at_string-object = λ fs k s e. ap get_text (get_field fs k e);
  value_string-object = λ fs k d s e. ap (λ o. or_else o d text_of) (get_field fs k e);
  value_string_absent = λ fs k d e. ap (λ o. or_else o d text_of) (get_field fs k e);
  value_boolean-object =
      λ fs k d b e. ap (λ o. or_else o d boolean_of) (get_field fs k e) ∙ boolean_of-boolean b;
  value_int-object =
      λ fs k d i h e. ap (λ o. or_else o d int_of) (get_field fs k e) ∙ int_of-integer i;
  value_strings-object =
      λ fs k d ss e. ap (λ o. or_else o d strings_of) (get_field fs k e) ∙ strings_of-array ss;
  value_json-object = λ fs k d j e. ap (λ o. or_else o d (λ v. some v)) (get_field fs k e);
  value_json_absent = λ fs k d e. ap (λ o. or_else o d (λ v. some v)) (get_field fs k e);
  parse-dump = λ j s e. sym e;
  parse-dump_indented = λ j s e. sym e;
}

abbrev pub real : ℕ → Str
real n = 6 ∷ n ∷ []

abbrev pub real_of : Str → Option ℕ
real_of (suc (suc (suc (suc (suc (suc zero))))) ∷ n ∷ []) = some n
real_of _ = none

-- Whole numbers for `double`.
abbrev pub packed_reals : Reals Str ℕ packed
packed_reals = record {
  zero = 0;
  one = 1;
  real = real;
  value_real = λ j k d. or_else (field k (fields j)) d real_of;
  value_real-object = λ fs k d x e. ap (λ o. or_else o d real_of) (get_field fs k e);
}
