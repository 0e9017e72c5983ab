-- ===== src/Modules/StateFile.antt =====
-- `load` and `save` of ModuleStateStore.cpp: the file of the names, `none` where it does not exist, or
-- cannot be opened for reading. `opens` says whether it can be opened for writing, and is then written.
use nexus_mainframe.Common.{
  ◌≡◌, refl, ap, List, [], ◌∷◌, Str, codes, str_eq, Bool, true, false, Option, none, some,
  if◌then◌else◌, map, Option-cases, inl, inr, arith,
}
use nexus_mainframe.Common.Options.{◌>>=◌}
use nexus_mainframe.Json.{Json, field}

module _ {J : Type 0} (json : Json J) where
  -- `name.get<std::string>()` over the elements.
  read_texts : List J → Option (List Str)
  read_texts [] = some []
  read_texts (item ∷ items) = do
    name ← json.get_string item
    names ← read_texts items
    some (name ∷ names)

  read_names : Str → Option (List Str)
  unfolding read_texts
  read_names text = do
    j ← json.parse text
    enabled ← json.value_json j (codes "enabled") (json.array [])
    items ← json.elements enabled
    read_texts items

  -- What throws leaves no names.
  unfoldable pub load : Option Str → List Str → List Str
  unfolding read_names
  load none names = names
  load (some text) names = elim (read_names text) [ none ↦ [] | some read ↦ read ]

  -- Where the file cannot be opened `save` returns, as if all were well. Otherwise the file is emptied
  -- before `dump` may throw; the answer is whether it did not, and the file.
  unfoldable pub save : Bool → Option Str → List Str → Bool × Option Str
  save opens file names =
      if opens
      then (elim (json.dump_indented
          (json.object ((codes "enabled", json.array (map json.string names)) ∷ []))) [
            | none ↦ (false, some [])
            | some text ↦ (true, some text)
          ])
      else (true, file)

  read_texts-string : (names : List Str) → read_texts (map json.string names) ≡ some names
  unfolding read_texts
  read_texts-string [] = refl
  read_texts-string (name ∷ names) =
      rw (read_texts, json.get_string-string name, read_texts-string names) refl

  read_names-text :
      (names : List Str) (text : Str)
      → json.dump_indented
          (json.object ((codes "enabled", json.array (map json.string names)) ∷ []))
        ≡ some text
      → read_names text ≡ some names
  unfolding read_names field str_eq
  read_names-text names text e =
      rw
        (
          json.parse-dump_indented _ text e,
          json.value_json-object _ (codes "enabled") (json.array [])
              (json.array (map json.string names)) refl,
          json.elements-array (map json.string names),
        )
        (read_texts-string names)

  -- The names that are saved without an exception, to a file that can be opened, are those that are
  -- loaded from the file, in their order, whatever names were there before.
  pub load-save :
      (file : Option Str) (names old : List Str)
      → (save true file names).0 ≡ true
      → load (save true file names).1 old ≡ names
  unfolding load save
  load-save file names old ok =
      elim (Option-cases (
        json.dump_indented
          (json.object ((codes "enabled", json.array (map json.string names)) ∷ [])))) [
            | inl e ↦
                absurd (ground (arith, ok, ap (λ (b : Bool × Option Str). b.0) (saved_none e)))
            | inr (text, e) ↦ rw (save, e, load, read_names-text names text e) refl
          ]
    where
      saved_none :
          json.dump_indented
              (json.object ((codes "enabled", json.array (map json.string names)) ∷ []))
            ≡ none
          → save true file names ≡ (false, some [])
      saved_none e = rw (save, e) refl
