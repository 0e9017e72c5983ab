-- ===== src/Http/Endpoint/Schema.antt =====
-- The schema that MCP shows of an endpoint.
use nexus_mainframe.Common.{
  ◌≡◌, refl, ◌∙◌, List, [], ◌∷◌, Str, codes, str_eq, str_eq_iff, str_eq_self, any, Bool, true,
  false, ◌||◌, some, All, arith, if_cases,
}
use nexus_mainframe.Json.{Json, field, has_field, set_field}
use nexus_mainframe.Http.Endpoint.{
  Endpoint, EndpointParam, build_input_schema, param_schema, schema_properties, required_names,
}

module _ {J : Type 0} where
  has_field-set_field :
      (k n : Str) (v : J) (fs : List (Str × J))
      → has_field k (set_field n v fs) ≡ str_eq k n || has_field k fs
  unfolding field set_field has_field
  has_field-set_field k n v [] = ground arith
  has_field-set_field k n v ((j, w) ∷ fs) =
      ground (arith, has_field-set_field k n v fs, str_eq_iff k n, str_eq_iff k j, str_eq_iff n j)

or-false : (b : Bool) → b || false ≡ b
or-false true = refl
or-false false = refl

module _ {J : Type 0} (json : Json J) where
  has_field-properties :
      (k : Str) (ps : List EndpointParam) (props : List (Str × J))
      → has_field k (schema_properties json ps props)
        ≡ any (λ p. str_eq k p.name) ps || has_field k props
  unfolding schema_properties any
  has_field-properties k [] props = refl
  has_field-properties k (p ∷ ps) props = ground (
    arith,
    has_field-properties k ps (set_field p.name (param_schema json p) props),
    has_field-set_field k p.name (param_schema json p) props,
  )

  required-properties :
      (ps : List EndpointParam) (props : List (Str × J))
      → All (λ n. has_field n (schema_properties json ps props) ≡ true) (required_names ps)
  unfolding schema_properties required_names
  required-properties [] props = tt
  required-properties (p ∷ ps) props =
      let set = set_field p.name (param_schema json p) props in
      let rest = required-properties ps set in
      if_cases (All (λ n. has_field n (schema_properties json ps set) ≡ true)) p.required _ _
        (λ _. (
          ground (
            arith,
            has_field-properties p.name ps set,
            has_field-set_field p.name p.name (param_schema json p) props,
            str_eq_self p.name,
          ),
          rest,
        ))
        λ _. rest

  -- The schema of an endpoint has a property for each name of a parameter and for no other, and every
  -- name that it requires is one of its properties.
  pub build_input_schema-properties :
      {H : Type 0} (ep : Endpoint H)
      → (props : List (Str × J)) × (json.at (build_input_schema json ep) (codes "properties")
          ≡ some (json.object props))
        × ((k : Str) → has_field k props ≡ any (λ p. str_eq k p.name) ep.params)
        × All (λ n. has_field n props ≡ true) (required_names ep.params)
  unfolding build_input_schema field str_eq has_field
  build_input_schema-properties ep =
      let props = schema_properties json ep.params [] in
      (
        props,
        json.at-object _ (codes "properties") _ refl,
        λ k. has_field-properties k ep.params [] ∙ or-false _,
        required-properties ep.params [],
      )
