-- ===== src/Http/Proxy/Body.antt =====
-- The body of a tool's call.
use nexus_mainframe.Common.{
  ◌≡◌, refl, ◌∙◌, List, [], ◌∷◌, Str, codes, str_eq, str_eq_iff, any, Bool, true, false, ◌&&◌, none,
  some, if◌then◌else◌, Bool-cases, Option-cases, inl, inr, ◌⊎◌, arith,
}
use nexus_mainframe.Json.{Json, field, has_field, has_field-some, has_field-none, set_field}
use nexus_mainframe.Http.Endpoint.{Endpoint, EndpointParam}
use nexus_mainframe.Http.Proxy.{body_loop, build_body}

module _ {J : Type 0} where
  pub field-set_field :
      (k n : Str) (v : J) (fs : List (Str × J))
      → field k (set_field n v fs) ≡ (if str_eq k n then some v else field k fs)
  unfolding field set_field
  field-set_field k n v [] = refl
  field-set_field k n v ((j, w) ∷ fs) =
      ground (arith, field-set_field k n v fs, str_eq_iff k n, str_eq_iff k j, str_eq_iff n j)

-- A parameter of the body of a name.
unfoldable pub is_body_param : Str → EndpointParam → Bool
is_body_param k p = str_eq p.place (codes "body") && str_eq k p.name

module _ {J : Type 0} (json : Json J) where
  BodyOf : List EndpointParam → List (Str × J) → List (Str × J) → List (Str × J) → Type 0
  BodyOf ps fs acc body =
      (k : Str)
      → field k body
        ≡ (if any (is_body_param k) ps && has_field k fs then field k fs else field k acc)

  body_loop_taken :
      (p : EndpointParam) (ps : List EndpointParam) (fs acc : List (Str × J)) (v : J)
      → str_eq p.place (codes "body") ≡ true
      → field p.name fs ≡ some v
      → body_loop json (p ∷ ps) (json.object fs) acc
        ≡ body_loop json ps (json.object fs) (set_field p.name v acc)
  unfolding body_loop
  body_loop_taken p ps fs acc v t e =
      rw
        (
          t,
          json.contains-object fs p.name,
          has_field-some p.name fs e,
          json.at-object fs p.name v e,
        )
        refl

  body_loop_skipped :
      (p : EndpointParam) (ps : List EndpointParam) (fs acc : List (Str × J))
      → str_eq p.place (codes "body") && has_field p.name fs ≡ false
      → body_loop json (p ∷ ps) (json.object fs) acc ≡ body_loop json ps (json.object fs) acc
  unfolding body_loop
  body_loop_skipped p ps fs acc f = rw (json.contains-object fs p.name, f) refl

  taken-BodyOf :
      (p : EndpointParam) (ps : List EndpointParam) (fs acc body : List (Str × J)) (v : J)
      → str_eq p.place (codes "body") ≡ true
      → field p.name fs ≡ some v
      → BodyOf ps fs (set_field p.name v acc) body
      → BodyOf (p ∷ ps) fs acc body
  unfolding BodyOf any is_body_param has_field
  taken-BodyOf p ps fs acc body v t e h k =
      ground (arith, h k, field-set_field k p.name v acc, str_eq_iff k p.name, t, e)

  skipped-BodyOf :
      (p : EndpointParam) (ps : List EndpointParam) (fs acc body : List (Str × J))
      → str_eq p.place (codes "body") && has_field p.name fs ≡ false
      → BodyOf ps fs acc body
      → BodyOf (p ∷ ps) fs acc body
  unfolding BodyOf any is_body_param has_field
  skipped-BodyOf p ps fs acc body f h k = ground (arith, h k, str_eq_iff k p.name, f)

  -- Both steps, by whether the parameter is taken.
  taken_cases :
      (p : EndpointParam) (fs : List (Str × J))
      → ((str_eq p.place (codes "body") ≡ true) × (v : J) × (field p.name fs ≡ some v))
        ⊎ (str_eq p.place (codes "body") && has_field p.name fs ≡ false)
  taken_cases p fs = elim (Bool-cases (str_eq p.place (codes "body"))) [
    | inr f ↦ inr (rw f refl)
    | inl t ↦ elim (Option-cases (field p.name fs)) [
      | inl n ↦ inr (rw (t, has_field-none p.name fs n) refl)
      | inr (v, e) ↦ inl (t, v, e)
    ]
  ]

  body_loop-object :
      (ps : List EndpointParam) (fs acc : List (Str × J))
      → (body : List (Str × J)) × (body_loop json ps (json.object fs) acc ≡ some body)
        × BodyOf ps fs acc body
  body_loop-object [] fs acc = (acc, unfold body_loop in refl, unfold BodyOf any in λ k. refl)
  body_loop-object (p ∷ ps) fs acc = elim (taken_cases p fs) [
    | inl (t, v, e) ↦
        let (body, eq, h) = body_loop-object ps fs (set_field p.name v acc) in
        (body, body_loop_taken p ps fs acc v t e ∙ eq, taken-BodyOf p ps fs acc body v t e h)
    | inr f ↦
        let (body, eq, h) = body_loop-object ps fs acc in
        (body, body_loop_skipped p ps fs acc f ∙ eq, skipped-BodyOf p ps fs acc body f h)
  ]

  -- On arguments that are an object, the body has exactly the arguments that a parameter of the body
  -- names, each with its value.
  pub build_body-object :
      {H : Type 0} (ep : Endpoint H) (fs : List (Str × J))
      → (body : List (Str × J)) × (build_body json ep (json.object fs) ≡ some body)
        × ((k : Str)
            → field k body ≡ (if any (is_body_param k) ep.params then field k fs else none))
  unfolding build_body BodyOf has_field field
  build_body-object ep fs =
      let (body, eq, h) = body_loop-object ep.params fs [] in (body, eq, λ k. ground (arith, h k))
