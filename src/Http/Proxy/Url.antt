-- ===== src/Http/Proxy/Url.antt =====
-- The address of a tool's call, for arguments that are texts.
use nexus_mainframe.Common.{
  ℕ, ◌≡◌, refl, sym, ap, ◌∙◌, List, [], ◌∷◌, ◌++◌, Str, codes, str_eq, is_empty, true, false, none,
  some, if◌then◌else◌, Bool-cases, Option-cases, inl, inr, arith, append-nil, append_assoc,
  drop-append, any, ==_self, str_eq_self,
}
use nexus_mainframe.Json.{Json, field, has_field-some, has_field-none}
use nexus_mainframe.Http.Strings.{starts_with, split_first, replace_first}
use nexus_mainframe.Http.Endpoint.{Endpoint, EndpointParam}
use nexus_mainframe.Http.Proxy.Base.{has_char, starts_with-append}
use nexus_mainframe.Http.Proxy.{url_loop, url_argument, argument_text, add_query, build_url}

module _ {J : Type 0} (json : Json J) where
  -- Arguments as texts.
  unfoldable pub texts : List (Str × Str) → List (Str × J)
  texts [] = []
  texts ((k, v) ∷ ss) = (k, json.string v) ∷ texts ss

-- The path with the values of its parameters.
unfoldable pub filled : List EndpointParam → List (Str × Str) → Str → Str
filled [] ss path = path
filled (p ∷ ps) ss path = elim (field p.name ss) [
  | none ↦ filled ps ss path
  | some v ↦
      filled ps ss
        (if str_eq p.place (codes "path") then replace_first (codes ":" ++ p.name) v path else path)
]

-- The parameters of the query with their values.
unfoldable pub asked : List EndpointParam → List (Str × Str) → List (Str × Str)
asked [] ss = []
asked (p ∷ ps) ss =
    let rest = asked ps ss in
    elim (field p.name ss) [
      | none ↦ rest
      | some v ↦
          if str_eq p.place (codes "path")
          then rest
          else if str_eq p.place (codes "query")
          then (p.name, v) ∷ rest
          else rest
    ]

abbrev pub assignment : Str → Str → Str
assignment k v = k ++ codes "=" ++ v

-- Each assignment behind an ampersand.
unfoldable pub more : List (Str × Str) → Str
more [] = []
more ((k, v) ∷ qs) = codes "&" ++ assignment k v ++ more qs

unfoldable pub query_text : List (Str × Str) → Str
query_text [] = []
query_text ((k, v) ∷ qs) = codes "?" ++ assignment k v ++ more qs

-- The query that the loop has when it ends.
added : Str → List (Str × Str) → Str
added query [] = query
added query ((k, v) ∷ qs) = added (add_query query k v) qs

added-more :
    (c : ℕ) (query : Str) (qs : List (Str × Str)) → added (c ∷ query) qs ≡ (c ∷ query) ++ more qs
unfolding added more add_query is_empty
added-more c query [] = sym (append-nil (c ∷ query))
added-more c query ((k, v) ∷ qs) =
    added-more c (query ++ codes "&" ++ k ++ codes "=" ++ v) qs
    ∙ ap (λ (t : Str). c ∷ t) (simp append_assoc)

added-query_text : (qs : List (Str × Str)) → added [] qs ≡ query_text qs
unfolding added query_text add_query is_empty
added-query_text [] = refl
added-query_text ((k, v) ∷ qs) = added-more b'?' (k ++ codes "=" ++ v) qs ∙ simp append_assoc

module _ {J : Type 0} (json : Json J) where
  field-texts-none :
      (k : Str) (ss : List (Str × Str)) → field k ss ≡ none → field k (texts json ss) ≡ none
  unfolding field texts
  field-texts-none k [] e = refl
  field-texts-none k ((j, v) ∷ ss) e = ground (arith, field-texts-none k ss, e)

  field-texts :
      (k v : Str) (ss : List (Str × Str))
      → field k ss ≡ some v
      → field k (texts json ss) ≡ some (json.string v)
  unfolding field texts
  field-texts k v [] e = absurd (cc)
  field-texts k v ((j, w) ∷ ss) e = elim (Bool-cases (str_eq k j)) [
    | inl t ↦ let same : w ≡ v = ground (arith, e, t) in rw (t, same) refl
    | inr f ↦ rw f (field-texts k v ss (ground (arith, e, f)))
  ]

  url_argument-texts :
      (p : EndpointParam) (v : Str) (ss : List (Str × Str))
      → field p.name ss ≡ some v
      → url_argument json (json.object (texts json ss)) p ≡ some v
  unfolding url_argument argument_text
  url_argument-texts p v ss e =
      rw
        (
          json.at-object (texts json ss) p.name (json.string v) (field-texts p.name v ss e),
          json.is_string-string v,
          json.get_string-string v,
        )
        refl

  -- The rest of the loop behind a parameter that is given.
  placed :
      (p : EndpointParam) (ps : List EndpointParam) (ss : List (Str × Str)) (url query v : Str)
      → field p.name ss ≡ some v
      → ((url' query' : Str)
          → url_loop json ps (json.object (texts json ss)) url' query'
            ≡ some (filled ps ss url' ++ added query' (asked ps ss)))
      → url_loop json (p ∷ ps) (json.object (texts json ss)) url query
        ≡ some (filled (p ∷ ps) ss url ++ added query (asked (p ∷ ps) ss))
  unfolding url_loop filled asked added
  placed p ps ss url query v e rest =
      let args = json.object (texts json ss) in
      let there =
        json.contains-object (texts json ss) p.name
        ∙ has_field-some p.name (texts json ss) (field-texts p.name v ss e) in
      ground (
        arith,
        there,
        url_argument-texts p v ss e,
        e,
        rest url query,
        rest (replace_first (codes ":" ++ p.name) v url) query,
        rest url (add_query query p.name v),
      )

  url_loop-texts :
      (ps : List EndpointParam) (ss : List (Str × Str)) (url query : Str)
      → url_loop json ps (json.object (texts json ss)) url query
        ≡ some (filled ps ss url ++ added query (asked ps ss))
  unfolding url_loop filled asked added
  url_loop-texts [] ss url query = refl
  url_loop-texts (p ∷ ps) ss url query = elim (Option-cases (field p.name ss)) [
    | inl n ↦ ground (
      arith,
      json.contains-object (texts json ss) p.name,
      has_field-none p.name (texts json ss) (field-texts-none p.name ss n),
      n,
      url_loop-texts ps ss url query,
    )
    | inr (v, e) ↦ placed p ps ss url query v e (url_loop-texts ps ss)
  ]

  -- On arguments that are texts, the address is the path with each given parameter of the path put in
  -- for its first `:name`, in the order of the parameters, and behind it the given parameters of the
  -- query, in their order, after one question mark and between ampersands.
  pub build_url-texts :
      {H : Type 0} (ep : Endpoint H) (ss : List (Str × Str))
      → build_url json ep (json.object (texts json ss))
        ≡ some (filled ep.params ss ep.path ++ query_text (asked ep.params ss))
  unfolding build_url
  build_url-texts ep ss =
      url_loop-texts ep.params ss ep.path []
      ∙ ap (λ t. some (filled ep.params ss ep.path ++ t)) (added-query_text (asked ep.params ss))

-- A pattern is found behind a text that does not have its first character.
split_first-append :
    (c : ℕ) (q a b : Str)
    → has_char c a ≡ false
    → split_first (c ∷ q) (a ++ ((c ∷ q) ++ b)) ≡ some (a, b)
unfolding split_first starts_with any
split_first-append c q [] b h =
    rw (==_self c, starts_with-append q b) (ap (λ (t : Str). some ([], t)) (drop-append q b))
split_first-append c q (d ∷ a) b h = ground (arith, split_first-append c q a b)

replace_first-append :
    (c : ℕ) (q v a b : Str)
    → has_char c a ≡ false
    → replace_first (c ∷ q) v (a ++ ((c ∷ q) ++ b)) ≡ a ++ v ++ b
unfolding replace_first
replace_first-append c q v a b h = rw (replace_first, split_first-append c q a b h) refl

filled-one :
    (p : EndpointParam) (v path : Str)
    → str_eq p.place (codes "path") ≡ true
    → filled (p ∷ []) ((p.name, v) ∷ []) path ≡ replace_first (codes ":" ++ p.name) v path
unfolding filled field
filled-one p v path t = rw (filled, str_eq_self p.name, t) refl

asked-one :
    (p : EndpointParam) (v : Str)
    → str_eq p.place (codes "path") ≡ true
    → asked (p ∷ []) ((p.name, v) ∷ []) ≡ []
unfolding asked field
asked-one p v t = rw (asked, str_eq_self p.name, t) refl

module _ {J H : Type 0} (json : Json J) where
  -- In the path of an endpoint, a parameter of the path that is given as a text takes the place of the
  -- first `:name`, where no colon stands before it.
  pub build_url-path :
      (ep : Endpoint H) (p : EndpointParam) (before behind v : Str)
      → ep.params ≡ p ∷ []
      → str_eq p.place (codes "path") ≡ true
      → has_char b':' before ≡ false
      → ep.path ≡ before ++ ((b':' ∷ p.name) ++ behind)
      → build_url json ep (json.object (texts json ((p.name, v) ∷ [])))
        ≡ some (before ++ v ++ behind)
  unfolding query_text
  build_url-path ep p before behind v one at_path free path =
      build_url-texts json ep ((p.name, v) ∷ [])
      ∙ rw
          (
            one,
            path,
            asked-one p v at_path,
            filled-one p v (before ++ ((b':' ∷ p.name) ++ behind)) at_path,
          )
          (ap some (append-nil _ ∙ replace_first-append b':' p.name v before behind free))
