-- ===== src/Ws/Topics.antt =====
-- WsService.cpp, `topicMatches`: the rest of the filter and the rest of the topic stand for the two
-- positions.
use nexus_mainframe.Common.{
  ◌≡◌, ◌≢◌, refl, sym, ap, ◌∙◌, append-nil, List, [], ◌∷◌, ◌++◌, Str, All, Bool, true, false, ◌&&◌,
  ◌==◌, if◌then◌else◌, str_eq, is_empty, arith,
}

-- The inner loop behind a `+`.
unfoldable pub skip_level : Str → Str
skip_level [] = []
skip_level (t ∷ ts) = if t == b'/' then t ∷ ts else skip_level ts

-- Behind the loop.
unfoldable pub at_end : Str → Str → Bool
at_end (f ∷ g ∷ fs) ts = f == b'/' && g == b'#'
at_end (f ∷ []) ts = false
at_end [] ts = is_empty ts

unfoldable pub topic_matches : Str → Str → Bool
topic_matches [] topic = at_end [] topic
topic_matches (f ∷ fs) [] = at_end (f ∷ fs) []
topic_matches (f ∷ fs) (t ∷ ts) =
    let behind_level = topic_matches fs (skip_level (t ∷ ts)) in
    let behind_both = topic_matches fs ts in
    if f == b'#'
    then true
    else if f == b'+'
    then behind_level
    else if f == t
    then behind_both
    else false

-- A filter of MQTT: levels, of which the last may be `#`.
pub data Level : Type 0 where
  exact : Str → Level
  any_one : Level

pub data Filter : Type 0 where
  ends : Level → Filter
  all_below : Filter
  below : Level → Filter → Filter

unfoldable pub level_text : Level → Str
level_text (exact s) = s
level_text any_one = b'+' ∷ []

unfoldable pub filter_text : Filter → Str
filter_text (ends l) = level_text l
filter_text all_below = b'#' ∷ []
filter_text (below l f) = level_text l ++ b'/' ∷ filter_text f

-- A topic of a level `w` and those below it.
unfoldable pub topic_text : Str → List Str → Str
topic_text w [] = w
topic_text w (w' ∷ ws) = w ++ b'/' ∷ topic_text w' ws

unfoldable pub level_accepts : Level → Str → Bool
level_accepts (exact s) w = str_eq s w
level_accepts any_one w = true

-- The levels of a filter against those of a topic: `+` stands for one level, `#` for any number of them, none included.
unfoldable pub fits : Filter → List Str → Bool
fits all_below ws = true
fits (ends l) [] = false
fits (ends l) (w ∷ []) = level_accepts l w
fits (ends l) (w ∷ w' ∷ ws) = false
fits (below l f) [] = false
fits (below l f) (w ∷ ws) = let rest = fits f ws in level_accepts l w && rest

abbrev pub IsLevel : Level → Type 0
IsLevel (exact s) = All (λ c. (c ≢ b'/') × (c ≢ b'+') × (c ≢ b'#')) s
IsLevel any_one = Unit {0}

abbrev pub IsFilter : Filter → Type 0
IsFilter (ends l) = IsLevel l
IsFilter all_below = Unit {0}
IsFilter (below l f) = IsLevel l × IsFilter f

abbrev pub IsWord : Str → Type 0
IsWord w = (w ≢ []) × All (λ c. c ≢ b'/') w

-- Empty, or with a `/` in front.
abbrev IsRest : Str → Type 0
IsRest [] = Unit {0}
IsRest (c ∷ cs) = c ≡ b'/'

skip_level-word :
    (w rest : Str) → All (λ c. c ≢ b'/') w → IsRest rest → skip_level (w ++ rest) ≡ rest
unfolding skip_level
skip_level-word [] [] h r = refl
skip_level-word [] (c ∷ cs) h r = ground (arith, r)
skip_level-word (c ∷ cs) rest h r = ground (arith, h.0, skip_level-word cs rest h.1 r)

exact_level :
    (s w fr tr : Str)
    → All (λ c. (c ≢ b'/') × (c ≢ b'+') × (c ≢ b'#')) s
    → All (λ c. c ≢ b'/') w
    → IsRest fr
    → IsRest tr
    → topic_matches (s ++ fr) (w ++ tr) ≡ (if str_eq s w then topic_matches fr tr else false)
unfolding topic_matches at_end str_eq is_empty
exact_level [] [] fr tr hs hw rf rt = refl
exact_level [] (c ∷ cs) [] tr hs hw rf rt = refl
exact_level [] (c ∷ cs) (f ∷ fs) tr hs hw rf rt = ground (arith, rf, hw.0)
exact_level (x ∷ xs) [] fr (t ∷ ts) hs hw rf rt = ground (arith, hs.0, rt)
exact_level (x ∷ []) [] [] [] hs hw rf rt = refl
exact_level (x ∷ []) [] (f ∷ fs) [] hs hw rf rt = ground (arith, hs.0)
exact_level (x ∷ y ∷ xs) [] fr [] hs hw rf rt = ground (arith, hs.0)
exact_level (x ∷ xs) (c ∷ cs) fr tr hs hw rf rt =
    ground (arith, hs.0, exact_level xs cs fr tr hs.1 hw.1 rf rt)

any_level :
    (w fr tr : Str)
    → IsWord w
    → IsRest tr
    → topic_matches (b'+' ∷ fr) (w ++ tr) ≡ topic_matches fr tr
unfolding topic_matches
any_level [] fr tr hw rt = absurd (hw.0 refl)
any_level (c ∷ cs) fr tr hw rt = ap (topic_matches fr) (skip_level-word (c ∷ cs) tr hw.1 rt)

one_level :
    (l : Level) (w fr tr : Str)
    → IsLevel l
    → IsWord w
    → IsRest fr
    → IsRest tr
    → topic_matches (level_text l ++ fr) (w ++ tr)
      ≡ (if level_accepts l w then topic_matches fr tr else false)
unfolding level_text level_accepts
one_level (exact s) w fr tr hl hw rf rt = exact_level s w fr tr hl hw.1 rf rt
one_level any_one w fr tr hl hw rf rt = any_level w fr tr hw rt

-- `#` after a `/` is all that the end of a topic may leave of a filter.
at_end-filter : (f : Filter) → IsFilter f → at_end (b'/' ∷ filter_text f) [] ≡ fits f []
unfolding at_end filter_text level_text fits
at_end-filter (ends (exact [])) h = refl
at_end-filter (ends (exact (c ∷ cs))) h = ground (arith, h.0)
at_end-filter (ends any_one) h = refl
at_end-filter all_below h = refl
at_end-filter (below (exact []) f) h = refl
at_end-filter (below (exact (c ∷ cs)) f) h = ground (arith, h.0.0)
at_end-filter (below any_one f) h = refl

level_end :
    (l : Level) (w tr : Str)
    → IsLevel l
    → IsWord w
    → IsRest tr
    → topic_matches (level_text l) (w ++ tr) ≡ (level_accepts l w && is_empty tr)
level_end l w tr hl hw rt =
    ap (λ s. topic_matches s (w ++ tr)) (sym (append-nil (level_text l)))
    ∙ one_level l w [] tr hl hw tt rt
    ∙ (unfold topic_matches at_end in ground arith)

word_end :
    (l : Level) (w fr : Str)
    → IsLevel l
    → IsWord w
    → IsRest fr
    → topic_matches (level_text l ++ fr) w
      ≡ (if level_accepts l w then topic_matches fr [] else false)
word_end l w fr hl hw rf =
    ap (topic_matches (level_text l ++ fr)) (sym (append-nil w)) ∙ one_level l w fr [] hl hw rf tt

matches_end : (fs : Str) → topic_matches fs [] ≡ at_end fs []
unfolding topic_matches
matches_end [] = refl
matches_end (f ∷ fs) = refl

all_matches : (w tr : Str) → IsWord w → topic_matches (b'#' ∷ []) (w ++ tr) ≡ true
unfolding topic_matches
all_matches [] tr h = absurd (h.0 refl)
all_matches (c ∷ cs) tr h = refl

both_slash : (fs ts : Str) → topic_matches (b'/' ∷ fs) (b'/' ∷ ts) ≡ topic_matches fs ts
unfolding topic_matches
both_slash fs ts = refl

topic_matches-fits :
    (f : Filter) (w : Str) (ws : List Str)
    → IsFilter f
    → All IsWord (w ∷ ws)
    → topic_matches (filter_text f) (topic_text w ws) ≡ fits f (w ∷ ws)
unfolding filter_text topic_text fits is_empty
topic_matches-fits all_below w [] hf hw =
    ap (topic_matches (b'#' ∷ [])) (sym (append-nil w)) ∙ all_matches w [] hw.0
topic_matches-fits all_below w (w' ∷ ws) hf hw = all_matches w (b'/' ∷ topic_text w' ws) hw.0
topic_matches-fits (ends l) w [] hf hw = ground (arith, level_end l w [] hf hw.0 tt, append-nil w)
topic_matches-fits (ends l) w (w' ∷ ws) hf hw =
    ground (arith, level_end l w (b'/' ∷ topic_text w' ws) hf hw.0 refl)
topic_matches-fits (below l f) w [] hf hw = ground (
  arith,
  word_end l w (b'/' ∷ filter_text f) hf.0 hw.0 refl,
  at_end-filter f hf.1,
  matches_end (b'/' ∷ filter_text f),
)
topic_matches-fits (below l f) w (w' ∷ ws) hf hw = ground (
  arith,
  one_level l w (b'/' ∷ filter_text f) (b'/' ∷ topic_text w' ws) hf.0 hw.0 refl refl,
  both_slash (filter_text f) (topic_text w' ws),
  topic_matches-fits f w' ws hf.1 hw.1,
)

-- A topic that belongs to the broker, and a filter that starts with a wildcard.
unfoldable pub is_reserved : Str → Bool
is_reserved [] = false
is_reserved (c ∷ cs) = c == b'$'

unfoldable pub starts_wild : Filter → Bool
starts_wild all_below = true
starts_wild (ends (exact s)) = false
starts_wild (ends any_one) = true
starts_wild (below (exact s) f) = false
starts_wild (below any_one f) = true

-- The rules of MQTT 3.1.1, 4.7.1 and 4.7.2.
unfoldable pub accepts : Filter → Str → List Str → Bool
accepts f w ws = if is_reserved w && starts_wild f then false else fits f (w ∷ ws)

-- On a filter whose wildcards stand as levels of their own, and a topic without empty levels,
-- `topicMatches` answers what the rules of MQTT 3.1.1 say of the levels, unless the topic starts with
-- `$` and the filter with a wildcard.
pub topic_matches-accepts :
    (f : Filter) (w : Str) (ws : List Str)
    → IsFilter f
    → All IsWord (w ∷ ws)
    → is_reserved w && starts_wild f ≡ false
    → topic_matches (filter_text f) (topic_text w ws) ≡ accepts f w ws
unfolding accepts
topic_matches-accepts f w ws hf hw usual = rw usual (topic_matches-fits f w ws hf hw)
