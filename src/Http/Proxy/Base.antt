-- ===== src/Http/Proxy/Base.antt =====
-- The base address of the API.
use nexus_mainframe.Common.{
  ℕ, ◌≡◌, ◌<◌, ◌^◌, refl, ap, ◌∙◌, [], ◌∷◌, ◌++◌, Str, codes, Bool, true, false, any, none, some,
  arith, All, ◌==◌, drop-append,
}
use nexus_mainframe.Common.Ints.{pos, to_string, stoi-to_string, to_string-digits, is_digit}
use nexus_mainframe.Http.Strings.{starts_with, split_last, without_prefix}
use nexus_mainframe.Http.Proxy.{parse_base, host_and_port}

abbrev pub has_char : ℕ → Str → Bool
has_char c s = any (λ d. d == c) s

split_last-none : (c : ℕ) (s : Str) → has_char c s ≡ false → split_last c s ≡ none
unfolding split_last any
split_last-none c [] h = refl
split_last-none c (d ∷ s) h = ground (arith, split_last-none c s)

split_last-append :
    (c : ℕ) (a b : Str) → has_char c b ≡ false → split_last c (a ++ c ∷ b) ≡ some (a, b)
unfolding split_last any
split_last-append c [] b h = rw (split_last-none c b h) (ground arith)
split_last-append c (d ∷ a) b h = rw (split_last-append c a b h) refl

digits-has_char : (s : Str) → All (λ c. is_digit c ≡ true) s → has_char b':' s ≡ false
unfolding is_digit any
digits-has_char [] a = refl
digits-has_char (c ∷ s) a = ground (arith, a.0, digits-has_char s a.1)

host_and_port-lem :
    (host : Str) (port : ℕ)
    → port < 2 ^ 31
    → host_and_port (host ++ b':' ∷ to_string port) ≡ some (host, pos port)
unfolding host_and_port
host_and_port-lem host port h =
    rw
      (
        host_and_port,
        split_last-append b':' host (to_string port)
            (digits-has_char (to_string port) (to_string-digits port)),
        stoi-to_string port h,
      )
      refl

pub starts_with-append : (p t : Str) → starts_with p (p ++ t) ≡ true
unfolding starts_with
starts_with-append [] t = refl
starts_with-append (c ∷ p) t = ground (arith, starts_with-append p t)

without_prefix-append : (p t : Str) → without_prefix p (p ++ t) ≡ t
unfolding without_prefix
without_prefix-append p t = rw (without_prefix, starts_with-append p t) (drop-append p t)

without_prefix_other : (p t : Str) → starts_with p t ≡ false → without_prefix p t ≡ t
unfolding without_prefix
without_prefix_other p t f = rw (without_prefix, f) refl

-- An address `http://host:port` names its host and its port, for every host and every port that
-- `stoi` can read.
pub parse_base-lem :
    (host : Str) (port : ℕ)
    → starts_with (codes "https://") (host ++ b':' ∷ to_string port) ≡ false
    → port < 2 ^ 31
    → parse_base (codes "http://" ++ host ++ b':' ∷ to_string port) ≡ some (host, pos port)
unfolding parse_base
parse_base-lem host port n h =
    let t = host ++ b':' ∷ to_string port in
    ap (λ (u : Str). host_and_port (without_prefix (codes "https://") u))
      (without_prefix-append (codes "http://") t)
    ∙ ap host_and_port (without_prefix_other (codes "https://") t n)
    ∙ host_and_port-lem host port h
