-- ===== src/Common/Ints.antt =====
-- `int`, as far as the program reads and compares it, `std::to_string` and `std::stoi`.
use nexus_mainframe.Common.Tests.{ltb, leb, ◌==◌, if◌then◌else◌, if_cases}
use nexus_mainframe.Common.Text.{Str}
use nexus_mainframe.Common.Lists.{All, All-append}
use Prim.Native.Nat.{ℕ, zero, suc, ◌+◌, ◌-◌, ◌*◌, ◌/◌, ◌%◌, ◌<◌, ◌^◌}
use mathlib.Core.Path.{◌≡◌, ap, sym, ◌∙◌}
use mathlib.Core.Bool.{Bool, true, false, ◌&&◌, ◌||◌}
use mathlib.Core.Option.{Option, none, some}
use mathlib.Core.List.{[], ◌∷◌, ◌++◌, append_assoc, append-nil}
use native.Mathlib.Omega.{arith}

-- `negsuc n` is -(n + 1).
pub data ℤ : Type 0 where
  pos : ℕ → ℤ
  negsuc : ℕ → ℤ

-- What 32 bits hold.
abbrev pub IsInt : ℤ → Type 0
IsInt (pos n) = n < 2 ^ 31
IsInt (negsuc n) = n < 2 ^ 31

unfoldable pub is_negative : ℤ → Bool
is_negative (pos n) = false
is_negative (negsuc n) = true

-- A number has fewer decimal digits than units.
show_loop : ℕ → ℕ → Str
show_loop zero n = []
show_loop (suc fuel) n =
    if ltb n 10 then (48 + n) ∷ [] else show_loop fuel (n / 10) ++ (48 + n % 10) ∷ []

unfoldable pub to_string : ℕ → Str
unfolding show_loop
to_string n = show_loop (suc n) n

unfoldable pub int_to_string : ℤ → Str
int_to_string (pos n) = to_string n
int_to_string (negsuc n) = b'-' ∷ to_string (suc n)

unfoldable pub is_digit : ℕ → Bool
is_digit c = leb 48 c && leb c 57

-- The value of the leading digits, behind a value `acc` that has been read.
unfoldable pub read_digits : ℕ → Str → ℕ
read_digits acc [] = acc
read_digits acc (c ∷ s) =
    let rest = read_digits (10 * acc + (c - 48)) s in if is_digit c then rest else acc

is_space : ℕ → Bool
is_space c = c == 32 || leb 9 c && leb c 13

unfoldable pub skip_spaces : Str → Str
unfolding is_space
skip_spaces [] = []
skip_spaces (c ∷ s) = let rest = skip_spaces s in if is_space c then rest else c ∷ s

-- `strtol`, which needs a digit.
unsigned : Str → Option ℕ
unsigned [] = none
unsigned (c ∷ s) = if is_digit c then some (read_digits 0 (c ∷ s)) else none

bounded : (ℕ → ℤ) → ℕ → Option ℕ → Option ℤ
bounded sign most none = none
bounded sign most (some n) = if leb n most then some (sign n) else none

negative : ℕ → ℤ
negative zero = pos 0
negative (suc n) = negsuc n

signed : Str → Option ℤ
unfolding unsigned bounded negative
signed [] = none
signed (c ∷ s) =
    if c == b'-'
    then bounded negative (2 ^ 31) (unsigned s)
    else (if c == b'+'
        then bounded pos (2 ^ 31 - 1) (unsigned s)
        else bounded pos (2 ^ 31 - 1) (unsigned (c ∷ s)))

-- `none` is `invalid_argument` or `out_of_range`.
unfoldable pub stoi : Str → Option ℤ
unfolding signed
stoi s = signed (skip_spaces s)

starts_with_digit : Str → Bool
starts_with_digit [] = false
starts_with_digit (c ∷ s) = is_digit c

starts-append : (s t : Str) → starts_with_digit s ≡ true → starts_with_digit (s ++ t) ≡ true
unfolding starts_with_digit
starts-append [] t h = absurd (cc)
starts-append (c ∷ s) t h = h

show_loop-starts : (fuel n : ℕ) → n < fuel → starts_with_digit (show_loop fuel n) ≡ true
unfolding show_loop starts_with_digit is_digit
show_loop-starts zero n h = absurd (omega arith)
show_loop-starts (suc fuel) n h =
    if_cases (λ k. starts_with_digit k ≡ true) (ltb n 10) _ _ (λ t. ground arith)
      λ f.
        starts-append (show_loop fuel (n / 10)) ((48 + n % 10) ∷ [])
          (show_loop-starts fuel (n / 10) (ground arith))

read_digits-show_loop :
    (fuel n : ℕ) (t : Str) → n < fuel → read_digits 0 (show_loop fuel n ++ t) ≡ read_digits n t
unfolding read_digits show_loop is_digit
read_digits-show_loop zero n t h = absurd (omega arith)
read_digits-show_loop (suc fuel) n t h =
    if_cases (λ k. read_digits 0 (k ++ t) ≡ read_digits n t) (ltb n 10) _ _ (λ l. ground arith)
      λ f.
        rw
          (
            append_assoc (show_loop fuel (n / 10)) ((48 + n % 10) ∷ []) t,
            read_digits-show_loop fuel (n / 10) ((48 + n % 10) ∷ t) (ground arith),
          )
          (ground arith)

pub read_digits-to_string : (n : ℕ) → read_digits 0 (to_string n) ≡ n
unfolding to_string read_digits
read_digits-to_string n =
    sym (ap (read_digits 0) (append-nil (show_loop (suc n) n)))
    ∙ read_digits-show_loop (suc n) n [] (omega arith)

-- What begins with a digit is read as a number without a sign.
stoi_unsigned :
    (s : Str) (n : ℕ)
    → starts_with_digit s ≡ true
    → read_digits 0 s ≡ n
    → n < 2 ^ 31
    → stoi s ≡ some (pos n)
unfolding stoi skip_spaces is_space signed unsigned bounded starts_with_digit is_digit
stoi_unsigned [] n d r h = absurd (cc)
stoi_unsigned (c ∷ s) n d r h = ground arith

pub stoi-to_string : (n : ℕ) → n < 2 ^ 31 → stoi (to_string n) ≡ some (pos n)
unfolding to_string
stoi-to_string n h =
    stoi_unsigned (show_loop (suc n) n) n (show_loop-starts (suc n) n (omega arith))
      (read_digits-to_string n) h

All-digits : (fuel n : ℕ) → All (λ c. is_digit c ≡ true) (show_loop fuel n)
unfolding show_loop is_digit
All-digits zero n = tt
All-digits (suc fuel) n =
    if_cases (All (λ c. is_digit c ≡ true)) (ltb n 10) _ _ (λ t. (ground arith, tt))
      λ f.
        All-append (λ c. is_digit c ≡ true) (show_loop fuel (n / 10)) ((48 + n % 10) ∷ [])
          (All-digits fuel (n / 10)) (ground arith, tt)

pub to_string-digits : (n : ℕ) → All (λ c. is_digit c ≡ true) (to_string n)
unfolding to_string
to_string-digits n = All-digits (suc n) n
