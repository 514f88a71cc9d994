-- ===== src/Base/Text.antt =====
-- Texts as lists of code points, for the code that walks them.
use Prim.Native.Char.{code}
use Prim.Native.String.{String}
use live_actions.Base.Tests.{leb, ltb, nat_beq, if◌then◌else◌}
use live_actions.Base.Int.{ℤ, pos, negsuc}
use Prim.Native.Nat.{ℕ, ◌+◌, ◌-◌, ◌*◌}
use mathlib.Core.Bool.{Bool, true, false, ◌&&◌, ◌||◌}
use mathlib.Core.Option.{Option, none, some}
use mathlib.Core.List.{List, [], ◌∷◌, ◌++◌}

abbrev pub codes : String → List ℕ
codes String.[] = []
codes (String.◌∷◌ c s) = code c ∷ codes s

abbrev pub is_digit : ℕ → Bool
is_digit c = leb b'0' c && leb c b'9'

-- The value of a text of decimal digits that is not empty.
unfoldable pub digits : List ℕ → ℕ → Option ℕ
digits [] acc = some acc
digits (c ∷ cs) acc =
    let rest = digits cs (10 * acc + (c - 48)) in if is_digit c then rest else none

abbrev nonempty_digits : List ℕ → Option ℕ
nonempty_digits [] = none
nonempty_digits (c ∷ cs) = digits (c ∷ cs) 0

abbrev in_int64 : Bool → ℕ → Option ℤ
in_int64 false n = if ltb n 9223372036854775808 then some (pos n) else none
in_int64 true n =
    if nat_beq n 0
    then some (pos 0)
    else (if leb n 9223372036854775808 then some (negsuc (n - 1)) else none)

abbrev signed : Bool → Option ℕ → Option ℤ
signed negative none = none
signed negative (some n) = in_int64 negative n

abbrev sign_and_digits : List ℕ → Option ℤ
sign_and_digits [] = none
sign_and_digits (c ∷ cs) =
    if nat_beq c b'-'
    then signed true (nonempty_digits cs)
    else (if nat_beq c b'+'
        then signed false (nonempty_digits cs)
        else signed false (nonempty_digits (c ∷ cs)))

-- `strconv.Atoi`; `none` is its error.
unfoldable pub atoi : List ℕ → Option ℤ
unfolding digits
atoi cs = sign_and_digits cs

-- The digits at the front of a text.
unfoldable pub leading_digits : List ℕ → List ℕ
leading_digits [] = []
leading_digits (c ∷ cs) = let rest = leading_digits cs in if is_digit c then c ∷ rest else []

abbrev leading_int : List ℕ → Option ℤ
leading_int [] = none
leading_int (c ∷ cs) =
    if nat_beq c b'-'
    then signed true (nonempty_digits (leading_digits cs))
    else (if nat_beq c b'+'
        then signed false (nonempty_digits (leading_digits cs))
        else signed false (nonempty_digits (leading_digits (c ∷ cs))))

abbrev is_space : ℕ → Bool
is_space c = nat_beq c 32 || nat_beq c 9 || nat_beq c 13

unfoldable pub skip_spaces : List ℕ → List ℕ
skip_spaces [] = []
skip_spaces (c ∷ cs) = let rest = skip_spaces cs in if is_space c then rest else c ∷ cs

-- `fmt.Sscanf(text, "%d", &n)`: a signed number at the front of the text; `none` is its error.
unfoldable pub sscanf_int : List ℕ → Option ℤ
unfolding digits leading_digits skip_spaces
sscanf_int cs = leading_int (skip_spaces cs)

-- `strings.HasSuffix`, by `strings.HasPrefix` of the reversed texts.
unfoldable pub starts : List ℕ → List ℕ → Bool
starts s [] = true
starts [] (p ∷ ps) = false
starts (c ∷ s) (p ∷ ps) = nat_beq c p && starts s ps

abbrev before_cut : ℕ → Option (List ℕ × List ℕ) → Option (List ℕ × List ℕ)
before_cut b none = none
before_cut b (some (front, back)) = some (b ∷ front, back)

-- What is before and after the first `c`.
unfoldable pub cut : ℕ → List ℕ → Option (List ℕ × List ℕ)
cut c [] = none
cut c (b ∷ bs) = if nat_beq b c then some ([], bs) else before_cut b (cut c bs)

abbrev onto_first : ℕ → List (List ℕ) → List (List ℕ)
onto_first b [] = (b ∷ []) ∷ []
onto_first b (t ∷ ts) = (b ∷ t) ∷ ts

-- The texts between the `c`s.
unfoldable pub split_on : ℕ → List ℕ → List (List ℕ)
split_on c [] = [] ∷ []
split_on c (b ∷ bs) =
    let rest = split_on c bs in if nat_beq b c then [] ∷ rest else onto_first b rest

-- Texts with a `c` between each two.
unfoldable pub join_with : ℕ → List (List ℕ) → List ℕ
join_with c [] = []
join_with c (t ∷ []) = t
join_with c (t ∷ u ∷ ts) = t ++ c ∷ join_with c (u ∷ ts)
