-- ===== src/Base/Str.antt =====
-- Text as the list of its characters (code points), and what the code uses of Rust's `str`.
use Prim.Native.Char.{code}
use Prim.Native.String.{String}
use Prim.Native.Nat.{ℕ, zero, suc, ◌+◌, ◌-◌, ◌*◌, ◌/◌, ◌%◌}
use mathlib.Core.Path.{◌≡◌, refl}
use mathlib.Core.Bool.{Bool, true, false, not, ◌&&◌, ◌||◌}
use mathlib.Core.List.{List, [], ◌∷◌, ◌++◌, map, reverse}
use native.Mathlib.Omega.{arith}
use mathlib.Core.Option.{Option, none, some}
use andy.Base.Tests.{ltb, leb, ◌==◌, if◌then◌else◌, map_some}
use andy.Base.Lists.{length, keep}

abbrev pub Text : Type 0
Text = List ℕ

-- The characters of a literal.
abbrev pub codes : String → Text
codes String.[] = []
codes (String.◌∷◌ c s) = code c ∷ codes s

abbrev pub text_eq : Text → Text → Bool
text_eq [] [] = true
text_eq (a ∷ s) (b ∷ t) = (a == b) && text_eq s t
text_eq [] (b ∷ t) = false
text_eq (a ∷ s) [] = false

pub text_eq_refl : (s : Text) → text_eq s s ≡ true
text_eq_refl [] = refl
text_eq_refl (a ∷ s) = ground (arith, text_eq_refl s)

pub text_eq_sound : (s t : Text) → text_eq s t ≡ true → s ≡ t
text_eq_sound [] [] h = refl
text_eq_sound [] (b ∷ t) h = cc
text_eq_sound (a ∷ s) [] h = cc
text_eq_sound (a ∷ s) (b ∷ t) h = ground (arith, text_eq_sound s t)

abbrev pub is_empty : Text → Bool
is_empty [] = true
is_empty (c ∷ s) = false

-- `char::is_whitespace`: the code points with the Unicode property White_Space.
unfoldable pub is_whitespace : ℕ → Bool
is_whitespace c =
    (leb 9 c && leb c 13)
    || (c == 32)
    || (c == 0x85)
    || (c == 0xA0)
    || (c == 0x1680)
    || (leb 0x2000 c && leb c 0x200A)
    || (c == 0x2028)
    || (c == 0x2029)
    || (c == 0x202F)
    || (c == 0x205F)
    || (c == 0x3000)

unfoldable pub trim_start : Text → Text
unfolding is_whitespace
trim_start [] = []
trim_start (c ∷ s) = if is_whitespace c then trim_start s else c ∷ s

-- `str::trim`.
unfoldable pub trim : Text → Text
unfolding trim_start
trim s = reverse (trim_start (reverse (trim_start s)))

-- `char::to_ascii_lowercase`.
unfoldable pub lower_char : ℕ → ℕ
lower_char c = if leb b'A' c && leb c b'Z' then c + 32 else c

-- `str::to_ascii_lowercase`.
abbrev pub to_ascii_lowercase : Text → Text
to_ascii_lowercase = map lower_char

unfoldable pub is_ascii_digit : ℕ → Bool
is_ascii_digit c = leb b'0' c && leb c b'9'

unfoldable pub is_ascii_alphanumeric : ℕ → Bool
unfolding is_ascii_digit
is_ascii_alphanumeric c =
    is_ascii_digit c || (leb b'a' c && leb c b'z') || (leb b'A' c && leb c b'Z')

abbrev pub starts_with : Text → Text → Bool
starts_with [] s = true
starts_with (c ∷ p) [] = false
starts_with (c ∷ p) (d ∷ s) = (c == d) && starts_with p s

-- `str::contains` of a text.
unfoldable pub contains : Text → Text → Bool
contains p [] = starts_with p []
contains p (c ∷ s) = starts_with p (c ∷ s) || contains p s

-- `str::trim_matches` by a test on characters.
unfoldable pub trim_start_by : (ℕ → Bool) → Text → Text
trim_start_by p [] = []
trim_start_by p (c ∷ s) = if p c then trim_start_by p s else c ∷ s

unfoldable pub trim_matches : (ℕ → Bool) → Text → Text
unfolding trim_start_by
trim_matches p s = reverse (trim_start_by p (reverse (trim_start_by p s)))

-- `[..].join(separator)`.
abbrev pub join : Text → List Text → Text
join sep [] = []
join sep (s ∷ []) = s
join sep (s ∷ (t ∷ r)) = s ++ (sep ++ join sep (t ∷ r))

-- The digits of a number in base ten, the lowest first.
unfoldable pub decimal_rev : ℕ → ℕ → Text
decimal_rev zero n = []
decimal_rev (suc f) n =
    let rest = decimal_rev f (n / 10) in
    if ltb n 10 then (n + b'0') ∷ [] else ((n % 10) + b'0') ∷ rest

-- `u64::to_string`: a number has at most as many digits as its value plus one.
unfoldable pub decimal : ℕ → Text
unfolding decimal_rev
decimal n = reverse (decimal_rev (suc n) n)

-- `match text { "a" | "b" => .. }`.
abbrev pub one_of : Text → List Text → Bool
one_of s [] = false
one_of s (t ∷ r) = text_eq s t || one_of s r

-- `str::split` by a test on characters.
abbrev pub prepend : ℕ → List Text → List Text
prepend c [] = (c ∷ []) ∷ []
prepend c (w ∷ ws) = (c ∷ w) ∷ ws

unfoldable pub split : (ℕ → Bool) → Text → List Text
split p [] = [] ∷ []
split p (c ∷ s) = let rest = split p s in if p c then [] ∷ rest else prepend c rest

-- `str::split_whitespace`: the words between the white space.
unfoldable pub split_whitespace : Text → List Text
unfolding split
split_whitespace s = keep (λ w. not (is_empty w)) (split is_whitespace s)

-- `Chars::last` and `String::pop`.
abbrev pub last_char : Text → Option ℕ
last_char [] = none
last_char (c ∷ []) = some c
last_char (c ∷ (d ∷ s)) = last_char (d ∷ s)

abbrev pub pop : Text → Text
pop [] = []
pop (c ∷ []) = []
pop (c ∷ (d ∷ s)) = c ∷ pop (d ∷ s)

-- `str::replace(pattern, "")`; the number counts the characters of a match that are still to go.
unfoldable pub remove_from : Text → ℕ → Text → Text
remove_from p skip [] = []
remove_from p zero (c ∷ s) =
    let inside = remove_from p (length p - 1) s in
    let after = remove_from p 0 s in if starts_with p (c ∷ s) then inside else c ∷ after
remove_from p (suc skip) (c ∷ s) = remove_from p skip s

unfoldable pub remove_all : Text → Text → Text
unfolding remove_from
remove_all p s = remove_from p 0 s

-- `str::split_once` at a character.
unfoldable pub split_once : ℕ → Text → Option (Text × Text)
split_once sep [] = none
split_once sep (c ∷ s) =
    if c == sep then some ([], s) else map_some (λ r. (c ∷ r.0, r.1)) (split_once sep s)

-- The value of a run of ASCII digits.
abbrev pub digits_from : ℕ → Text → ℕ
digits_from acc [] = acc
digits_from acc (c ∷ s) = digits_from (acc * 10 + (c - b'0')) s

-- `str::eq_ignore_ascii_case`.
abbrev pub eq_ignore_ascii_case : Text → Text → Bool
eq_ignore_ascii_case a b = text_eq (to_ascii_lowercase a) (to_ascii_lowercase b)
