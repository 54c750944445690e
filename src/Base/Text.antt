-- ===== src/Base/Text.antt =====
-- Python's `str` methods, over native texts. The case mappings are those of ASCII.
use Prim.Native.Nat.{ℕ, zero, suc}
use Prim.Native.Char.{Char, code}
use Prim.Native.String.{String, ◌++◌}
use mathlib.Core.Path.{◌≡◌, refl}
use mathlib.Core.Bool.{Bool, true, false, ◌&&◌, ◌||◌}
use mathlib.Core.List.{List, [], ◌∷◌}
use text.Mathlib.Text.{starts_with}
use innovativeproject_pm_gen.Base.Tests.{eqb, leb, if◌then◌else◌}

abbrev pub is_empty : String → Bool
is_empty String.[] = true
is_empty (String.◌∷◌ c s) = false

abbrev uppers : String
uppers = "ABCDEFGHIJKLMNOPQRSTUVWXYZ"

abbrev lowers : String
lowers = "abcdefghijklmnopqrstuvwxyz"

-- The character of the second text at the place where the first has `c`; else `c`.
swap_char : Char → String → String → Char
swap_char c (String.◌∷◌ u us) (String.◌∷◌ l ls) =
    if eqb (code c) (code u) then l else swap_char c us ls
swap_char c _ _ = c

unfoldable pub lower : String → String
unfolding swap_char
lower String.[] = String.[]
lower (String.◌∷◌ c s) = String.◌∷◌ (swap_char c uppers lowers) (lower s)

unfoldable pub upper : String → String
unfolding swap_char
upper String.[] = String.[]
upper (String.◌∷◌ c s) = String.◌∷◌ (swap_char c lowers uppers) (upper s)

-- `str.isspace`
abbrev pub is_space : Char → Bool
is_space c =
    (leb 9 (code c) && leb (code c) 13)
    || (leb 28 (code c) && leb (code c) 32)
    || eqb (code c) 133
    || eqb (code c) 160
    || eqb (code c) 5760
    || (leb 8192 (code c) && leb (code c) 8202)
    || eqb (code c) 8232
    || eqb (code c) 8233
    || eqb (code c) 8239
    || eqb (code c) 8287
    || eqb (code c) 12288

abbrev pub is_slash : Char → Bool
is_slash c = eqb (code c) 47

abbrev pub is_newline : Char → Bool
is_newline c = eqb (code c) 10

-- `s.lstrip(chars)`: the leading characters that pass the test go.
unfoldable pub lstrip : (Char → Bool) → String → String
lstrip p String.[] = String.[]
lstrip p (String.◌∷◌ c s) = elim (p c) [ true ↦ lstrip p s | false ↦ String.◌∷◌ c s ]

-- A character in front of a text whose trailing characters are gone already.
keep_front : Bool → Char → String → String
keep_front true c String.[] = String.[]
keep_front true c (String.◌∷◌ d s) = String.◌∷◌ c (String.◌∷◌ d s)
keep_front false c s = String.◌∷◌ c s

-- `s.rstrip(chars)`.
unfoldable pub rstrip : (Char → Bool) → String → String
unfolding keep_front
rstrip p String.[] = String.[]
rstrip p (String.◌∷◌ c s) = keep_front (p c) c (rstrip p s)

unfoldable pub strip_of : (Char → Bool) → String → String
unfolding lstrip rstrip
strip_of p s = lstrip p (rstrip p s)

-- `s.strip()`
unfoldable pub strip : String → String
unfolding strip_of
strip s = strip_of is_space s

-- `needle in s`
unfoldable pub contains_text : String → String → Bool
contains_text needle String.[] = is_empty needle
contains_text needle (String.◌∷◌ c s) =
    starts_with (String.◌∷◌ c s) needle || contains_text needle s

-- `s.endswith(suffix)`
unfoldable pub ends_with : String → String → Bool
ends_with String.[] suffix = is_empty suffix
ends_with (String.◌∷◌ c s) suffix =
    (starts_with suffix (String.◌∷◌ c s) && starts_with (String.◌∷◌ c s) suffix)
    || ends_with s suffix

-- `sep.join(parts)`
unfoldable pub join : String → List String → String
join sep [] = ""
join sep (s ∷ []) = s
join sep (s ∷ t ∷ r) = s ++ (sep ++ join sep (t ∷ r))

-- `s[:n]`
unfoldable pub text_take : ℕ → String → String
text_take zero s = String.[]
text_take (suc n) String.[] = String.[]
text_take (suc n) (String.◌∷◌ c s) = String.◌∷◌ c (text_take n s)

-- The characters of a text, as texts: what iterating over it gives.
abbrev pub chars : String → List String
chars String.[] = []
chars (String.◌∷◌ c s) = String.◌∷◌ c String.[] ∷ chars s

lower_upper_test : (lower "Up_For_RETRY") ≡ "up_for_retry"
unfolding lower
lower_upper_test = refl

strip_test : strip "  a b \n" ≡ "a b"
unfolding strip
strip_test = refl
