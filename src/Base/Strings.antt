-- ===== src/Base/Strings.antt =====
-- Go's strings as lists of code points, and the functions of package strings that the program
-- calls.
use Prim.Native.Nat.{◌-◌, ℕ, ◌+◌}
use Prim.Native.Char.{code}
use Prim.Native.String.{String}
use mathlib.Core.Path.{◌≡◌, refl}
use mathlib.Core.Logic.{◌↔◌}
use mathlib.Core.Bool.{Bool, true, false, ◌&&◌, ◌||◌}
use mathlib.Core.List.{map, List, [], ◌∷◌, ◌++◌, reverse}
use native.Mathlib.Omega.{arith}
use shieldgate.Base.Tests.{◌==◌, leb, ltb, if◌then◌else◌}

abbrev pub Text : Type 0
Text = List ℕ

-- A text of the source, by its code points.
abbrev pub codes : String → Text
codes String.[] = []
codes (String.◌∷◌ c s) = code c ∷ codes s

unfoldable pub text_eq : Text → Text → Bool
text_eq [] [] = true
text_eq [] (_ ∷ _) = false
text_eq (_ ∷ _) [] = false
text_eq (a ∷ s) (b ∷ t) = a == b && text_eq s t

pub text_eq→eq : (s t : Text) → text_eq s t ≡ true → s ≡ t
unfolding text_eq
text_eq→eq [] [] h = refl
text_eq→eq [] (b ∷ t) h = ground arith
text_eq→eq (a ∷ s) [] h = ground arith
text_eq→eq (a ∷ s) (b ∷ t) h = ground (arith, text_eq→eq s t)

pub text_eq_self : (s : Text) → text_eq s s ≡ true
unfolding text_eq
text_eq_self [] = refl
text_eq_self (a ∷ s) = ground (arith, text_eq_self s)

pub text_eq_iff : (s t : Text) → (text_eq s t ≡ true) ↔ (s ≡ t)
text_eq_iff s t = (text_eq→eq s t, λ e. ground (arith, text_eq_self s))

-- The number of bytes of a code point in UTF-8.
abbrev pub rune_len : ℕ → ℕ
rune_len c = if ltb c 0x80 then 1 else if ltb c 0x800 then 2 else if ltb c 0x10000 then 3 else 4

-- `len(s)`.
abbrev pub len : Text → ℕ
len [] = 0
len (c ∷ s) = rune_len c + len s

-- `unicode.IsSpace`.
unfoldable pub is_space : ℕ → Bool
is_space c =
    (leb 9 c && leb c 13)
    || c == 32
    || c == 0x85
    || c == 0xa0
    || c == 0x1680
    || (leb 0x2000 c && leb c 0x200a)
    || c == 0x2028
    || c == 0x2029
    || c == 0x202f
    || c == 0x205f
    || c == 0x3000

-- `strings.Fields`: `cur` is the field being read, its last character first.
abbrev pub close_field : Text → List Text → List Text
close_field [] rest = rest
close_field (c ∷ cur) rest = reverse (c ∷ cur) ∷ rest

unfoldable pub fields_from : Text → Text → List Text
fields_from cur [] = close_field cur []
fields_from cur (c ∷ s) =
    let closed = close_field cur (fields_from [] s) in
    let longer = fields_from (c ∷ cur) s in if is_space c then closed else longer

unfoldable pub fields : Text → List Text
unfolding fields_from is_space
fields s = fields_from [] s

unfoldable pub trim_left : Text → Text
trim_left [] = []
trim_left (c ∷ s) = if is_space c then trim_left s else c ∷ s

-- `strings.TrimSpace`.
unfoldable pub trim_space : Text → Text
unfolding trim_left is_space
trim_space s = reverse (trim_left (reverse (trim_left s)))

-- `strings.Join(parts, " ")`.
unfoldable pub join_space : List Text → Text
join_space [] = []
join_space (x ∷ []) = x
join_space (x ∷ (y ∷ ys)) = x ++ (32 ∷ join_space (y ∷ ys))

-- `unicode.ToLower` and `unicode.ToUpper`, as far as their results are ASCII; other letters stay.
unfoldable pub lower_rune : ℕ → ℕ
lower_rune c =
    if leb b'A' c && leb c b'Z'
    then c + 32
    else if c == 0x130
    then b'i'
    else if c == 0x212a
    then b'k'
    else c

unfoldable pub upper_rune : ℕ → ℕ
upper_rune c =
    if leb b'a' c && leb c b'z'
    then c - 32
    else if c == 0x131
    then b'I'
    else if c == 0x17f
    then b'S'
    else c

unfoldable pub to_lower : Text → Text
unfolding lower_rune
to_lower = map lower_rune

unfoldable pub to_upper : Text → Text
unfolding upper_rune
to_upper = map upper_rune

-- `strings.ReplaceAll(s, c, "")` for one ASCII character.
unfoldable pub remove_all : ℕ → Text → Text
remove_all c [] = []
remove_all c (d ∷ s) = let rest = remove_all c s in if d == c then rest else d ∷ rest

-- `strings.TrimPrefix(s, p)`; `whole` is `s`.
trim_prefix_from : Text → Text → Text → Text
trim_prefix_from whole [] s = s
trim_prefix_from whole (c ∷ p) [] = whole
trim_prefix_from whole (c ∷ p) (d ∷ s) = if d == c then trim_prefix_from whole p s else whole

unfoldable pub trim_prefix : Text → Text → Text
unfolding trim_prefix_from
trim_prefix p s = trim_prefix_from s p s
