-- ===== src/Base/Texts.antt =====
-- Strings as lists of UTF-16 code units.
use Prim.Native.Nat.{ℕ, zero, suc, ◌+◌, ◌/◌, ◌%◌}
use Prim.Native.Char.{code}
use Prim.Native.String.{String}
use mathlib.Core.Bool.{Bool, true, false, ◌&&◌, ◌||◌}
use mathlib.Core.List.{List, [], ◌∷◌, ◌++◌, reverse}
use ores_lib_core.Base.Tests.{leb, ltb, nat_eq, list_eq, ◌==◌, if◌then◌else◌}

abbrev pub Text : Type 0
Text = List ℕ

-- A literal of the source; every character is one code unit.
unfoldable pub text : String → Text
text String.[] = []
text (String.◌∷◌ c s) = code c ∷ text s

-- s.startsWith(p)
unfoldable pub starts_with : Text → Text → Bool
starts_with s [] = true
starts_with [] (p ∷ ps) = false
starts_with (c ∷ s) (p ∷ ps) = c == p && starts_with s ps

-- s.endsWith(p)
unfoldable pub ends_with : Text → Text → Bool
ends_with [] p = [] == p
ends_with (c ∷ s) p = (c ∷ s) == p || ends_with s p

-- s.includes(p)
unfoldable pub includes_text : Text → Text → Bool
unfolding starts_with
includes_text [] p = starts_with [] p
includes_text (c ∷ s) p = starts_with (c ∷ s) p || includes_text s p

unfoldable pub split_from : ℕ → Text → Text → List Text
split_from d cur [] = reverse cur ∷ []
split_from d cur (c ∷ s) =
    let closed = split_from d [] s in
    let longer = split_from d (c ∷ cur) s in if c == d then reverse cur ∷ closed else longer

-- s.split(d), for a separator of one code unit
unfoldable pub split : ℕ → Text → List Text
unfolding split_from
split d s = split_from d [] s

-- xs.join(sep)
unfoldable pub join : Text → List Text → Text
join sep [] = []
join sep (x ∷ []) = x
join sep (x ∷ y ∷ xs) = x ++ (sep ++ join sep (y ∷ xs))

unfoldable pub drop_while : (ℕ → Bool) → Text → Text
drop_while p [] = []
drop_while p (c ∷ s) = let rest = drop_while p s in if p c then rest else c ∷ s

abbrev pub keep_unless : Bool → ℕ → Text → Text
keep_unless true c [] = []
keep_unless true c (d ∷ s) = c ∷ d ∷ s
keep_unless false c s = c ∷ s

unfoldable pub drop_end : (ℕ → Bool) → Text → Text
drop_end p [] = []
drop_end p (c ∷ s) = keep_unless (p c) c (drop_end p s)

-- Both ends stripped of the characters that satisfy `p`.
unfoldable pub strip : (ℕ → Bool) → Text → Text
unfolding drop_while drop_end
strip p s = drop_end p (drop_while p s)

abbrev pub is_lower : ℕ → Bool
is_lower c = leb b'a' c && leb c b'z'

abbrev pub is_upper : ℕ → Bool
is_upper c = leb b'A' c && leb c b'Z'

abbrev pub is_digit : ℕ → Bool
is_digit c = leb b'0' c && leb c b'9'

-- The order of `<` on strings and of `sort()`.
unfoldable pub text_leb : Text → Text → Bool
text_leb [] t = true
text_leb (a ∷ s) [] = false
text_leb (a ∷ s) (b ∷ t) = if ltb a b then true else a == b && text_leb s t

digits_from : ℕ → ℕ → Text → Text
digits_from zero n acc = acc
digits_from (suc fuel) n acc =
    let more = digits_from fuel (n / 10) ((b'0' + n % 10) ∷ acc) in
    if ltb n 10 then (b'0' + n) ∷ acc else more

-- A number in a template literal, in decimal; a number below 10 ^ (n + 1) takes n + 1 rounds.
unfoldable pub decimal : ℕ → Text
unfolding digits_from
decimal n = digits_from (suc n) n []
