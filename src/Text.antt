-- ===== src/Text.antt =====
-- Python's `str`: a list of code points, with the methods that the program calls on it.
-- `upper` and `isalnum` are those of ASCII letters; other code points are left as they are.
pub mod Pieces
use Prim.Native.Char.{code}
use vault_recon_ai.Prelude.{
  Bool, List, String, [], any, arith, false, filter, if◌then◌else◌, is_empty, last_or, leb, length,
  map, suc, true, zero, ℕ, ◌%◌, ◌&&◌, ◌++◌, ◌+◌, ◌-◌, ◌/◌, ◌==◌, ◌||◌, ◌↔◌, ◌∷◌, ◌≡◌,
}
use vault_recon_ai.Prelude.Int.{negsuc, pos, ℤ}

abbrev pub Text : Type 0
Text = List ℕ

-- A literal's code points. `String` has its own `[]` and `∷`.
abbrev pub codes : String → Text
codes String.[] = []
codes (String.◌∷◌ c s) = code c ∷ codes s

unfoldable pub text_eq : Text → Text → Bool
text_eq [] [] = true
text_eq [] (b ∷ t) = false
text_eq (a ∷ s) [] = false
text_eq (a ∷ s) (b ∷ t) = (a == b) && text_eq s t

pub text_eq_iff : (s t : Text) → (text_eq s t ≡ true) ↔ (s ≡ t)
unfolding text_eq
text_eq_iff [] [] = ground arith
text_eq_iff [] (b ∷ t) = ground arith
text_eq_iff (a ∷ s) [] = ground arith
text_eq_iff (a ∷ s) (b ∷ t) = ground (arith, text_eq_iff s t)

-- `x in list`.
unfoldable pub contains : List Text → Text → Bool
unfolding text_eq
contains xs a = any (text_eq a) xs

-- s.startswith(p).
unfoldable pub starts_with : Text → Text → Bool
starts_with s [] = true
starts_with [] (b ∷ p) = false
starts_with (a ∷ s) (b ∷ p) = (a == b) && starts_with s p

-- p in s.
unfoldable pub has_infix : Text → Text → Bool
unfolding starts_with
has_infix p [] = is_empty p
has_infix p (a ∷ s) = starts_with (a ∷ s) p || has_infix p s

to_upper : ℕ → ℕ
to_upper c = if leb b'a' c && leb c b'z' then c - 32 else c

to_lower : ℕ → ℕ
to_lower c = if leb b'A' c && leb c b'Z' then c + 32 else c

-- s.upper(), s.lower().
unfoldable pub upper : Text → Text
unfolding to_upper
upper = map to_upper

unfoldable pub lower : Text → Text
unfolding to_lower
lower = map to_lower

unfoldable pub is_alnum : ℕ → Bool
is_alnum c = leb 48 c && leb c 57 || leb 65 c && leb c 90 || leb 97 c && leb c 122

unfoldable pub is_space : ℕ → Bool
is_space c =
    leb 9 c && leb c 13
    || leb 28 c && leb c 32
    || c == 133
    || c == 160
    || c == 0x1680
    || leb 0x2000 c && leb c 0x200a
    || leb 0x2028 c && leb c 0x2029
    || c == 0x202f
    || c == 0x205f
    || c == 0x3000

lstrip : Text → Text
lstrip [] = []
lstrip (c ∷ s) = if is_space c then lstrip s else c ∷ s

rstrip : Text → Text
rstrip [] = []
rstrip (c ∷ s) = let rest = rstrip s in if is_space c && is_empty rest then [] else c ∷ rest

-- s.strip().
unfoldable pub strip : Text → Text
unfolding lstrip rstrip is_space
strip s = rstrip (lstrip s)

-- s.split(sep): never empty; the first piece grows while no separator is met.
unfoldable pub push_head : ℕ → List Text → List Text
push_head c [] = (c ∷ []) ∷ []
push_head c (p ∷ ps) = (c ∷ p) ∷ ps

unfoldable pub split : ℕ → Text → List Text
unfolding push_head
split sep [] = [] ∷ []
split sep (c ∷ s) = let rest = split sep s in if c == sep then [] ∷ rest else push_head c rest

-- sep.join(pieces).
unfoldable pub join : ℕ → List Text → Text
join sep [] = []
join sep (p ∷ []) = p
join sep (p ∷ q ∷ ps) = p ++ sep ∷ join sep (q ∷ ps)

-- s.split(":")[-1].
unfoldable pub last_part : Text → Text
unfolding split
last_part s = last_or [] (split b':' s)

-- Decimal digits of a number, before `acc`; the number itself is fuel enough.
digits_from : ℕ → ℕ → Text → Text
digits_from zero n acc = acc
digits_from (suc f) n acc = elim (n / 10 == 0) [
  | true ↦ (48 + n % 10) ∷ acc
  | false ↦ digits_from f (n / 10) ((48 + n % 10) ∷ acc)
]

unfoldable pub show_nat : ℕ → Text
unfolding digits_from
show_nat n = digits_from (suc n) n []

-- str(n).
unfoldable pub show_int : ℤ → Text
unfolding show_nat
show_int (pos n) = show_nat n
show_int (negsuc n) = b'-' ∷ show_nat (n + 1)

pad_zeros : ℕ → Text → Text
pad_zeros zero s = s
pad_zeros (suc k) s = b'0' ∷ pad_zeros k s

-- f"{n:0wd}": the sign counts towards the width.
unfoldable pub show_padded : ℕ → ℤ → Text
unfolding show_nat pad_zeros
show_padded w (pos n) = let s = show_nat n in pad_zeros (w - length s) s
show_padded w (negsuc n) = let s = show_nat (n + 1) in b'-' ∷ pad_zeros (w - 1 - length s) s

-- "".join(c for c in s.upper() if c.isalnum() or c in ("-", "_")).
unfoldable pub clean_reference : Text → Text
unfolding upper is_alnum
clean_reference s = filter (λ c. is_alnum c || c == b'-' || c == b'_') (upper s)
