-- ===== src/Prelude/Texts.antt =====
-- Text as a list of code points, with the Python string methods that the program uses.
use Prim.Native.Nat.{ℕ}
use Prim.Native.Char.{code}
use Prim.Native.String.{String}
use mathlib.Core.Path.{◌≡◌, refl}
use mathlib.Core.Bool.{Bool, true, false, ◌&&◌, ◌||◌}
use mathlib.Core.List.{List, [], ◌∷◌, ◌++◌, reverse}
use native.Mathlib.Omega.{arith}
use manga_manager.Prelude.Tests.{Comparable, ◌==◌, nat_eq, leb, if◌then◌else◌}
use manga_manager.Prelude.Lists.{list_beq, list_beq_iff}

abbrev pub Text : Type 0
Text = List ℕ

-- A literal.
abbrev pub txt : String → Text
txt String.[] = []
txt (String.◌∷◌ c s) = code c ∷ txt s

instance abbrev pub text_eq : Comparable Text
text_eq = record { equal = list_beq; equal_iff = list_beq_iff }

-- `str.isspace` on one code point.
is_space : ℕ → Bool
is_space c =
    (leb 9 c && leb c 13)
    || (leb 28 c && leb c 32)
    || c == 0x85
    || c == 0xa0
    || c == 0x1680
    || (leb 0x2000 c && leb c 0x200a)
    || c == 0x2028
    || c == 0x2029
    || c == 0x202f
    || c == 0x205f
    || c == 0x3000

strip_left : Text → Text
strip_left [] = []
strip_left (c ∷ s) = if is_space c then strip_left s else c ∷ s

-- `str.strip`
unfoldable pub strip : Text → Text
unfolding is_space strip_left
strip s = reverse (strip_left (reverse (strip_left s)))

-- `str.startswith`, and `LIKE 'prefix%'`.
unfoldable pub starts_with : Text → Text → Bool
starts_with [] s = true
starts_with (c ∷ p) [] = false
starts_with (c ∷ p) (d ∷ s) = c == d && starts_with p s

drop_prefix : Text → Text → Text
drop_prefix [] t = t
drop_prefix (c ∷ q) [] = []
drop_prefix (c ∷ q) (d ∷ t) = drop_prefix q t

-- `str.removeprefix`
unfoldable pub remove_prefix : Text → Text → Text
unfolding starts_with drop_prefix
remove_prefix p s = if starts_with p s then drop_prefix p s else s

pub starts_with-append : (p s : Text) → starts_with p (p ++ s) ≡ true
unfolding starts_with
starts_with-append [] s = refl
starts_with-append (c ∷ p) s = ground (arith, starts_with-append p s)

-- `a or b` on text.
abbrev pub or_text : Text → Text → Text
or_text [] b = b
or_text (c ∷ s) b = c ∷ s
