-- ===== src/Domain/Decimals.antt =====
-- Python's `decimal.Decimal` on text, as far as domain code constructs and compares values: the
-- grammar of the constructor over ASCII digits, and the order `>` with its `InvalidOperation`.
use mathlib.Core.Option
use manga_manager.Prelude.{
  ℕ, ◌+◌, ◌-◌, ◌*◌, ◌^◌, ◌≡◌, refl, ◌≢◌, arith, keep, Bool, true, false, not, ◌&&◌, ◌||◌, [], ◌∷◌,
  Option, none, some, Text, txt, ◌==◌, nat_eq, text_eq, list_beq, leb, ltb, if◌then◌else◌, map,
  strip, is_empty,
}

-- `coefficient * 10 ^ up / 10 ^ down`, with its sign.
pub record Finite : Type 0 where
  pub negative : Bool
  pub coefficient : ℕ
  pub up : ℕ
  pub down : ℕ

pub data Decimal : Type 0 where
  finite : Finite → Decimal
  infinite : Bool → Decimal
  nan : Decimal

-- The leading digits: how many, their value after `acc`, and the rest.
digits_from : ℕ → ℕ → Text → ℕ × ℕ × Text
digits_from n acc [] = (n, acc, [])
digits_from n acc (c ∷ s) = elim (leb b'0' c && leb c b'9') [
  | true ↦ digits_from (n + 1) (acc * 10 + (c - b'0')) s
  | false ↦ (n, acc, c ∷ s)
]

-- The digits of an exponent, all of the rest: the power up and the power down.
whole_exponent : Bool → Text → Option (ℕ × ℕ)
unfolding digits_from
whole_exponent neg t =
    let (n, v, rest) = digits_from 0 0 t in
    if n == 0 || not (is_empty rest)
    then none
    else some (if neg then 0 else v, if neg then v else 0)

signed_exponent : Text → Option (ℕ × ℕ)
unfolding whole_exponent
signed_exponent [] = none
signed_exponent (d ∷ t) =
    if d == b'-'
    then whole_exponent true t
    else if d == b'+'
    then whole_exponent false t
    else whole_exponent false (d ∷ t)

-- `(e[+-]?\d+)?` up to the end.
exponent : Text → Option (ℕ × ℕ)
unfolding signed_exponent
exponent [] = some (0, 0)
exponent (c ∷ s) = if c == b'e' then signed_exponent s else none

-- After `.`: the digits of the fraction, then the exponent. `n` digits stood before the point.
fraction : Bool → ℕ → ℕ → Text → Option Decimal
unfolding digits_from exponent
fraction neg n acc s =
    let (k, v, rest) = digits_from 0 acc s in
    if n == 0 && k == 0
    then none
    else Option.map
        (λ e. finite (record { negative = neg; coefficient = v; up = e.0; down = e.1 + k }))
        (exponent rest)

after_digits : Bool → ℕ → ℕ → Text → Option Decimal
unfolding fraction exponent
after_digits neg n acc [] =
    if n == 0
    then none
    else some (finite (record { negative = neg; coefficient = acc; up = 0; down = 0 }))
after_digits neg n acc (c ∷ s) =
    if c == b'.'
    then fraction neg n acc s
    else if n == 0
    then none
    else Option.map
        (λ e. finite (record { negative = neg; coefficient = acc; up = e.0; down = e.1 }))
        (exponent (c ∷ s))

unsigned : Bool → Text → Option Decimal
unfolding digits_from after_digits
unsigned neg s =
    if s == txt "inf" || s == txt "infinity"
    then some (infinite neg)
    else if s == txt "nan" || s == txt "snan"
    then some nan
    else let (n, v, rest) = digits_from 0 0 s in after_digits neg n v rest

signed : Text → Option Decimal
unfolding unsigned
signed [] = none
signed (c ∷ s) =
    if c == b'-'
    then unsigned true s
    else if c == b'+'
    then unsigned false s
    else unsigned false (c ∷ s)

lower : ℕ → ℕ
lower c = if leb b'A' c && leb c b'Z' then c + 32 else c

-- `Decimal(value)`; `none` is `InvalidOperation`. Underscores are dropped, case is ignored.
unfoldable pub decimal : Text → Option Decimal
unfolding signed lower
decimal value = signed (map lower (keep (λ c. not (c == b'_')) (strip value)))

-- `|a| < |b|` and `|a| = |b|`, with both sides scaled to whole numbers.
scaled : Finite → Finite → ℕ
scaled a b = a.coefficient * 10 ^ (a.up + b.down)

finite_gt : Finite → Finite → Bool
unfolding scaled
finite_gt a b =
    let x = scaled a b in
    let y = scaled b a in
    if a.negative
    then (if b.negative then ltb x y else false)
    else (if b.negative then ltb 0 (x + y) else ltb y x)

-- `a > b`; an order test on a NaN raises `InvalidOperation`.
unfoldable pub decimal_gt : Decimal → Decimal → Option Bool
unfolding finite_gt
decimal_gt nan b = none
decimal_gt (finite a) nan = none
decimal_gt (infinite a) nan = none
decimal_gt (finite a) (finite b) = some (finite_gt a b)
decimal_gt (finite a) (infinite neg) = some neg
decimal_gt (infinite neg) (finite b) = some (not neg)
decimal_gt (infinite neg) (infinite neg') = some (not neg && neg')

-- Either conversion may raise before the test does.
parsed_gt : Option Decimal → Option Decimal → Option Bool
unfolding decimal_gt
parsed_gt none b = none
parsed_gt (some a) none = none
parsed_gt (some a) (some b) = decimal_gt a b

-- `Decimal(new) > Decimal(old)` on text.
unfoldable pub text_gt : Text → Text → Option Bool
unfolding decimal parsed_gt
text_gt new old = parsed_gt (decimal new) (decimal old)

parsed_gt_self : (d : Option Decimal) → parsed_gt d d ≢ some true
unfolding parsed_gt
parsed_gt_self none = λ h. cc
parsed_gt_self (some nan) = λ h. cc
parsed_gt_self (some (finite a)) = ground arith
parsed_gt_self (some (infinite neg)) = ground arith

-- Twice the same version is never newer, whatever the text.
pub text_gt_self : (s : Text) → text_gt s s ≢ some true
unfolding text_gt
text_gt_self s = parsed_gt_self (decimal s)

gt_example : text_gt (txt "1.50e1") (txt "14.99") ≡ some true
unfolding text_gt keep strip list_beq
gt_example = refl
