-- ===== src/Cast.antt =====
-- `toNumber` of libs/common/src/cast.helper.ts. A number is `none` where JavaScript has `NaN` or
-- `undefined`, and every comparison with those is false. Integers are exact here; a double rounds
-- those from 2 ^ 53 on.
pub mod Clamp
use confirmd_platform.Common.{
  ℕ, zero, suc, ◌+◌, ◌-◌, ◌*◌, Bool, true, false, not, ◌&&◌, Option, none, some, List, [], ◌∷◌, leb,
  ◌==◌, if◌then◌else◌, Text, ℤ, pos, negsuc, ltb_ℤ, neg_ℕ,
}
use confirmd_platform.Naming.{is_space}

pub record ToNumberOptions : Type 0 where
  pub default_value : Option ℤ
  pub min_value : Option ℤ
  pub max_value : Option ℤ

abbrev pub no_options : ToNumberOptions
no_options = record { default_value = none; min_value = none; max_value = none }

unfoldable pub skip_spaces : Text → Text
unfolding is_space
skip_spaces [] = []
skip_spaces (c ∷ s) = if is_space c then skip_spaces s else c ∷ s

abbrev is_digit : ℕ → Bool
is_digit c = leb b'0' c && leb c b'9'

abbrev digits_seen : Option ℕ → ℕ
digits_seen none = 0
digits_seen (some n) = n

-- The value of the longest run of digits; `none` for an empty run.
unfoldable pub digits_from : Option ℕ → Text → Option ℕ
digits_from acc [] = acc
digits_from acc (c ∷ s) =
    let rest = digits_from (some (digits_seen acc * 10 + (c - b'0'))) s in
    if is_digit c then rest else acc

abbrev signed : Bool → Option ℕ → Option ℤ
signed negative none = none
signed true (some n) = some (neg_ℕ n)
signed false (some n) = some (pos n)

-- `Number.parseInt(value, 10)`
unfoldable pub parse_sign : Text → Option ℤ
unfolding digits_from
parse_sign [] = none
parse_sign (c ∷ s) =
    if c == b'-'
    then signed true (digits_from none s)
    else if c == b'+'
    then signed false (digits_from none s)
    else signed false (digits_from none (c ∷ s))

unfoldable pub parse_int : Text → Option ℤ
unfolding skip_spaces parse_sign
parse_int value = parse_sign (skip_spaces value)

-- `a < b` on JavaScript numbers.
abbrev pub lt_number : Option ℤ → Option ℤ → Bool
lt_number (some a) (some b) = ltb_ℤ a b
lt_number _ none = false
lt_number none (some _) = false

-- A number in a condition: zero, `NaN` and `undefined` are false.
abbrev pub is_truthy : Option ℤ → Bool
is_truthy none = false
is_truthy (some (pos zero)) = false
is_truthy (some (pos (suc _))) = true
is_truthy (some (negsuc _)) = true

abbrev pub or_default : Option ℤ → Option ℤ → Option ℤ
or_default none d = d
or_default (some n) d = some n

-- `value || String(opts.default)`: the text of an integer parses back to it, and that of
-- `undefined` to `NaN`.
unfoldable pub parse_or_default : Text → Option ℤ → Option ℤ
unfolding parse_int
parse_or_default [] d = or_default d d
parse_or_default (c ∷ s) d = or_default (parse_int (c ∷ s)) d

-- The clamp at the end of `toNumber`.
unfoldable pub clamp_number : Option ℤ → ToNumberOptions → Option ℤ
clamp_number n opts =
    if is_truthy opts.min_value
    then (let raised = if lt_number n opts.min_value then opts.min_value else n in
        if lt_number opts.max_value raised then opts.max_value else raised)
    else n

unfoldable pub to_number : Text → ToNumberOptions → Option ℤ
unfolding parse_or_default clamp_number
to_number value opts = clamp_number (parse_or_default value opts.default_value) opts
