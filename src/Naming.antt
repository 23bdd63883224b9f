-- ===== src/Naming.antt =====
-- Texts derived from an organisation's data: `createOrgSlug` and `maskString` of
-- apps/organization/src/organization.service.ts.
pub mod Slug
pub mod Mask
use confirmd_platform.Common.{
  ℕ, ◌+◌, ◌-◌, Bool, true, false, ◌&&◌, ◌||◌, List, [], ◌∷◌, ◌++◌, ltb, leb, ◌==◌, if◌then◌else◌,
  length, drop, replicate, filter, Text,
}
use confirmd_platform.Outcome.{Outcome, ok, err, range_error}

-- `toLowerCase` on one code unit. Outside ASCII only U+0130 and U+212A become ASCII letters; any
-- other such unit is left as it is here, for the slug drops it and its lower case alike.
unfoldable pub lower_unit : ℕ → Text
lower_unit c =
    if leb b'A' c && leb c b'Z'
    then (c + 32) ∷ []
    else if c == 0x130
    then b'i' ∷ 0x307 ∷ []
    else if c == 0x212a
    then b'k' ∷ []
    else c ∷ []

unfoldable pub to_lower_case : Text → Text
unfolding lower_unit
to_lower_case [] = []
to_lower_case (c ∷ s) = lower_unit c ++ to_lower_case s

-- `\s` in a regular expression.
unfoldable pub is_space : ℕ → Bool
is_space c =
    (leb 9 c && leb c 13)
    || c == 32
    || c == 0xa0
    || c == 0x1680
    || (leb 0x2000 c && leb c 0x200a)
    || c == 0x2028
    || c == 0x2029
    || c == 0x202f
    || c == 0x205f
    || c == 0x3000
    || c == 0xfeff

-- `.replace(/\s+/g, '-')`; the flag says that the unit before belongs to the run.
unfoldable pub spaces_to_hyphen : Bool → Text → Text
unfolding is_space
spaces_to_hyphen inside [] = []
spaces_to_hyphen inside (c ∷ s) =
    let rest = spaces_to_hyphen (is_space c) s in
    if is_space c then if inside then rest else b'-' ∷ rest else c ∷ rest

-- The class `[a-z0-9-]`.
unfoldable pub is_slug_unit : ℕ → Bool
is_slug_unit c = (leb b'a' c && leb c b'z') || (leb b'0' c && leb c b'9') || c == b'-'

-- `.replace(/--+/g, '-')`
unfoldable pub collapse_hyphens : Bool → Text → Text
collapse_hyphens inside [] = []
collapse_hyphens inside (c ∷ s) =
    let rest = collapse_hyphens (c == b'-') s in if c == b'-' && inside then rest else c ∷ rest

unfoldable pub create_org_slug : Text → Text
unfolding to_lower_case spaces_to_hyphen is_slug_unit collapse_hyphens
create_org_slug org_name =
    collapse_hyphens false (filter is_slug_unit (spaces_to_hyphen false (to_lower_case org_name)))

-- `'*'.repeat(a - b)`: a negative count is a `RangeError`.
unfoldable pub repeat_star : ℕ → ℕ → Outcome Text
repeat_star a b = if ltb a b then err range_error else ok (replicate (a - b) b'*')

infixl 5 ◌>>=◌
abbrev ◌>>=◌ : Outcome Text → (Text → Outcome Text) → Outcome Text
ok s >>= f = f s
err e >>= f = err e

-- `inputString.slice(-8)` is all of a text shorter than that.
unfoldable pub mask_string : Text → Outcome Text
unfolding repeat_star
mask_string input =
    if leb 5 (length input)
    then (repeat_star (length input) 8 >>= λ stars. ok (stars ++ drop (length input - 8) input))
    else ok input
