-- ===== src/Cast/Clamp.antt =====
-- The bounds that `toNumber` keeps, and those that it does not.
use confirmd_platform.Common.{
  ◌≡◌, refl, ◌≢◌, ◌⊎◌, Option, none, some, arith, Text, ℤ, pos, zero, ◌≤ℤ◌, [], ◌∷◌,
}
use confirmd_platform.Cast.{
  ToNumberOptions, or_default, parse_int, parse_or_default, clamp_number, to_number,
}

-- The number is there, and lies between `lo` and `hi`.
abbrev pub IsWithin : ℤ → ℤ → Option ℤ → Type 0
IsWithin lo hi none = ⊥
IsWithin lo hi (some n) = (lo ≤ℤ n) × (n ≤ℤ hi)

clamp_number-IsWithin :
    (lo hi d n : ℤ)
    → lo ≢ pos 0
    → lo ≤ℤ hi
    → IsWithin lo hi (
        clamp_number
          (some n)
          (record { default_value = some d; min_value = some lo; max_value = some hi }))
unfolding clamp_number
clamp_number-IsWithin (pos zero) hi d n ne h = absurd (ne refl)
clamp_number-IsWithin lo hi d n ne h = ground arith

parse_or_default-some :
    (value : Text) (d : ℤ) → (n : ℤ) × (parse_or_default value (some d) ≡ some n)
unfolding parse_or_default
parse_or_default-some [] d = (d, refl)
parse_or_default-some (c ∷ s) d = or_some (parse_int (c ∷ s))
  where
    or_some : (o : Option ℤ) → (n : ℤ) × (or_default o (some d) ≡ some n)
    or_some none = (d, refl)
    or_some (some n) = (n, refl)

-- With a default, a minimum other than zero and a maximum not below it, every text is read as a
-- number between the two.
pub to_number-IsWithin :
    (value : Text) (d lo hi : ℤ)
    → lo ≢ pos 0
    → lo ≤ℤ hi
    → IsWithin lo hi (
        to_number value
          (record { default_value = some d; min_value = some lo; max_value = some hi }))
unfolding to_number
to_number-IsWithin value d lo hi ne h =
    let (n, e) = parse_or_default-some value d in rw e (clamp_number-IsWithin lo hi d n ne h)

-- With no minimum, or a minimum of zero, the maximum is not looked at: any two maxima give the
-- same number.
pub to_number-ignores_max :
    (value : Text) (opts : ToNumberOptions) (hi : Option ℤ)
    → (opts.min_value ≡ none) ⊎ (opts.min_value ≡ some (pos 0))
    → to_number value (record opts { max_value = hi }) ≡ to_number value opts
unfolding to_number clamp_number
to_number-ignores_max value opts hi h = ground arith
