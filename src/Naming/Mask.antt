-- ===== src/Naming/Mask.antt =====
-- `maskString` by the length of the secret.
use confirmd_platform.Common.{
  ℕ, zero, suc, ◌-◌, ◌≤◌, ◌<◌, ◌≡◌, refl, ap, List, ◌∷◌, ◌++◌, arith, length, take, drop, replicate,
  Text, ◌↔◌, length-append, length-replicate, length-drop,
}
use confirmd_platform.Outcome.{ok, err, range_error}
use confirmd_platform.Naming.{mask_string}

module _ {ℓ} {A : Type ℓ} where
  take-replicate : (n : ℕ) (a : A) (xs : List A) → take n (replicate n a ++ xs) ≡ replicate n a
  take-replicate zero a xs = refl
  take-replicate (suc n) a xs = ap (◌∷◌ a) (take-replicate n a xs)

  drop-replicate : (n : ℕ) (a : A) (xs : List A) → drop n (replicate n a ++ xs) ≡ xs
  drop-replicate zero a xs = refl
  drop-replicate (suc n) a xs = drop-replicate n a xs

-- A masked secret of eight units or more keeps its length, shows its last eight units and hides
-- every unit before them.
pub mask_string-hides :
    (secret : Text)
    → 8 ≤ length secret
    → (masked : Text) × (mask_string secret ≡ ok masked)
      × (length masked ≡ length secret)
      × (take (length secret - 8) masked ≡ replicate (length secret - 8) b'*')
      × (drop (length secret - 8) masked ≡ drop (length secret - 8) secret)
unfolding mask_string
mask_string-hides secret h =
    let n = length secret - 8 in
    let shown = drop n secret in
    (
      replicate n b'*' ++ shown,
      ground arith,
      omega (
        arith,
        length-append {0} (replicate n b'*') shown,
        length-replicate {0} {A = ℕ} n b'*',
        length-drop {0} n secret,
      ),
      take-replicate n b'*' shown,
      drop-replicate n b'*' shown,
    )

-- The call throws exactly for the lengths 5, 6 and 7.
pub mask_string-range_error_iff :
    (secret : Text)
    → (mask_string secret ≡ err range_error) ↔ ((5 ≤ length secret) × (length secret < 8))
unfolding mask_string
mask_string-range_error_iff secret = ground arith
