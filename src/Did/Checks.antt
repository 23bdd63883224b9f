-- ===== src/Did/Checks.antt =====
-- What `validateDid` accepts.
use confirmd_platform.Common.{
  ◌≡◌, refl, sym, ◌↔◌, ◌⊎◌, ◌&&◌, Bool, true, false, not, ◌||◌, if◌then◌else◌, Option, some, none,
  arith, Text, codes, same, same_iff,
}
use confirmd_platform.Organization.Model.Rows.{is_set}
use confirmd_platform.Did.{
  DidMethod, indy, key, web, polygon, other, DidCreate, has_length_64, DidError, private_key_length,
  key_type, required_domain, required_network, required_endorser_did, required_private_key,
  key_type_web, required_seed, validate_did,
}

abbrev pub IsEd25519 : DidCreate → Type 0
IsEd25519 d = d.key_type ≡ codes "ed25519"

abbrev pub IsEd25519OrBls : DidCreate → Type 0
IsEd25519OrBls d = (d.key_type ≡ codes "ed25519") ⊎ (d.key_type ≡ codes "bls12381g2")

-- What each method asks for. Nothing is asked of a method that the code does not know.
abbrev pub IsComplete : DidMethod → DidCreate → Type 0
IsComplete indy d =
    (is_set d.network ≡ true)
    × (IsEd25519 d
        × (((is_set d.role ≡ true) ⊎ (is_set d.endorser_did ≡ true)) × (is_set d.seed ≡ true)))
IsComplete polygon d =
    (is_set d.network ≡ true)
    × (IsEd25519 d × ((is_set d.private_key ≡ true) × (has_length_64 d.private_key ≡ true)))
IsComplete web d = (is_set d.domain ≡ true) × (IsEd25519OrBls d × (is_set d.seed ≡ true))
IsComplete key d = IsEd25519OrBls d × (is_set d.seed ≡ true)
IsComplete (other _) d = Unit

-- A check that throws when its test fails, before the checks that follow.
check_iff :
    {P Q : Type 0}
    → (x : DidError) (p : Bool) (rest : Option DidError) → (p ≡ true) ↔ P
    → (rest ≡ none) ↔ Q
    → ((if not p then some x else rest) ≡ none) ↔ (P × Q)
check_iff x true rest f g = ground (arith, f.0, f.1, g.0, g.1)
check_iff x false rest f g = ground (arith, f.0, f.1)

last_check_iff :
    {P : Type 0}
    → (x : DidError) (p : Bool) → (p ≡ true) ↔ P
    → ((if not p then some x else none) ≡ none) ↔ P
last_check_iff x true f = ground (arith, f.0, f.1)
last_check_iff x false f = ground (arith, f.0, f.1)

either_iff :
    {P Q : Type 0} → (p q : Bool) → (p ≡ true) ↔ P → (q ≡ true) ↔ Q → ((p || q) ≡ true) ↔ (P ⊎ Q)
either_iff true q f g = ground (arith, f.0)
either_iff false q f g = ground (arith, f.1, g.0, g.1)

itself : {P : Type 0} → P ↔ P
itself = (λ x. x, λ x. x)

equals_iff : (s t : Text) → (same s t ≡ true) ↔ (t ≡ s)
equals_iff s t = (λ e. sym ((same_iff s t).0 e), λ e. (same_iff s t).1 (sym e))

key_type_iff :
    (d : DidCreate)
    → ((same (codes "ed25519") d.key_type || same (codes "bls12381g2") d.key_type) ≡ true)
      ↔ IsEd25519OrBls d
key_type_iff d =
    either_iff (same (codes "ed25519") d.key_type) (same (codes "bls12381g2") d.key_type)
      (equals_iff (codes "ed25519") d.key_type) (equals_iff (codes "bls12381g2") d.key_type)

-- The two checks of a Polygon key, the second of which asks for the key once more.
key_checks_iff :
    (p l : Bool)
    → ((if not p
          then some required_private_key
          else if p && not l
          then some private_key_length
          else none)
        ≡ none)
      ↔ ((p ≡ true) × (l ≡ true))
key_checks_iff true l = ground arith
key_checks_iff false l = ground arith

validate_did-by_method :
    (m : DidMethod) (d : DidCreate) → d.method ≡ m → (validate_did d ≡ none) ↔ IsComplete m d
unfolding validate_did
validate_did-by_method indy d e = rw e (
    check_iff required_network (is_set d.network) _ itself (
      check_iff key_type _ _ (equals_iff (codes "ed25519") d.key_type) (
        check_iff required_endorser_did _ _
          (either_iff (is_set d.role) (is_set d.endorser_did) itself itself)
          (last_check_iff required_seed (is_set d.seed) itself))))
validate_did-by_method polygon d e = rw e (
    check_iff required_network (is_set d.network) _ itself (
      check_iff key_type _ _ (equals_iff (codes "ed25519") d.key_type)
        (key_checks_iff (is_set d.private_key) (has_length_64 d.private_key))))
validate_did-by_method web d e = rw e (
    check_iff required_domain (is_set d.domain) _ itself (
      check_iff key_type_web _ _ (key_type_iff d)
        (last_check_iff required_seed (is_set d.seed) itself)))
validate_did-by_method key d e = rw e (
    check_iff key_type_web _ _ (key_type_iff d)
      (last_check_iff required_seed (is_set d.seed) itself))
validate_did-by_method (other m) d e = rw e (ground arith)

-- A request to create a DID is accepted exactly when it is complete for its method.
pub validate_did_iff : (d : DidCreate) → (validate_did d ≡ none) ↔ IsComplete d.method d
validate_did_iff d = validate_did-by_method d.method d refl
