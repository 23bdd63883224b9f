-- ===== src/Secret.antt =====
-- `decryptPassword` and `decryptString` of libs/common/src/common.service.ts, and the ways in which
-- apps/user and libs/client-registration open the credentials of a client.
use confirmd_platform.Common.{
  Bool, false, ◌&&◌, ◌==◌, Option, none, some, [], ◌∷◌, Text, if◌then◌else◌, all,
}
use confirmd_platform.Outcome.{Outcome, ok, err, bad_request, invalid_credentials}
use confirmd_platform.Naming.{is_space}

abbrev pub opened : Option Text → Outcome Text
opened none = err (bad_request invalid_credentials)
opened (some p) = ok p

-- The package crypto-js with the key of the platform: what a text decrypts to, read as JSON or as a
-- text, when it does.
pub record Crypto : Type 0 where
  pub open_json : Text → Option Text
  pub open_text : Text → Option Text

module _ (w : Crypto) where
  -- The package throws at a missing text.
  unfoldable pub decrypt_password : Option Text → Outcome Text
  decrypt_password none = opened none
  decrypt_password (some s) = opened (w.open_json s)

  -- Both texts are opened, or both are used as they are.
  unfoldable pub open_both : (client_id client_secret : Option Text) → Option Text × Option Text
  unfolding decrypt_password
  open_both client_id client_secret = elim (decrypt_password client_id) [
    | err _ ↦ (client_id, client_secret)
    | ok a ↦ elim (decrypt_password client_secret) [
      | err _ ↦ (client_id, client_secret)
      | ok b ↦ (some a, some b)
    ]
  ]

  abbrev pub drop_last : Text → Text
  drop_last [] = []
  drop_last (c ∷ []) = []
  drop_last (c ∷ d ∷ s) = c ∷ drop_last (d ∷ s)

  abbrev pub ends_in_quote : Text → Bool
  ends_in_quote [] = false
  ends_in_quote (c ∷ []) = c == b'"'
  ends_in_quote (c ∷ d ∷ s) = ends_in_quote (d ∷ s)

  -- A text between quotes loses its first and its last unit; a single quote loses the only one.
  abbrev pub strip_quotes : Text → Text
  strip_quotes [] = []
  strip_quotes (c ∷ s) = if c == b'"' && ends_in_quote (c ∷ s) then drop_last s else c ∷ s

  unfoldable pub decrypt_string : Option Text → Outcome Text
  decrypt_string none = opened none
  decrypt_string (some s) = elim (w.open_text s) [
    | none ↦ opened none
    | some t ↦ ok (strip_quotes t)
  ]

  -- The text itself, when it does not open or opens to blanks.
  unfoldable pub open_or_plain : Option Text → Option Text
  unfolding decrypt_string is_space
  open_or_plain secret = elim (decrypt_string secret) [
    | err _ ↦ secret
    | ok t ↦ if all is_space t then secret else some t
  ]
