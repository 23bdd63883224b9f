-- ===== src/Keycloak/Examples.antt =====
-- A concrete Keycloak that finds a user by the address at the second attempt, and the theorems on
-- the client of Keycloak there.
use confirmd_platform.Common.{
  ◌≤◌, ◌≡◌, ◌==◌, refl, sym, ap, ◌∙◌, false, if◌then◌else◌, Option, none, some, List, [], ◌∷◌, Text,
  codes, length, ltb,
}
use confirmd_platform.Outcome.{Outcome, ok, err, external, rpc, bad_request, invalid_refresh_token}
use confirmd_platform.Keycloak.{Sent, Keycloak, CreateUser, create_keycloak_user}
use confirmd_platform.Keycloak.Search.{
  IsMade, create_keycloak_user-sets_password, create_keycloak_user-bounded,
}
use confirmd_platform.Keycloak.Refresh.{
  TokenUser, IsOnce, refresh_token_details, refresh_token_details-refused,
}

-- An encryption is an `E` before the text.
abbrev opens : Text → Option Text
opens [] = none
opens (c ∷ s) = if c == b'E' then some s else none

abbrev answer : List Sent → Sent → Outcome (Option (List Text))
answer h (Sent.get_users_by_email email) =
    if ltb (length h) 3 then err (external 1) else ok (some (codes "u1" ∷ []))
answer h _ = ok (some [])

abbrev keycloak : Keycloak
keycloak = record {
  accepts = λ h c. ok tt;
  users = answer;
  token = λ h g. ok (codes "token");
  clients = λ h c. ok [];
  secret = λ h c. ok (codes "secret");
  not_found_status = λ e. false;
  crypto = record { open_json = opens; open_text = opens };
}

abbrev bob : CreateUser
bob = record { email = codes "bob@example.org"; password = some (codes "pw") }

abbrev made : List Sent
made = (create_keycloak_user keycloak bob []).1

-- Tests of the definitions.
second_attempt_test : create_keycloak_user keycloak bob [] ≡ (
  ok (codes "u1"),
  Sent.put_password (codes "u1") (some (codes "pw"))
      ∷ Sent.get_users_by_email bob.email
      ∷ Sent.get_users_by_username bob.email
      ∷ Sent.get_users_by_email bob.email
      ∷ Sent.get_users_by_username bob.email
      ∷ Sent.post_user bob.email
      ∷ [],
)
unfolding create_keycloak_user
second_attempt_test = refl

-- The theorems at these inputs.
create_keycloak_user-sets_password_example : IsMade keycloak bob 7 (codes "u1") made
unfolding create_keycloak_user
create_keycloak_user-sets_password_example =
    create_keycloak_user-sets_password keycloak bob made (codes "u1") refl

create_keycloak_user-bounded_example : length made ≤ 8
create_keycloak_user-bounded_example = create_keycloak_user-bounded keycloak bob []

abbrev carol : Outcome TokenUser
carol = ok (record { client_id = some (codes "Eid"); client_secret = some (codes "Esecret") })

abbrev secret_of : Outcome TokenUser → Option Text
secret_of (ok u) = u.client_secret
secret_of (err e) = none

abbrev text_of : Option Text → Text
text_of none = []
text_of (some t) = t

carol-IsOnce : IsOnce keycloak.crypto carol
carol-IsOnce u s t e f g =
    let encrypted : s ≡ codes "Esecret" = ap text_of (sym f ∙ sym (ap secret_of e)) in
    let plain : t ≡ codes "secret" = ap text_of (sym g ∙ ap opens encrypted) in ap opens plain

refresh_token_details-refused_example :
    refresh_token_details keycloak carol (codes "old") []
    ≡ (err (rpc (bad_request invalid_refresh_token)), [])
refresh_token_details-refused_example =
    refresh_token_details-refused keycloak carol (codes "old") [] carol-IsOnce
