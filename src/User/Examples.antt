-- ===== src/User/Examples.antt =====
-- A concrete outside for apps/user, in which everything is answered, and the theorems on users at
-- concrete requests.
use confirmd_platform.User.SignUp.{is_disallowed}
use confirmd_platform.User.Table.{find_token, update_user, upsert_user}
use confirmd_platform.Common.{
  ◌≡◌, refl, true, false, Option, none, some, List, [], ◌∷◌, All, Text, codes, replicate, same,
}
use confirmd_platform.Outcome.{ok}
use confirmd_platform.User.Model.{UserRow, ResetToken, Store, Services, query, ask, call}
use confirmd_platform.User.Table.{find_user}
use confirmd_platform.User.SignUp.{SendVerification, send_verification_mail, verify_email}
use confirmd_platform.User.Complete.{UserInformation}
use confirmd_platform.User.Password.{reset_token_password}
use confirmd_platform.User.Request.{UserRequest, serve}
use confirmd_platform.User.Held.{IsEarned}
use confirmd_platform.User.Earned.{serve-IsEarned}
use confirmd_platform.User.Progress.{Reaches, status_in, registered, confirmed}
use confirmd_platform.User.Advanced.{serve-Reaches}
use confirmd_platform.User.Returns.{Answers}
use confirmd_platform.User.Answered.{sign_up-confirmed}
use confirmd_platform.User.Spent.{IsGood, reset_token_password-spends}

-- Every uuid is a text of `a`s as long as the step at which it is made, after a `u`.
abbrev services : Services
services = record {
  database = λ k. none;
  new_uuid = λ k. b'u' ∷ replicate k b'a';
  now = λ k. k;
  is_production = true;
  disallowed_domains = codes "mailinator.com" ∷ [];
  to_lower_case = λ t. t;
  is_email = λ t. true;
  crypto = record { open_json = λ t. some t; open_text = λ t. some t };
  management_token = λ k a b. ok (codes "token");
  redirect_uris = λ k a t. ok (some (codes "https://example.org" ∷ []) ∷ []);
  email_from = λ k. ok (codes "no-reply@example.org" ∷ []);
  mail_sent = λ k. true;
  created_account = λ k. ok (codes "account");
  is_conflict = λ e. false;
  accounts_by_email = λ k t. ok none;
  password_set = λ k. ok tt;
  realm_roles = λ k t. ok (record { id = codes "r"; name = codes "mb-user" } ∷ []);
  realm_role_given = λ k. ok tt;
  holder_user_role = λ k. ok (codes "holder");
  holder_org_role = λ k. ok (some (record { id = codes "o"; name = codes "holder" }));
  user_token = λ k a b c d. ok (codes "access");
  supabase_session = λ k a b. ok none;
}

abbrev empty_store : Store
empty_store = record {
  users = [];
  tokens = [];
  user_roles = [];
  org_roles = [];
  outside = [];
  step = 0;
}

abbrev address : Text
address = codes "ann@example.org"

abbrev client : Option Text
client = some (codes "client")

abbrev first_mail : SendVerification
first_mail = record { email = address; client_id = client; client_secret = client }

abbrev ann : UserInformation
ann = record {
  email = address;
  password = some (codes "secret");
  first_name = codes "Ann";
  last_name = codes "Lee";
  is_passkey = false;
  is_holder = true;
}

-- The code is the uuid of the second step.
abbrev code : Text
code = codes "ua"

abbrev sign_up : List UserRequest
sign_up = UserRequest.user_email_verification address code ∷ UserRequest.add_user ann ∷ []

-- Tests of the definitions.
signed_up_test :
    status_in address
      (serve services (UserRequest.send_verification first_mail ∷ sign_up) empty_store).users
    ≡ registered
unfolding find_user serve query ask call upsert_user update_user
signed_up_test = refl

wrong_code_test :
    (verify_email services address
      (codes "x")
      (serve services (UserRequest.send_verification first_mail ∷ []) empty_store)).1.users
    ≡ (serve services (UserRequest.send_verification first_mail ∷ []) empty_store).users
unfolding serve verify_email query ask call update_user upsert_user
wrong_code_test = refl

-- The theorems at these requests.
serve-IsEarned_example :
    All
      (IsEarned
        (UserRequest.send_verification first_mail ∷ sign_up)
        (serve services (UserRequest.send_verification first_mail ∷ sign_up) empty_store).outside)
      (serve services (UserRequest.send_verification first_mail ∷ sign_up) empty_store).users
serve-IsEarned_example =
    serve-IsEarned services (UserRequest.send_verification first_mail ∷ sign_up) empty_store refl

serve-Reaches_example :
    Reaches sign_up address
      (status_in address
        (serve services (UserRequest.send_verification first_mail ∷ []) empty_store).users)
      (status_in address
        (serve services sign_up
          (serve services (UserRequest.send_verification first_mail ∷ []) empty_store)).users)
serve-Reaches_example =
    serve-Reaches services (UserRequest.send_verification first_mail ∷ []) sign_up empty_store
      address refl

services_answer : Answers services
services_answer = record {
  database_up = λ k. refl;
  token_given = λ k a b. (codes "token", refl);
  redirects = λ k a t. (some (codes "https://example.org" ∷ []) ∷ [], (refl, refl));
  sender = λ k. (codes "no-reply@example.org" ∷ [], (refl, (codes "no-reply@example.org", refl)));
  mail_accepted = λ k. refl;
  uuid_set = λ k. refl;
}

sign_up-confirmed_example :
    (u : UserRow) × (((send_verification_mail services first_mail empty_store).0 ≡ ok u)
      × ((v : UserRow) × (((verify_email services address u.verification_code
                (send_verification_mail services first_mail empty_store).1).0
              ≡ ok v)
            × (status_in address
                  (verify_email services address u.verification_code
                    (send_verification_mail services first_mail empty_store).1).1.users
                ≡ confirmed))))
unfolding is_disallowed
sign_up-confirmed_example =
    sign_up-confirmed services first_mail empty_store services_answer refl refl tt (λ k. refl)

abbrev ann_row : UserRow
ann_row = record {
  id = codes "i";
  email = address;
  username = codes "ann";
  first_name = none;
  last_name = none;
  verification_code = code;
  is_email_verified = true;
  keycloak_user_id = some (codes "account");
  supabase_user_id = none;
  client_id = client;
  client_secret = client;
  is_fido_verified = false;
  password = none;
}

abbrev link : ResetToken
link = record { id = codes "t"; token = codes "link"; user_id = codes "i"; expires_at = 100 }

abbrev forgetful : Store
forgetful = record empty_store { users = ann_row ∷ []; tokens = link ∷ [] }

abbrev after_reset : Store
after_reset =
    (reset_token_password services address (some (codes "new")) (codes "link") forgetful).1

reset_token_password-spends_example :
    ((d : ResetToken) × IsGood services forgetful.step (link ∷ []) (codes "i") (codes "link") d)
    × All (λ x. same x.token (codes "link") ≡ false) after_reset.tokens
unfolding reset_token_password query ask find_token call
reset_token_password-spends_example =
    reset_token_password-spends services address (some (codes "new")) (codes "link") forgetful
      after_reset (codes "i", address) (tt, tt) (tt, tt) refl
