-- ===== src/Offers/Delivered.antt =====
-- What was done for one offer when `sendEmailForCredentialOffer` returns true.
use confirmd_platform.Common.{
  ◌≡◌, refl, sym, ap, ◌∙◌, Bool, true, false, Option, none, some, List, [], ◌∷◌, ◌++◌, Text, codes,
  arith,
}
use confirmd_platform.Outcome.{Fault, Outcome, ok, err}
use confirmd_platform.Effect.{◌>>=◌, pure, read, lift}
use confirmd_platform.Triple.{Ends, Triple, bind-Triple, catch-Triple, given-Triple}
use confirmd_platform.Organization.Model.Rows.{is_set}
use confirmd_platform.Offers.{
  IssueCredentialType, indy, jsonld, other_type, OfferAttribute, OutOfBandCredential,
  CredentialOffer, AgentPayload, indy_payload, jsonld_payload, no_agent_payload, OfferCall,
  call_agent, store_object, mail_offer, OfferState, OfferAct, OfferServices,
}
use confirmd_platform.Offers.Send.{
  call, give_up, version_or_v1, indy_attributes, mail_address, agent_payload, reused_did,
  convert_url_to_deep_link_url, mail_result, mail_if, mail_invitation, mail_answer, try_offer,
  rethrow_offer, send_email_for_credential_offer,
}

-- The version asked for, `v1` where none is given.
abbrev pub asked_version : Option Text → Text
asked_version none = codes "v1"
asked_version (some []) = codes "v1"
asked_version (some (c ∷ v)) = c ∷ v

-- The attributes of the request, or, if it has none, those of the offer.
abbrev pub HasAttributes :
    Option (List OfferAttribute) → Option CredentialOffer → List OfferAttribute → Type 0
HasAttributes (some given) o attributes = attributes ≡ given
HasAttributes none o attributes =
    (x : CredentialOffer) × ((o ≡ some x) × (attributes ≡ x.attributes))

-- What the agent is to be sent for an offer, with the DID of a connection that is used again.
abbrev pub IsPayload :
    IssueCredentialType
    → OutOfBandCredential
    → Option CredentialOffer
    → Option Text
    → AgentPayload
    → Type 0
IsPayload indy c o did p =
    (attributes : List OfferAttribute) × (HasAttributes c.attributes o attributes
      × (p
          ≡ indy_payload (asked_version c.protocol_version) attributes c.credential_definition_id
              did))
IsPayload jsonld c o did p =
    (x : CredentialOffer) × ((o ≡ some x) × (p ≡ jsonld_payload x.credential did))
IsPayload other_type c o did p = p ≡ no_agent_payload

-- The DID that is used again, if that was asked for.
abbrev pub IsDid : OfferServices → Bool → OfferState → (org_id : Text) → Option Text → Type 0
IsDid w true s org_id did = w.invitation_did s org_id ≡ ok did
IsDid w false s org_id did = did ≡ none

-- The address of an offer of a list is its own.
abbrev pub addressee : Option CredentialOffer → Option Text → Option Text
addressee none email_id = email_id
addressee (some o) email_id = o.email_id

-- The state after further calls.
abbrev pub with_calls : OfferState → List OfferCall → OfferState
with_calls s calls = record s { calls = calls ++ s.calls }

-- The calls for one offer from the state `s`, the newest first: the agent was sent the payload of
-- the offer and answered with an invitation; it was stored, and the store answered with a short
-- address; a mail with this address behind the domain of deep links was sent to the addressee, and
-- the mail service took it.
pub record IsDelivered (w : OfferServices) (c : OutOfBandCredential) (url : Text)
    (o : Option CredentialOffer) (s : OfferState) (calls : List OfferCall) : Type 0 where
  pub did : Option Text
  pub did_asked : IsDid w c.is_reuse_connection s c.org_id did
  pub payload : AgentPayload
  pub payload_fits : IsPayload c.credential_type c o did payload
  pub invitation_url : Option Text
  pub is_there : is_set invitation_url ≡ true
  pub answered : w.agent_answer s payload ≡ ok (some invitation_url)
  pub short_url : Text
  pub shortened :
      w.short_url (with_calls s (call_agent payload url c.org_id ∷ [])) invitation_url
      ≡ ok short_url
  pub domain : Text
  pub domain_set : w.deep_link_domain ≡ some domain
  pub mailed :
      w.mail_sent
        (with_calls s (store_object invitation_url ∷ call_agent payload url c.org_id ∷ []))
      ≡ ok true
  pub made :
      calls
      ≡ mail_offer (addressee o c.email_id) (domain ++ short_url)
        ∷ store_object invitation_url
        ∷ call_agent payload url c.org_id
        ∷ []

-- An offer is delivered and nothing else changes, or an error is pushed.
abbrev pub SentOne :
    OfferServices
    → OutOfBandCredential
    → Text
    → Option CredentialOffer
    → OfferState
    → Bool
    → OfferState
    → Type 0
SentOne w c url o s true t =
    (calls : List OfferCall) × (IsDelivered w c url o s calls × (t ≡ with_calls s calls))
SentOne w c url o s false t = (e : Fault) × (t.errors ≡ e ∷ s.errors)

abbrev pub Never : OfferState → Type 0
Never s = Unit {0}

version-asked : (v : Option Text) → version_or_v1 v ≡ asked_version v
version-asked none = refl
version-asked (some []) = refl
version-asked (some (c ∷ v)) = refl

module _ (w : OfferServices) where
  convert_url_to_deep_link_url-quiet :
      (t : Text) (s : OfferState) → (convert_url_to_deep_link_url w t s).1 ≡ s
  unfolding convert_url_to_deep_link_url
  convert_url_to_deep_link_url-quiet t s = ground arith

  deep_link :
      (t link : Text) (s : OfferState)
      → (convert_url_to_deep_link_url w t s).0 ≡ ok link
      → (domain : Text) × ((w.deep_link_domain ≡ some domain) × (link ≡ domain ++ t))
  unfolding convert_url_to_deep_link_url
  deep_link t link s e = linked w.deep_link_domain refl
    where
      linked :
          (d : Option Text)
          → w.deep_link_domain ≡ d
          → (domain : Text) × ((w.deep_link_domain ≡ some domain) × (link ≡ domain ++ t))
      linked none f = absurd (ground (arith, e, f))
      linked (some domain) f = (domain, (f, ground (arith, e, f)))

  agent_payload-quiet :
      (c : OutOfBandCredential) (o : Option CredentialOffer) (d : Option Text) (s : OfferState)
      → (agent_payload w c o d s).1 ≡ s
  unfolding agent_payload
  agent_payload-quiet c o d s = ground arith

  indy-IsPayload :
      (given : Option (List OfferAttribute)) (o : Option CredentialOffer) (v : Option Text)
      (definition : Text) (d : Option Text) (s : OfferState) (p : AgentPayload)
      → ((indy_attributes given o >>= λ a. pure (indy_payload (version_or_v1 v) a definition d))
          s).0
        ≡ ok p
      → (a : List OfferAttribute) × (HasAttributes given o a
          × (p ≡ indy_payload (asked_version v) a definition d))
  indy-IsPayload (some g) o v definition d s p e =
      (g, (refl, (let k = version-asked v in ground (arith, e, k))))
  indy-IsPayload none none v definition d s p e = absurd (ground (arith, e))
  indy-IsPayload none (some x) v definition d s p e =
      (x.attributes, ((x, (refl, refl)), (let k = version-asked v in ground (arith, e, k))))

  agent_payload-IsPayload :
      (c : OutOfBandCredential) (o : Option CredentialOffer) (d : Option Text) (s : OfferState)
      (p : AgentPayload)
      → (agent_payload w c o d s).0 ≡ ok p
      → IsPayload c.credential_type c o d p
  unfolding agent_payload
  agent_payload-IsPayload c o d s p e = of_type c.credential_type refl o e
    where
      of_type :
          (ty : IssueCredentialType)
          → c.credential_type ≡ ty
          → (o : Option CredentialOffer) → (agent_payload w c o d s).0 ≡ ok p
          → IsPayload ty c o d p
      of_type indy t o e =
          indy-IsPayload c.attributes o c.protocol_version c.credential_definition_id d s p
            (ground (arith, t, e))
      of_type jsonld t none e = absurd (ground (arith, t, e))
      of_type jsonld t (some x) e = (x, (refl, ground (arith, t, e)))
      of_type other_type t o e = ground (arith, t, e)

  reused_did-quiet : (b : Bool) (org_id : Text) (s : OfferState) → (reused_did w b org_id s).1 ≡ s
  reused_did-quiet true org_id s = refl
  reused_did-quiet false org_id s = refl

  reused_did-IsDid :
      (b : Bool) (org_id : Text) (s : OfferState) (did : Option Text)
      → (reused_did w b org_id s).0 ≡ ok did
      → IsDid w b s org_id did
  reused_did-IsDid true org_id s did e = e
  reused_did-IsDid false org_id s did e = ground (arith, e)

module _ (w : OfferServices) (c : OutOfBandCredential) (url : Text) (o : Option CredentialOffer)
    (s : OfferState) where
  abbrev At : List OfferCall → OfferState → Type 0
  At calls t = t ≡ with_calls s calls

  give_up-SentOne :
      (calls : List OfferCall) (e : Fault)
      → Triple (At calls) (give_up e) (SentOne w c url o s) Never
  give_up-SentOne calls e = record { runs = λ t p. (e, ap (λ (x : OfferState). e ∷ x.errors) p) }

  -- A call, and what it was answered.
  call-At :
      {A : Type 0} (k : OfferCall) (calls : List OfferCall) (answer : OfferState → Outcome A)
      → Triple
          (At calls)
          (call k answer)
          (λ a t. At (k ∷ calls) t × (answer (with_calls s calls) ≡ ok a))
          Never
  call-At {A} k calls answer = record { runs = λ t p. ends t p (answer t) refl }
    where
      ends :
          (t : OfferState)
          → At calls t
          → (r : Outcome A) → answer t ≡ r
          → Ends
              (λ a t. At (k ∷ calls) t × (answer (with_calls s calls) ≡ ok a))
              Never
              (r, record t { calls = k ∷ t.calls })
      ends t p (ok a) e =
          (ap (λ (x : OfferState). record x { calls = k ∷ x.calls }) p, sym (ap answer p) ∙ e)
      ends t p (err f) e = tt

  quiet-At :
      {A : Type 0} (calls : List OfferCall) (m : OfferAct A)
      → ((t : OfferState) → (m t).1 ≡ t)
      → Triple (At calls) m (λ a t. At calls t × ((m (with_calls s calls)).0 ≡ ok a)) Never
  quiet-At {A} calls m h = record { runs = λ t p. ends t p (m t) refl }
    where
      ends :
          (t : OfferState)
          → At calls t
          → (q : Outcome A × OfferState) → m t ≡ q
          → Ends (λ a t. At calls t × ((m (with_calls s calls)).0 ≡ ok a)) Never q
      ends t p (ok a, u) e =
          (sym (ap (λ x. x.1) e) ∙ h t ∙ p, sym (ap (λ x. (m x).0) p) ∙ ap (λ x. x.0) e)
      ends t p (err f, u) e = tt

  abbrev asked : AgentPayload → OfferCall
  asked p = call_agent p url c.org_id

  -- What is known when the agent has answered with an invitation.
  record IsAnswered (p : AgentPayload) (v : Option Text) : Type 0 where
    did : Option Text
    did_asked : IsDid w c.is_reuse_connection s c.org_id did
    payload_fits : IsPayload c.credential_type c o did p
    answered : w.agent_answer s p ≡ ok (some v)

  mail_result-SentOne :
      (calls : List OfferCall) (b : Bool)
      → (b ≡ true → IsDelivered w c url o s calls)
      → Triple (At calls) (mail_result b) (SentOne w c url o s) Never
  mail_result-SentOne calls true d = record { runs = λ t p. (calls, (d refl, p)) }
  mail_result-SentOne calls false d = give_up-SentOne calls _

  address-addressee :
      (o : Option CredentialOffer) (m : Option Text) → mail_address o m ≡ addressee o m
  address-addressee none m = refl
  address-addressee (some o) m = refl

  mail_if-SentOne :
      (p : AgentPayload) (v : Option Text) (short link : Text) (config : Bool)
      → IsAnswered p v
      → is_set v ≡ true
      → w.short_url (with_calls s (asked p ∷ [])) v ≡ ok short
      → (domain : Text) × ((w.deep_link_domain ≡ some domain) × (link ≡ domain ++ short))
      → Triple
          (At (store_object v ∷ asked p ∷ []))
          (mail_if w config (mail_address o c.email_id) link)
          (SentOne w c url o s)
          Never
  mail_if-SentOne p v short link false a e f d = give_up-SentOne (store_object v ∷ asked p ∷ []) _
  mail_if-SentOne p v short link true a e f (domain, (set, g)) =
      let k = mail_offer (mail_address o c.email_id) link in
      bind-Triple (call-At k (store_object v ∷ asked p ∷ []) (λ t. w.mail_sent t)) (λ b.
        given-Triple (λ sent. mail_result-SentOne (k ∷ store_object v ∷ asked p ∷ []) b (λ yes.
          record {
            did = a.did;
            did_asked = a.did_asked;
            payload = p;
            payload_fits = a.payload_fits;
            invitation_url = v;
            is_there = e;
            answered = a.answered;
            short_url = short;
            shortened = f;
            domain = domain;
            domain_set = set;
            mailed = sent ∙ ap (λ x. ok x) yes;
            made =
                ap (λ m. mail_offer m link ∷ store_object v ∷ asked p ∷ [])
                  (address-addressee o c.email_id)
                ∙ ap (λ l. mail_offer (addressee o c.email_id) l ∷ store_object v ∷ asked p ∷ []) g;
          })))

  mail_invitation-SentOne :
      (p : AgentPayload) (v : Option Text) (short link : Text) (b : Bool)
      → IsAnswered p v
      → is_set v ≡ b
      → w.short_url (with_calls s (asked p ∷ [])) v ≡ ok short
      → (domain : Text) × ((w.deep_link_domain ≡ some domain) × (link ≡ domain ++ short))
      → Triple
          (At (store_object v ∷ asked p ∷ []))
          (mail_invitation w b (mail_address o c.email_id) short link)
          (SentOne w c url o s)
          Never
  mail_invitation-SentOne p v short link false a e f d =
      give_up-SentOne (store_object v ∷ asked p ∷ []) _
  mail_invitation-SentOne p v short link true a e f d =
      let calls = store_object v ∷ asked p ∷ [] in
      bind-Triple (quiet-At calls (lift (w.qr_code short)) (λ t. refl)) (λ _. given-Triple (λ _.
        bind-Triple (quiet-At calls (read (λ t. w.platform_config t)) (λ t. refl))
          (λ config. given-Triple (λ _. mail_if-SentOne p v short link config a e f d))))

  mail_answer-SentOne :
      (p : AgentPayload) (answer : Option (Option Text))
      → ((v : Option Text) → answer ≡ some v → IsAnswered p v)
      → Triple
          (At (asked p ∷ []))
          (mail_answer w answer (mail_address o c.email_id))
          (SentOne w c url o s)
          Never
  mail_answer-SentOne p none a = give_up-SentOne (asked p ∷ []) _
  mail_answer-SentOne p (some v) a =
      let calls = store_object v ∷ asked p ∷ [] in
      bind-Triple (call-At (store_object v) (asked p ∷ []) (λ t. w.short_url t v)) (λ short.
        given-Triple (λ f.
          bind-Triple
            (quiet-At calls (convert_url_to_deep_link_url w short)
              (convert_url_to_deep_link_url-quiet w short))
            (λ link. given-Triple (λ l.
              mail_invitation-SentOne p v short link (is_set v) (a v refl) refl f
                (deep_link w short link (with_calls s calls) l)))))

  try_offer-SentOne : Triple (λ t. t ≡ s) (try_offer w c url o) (SentOne w c url o s) Never
  unfolding try_offer
  try_offer-SentOne =
      bind-Triple
        (quiet-At [] (reused_did w c.is_reuse_connection c.org_id)
          (reused_did-quiet w c.is_reuse_connection c.org_id))
        (λ did. given-Triple (λ e.
          bind-Triple (quiet-At [] (agent_payload w c o did) (agent_payload-quiet w c o did)) (λ p.
            given-Triple (λ f.
              bind-Triple (call-At (asked p) [] (λ t. w.agent_answer t p)) (λ answer.
                given-Triple (λ g. mail_answer-SentOne p answer (λ v h. record {
                  did = did;
                  did_asked = reused_did-IsDid w c.is_reuse_connection c.org_id s did e;
                  payload_fits = agent_payload-IsPayload w c o did s p f;
                  answered = g ∙ ap (λ x. ok x) h;
                })))))))

  rethrow-Never : (e : Fault) → Triple Never (rethrow_offer w e) (SentOne w c url o s) Never
  rethrow-Never e = record { runs = λ t p. tt }

  pub send-SentOne :
      Triple (λ t. t ≡ s) (send_email_for_credential_offer w c url o) (SentOne w c url o s) Never
  unfolding send_email_for_credential_offer
  send-SentOne = catch-Triple try_offer-SentOne rethrow-Never
