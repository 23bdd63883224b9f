-- ===== src/Offers/Returned.antt =====
-- `outOfBandCredentialOffer` with a list of offers: it delivers them all, or it throws.
use confirmd_platform.Common.{
  ◌≡◌, refl, sym, ap, subst, ◌∙◌, ◌⊎◌, inl, inr, Bool, true, false, some, List, [], ◌∷◌, ◌++◌,
  append_assoc, all, Text, arith,
}
use confirmd_platform.Outcome.{Fault, Outcome, ok, err, rpc}
use confirmd_platform.Effect.{◌>>◌, pure, read}
use confirmd_platform.Triple.{
  Ends, Triple, bind-Triple, catch_with-Triple, pure-Triple, read-Triple, Triple-weaken,
}
use confirmd_platform.Offers.{
  OutOfBandCredential, CredentialOffer, OfferCall, OfferAgent, OfferState, OfferAct, OfferServices,
}
use confirmd_platform.Offers.Send.{
  send_all, check_offer, offer_url, throw_errors, send_offers, organization_or_error, no_errors_yet,
  out_of_band_credential_offer,
}
use confirmd_platform.Offers.Delivered.{IsDelivered, SentOne, with_calls, Never, send-SentOne}

-- The calls for a list of offers, the newest first: each offer is delivered from the state in which
-- those before it are.
abbrev pub AreDelivered :
    OfferServices
    → OutOfBandCredential
    → Text
    → List CredentialOffer
    → OfferState
    → List OfferCall
    → Type 0
AreDelivered w c url [] s calls = calls ≡ []
AreDelivered w c url (o ∷ os) s calls =
    (xs : List OfferCall) × ((ys : List OfferCall) × ((calls ≡ ys ++ xs)
        × (IsDelivered w c url (some o) s xs × AreDelivered w c url os (with_calls s xs) ys)))

abbrev SentAll :
    OfferServices
    → OutOfBandCredential
    → Text
    → List CredentialOffer
    → OfferState
    → List Bool
    → OfferState
    → Type 0
SentAll w c url os s rs t =
    ((all (λ r. r) rs ≡ true)
      × ((calls : List OfferCall) × (AreDelivered w c url os s calls × (t ≡ with_calls s calls))))
    ⊎ ((e : Fault) × ((es : List Fault) × (t.errors ≡ e ∷ es)))

module _ (w : OfferServices) (c : OutOfBandCredential) (url : Text) where
  sent_and_rest :
      (o : CredentialOffer) (os : List CredentialOffer) (s t u : OfferState) (b : Bool)
      (rs : List Bool)
      → SentOne w c url (some o) s b t
      → SentAll w c url os t rs u
      → SentAll w c url (o ∷ os) s (b ∷ rs) u
  sent_and_rest o os s t u true rs (xs, (d, e)) (inl (a, (ys, (ds, g)))) = inl (
    a,
    (
      ys ++ xs,
      (
        (xs, (ys, (refl, (d, subst (λ x. AreDelivered w c url os x ys) e ds)))),
        g
            ∙ ap (λ x. with_calls x ys) e
            ∙ ap (λ ks. record s { calls = ks }) (sym (append_assoc ys xs s.calls)),
      ),
    ),
  )
  sent_and_rest o os s t u false rs (e, f) (inl (a, (ys, (ds, g)))) =
      inr (e, (s.errors, (errors_same g ∙ f)))
    where
      errors_same : u ≡ with_calls t ys → u.errors ≡ t.errors
      errors_same g = ap (λ (x : OfferState). x.errors) g
  sent_and_rest o os s t u true rs p (inr q) = inr q
  sent_and_rest o os s t u false rs p (inr q) = inr q

  send_all-SentAll :
      (os : List CredentialOffer) (s : OfferState)
      → Triple (λ t. t ≡ s) (send_all w c url os) (SentAll w c url os s) Never
  unfolding send_all
  send_all-SentAll [] s = record { runs = λ t e. inl (refl, ([], (refl, e))) }
  send_all-SentAll (o ∷ os) s = bind-Triple (send-SentOne w c url (some o) s) (λ b.
      bind-Triple {Q = λ rs u. SentAll w c url (o ∷ os) s (b ∷ rs) u}
        (record {
          runs = λ t p.
              (Triple-weaken (λ x e. e) (λ rs u h. sent_and_rest o os s t u b rs p h)
                  (send_all-SentAll os t)).runs
                t refl;
        })
        (λ rs. pure-Triple (b ∷ rs)))

ok_injective : {A : Type 0} (a b : A) → ok a ≡ ok b → a ≡ b
ok_injective a b e = cc

-- All offers were delivered, from the calls made before and with no errors yet.
abbrev pub Delivers :
    OfferServices
    → OutOfBandCredential
    → Text
    → List CredentialOffer
    → List OfferCall
    → Bool
    → OfferState
    → Type 0
Delivers w c url os before_calls b t =
    (b ≡ true)
    × ((calls : List OfferCall) × (AreDelivered w c url os
            (record { calls = before_calls; errors = [] }) calls
          × (t.calls ≡ calls ++ before_calls)))

module _ (w : OfferServices) (c : OutOfBandCredential) (url : Text) (os : List CredentialOffer)
    (h : List OfferCall) where
  abbrev start_state : OfferState
  start_state = record { calls = h; errors = [] }

  errors_end :
      (rs : List Bool) (es : List Fault)
      → Triple
          (λ t. SentAll w c url os start_state rs t × (ok t.errors ≡ ok es))
          (throw_errors es >> pure (all (λ r. r) rs))
          (Delivers w c url os h)
          Never
  errors_end rs [] = record { runs = λ t p. delivered p.0 p.1 }
    where
      delivered :
          {t : OfferState}
          → SentAll w c url os start_state rs t
          → ok t.errors ≡ ok []
          → Delivers w c url os h (all (λ r. r) rs) t
      delivered (inl (a, (ys, (ds, g)))) e = (a, (ys, (ds, ap (λ (x : OfferState). x.calls) g)))
      delivered (inr (x, (xs, q))) e = absurd (ground arith)
  errors_end rs (e ∷ es) = record { runs = λ t p. tt }

  send_offers-Delivers :
      Triple (λ t. t ≡ start_state) (send_offers w c url (some os)) (Delivers w c url os h) Never
  send_offers-Delivers =
      bind-Triple (send_all-SentAll w c url os start_state)
        (λ rs. bind-Triple (read-Triple (λ t. ok t.errors) (λ t p. tt)) (λ es. errors_end rs es))

module _ (w : OfferServices) (c : OutOfBandCredential) (os : List CredentialOffer)
    (given : c.credential_offer ≡ some os) (s : OfferState) where
  abbrev SameCalls : OfferState → Type 0
  SameCalls t = t.calls ≡ s.calls

  quiet-SameCalls :
      {A : Type 0} (m : OfferAct A)
      → ((t : OfferState) → (m t).1 ≡ t)
      → Triple SameCalls m (λ _. SameCalls) Never
  quiet-SameCalls {A} m h = record {
    runs = λ t p. ends (m t) (ap (λ (x : OfferState). x.calls) (h t) ∙ p);
  }
    where
      ends : (q : Outcome A × OfferState) → SameCalls q.1 → Ends (λ _. SameCalls) Never q
      ends (ok a, t) p = p
      ends (err e, t) p = tt

  check_offer-quiet : (agent : OfferAgent) (t : OfferState) → (check_offer w c agent t).1 ≡ t
  unfolding check_offer
  check_offer-quiet agent t = ground arith

  offer_url-quiet : (agent : OfferAgent) (t : OfferState) → (offer_url w agent t).1 ≡ t
  unfolding offer_url
  offer_url-quiet agent t = ground arith

  sending :
      (url : Text)
      → Triple SameCalls
          (no_errors_yet >> send_offers w c url c.credential_offer)
          (λ b t. (u : Text) × Delivers w c u os s.calls b t)
          Never
  sending url =
      subst
        (λ l.
          Triple SameCalls (no_errors_yet >> send_offers w c url l)
            (λ b t. (u : Text) × Delivers w c u os s.calls b t) Never)
        (sym given)
        (record {
          runs = λ t p.
              (Triple-weaken (λ x e. e) (λ b x h. (url, h))
                  (send_offers-Delivers w c url os s.calls)).runs
                (record t { errors = [] }) (ap (λ k. record t { calls = k; errors = [] }) p);
        })

  out_of_band-Delivers :
      Triple SameCalls
        (out_of_band_credential_offer w c)
        (λ b t. (u : Text) × Delivers w c u os s.calls b t)
        Never
  unfolding out_of_band_credential_offer
  out_of_band-Delivers = catch_with-Triple rpc (
      bind-Triple (quiet-SameCalls (read (λ t. w.agent t c.org_id)) (λ t. refl)) (λ agent.
        bind-Triple (quiet-SameCalls (check_offer w c agent) (check_offer-quiet agent)) (λ _.
          bind-Triple (quiet-SameCalls (offer_url w agent) (offer_url-quiet agent)) (λ url.
            bind-Triple (quiet-SameCalls (read (λ t. w.organization_there t c.org_id)) (λ t. refl))
              (λ there.
                bind-Triple (quiet-SameCalls (organization_or_error there) (λ t. refl))
                  (λ _. sending url))))))

  -- If `outOfBandCredentialOffer` with a list of offers returns, then it returns true, and for each
  -- offer, in order: the agent was sent, at one address, the payload of the offer (for Indy the
  -- version, the attributes and the credential definition, for W3C its credential, and the DID of
  -- the connection to use again) and answered with an invitation; the invitation was stored; and a
  -- mail with the short address that the store answered, behind the domain of deep links, was sent
  -- to the address of the offer and taken by the mail service. No other call was made.
  pub out_of_band_credential_offer-Delivers :
      (b : Bool)
      → (out_of_band_credential_offer w c s).0 ≡ ok b
      → (url : Text) × Delivers w c url os s.calls b (out_of_band_credential_offer w c s).1
  out_of_band_credential_offer-Delivers b e =
      returned (out_of_band_credential_offer w c s) (out_of_band-Delivers.runs s refl) b e
    where
      returned :
          (q : Outcome Bool × OfferState)
          → Ends (λ b t. (u : Text) × Delivers w c u os s.calls b t) Never q
          → (b : Bool) → q.0 ≡ ok b
          → (url : Text) × Delivers w c url os s.calls b q.1
      returned (ok a, t) h b e =
          subst (λ x. (u : Text) × Delivers w c u os s.calls x t) (ok_injective a b e) h
      returned (err x, t) h b e = absurd (ground arith)
