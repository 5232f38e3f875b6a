-- ===== src/Contract/Account/Models.antt =====
-- contract/accountmodel.go: what an account model asks for.
use kei_connector_contracts.Prelude.{
  ◌≡◌, ◌↔◌, ◌⊎◌, inl, inr, true, false, none, List, [], ◌∷◌, arith, Text, ==_iff, ◌==◌,
  Option-cases, All, In, All_at,
}
use kei_connector_contracts.Contract.Types.{Metadata}
use kei_connector_contracts.Contract.Names.CredentialSource
use kei_connector_contracts.Contract.Names.AccountModel
use kei_connector_contracts.Contract.Catalog.{entry_of, account_models, account_models_for}
use kei_connector_contracts.Contract.Catalog.Laws.{entry_of_In}
use kei_connector_contracts.Contract.Account.{
  effective_source, shared_subject, check_per_user, check_shared, check_delegation, check_model,
}

-- The credential source and the subject that an account model asks for.
abbrev pub FitsModel : Metadata → Type 0
FitsModel m =
    ((m.account_model ≡ AccountModel.per_user)
      × (effective_source m ≡ CredentialSource.oauth)
      × (m.subject ≡ []))
    ⊎ ((m.account_model ≡ AccountModel.shared)
        × (effective_source m ≡ CredentialSource.oauth)
        × (m.subject ≡ shared_subject m.id))
    ⊎ ((m.account_model ≡ AccountModel.domain_delegation)
        × (effective_source m ≡ CredentialSource.opaque_ref)
        × (m.subject ≡ []))

abbrev pub known_models : List Text
known_models = AccountModel.per_user ∷ AccountModel.shared ∷ AccountModel.domain_delegation ∷ []

abbrev Known : Text × List Text → Type 0
Known (p, models) = All (λ a. In a known_models) models

tables-Known : All Known account_models
tables-Known = ground arith

pub models_known : (p m : Text) → In m (account_models_for p) → In m known_models
unfolding account_models_for
models_known p m i = elim (Option-cases (entry_of account_models p)) [
  | inl e ↦ absurd (ground arith)
  | inr (models, e) ↦
      let known =
        All_at Known (p, models) account_models tables-Known
          (entry_of_In account_models p models e) in
      All_at (λ a. In a known_models) m models known (rw e at i)
]

module _ (m : Metadata) where
  per_user_iff :
      (check_per_user m ≡ none) ↔ ((effective_source m ≡ CredentialSource.oauth) × (m.subject ≡ []))
  unfolding check_per_user
  per_user_iff =
      let source = ==_iff (effective_source m) CredentialSource.oauth in
      let subject = ==_iff m.subject [] in
      (
        λ h. (source.0 (ground arith), subject.0 (ground arith)),
        λ (a, b). ground (arith, source, subject),
      )

  shared_iff :
      (check_shared m ≡ none)
      ↔ ((effective_source m ≡ CredentialSource.oauth) × (m.subject ≡ shared_subject m.id))
  unfolding check_shared
  shared_iff =
      let source = ==_iff (effective_source m) CredentialSource.oauth in
      let subject = ==_iff m.subject (shared_subject m.id) in
      (
        λ h. (source.0 (ground arith), subject.0 (ground arith)),
        λ (a, b). ground (arith, source, subject),
      )

  delegation_iff :
      (check_delegation m ≡ none)
      ↔ ((effective_source m ≡ CredentialSource.opaque_ref) × (m.subject ≡ []))
  unfolding check_delegation
  delegation_iff =
      let source = ==_iff (effective_source m) CredentialSource.opaque_ref in
      let subject = ==_iff m.subject [] in
      (
        λ h. (source.0 (ground arith), subject.0 (ground arith)),
        λ (a, b). ground (arith, source, subject),
      )

  is_model : (a : Text) → m.account_model ≡ a → (m.account_model == a) ≡ true
  is_model a e = (==_iff m.account_model a).1 e

  pub model_iff : In m.account_model known_models → (check_model m ≡ none) ↔ FitsModel m
  unfolding check_model
  model_iff (inl e) = (
    λ h.
        let is = is_model AccountModel.per_user e in
        let (source, subject) = per_user_iff.0 (ground arith) in inl (e, source, subject),
    λ f. elim f [
      | inl (g, a, b) ↦
          let is = is_model AccountModel.per_user e in let c = per_user_iff.1 (a, b) in ground arith
      | inr (inl (g, a, b)) ↦ absurd (cc)
      | inr (inr (g, a, b)) ↦ absurd (cc)
    ],
  )
  model_iff (inr (inl e)) =
      let other : (m.account_model == AccountModel.per_user) ≡ false =
        ground (arith, ==_iff m.account_model AccountModel.per_user) in
      let is = is_model AccountModel.shared e in
      (
        λ h. let (source, subject) = shared_iff.0 (ground arith) in inr (inl (e, source, subject)),
        λ f. elim f [
          | inl (g, a, b) ↦ absurd (cc)
          | inr (inl (g, a, b)) ↦ let c = shared_iff.1 (a, b) in ground arith
          | inr (inr (g, a, b)) ↦ absurd (cc)
        ],
      )
  model_iff (inr (inr (inl e))) =
      let other : (m.account_model == AccountModel.per_user) ≡ false =
        ground (arith, ==_iff m.account_model AccountModel.per_user) in
      let other' : (m.account_model == AccountModel.shared) ≡ false =
        ground (arith, ==_iff m.account_model AccountModel.shared) in
      let is = is_model AccountModel.domain_delegation e in
      (
        λ h.
            let (source, subject) = delegation_iff.0 (ground arith) in
            inr (inr (e, source, subject)),
        λ f. elim f [
          | inl (g, a, b) ↦ absurd (cc)
          | inr (inl (g, a, b)) ↦ absurd (cc)
          | inr (inr (g, a, b)) ↦ let c = delegation_iff.1 (a, b) in ground arith
        ],
      )
  model_iff (inr (inr (inr x))) = absurd x
