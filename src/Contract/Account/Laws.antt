-- ===== src/Contract/Account/Laws.antt =====
-- contract/accountmodel.go: which credential bindings are valid.
use kei_connector_contracts.Prelude.{
  ◌≡◌, ◌≢◌, ◌↔◌, ◌⊎◌, inl, inr, true, not, ◌&&◌, none, [], ◌∷◌, arith, ==_iff, ◌==◌, if◌then◌else◌,
  Bool-cases, In, refuse_if, ◌>>?◌,
}
use kei_connector_contracts.Contract.Types.{Metadata, no_declared_subject, model_not_allowed}
use kei_connector_contracts.Contract.Names.CredentialSource
use kei_connector_contracts.Contract.Names.Provider
use kei_connector_contracts.Contract.Catalog.{is_one_of, account_models_for, identifier, valid_id}
use kei_connector_contracts.Contract.Catalog.Laws.{is_one_of_iff}
use kei_connector_contracts.Contract.Account.{
  effective_source, check_model, needs_opaque, check_source, validate_credential_binding,
}
use kei_connector_contracts.Contract.Account.Models.{FitsModel, models_known, model_iff}

-- No account model, and a subject for an oauth credential; or a model of the provider, with what
-- it asks for.
abbrev pub HasModel : Metadata → Type 0
HasModel m =
    ((m.account_model ≡ []) × (effective_source m ≡ CredentialSource.oauth → m.subject ≢ []))
    ⊎ ((m.account_model ≢ []) × In m.account_model (account_models_for m.provider) × FitsModel m)

pub record IsBound (m : Metadata) : Type 0 where
  pub source :
      (effective_source m ≡ CredentialSource.oauth)
      ⊎ (effective_source m ≡ CredentialSource.opaque_ref)
  pub subject : (m.subject ≡ []) ⊎ (identifier m.subject ≡ true)
  pub shared_secret :
      In m.provider (Provider.tito ∷ Provider.discord ∷ Provider.grafana ∷ [])
      → effective_source m ≡ CredentialSource.opaque_ref
  pub model : HasModel m

module _ (m : Metadata) where
  source_iff :
      (is_one_of (CredentialSource.oauth ∷ CredentialSource.opaque_ref ∷ []) (effective_source m)
        ≡ true)
      ↔ ((effective_source m ≡ CredentialSource.oauth)
          ⊎ (effective_source m ≡ CredentialSource.opaque_ref))
  source_iff =
      let (to, from) =
        is_one_of_iff (CredentialSource.oauth ∷ CredentialSource.opaque_ref ∷ [])
          (effective_source m) in
      (λ h. ground (arith, to h), λ e. from (ground arith))

  abbrev Sourced : Type 0
  Sourced =
      ((effective_source m ≡ CredentialSource.oauth)
        ⊎ (effective_source m ≡ CredentialSource.opaque_ref))
      × ((m.subject ≡ []) ⊎ (identifier m.subject ≡ true))
      × (In m.provider (Provider.tito ∷ Provider.discord ∷ Provider.grafana ∷ [])
          → effective_source m ≡ CredentialSource.opaque_ref)

  check_source_iff : (check_source m ≡ none) ↔ Sourced
  unfolding check_source valid_id needs_opaque
  check_source_iff =
      let subject = ==_iff m.subject [] in
      let secret =
        is_one_of_iff (Provider.tito ∷ Provider.discord ∷ Provider.grafana ∷ []) m.provider in
      let opaque = ==_iff (effective_source m) CredentialSource.opaque_ref in
      (
        λ h. (
          source_iff.0 (ground arith),
          ground (arith, subject),
          λ i. let needs = secret.1 i in opaque.0 (ground arith),
        ),
        λ (source, named, secrets).
            let listed = source_iff.1 source in
            elim (Bool-cases (needs_opaque m.provider)) [
              | inl e ↦ let is = opaque.1 (secrets (secret.0 e)) in ground (arith, subject)
              | inr e ↦ ground (arith, subject)
            ],
      )

  model_choice_iff :
      ((if m.account_model == []
          then refuse_if
              (effective_source m == CredentialSource.oauth && m.subject == [])
              no_declared_subject
          else refuse_if
              (not (is_one_of (account_models_for m.provider) m.account_model))
              model_not_allowed
            >>? check_model m)
        ≡ none)
      ↔ HasModel m
  model_choice_iff =
      let unset = ==_iff m.account_model [] in
      let oauth = ==_iff (effective_source m) CredentialSource.oauth in
      let subject = ==_iff m.subject [] in
      let listed = is_one_of_iff (account_models_for m.provider) m.account_model in
      elim (Bool-cases (m.account_model == [])) [
        | inl e ↦ (
          λ h. inl (
            unset.0 e,
            λ o s. let o' = oauth.1 o in let s' = subject.1 s in absurd (ground arith),
          ),
          λ k. elim k [
            | inl (u, f) ↦ ground (arith, oauth, subject, f)
            | inr (u, i, f) ↦ absurd (u (unset.0 e))
          ],
        )
        | inr e ↦ (
          λ h.
              let i = listed.0 (ground arith) in
              inr (
                λ u. let u' = unset.1 u in cc,
                i,
                (model_iff m (models_known m.provider m.account_model i)).0 (ground arith),
              ),
          λ k. elim k [
            | inl (u, f) ↦ let u' = unset.1 u in absurd (cc)
            | inr (u, i, f) ↦
                let i' = listed.1 i in
                let c = (model_iff m (models_known m.provider m.account_model i)).1 f in
                ground arith
          ],
        )
      ]

-- A credential binding is valid exactly if its source is known, its subject is empty or an
-- identifier, a provider of shared secrets has an opaque reference, and its account model is one
-- of the provider and has the source and the subject that the model asks for; without an account
-- model an oauth credential declares its subject.
pub validate_credential_binding_iff :
    (m : Metadata) → (validate_credential_binding m ≡ none) ↔ IsBound m
unfolding validate_credential_binding
validate_credential_binding_iff m =
    let source = check_source_iff m in
    let model = model_choice_iff m in
    (
      λ h.
          let (a, b, c) = source.0 (ground arith) in
          record { source = a; subject = b; shared_secret = c; model = model.0 (ground arith) },
      λ b.
          let s = source.1 (b.source, b.subject, b.shared_secret) in
          let k = model.1 b.model in ground arith,
    )
