-- ===== src/Capabilities/Laws.antt =====
-- capability/capability.go: what the lookups give.
use kei_connector_contracts.Prelude.{
  ◌≡◌, refl, ap, ◌↔◌, ◌⊎◌, inl, inr, Bool, true, false, not, some, List, [], ◌∷◌, map, arith, Text,
  ==_iff, ◌==◌, all, Bool-cases, In, is_empty, ok, err,
}
use kei_connector_contracts.Strings.{text_lt}
use kei_connector_contracts.Sort.Laws.{In-sort}
use kei_connector_contracts.Contract.Types.{Capability}
use kei_connector_contracts.Contract.Catalog.{
  definitions, entry_of, capabilities_for, valid_provider, defined_providers,
}
use kei_connector_contracts.Contract.Catalog.Laws.{is_one_of_iff}
use mathlib.Core.Option
use kei_connector_contracts.Capabilities.{
  capabilities_for_provider, providers, unsupported_provider,
}

-- `Providers` lists exactly the valid providers.
pub providers_iff : (p : Text) → In p providers ↔ (valid_provider p ≡ true)
unfolding providers valid_provider defined_providers
providers_iff p =
    let (there, back) = In-sort text_lt p defined_providers in
    let (one, two) = is_one_of_iff defined_providers p in (λ i. two (there i), λ v. back (one v))

-- Each provider has its own entry.
abbrev has_capability : Text × List Capability → Bool
has_capability (p, cs) = not (is_empty cs)

entry_of_listed :
    (m : List (Text × List Capability)) (p : Text)
    → In p (map (λ (q, cs). q) m)
    → all has_capability m ≡ true
    → (c : Capability) × (cs : List Capability) × (entry_of m p ≡ some (c ∷ cs))
unfolding entry_of all
entry_of_listed [] p i h = absurd i
entry_of_listed ((q, []) ∷ m) p i h = cc
entry_of_listed ((q, c ∷ cs) ∷ m) p (inl e) h = (c, cs, ground (arith, ==_iff q p))
entry_of_listed ((q, c ∷ cs) ∷ m) p (inr i) h = elim (Bool-cases (q == p)) [
  | inl e ↦ (c, cs, ground arith)
  | inr e ↦ let (d, ds, f) = entry_of_listed m p i h in (d, ds, ground arith)
]

table_nonempty : all has_capability definitions ≡ true
unfolding all
table_nonempty = refl

capabilities_of :
    (p : Text)
    → valid_provider p ≡ true
    → (c : Capability) × (cs : List Capability) × (capabilities_for p ≡ c ∷ cs)
unfolding valid_provider defined_providers capabilities_for
capabilities_of p v =
    let i = (is_one_of_iff defined_providers p).0 v in
    let (c, cs, e) = entry_of_listed definitions p i table_nonempty in
    (c, cs, ap (λ o. Option.get_or o []) e)

-- A valid provider has at least one capability, and an invalid one is an error instead of an empty
-- list.
pub capabilities_for_provider_lem :
    (p : Text)
    → ((valid_provider p ≡ true)
        × ((c : Capability) × (cs : List Capability) × (capabilities_for_provider p ≡ ok (c ∷ cs))))
      ⊎ ((valid_provider p ≡ false) × (capabilities_for_provider p ≡ err unsupported_provider))
unfolding capabilities_for_provider
capabilities_for_provider_lem p = elim (Bool-cases (valid_provider p)) [
  | inl v ↦ let (c, cs, e) = capabilities_of p v in inl (v, (c, cs, ground arith))
  | inr n ↦ inr (n, ground arith)
]
