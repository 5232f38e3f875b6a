-- ===== src/Bundle/Session/Lookup.antt =====
-- bundle/session.go: which identity answers for an external key.
use kei_connector_contracts.Prelude.{
  ◌≡◌, refl, ap, ◌≢◌, ◌↔◌, ◌⊎◌, inl, inr, Bool, true, false, not, ◌&&◌, ◌||◌, Option, none, some,
  List, [], ◌∷◌, ◌++◌, arith, Text, codes, ==_iff, ◌==◌, if◌then◌else◌, Bool-cases, In,
}
use kei_connector_contracts.Bundle.Types.{Time, Payload, Identity, schema_v2, identity_list}
use kei_connector_contracts.Bundle.Session.{
  is_unexpired, subject_snapshot_fresh, has_key, unique_identity, lookup_identity,
}

module _ (source external_id : Text) (now : Time) where
  unique_some :
      (first id : Identity) (ids : List Identity)
      → unique_identity source external_id now (some first) ids ≡ some id
      → (id ≡ first) × ((j : Identity) → In j ids → has_key source external_id j ≡ false)
  unfolding unique_identity
  unique_some first id [] h = (ground arith, λ j m. absurd m)
  unique_some first id (x ∷ xs) h = elim (Bool-cases (has_key source external_id x)) [
    | inl e ↦ ground arith
    | inr n ↦
        let (same, none_later) = unique_some first id xs (ground arith) in
        (same, λ j m. split j m n none_later)
  ]
    where
      split :
          (j : Identity)
          → In j (x ∷ xs)
          → has_key source external_id x ≡ false
          → ((k : Identity) → In k xs → has_key source external_id k ≡ false)
          → has_key source external_id j ≡ false
      split j (inl e) n later = rw e n
      split j (inr m) n later = later j m

  -- The identity found is listed, has the key, is unexpired, and its key stands nowhere else.
  abbrev pub IsUnique : List Identity → Identity → Type 0
  IsUnique ids id =
      (before : List Identity) × ((after : List Identity) × (ids ≡ before ++ id ∷ after)
        × (has_key source external_id id ≡ true)
        × (is_unexpired now id ≡ true)
        × ((j : Identity) → In j before ⊎ In j after → has_key source external_id j ≡ false))

  IsUnique-none :
      (id : Identity) (ids : List Identity)
      → unique_identity source external_id now none ids ≡ some id
      → IsUnique ids id
  unfolding unique_identity
  IsUnique-none id [] h = absurd (cc)
  IsUnique-none id (x ∷ xs) h = elim (Bool-cases (has_key source external_id x)) [
    | inr n ↦ skip n (IsUnique-none id xs (ground arith))
    | inl k ↦ elim (Bool-cases (is_unexpired now x)) [
      | inr e ↦ ground arith
      | inl e ↦ found k e (unique_some x id xs (ground arith))
    ]
  ]
    where
      skip : has_key source external_id x ≡ false → IsUnique xs id → IsUnique (x ∷ xs) id
      skip n (before, (after, e, k, u, others)) =
          (x ∷ before, (after, ap (λ t. x ∷ t) e, k, u, λ j m. go j m))
        where
          go :
              (j : Identity) → In j (x ∷ before) ⊎ In j after → has_key source external_id j ≡ false
          go j (inl (inl s)) = rw s n
          go j (inl (inr m)) = others j (inl m)
          go j (inr m) = others j (inr m)

      found :
          has_key source external_id x ≡ true
          → is_unexpired now x ≡ true
          → (id ≡ x) × ((j : Identity) → In j xs → has_key source external_id j ≡ false)
          → IsUnique (x ∷ xs) id
      found k e (same, later) = ([], (xs, rw same refl, rw same k, rw same e, λ j m. go j m))
        where
          go : (j : Identity) → In j [] ⊎ In j xs → has_key source external_id j ≡ false
          go j (inl m) = absurd m
          go j (inr m) = later j m

  skip_all :
      (found : Option Identity) (ids : List Identity)
      → ((j : Identity) → In j ids → has_key source external_id j ≡ false)
      → unique_identity source external_id now found ids ≡ found
  unfolding unique_identity
  skip_all found [] h = refl
  skip_all none (x ∷ xs) h = rw (h x (inl refl)) (skip_all none xs (λ j m. h j (inr m)))
  skip_all (some f) (x ∷ xs) h = rw (h x (inl refl)) (skip_all (some f) xs (λ j m. h j (inr m)))

  unique_complete :
      (before after : List Identity) (id : Identity)
      → has_key source external_id id ≡ true
      → is_unexpired now id ≡ true
      → ((j : Identity) → In j before ⊎ In j after → has_key source external_id j ≡ false)
      → unique_identity source external_id now none (before ++ id ∷ after) ≡ some id
  unfolding unique_identity
  unique_complete [] after id k u others =
      rw (k, u) (skip_all (some id) after (λ j m. others j (inr m)))
  unique_complete (x ∷ before) after id k u others =
      rw (others x (inl (inl refl)))
        (unique_complete before after id k u (λ j m. others j (widen j m)))
    where
      widen : (j : Identity) → In j before ⊎ In j after → In j (x ∷ before) ⊎ In j after
      widen j (inl m) = inl (inr m)
      widen j (inr m) = inr m

  IsUnique-iff :
      (ids : List Identity) (id : Identity)
      → (unique_identity source external_id now none ids ≡ some id) ↔ IsUnique ids id
  IsUnique-iff ids id = (
    IsUnique-none id ids,
    λ (before, (after, e, k, u, others)). rw e (unique_complete before after id k u others),
  )

if_none :
    (g : Bool) (r : Option Identity) (id : Identity)
    → (if g then none else r) ≡ some id
    → (g ≡ false) × (r ≡ some id)
if_none g r id h = ground arith

guard_iff :
    (v : Payload) (source external_id : Text) (fresh : Bool)
    → (not (v.mode == codes "bundle")
        || source == []
        || external_id == []
        || (v.schema == schema_v2 && not fresh))
      ≡ false
    → (v.mode ≡ codes "bundle")
      × (source ≢ [])
      × (external_id ≢ [])
      × (v.schema ≡ schema_v2 → fresh ≡ true)
guard_iff v source external_id fresh g = (
  ground (arith, ==_iff v.mode (codes "bundle")),
  λ e. ground (arith, (==_iff source []).1 e),
  λ e. ground (arith, (==_iff external_id []).1 e),
  λ e. ground (arith, (==_iff v.schema schema_v2).1 e),
)

guard_of :
    (v : Payload) (source external_id : Text) (fresh : Bool)
    → v.mode ≡ codes "bundle"
    → source ≢ []
    → external_id ≢ []
    → (v.schema ≡ schema_v2 → fresh ≡ true)
    → (not (v.mode == codes "bundle")
        || source == []
        || external_id == []
        || (v.schema == schema_v2 && not fresh))
      ≡ false
guard_of v source external_id fresh m s e f = ground (
  arith,
  (==_iff v.mode (codes "bundle")).1 m,
  ==_iff source [],
  ==_iff external_id [],
  ==_iff v.schema schema_v2,
)

-- An external key resolves to an identity exactly if the snapshot is usable, the key is complete,
-- and one entry alone has it, which has not expired: a duplicate is refused, not picked by order.
pub lookup_identity_iff :
    (v : Payload) (source external_id : Text) (now : Time) (id : Identity)
    → (lookup_identity v source external_id now ≡ some id) ↔ (
        (v.mode ≡ codes "bundle")
        × (source ≢ [])
        × (external_id ≢ [])
        × (v.schema ≡ schema_v2 → subject_snapshot_fresh v now ≡ true)
        × IsUnique source external_id now (identity_list v) id)
unfolding lookup_identity
lookup_identity_iff v source external_id now id =
    let guard =
      not (v.mode == codes "bundle")
      || source == []
      || external_id == []
      || (v.schema == schema_v2 && not (subject_snapshot_fresh v now)) in
    let found = unique_identity source external_id now none (identity_list v) in
    (
      λ h.
          let (g, f) = if_none guard found id h in
          let (m, s, e, fresh) = guard_iff v source external_id (subject_snapshot_fresh v now) g in
          (m, s, e, fresh, (IsUnique-iff source external_id now (identity_list v) id).0 f),
      λ (m, s, e, fresh, u).
          rw (guard_of v source external_id (subject_snapshot_fresh v now) m s e fresh)
            ((IsUnique-iff source external_id now (identity_list v) id).1 u),
    )
