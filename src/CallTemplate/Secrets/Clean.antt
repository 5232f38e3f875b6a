-- ===== src/CallTemplate/Secrets/Clean.antt =====
-- calltemplate/calltemplate.go: where no secret is found.
use kei_connector_contracts.Prelude.{
  ◌≡◌, refl, ◌≢◌, ◌↔◌, Bool, true, false, List, [], ◌∷◌, ◌++◌, arith, Text, ==_iff,
}
use kei_connector_contracts.Manifest.Values.{
  Number, Value, null, boolean, number, text, array, object, Items, nil, cons, Fields, end, field,
}
use kei_connector_contracts.CallTemplate.Secrets.{
  is_secret_value, is_secret_key, is_placeholder, literal_under, find_secrets, find_in_items,
  find_in_fields,
}

pub append-eq-nil {ℓ} : {A : Type ℓ} (xs ys : List A) → ((xs ++ ys) ≡ []) ↔ ((xs ≡ []) × (ys ≡ []))
append-eq-nil [] ys = (λ h. (refl, h), λ (p, q). q)
append-eq-nil (x ∷ xs) ys = (λ h. cc, λ (p, q). cc)

-- A key named for a secret holds no text but the empty one and a placeholder.
abbrev pub HoldsNoLiteral : Text → Value → Type 0
HoldsNoLiteral k v =
    (s : Text) → v ≡ text s → is_secret_key k ≡ true → s ≢ [] → is_placeholder s ≡ true

-- No text of the tree looks like a credential, and no key named for a secret holds a literal.
mutual
  pub data IsClean : Value → Type 0 where
    null_clean : IsClean null
    boolean_clean : (b : Bool) → IsClean (boolean b)
    number_clean : (n : Number) → IsClean (number n)
    text_clean : (s : Text) → is_secret_value s ≡ false → IsClean (text s)
    array_clean : (xs : Items) → AreClean xs → IsClean (array xs)
    object_clean : (fs : Fields) → HaveClean fs → IsClean (object fs)

  pub data AreClean : Items → Type 0 where
    nil_clean : AreClean nil
    cons_clean : (x : Value) (xs : Items) → IsClean x → AreClean xs → AreClean (cons x xs)

  pub data HaveClean : Fields → Type 0 where
    end_clean : HaveClean end
    field_clean :
        (k : Text) (v : Value) (fs : Fields)
        → HoldsNoLiteral k v
        → IsClean v
        → HaveClean fs
        → HaveClean (field k v fs)

literal_lem : (k : Text) (v : Value) → literal_under k v ≡ [] → HoldsNoLiteral k v
unfolding literal_under
literal_lem k (text s) h u e key n = let same : s ≡ u = ground arith in ground (arith, ==_iff s [])
literal_lem k v h u e key n = cc

mutual
  unfolding find_secrets

  IsClean-of : (v : Value) → find_secrets v ≡ [] → IsClean v
  IsClean-of null h = null_clean
  IsClean-of (boolean b) h = boolean_clean b
  IsClean-of (number n) h = number_clean n
  IsClean-of (text s) h = text_clean s (ground arith)
  IsClean-of (array xs) h = array_clean xs (clean_items xs h)
  IsClean-of (object fs) h = object_clean fs (clean_fields fs h)

  clean_items : (xs : Items) → find_in_items xs ≡ [] → AreClean xs
  clean_items nil h = nil_clean
  clean_items (cons x xs) h =
      let (p, q) = (append-eq-nil (find_secrets x) (find_in_items xs)).0 h in
      cons_clean x xs (IsClean-of x p) (clean_items xs q)

  clean_fields : (fs : Fields) → find_in_fields fs ≡ [] → HaveClean fs
  clean_fields end h = end_clean
  clean_fields (field k v fs) h =
      let (p, q) = (append-eq-nil (literal_under k v) (find_secrets v ++ find_in_fields fs)).0 h in
      let (r, s) = (append-eq-nil (find_secrets v) (find_in_fields fs)).0 q in
      field_clean k v fs (literal_lem k v p) (IsClean-of v r) (clean_fields fs s)

pub find_secrets-IsClean : (v : Value) → find_secrets v ≡ [] → IsClean v
find_secrets-IsClean v h = IsClean-of v h
