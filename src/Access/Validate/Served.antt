-- ===== src/Access/Validate/Served.antt =====
-- access/access.go: which capabilities an accepted document serves.
use kei_connector_contracts.Prelude.{
  ◌≡◌, ap, ap₂, inl, inr, Bool, true, false, Option, none, List, [], ◌∷◌, map, arith, Text, ==_iff,
  ◌==◌, find, Option-cases, All, In, IsDistinct, IsNew, IsNew-cons, IsNew-head, find_sound,
}
use kei_connector_contracts.Contract.Types.{Capability}
use kei_connector_contracts.Contract.Catalog.{is_one_of, capabilities_for}
use kei_connector_contracts.Contract.Catalog.Laws.{is_one_of_iff}
use kei_connector_contracts.Access.Types.{AccessMode, ProviderAccess, AccessError}
use kei_connector_contracts.Access.Tables.{is_read}
use kei_connector_contracts.Access.Validate.{
  lookup_capability, check_listed, validate_capabilities, check_kind, check_rest, validate_mode,
  validate_modes, validate,
}
use kei_connector_contracts.Access.Validate.Stable.{validate-stable}

-- A capability of the provider, which is a read or is none, as asked.
abbrev pub IsServed : Text → Bool → Text → Type 0
IsServed provider read name =
    (c : Capability) × In c (capabilities_for provider) × (c.name ≡ name) × (is_read c ≡ read)

listed_sound :
    (provider : Text) (read : Bool) (name : Text)
    → check_listed provider read name ≡ none
    → IsServed provider read name
unfolding check_listed lookup_capability
listed_sound provider read name h =
    elim (Option-cases (find (λ c. c.name == name) (capabilities_for provider))) [
      | inl e ↦ absurd (ground arith)
      | inr (c, e) ↦
          let (i, n) = find_sound (λ c. c.name == name) (capabilities_for provider) c e in
          (c, i, (==_iff c.name name).0 n, ground arith)
    ]

capabilities_sound :
    (provider : Text) (read : Bool) (seen names : List Text)
    → validate_capabilities provider read seen names ≡ none
    → All (IsServed provider read) names × IsDistinct names × IsNew seen names
unfolding validate_capabilities
capabilities_sound provider read seen [] h = (tt, tt, tt)
capabilities_sound provider read seen (n ∷ names) h =
    let (served, distinct, new) =
      capabilities_sound provider read (n ∷ seen) names (ground arith) in
    let fresh : is_one_of seen n ≡ false = ground arith in
    (
      (listed_sound provider read n (ground arith), served),
      (IsNew-head n seen names new, distinct),
      (λ i. let listed = (is_one_of_iff seen n).1 i in cc, IsNew-cons n seen names new),
    )

-- What an accepted mode serves.
pub record Serves (provider : Text) (m : AccessMode) : Type 0 where
  pub reads : All (IsServed provider true) m.reads
  pub writes : All (IsServed provider false) m.writes
  pub distinct_reads : IsDistinct m.reads
  pub distinct_writes : IsDistinct m.writes

rest_sound : (provider : Text) (m : AccessMode) → check_rest provider m ≡ none → Serves provider m
unfolding check_rest
rest_sound provider m h =
    let (r, dr, nr) = capabilities_sound provider true [] m.reads (ground arith) in
    let (w, dw, nw) = capabilities_sound provider false [] m.writes (ground arith) in
    record { reads = r; writes = w; distinct_reads = dr; distinct_writes = dw }

mode_sound :
    (provider : Text) (m : AccessMode) → (validate_mode provider m) ≡ (m, none) → Serves provider m
unfolding validate_mode
mode_sound provider m h =
    let left : (check_kind provider m).0 ≡ m = ground arith in rest_sound provider m (ground arith)

abbrev kinds : List AccessMode → List Text
kinds ms = map (λ (m : AccessMode). m.kind) ms

-- The kinds of the modes differ, and each mode serves reads and writes of the provider.
modes_sound :
    (provider : Text) (seen : List Text) (ms : List AccessMode)
    → validate_modes provider seen ms ≡ (ms, none)
    → All (Serves provider) ms × IsDistinct (kinds ms) × IsNew seen (kinds ms)
unfolding validate_modes
modes_sound provider seen [] h = (tt, tt, tt)
modes_sound provider seen (m ∷ ms) h =
    let fresh : is_one_of seen m.kind ≡ false = ground arith in
    let one : (validate_mode provider m).1 ≡ none = ground arith in
    let same : (validate_mode provider m).0 ≡ m = ground arith in
    let more : (validate_modes provider (m.kind ∷ seen) ms).1 ≡ none = ground arith in
    let same' : (validate_modes provider (m.kind ∷ seen) ms).0 ≡ ms = ground arith in
    let (serves, distinct, new) =
      modes_sound provider (m.kind ∷ seen) ms
        (ap₂ (λ (a : List AccessMode) (b : Option AccessError). (a, b)) same' more) in
    (
      (
        mode_sound provider m (ap₂ (λ (a : AccessMode) (b : Option AccessError). (a, b)) same one),
        serves,
      ),
      (IsNew-head m.kind seen (kinds ms) new, distinct),
      (
        λ i. let listed = (is_one_of_iff seen m.kind).1 i in cc,
        IsNew-cons m.kind seen (kinds ms) new,
      ),
    )

-- An accepted document has at most one mode of each kind, and each mode, as validation leaves it,
-- lists reads and writes of the provider: no read is a write, no write is a read, and none is
-- listed twice.
pub validate-Serves :
    (a b : ProviderAccess)
    → validate a ≡ (b, none)
    → All (Serves b.provider) b.access × IsDistinct (map (λ (m : AccessMode). m.kind) b.access)
unfolding validate
validate-Serves a b h =
    let again = validate-stable a b h in
    let fine : (validate_modes b.provider [] b.access).1 ≡ none = ground arith in
    let left : record b { access = (validate_modes b.provider [] b.access).0 } ≡ b = ground arith in
    let same = ap (λ (x : ProviderAccess). x.access) left in
    let (serves, distinct, new) =
      modes_sound b.provider [] b.access
        (ap₂ (λ (a : List AccessMode) (b : Option AccessError). (a, b)) same fine) in
    (serves, distinct)
