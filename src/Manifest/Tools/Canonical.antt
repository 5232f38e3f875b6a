-- ===== src/Manifest/Tools/Canonical.antt =====
-- manifest/manifest.go: which manifests are canonical.
use kei_connector_contracts.Prelude.{
  ◌≤◌, ◌≡◌, refl, subst, ◌↔◌, ◌⊎◌, inl, inr, false, List, [], ◌∷◌, map, arith, Text, Bool-cases,
  IsDistinct, IsNew, IsNew-cons, IsNew-head, IsNew-add, length, Try, ok, err,
}
use kei_connector_contracts.Contract.Catalog.{is_one_of}
use kei_connector_contracts.Contract.Catalog.Laws.{is_one_of_iff}
use kei_connector_contracts.Manifest.Tools.{
  RawTool, Tool, max_tools, max_manifest_bytes, canonical_tool, total_size, canonicalize_from,
  canonicalize,
}

-- Each received tool has its canonical tool.
abbrev pub Canonical : List RawTool → List Tool → Type 0
Canonical [] [] = Unit {0}
Canonical (raw ∷ raws) (t ∷ ts) = (canonical_tool raw ≡ ok t) × Canonical raws ts
Canonical _ _ = ⊥

abbrev pub names : List Tool → List Text
names ts = map (λ (t : Tool). t.name) ts

try-cases : {E A : Type 0} (t : Try E A) → ((a : A) × (t ≡ ok a)) ⊎ ((e : E) × (t ≡ err e))
try-cases (ok a) = inl (a, refl)
try-cases (err e) = inr (e, refl)

from_sound :
    (seen : List Text) (raws : List RawTool) (ts : List Tool)
    → canonicalize_from seen raws ≡ ok ts
    → Canonical raws ts × IsDistinct (names ts) × IsNew seen (names ts)
unfolding canonicalize_from
from_sound seen [] ts h = let e : ts ≡ [] = cc in rw e (tt, tt, tt)
from_sound seen (raw ∷ raws) ts h = elim (try-cases (canonical_tool raw)) [
  | inr (e, f) ↦ absurd (ground arith)
  | inl (t, f) ↦ elim (try-cases (canonicalize_from (t.name ∷ seen) raws)) [
    | inr (e, g) ↦ absurd (ground arith)
    | inl (us, g) ↦
        let fresh : is_one_of seen t.name ≡ false = ground arith in
        let left : t ∷ us ≡ ts = ground arith in
        let (c, d, n) = from_sound (t.name ∷ seen) raws us g in
        subst
          (λ (x : List Tool).
            Canonical (raw ∷ raws) x × IsDistinct (names x) × IsNew seen (names x))
          left
          (
            (f, c),
            (IsNew-head t.name seen (names us) n, d),
            (
              λ i. let listed = (is_one_of_iff seen t.name).1 i in cc,
              IsNew-cons t.name seen (names us) n,
            ),
          )
  ]
]

from_complete :
    (seen : List Text) (raws : List RawTool) (ts : List Tool)
    → Canonical raws ts
    → IsDistinct (names ts)
    → IsNew seen (names ts)
    → canonicalize_from seen raws ≡ ok ts
unfolding canonicalize_from
from_complete seen [] [] c d n = refl
from_complete seen [] (t ∷ ts) c d n = absurd c
from_complete seen (raw ∷ raws) [] c d n = absurd c
from_complete seen (raw ∷ raws) (t ∷ ts) (f, c) (u, d) (n, ns) =
    let rest = from_complete (t.name ∷ seen) raws ts c d (IsNew-add t.name seen (names ts) u ns) in
    elim (Bool-cases (is_one_of seen t.name)) [
      | inl e ↦ absurd (n ((is_one_of_iff seen t.name).0 e))
      | inr e ↦ rw (f, e, rest)
    ]

-- At most 512 tools and 4 MiB, whose canonical tools have different names.
pub record IsManifest (raws : List RawTool) (ts : List Tool) : Type 0 where
  pub count : length raws ≤ max_tools
  pub size : total_size raws ≤ max_manifest_bytes
  pub tools : Canonical raws ts
  pub distinct : IsDistinct (names ts)

-- `Canonicalize` gives the canonical tools in the received order, exactly for at most 512 tools of
-- together at most 4 MiB that are each well formed and have different names.
pub canonicalize_iff :
    (raws : List RawTool) (ts : List Tool) → (canonicalize raws ≡ ok ts) ↔ IsManifest raws ts
unfolding canonicalize
canonicalize_iff raws ts = (
  λ h.
      let (c, d, n) = from_sound [] raws ts (ground arith) in
      record { count = ground arith; size = ground arith; tools = c; distinct = d },
  λ m.
      let from = from_complete [] raws ts m.tools m.distinct (none_seen (names ts)) in
      let count = m.count in let size = m.size in ground arith,
)
  where
    none_seen : (ns : List Text) → IsNew [] ns
    none_seen [] = tt
    none_seen (n ∷ ns) = (λ i. absurd i, none_seen ns)
