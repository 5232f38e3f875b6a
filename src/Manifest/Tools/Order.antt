-- ===== src/Manifest/Tools/Order.antt =====
-- manifest/manifest.go: the hash of a manifest whose tools come in another order.
use kei_connector_contracts.Prelude.{
  ℕ, suc, ◌+◌, ◌≤◌, ◌≡◌, refl, sym, ap, subst, ◌∙◌, inl, inr, List, [], ◌∷◌, arith, Text, In,
  IsDistinct, length, map-In, ok,
}
use kei_connector_contracts.Strings.Order.{text_lt_asym, text_lt_cotrans, text_lt_total}
use kei_connector_contracts.Sort.Laws.{IsOrder}
use kei_connector_contracts.Sort.Reorder.{
  Reordered, same, skip, swap, after, IsKeyed, sort-Reordered,
}
use kei_connector_contracts.Manifest.Tools.{
  RawTool, Tool, max_tools, max_manifest_bytes, total_size, canonicalize, name_less, hash,
}
use kei_connector_contracts.Manifest.Tools.Canonical.{
  Canonical, names, IsManifest, canonicalize_iff,
}

length-Reordered : {xs ys : List RawTool} → Reordered xs ys → length xs ≡ length ys
length-Reordered (same xs) = refl
length-Reordered (skip x r) = ap suc (length-Reordered r)
length-Reordered (swap x y xs) = refl
length-Reordered (after r s) = length-Reordered r ∙ length-Reordered s

size-Reordered : {xs ys : List RawTool} → Reordered xs ys → total_size xs ≡ total_size ys
unfolding total_size
size-Reordered (same xs) = refl
size-Reordered (skip x r) = ap (λ (n : ℕ). x.size + n) (size-Reordered r)
size-Reordered (swap x y xs) = omega arith
size-Reordered (after r s) = size-Reordered r ∙ size-Reordered s

-- The canonical tools of reordered tools are reordered alike.
Canonical-Reordered :
    {xs ys : List RawTool}
    → Reordered xs ys
    → (ts : List Tool) → Canonical xs ts
    → (us : List Tool) × Canonical ys us × Reordered ts us
Canonical-Reordered (same xs) ts c = (ts, c, same ts)
Canonical-Reordered (skip x r) [] c = absurd c
Canonical-Reordered (skip x r) (t ∷ ts) (e, c) =
    let (us, d, s) = Canonical-Reordered r ts c in (t ∷ us, (e, d), skip t s)
Canonical-Reordered (swap x y xs) [] c = absurd c
Canonical-Reordered (swap x y xs) (t ∷ []) c = absurd c.1
Canonical-Reordered (swap x y xs) (t ∷ u ∷ ts) (e, (f, c)) = (u ∷ t ∷ ts, (f, (e, c)), swap t u ts)
Canonical-Reordered (after r s) ts c =
    let (us, d, p) = Canonical-Reordered r ts c in
    let (vs, e, q) = Canonical-Reordered s us d in (vs, e, after p q)

names-In : {ts us : List Tool} → Reordered ts us → (n : Text) → In n (names us) → In n (names ts)
names-In (same xs) n i = i
names-In (skip x r) n (inl e) = inl e
names-In (skip x r) n (inr i) = inr (names-In r n i)
names-In (swap x y xs) n (inl e) = inr (inl e)
names-In (swap x y xs) n (inr (inl e)) = inl e
names-In (swap x y xs) n (inr (inr i)) = inr (inr i)
names-In (after r s) n i = names-In r n (names-In s n i)

IsDistinct-Reordered :
    {ts us : List Tool} → Reordered ts us → IsDistinct (names ts) → IsDistinct (names us)
IsDistinct-Reordered (same xs) d = d
IsDistinct-Reordered (skip x r) (n, d) = (λ i. n (names-In r x.name i), IsDistinct-Reordered r d)
IsDistinct-Reordered (swap x y xs) (n, (m, d)) =
    (λ i. elim i [ inl e ↦ n (inl (sym e)) | inr j ↦ m j ], (λ i. n (inr i), d))
IsDistinct-Reordered (after r s) d = IsDistinct-Reordered s (IsDistinct-Reordered r d)

name_order : IsOrder name_less
unfolding name_less
name_order = record {
  asym = λ s t. text_lt_asym s.name t.name;
  cotrans = λ s t u. text_lt_cotrans s.name t.name u.name;
}

name_at : (t : Tool) (ts : List Tool) → In t ts → In t.name (names ts)
name_at t ts i = map-In (λ (t : Tool). t.name) t ts i

-- Tools of different names are told apart by their names.
unique_names :
    (ts : List Tool) (s t : Tool)
    → IsDistinct (names ts)
    → In s ts
    → In t ts
    → s.name ≡ t.name
    → s ≡ t
unique_names [] s t d i j e = absurd i
unique_names (x ∷ ts) s t (n, d) (inl p) (inl q) e = p ∙ sym q
unique_names (x ∷ ts) s t (n, d) (inl p) (inr j) e = absurd (
    n (
      subst (λ (k : Text). In k (names ts)) (sym e ∙ ap (λ (t : Tool). t.name) p) (name_at t ts j)))
unique_names (x ∷ ts) s t (n, d) (inr i) (inl q) e =
    absurd
      (n (subst (λ (k : Text). In k (names ts)) (e ∙ ap (λ (t : Tool). t.name) q) (name_at s ts i)))
unique_names (x ∷ ts) s t (n, d) (inr i) (inr j) e = unique_names ts s t d i j e

names-IsKeyed : (ts : List Tool) → IsDistinct (names ts) → IsKeyed name_less name_order ts
unfolding name_less
names-IsKeyed ts d a b i j p q = unique_names ts a b d i j (text_lt_total a.name b.name p q)

-- The hash of a manifest that `Canonicalize` accepts does not depend on the order in which its
-- tools were received.
pub hash-Reordered :
    (digest : Text → Text) (xs ys : List RawTool) (ts : List Tool)
    → Reordered xs ys
    → canonicalize xs ≡ ok ts
    → hash digest xs ≡ hash digest ys
unfolding hash
hash-Reordered digest xs ys ts r h =
    let m = (canonicalize_iff xs ts).0 h in
    let (us, c, s) = Canonical-Reordered r ts m.tools in
    let m' : IsManifest ys us = record {
      count = subst (λ (n : ℕ). n ≤ max_tools) (length-Reordered r) m.count;
      size = subst (λ (n : ℕ). n ≤ max_manifest_bytes) (size-Reordered r) m.size;
      tools = c;
      distinct = IsDistinct-Reordered s m.distinct;
    } in
    let h' = (canonicalize_iff ys us).1 m' in
    let sorted = sort-Reordered name_less name_order s (names-IsKeyed ts m.distinct) in
    rw (h, h', sorted) refl
