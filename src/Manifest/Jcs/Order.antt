-- ===== src/Manifest/Jcs/Order.antt =====
-- manifest/manifest.go: the serialization of an object whose members come in another order.
use kei_connector_contracts.Prelude.{
  ℕ, ◌≡◌, sym, ap, subst, ◌∙◌, inl, inr, List, [], ◌∷◌, map, Text, In, IsDistinct, Try,
}
use kei_connector_contracts.Strings.Order.{text_lt_asym, text_lt_cotrans, text_lt_total}
use kei_connector_contracts.Sort.Laws.{IsOrder}
use kei_connector_contracts.Sort.Reorder.{
  Reordered, same, skip, swap, after, IsKeyed, sort-Reordered,
}
use kei_connector_contracts.Manifest.Values.{Value, object, Fields, end, field}
use kei_connector_contracts.Manifest.Numbers.{JcsError}
use kei_connector_contracts.Manifest.Text16.{utf16_of, jcs_less}
use kei_connector_contracts.Manifest.Jcs.{
  key_less, member, bracket, join_items, write_members, jcs, jcs_fields,
}

-- The same members in another order.
pub data SameMembers : Fields → Fields → Type 0 where
  same_members : (fs : Fields) → SameMembers fs fs
  skip_member :
      (k : Text) (v : Value) {fs gs : Fields}
      → SameMembers fs gs
      → SameMembers (field k v fs) (field k v gs)
  swap_members :
      (j k : Text) (v w : Value) (fs : Fields)
      → SameMembers (field j v (field k w fs)) (field k w (field j v fs))
  after_members : {fs gs hs : Fields} → SameMembers fs gs → SameMembers gs hs → SameMembers fs hs

-- The keys, in UTF-16.
abbrev pub keys : Fields → List (List ℕ)
keys end = []
keys (field k v fs) = utf16_of k ∷ keys fs

written : {fs gs : Fields} → SameMembers fs gs → Reordered (jcs_fields fs) (jcs_fields gs)
unfolding jcs_fields
written (same_members fs) = same (jcs_fields fs)
written (skip_member k v r) = skip (k, jcs v) (written r)
written (swap_members j k v w fs) = swap (j, jcs v) (k, jcs w) (jcs_fields fs)
written (after_members r s) = after (written r) (written s)

key_order : IsOrder key_less
unfolding key_less jcs_less
key_order = record {
  asym = λ (a, x) (b, y). text_lt_asym (utf16_of a) (utf16_of b);
  cotrans = λ (a, x) (b, y) (c, z). text_lt_cotrans (utf16_of a) (utf16_of b) (utf16_of c);
}

abbrev Member : Type 0
Member = Text × Try JcsError Text

key_at : (fs : Fields) (m : Member) → In m (jcs_fields fs) → In (utf16_of m.0) (keys fs)
unfolding jcs_fields
key_at end m i = absurd i
key_at (field k v fs) m (inl e) = inl (ap (λ (m : Member). utf16_of m.0) e)
key_at (field k v fs) m (inr i) = inr (key_at fs m i)

unique_members :
    (fs : Fields) (a b : Member)
    → IsDistinct (keys fs)
    → In a (jcs_fields fs)
    → In b (jcs_fields fs)
    → utf16_of a.0 ≡ utf16_of b.0
    → a ≡ b
unfolding jcs_fields
unique_members end a b d i j e = absurd i
unique_members (field k v fs) a b (n, d) (inl p) (inl q) e = p ∙ sym q
unique_members (field k v fs) a b (n, d) (inl p) (inr j) e = absurd (
    n (
      subst (λ (u : List ℕ). In u (keys fs)) (sym e ∙ ap (λ (m : Member). utf16_of m.0) p)
        (key_at fs b j)))
unique_members (field k v fs) a b (n, d) (inr i) (inl q) e = absurd (
    n (
      subst (λ (u : List ℕ). In u (keys fs)) (e ∙ ap (λ (m : Member). utf16_of m.0) q)
        (key_at fs a i)))
unique_members (field k v fs) a b (n, d) (inr i) (inr j) e = unique_members fs a b d i j e

keys-IsKeyed : (fs : Fields) → IsDistinct (keys fs) → IsKeyed key_less key_order (jcs_fields fs)
unfolding key_less jcs_less
keys-IsKeyed fs d a b i j p q =
    unique_members fs a b d i j (text_lt_total (utf16_of a.0) (utf16_of b.0) p q)

-- The serialization of an object does not depend on the order of its members, where their keys
-- differ in UTF-16.
pub jcs-SameMembers :
    (fs gs : Fields) → SameMembers fs gs → IsDistinct (keys fs) → jcs (object fs) ≡ jcs (object gs)
unfolding jcs write_members
jcs-SameMembers fs gs r d =
    ap (λ ms. bracket b'{' b'}' (join_items (map member ms)))
      (sort-Reordered key_less key_order (written r) (keys-IsKeyed fs d))
