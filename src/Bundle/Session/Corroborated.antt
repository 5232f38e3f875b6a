-- ===== src/Bundle/Session/Corroborated.antt =====
-- bundle/evaluate_v2.go: what corroborates a session subject in a fresh snapshot.
use kei_connector_contracts.Prelude.{
  ◌≡◌, refl, ◌≢◌, ◌↔◌, ◌⊎◌, inl, inr, true, false, ◌&&◌, Option, none, some, [], arith, Text, codes,
  ==_iff, ◌==◌, find, Bool-cases, Option-cases, In, find_sound, find_complete,
}
use kei_connector_contracts.Bundle.Types.{
  Time, Payload, Identity, InstallationSubject, identity_list,
}
use kei_connector_contracts.Bundle.Session.{
  SessionSubject, linked, is_unexpired, is_linked_user, lookup_linked_user, subject_snapshot_fresh,
  session_identity, v2_subject_denial,
}
use kei_connector_contracts.Bundle.Session.Gate.{
  IsAdmitted, v2_subject_denial-none, denial_of_IsAdmitted, fresh_schema,
}
use kei_connector_contracts.Bundle.Session.Lookup.{IsUnique, lookup_identity_iff}

-- The owner of the installation, whom the payload names.
abbrev pub IsOwner : Payload → SessionSubject → Type 0
IsOwner v s =
    (s.source ≡ codes "installation_owner")
    × ((owner : InstallationSubject) × (v.subject ≡ some owner) × (owner.user_id ≡ s.user_id))

-- A user of the command line, without an external key: a linked identity of the user is listed.
abbrev pub IsListedUser : Payload → SessionSubject → Time → Type 0
IsListedUser v s now =
    (s.source ≡ codes "cli")
    × (s.external_id ≡ [])
    × (v.mode ≡ codes "bundle")
    × ((i : Identity) × In i (identity_list v)
        × (i.user_id ≡ s.user_id)
        × (i.status ≡ linked)
        × (is_unexpired now i ≡ true))

-- Any other subject: the one identity that is listed under its key is linked and of the same user.
abbrev pub IsKeyHolder : Payload → SessionSubject → Time → Type 0
IsKeyHolder v s now =
    (s.source ≢ codes "installation_owner")
    × (v.mode ≡ codes "bundle")
    × (s.source ≢ [])
    × (s.external_id ≢ [])
    × ((i : Identity) × IsUnique s.source s.external_id now (identity_list v) i
        × (i.user_id ≡ s.user_id)
        × (i.status ≡ linked))

pub record IsCorroborated (v : Payload) (s : SessionSubject) (now : Time) : Type 0 where
  pub current : subject_snapshot_fresh v now ≡ true
  pub status : s.status ≡ linked
  pub named : s.user_id ≢ []
  pub identity : IsOwner v s ⊎ IsListedUser v s now ⊎ IsKeyHolder v s now

-- The identity that the code compares with the subject.
abbrev IsAnswer : Payload → SessionSubject → Time → Type 0
IsAnswer v s now =
    (i : Identity) × (session_identity v s now ≡ some i)
    × (i.user_id ≡ s.user_id)
    × (i.status ≡ linked)

listed_user :
    (v : Payload) (u : Text) (now : Time) (i : Identity)
    → lookup_linked_user v u now ≡ some i
    → (v.mode ≡ codes "bundle") × In i (identity_list v) × (is_unexpired now i ≡ true)
unfolding lookup_linked_user is_linked_user
listed_user v u now i h =
    let (m, t) = find_sound (is_linked_user u now) (identity_list v) i (ground arith) in
    ((==_iff v.mode (codes "bundle")).0 (ground arith), m, ground arith)

linked_user :
    (v : Payload) (u : Text) (now : Time) (i : Identity)
    → subject_snapshot_fresh v now ≡ true
    → u ≢ []
    → v.mode ≡ codes "bundle"
    → In i (identity_list v)
    → i.user_id ≡ u
    → i.status ≡ linked
    → is_unexpired now i ≡ true
    → (j : Identity) × (lookup_linked_user v u now ≡ some j) × (j.user_id ≡ u) × (j.status ≡ linked)
unfolding lookup_linked_user is_linked_user
linked_user v u now i f n b m e l x =
    let schema = fresh_schema v now f in
    let mode = (==_iff v.mode (codes "bundle")).1 b in
    let same = (==_iff i.user_id u).1 e in
    let is = (==_iff i.status linked).1 l in
    elim (Option-cases (find (is_linked_user u now) (identity_list v))) [
      | inl g ↦
          let t = find_complete (is_linked_user u now) (identity_list v) g i m in
          absurd (ground arith)
      | inr (j, g) ↦
          let (k, t) = find_sound (is_linked_user u now) (identity_list v) j g in
          (
            j,
            ground (arith, ==_iff u []),
            (==_iff j.user_id u).0 (ground arith),
            (==_iff j.status linked).0 (ground arith),
          )
    ]

identity_of :
    (v : Payload) (s : SessionSubject) (now : Time)
    → IsAnswer v s now
    → IsOwner v s ⊎ IsListedUser v s now ⊎ IsKeyHolder v s now
unfolding session_identity
identity_of v s now (i, known, same, is) =
    let owner = ==_iff s.source (codes "installation_owner") in
    let cli = ==_iff s.source (codes "cli") in
    let keyless = ==_iff s.external_id [] in
    elim (Bool-cases (s.source == codes "installation_owner")) [
      | inl e ↦ elim (Option-cases v.subject) [
        | inl f ↦ absurd (ground arith)
        | inr (o, f) ↦ inl (owner.0 e, (o, f, (==_iff o.user_id s.user_id).0 (ground arith)))
      ]
      | inr e ↦ elim (Bool-cases (s.source == codes "cli" && s.external_id == [])) [
        | inl f ↦
            let (mode, m, x) = listed_user v s.user_id now i (ground arith) in
            inr (inl (cli.0 (ground arith), keyless.0 (ground arith), mode, (i, m, same, is, x)))
        | inr f ↦
            let (mode, a, b, fresh, unique) =
              (lookup_identity_iff v s.source s.external_id now i).0 (ground arith) in
            inr (inr (λ o. let o' = owner.1 o in cc, mode, a, b, (i, unique, same, is)))
      ]
    ]

cli_not_owner : (codes "cli" == codes "installation_owner") ≡ false
unfolding ◌==◌
cli_not_owner = refl

IsAnswer-of :
    (v : Payload) (s : SessionSubject) (now : Time)
    → subject_snapshot_fresh v now ≡ true
    → s.user_id ≢ []
    → IsOwner v s ⊎ IsListedUser v s now ⊎ IsKeyHolder v s now
    → IsAnswer v s now
unfolding session_identity
IsAnswer-of v s now fresh named (inl (e, (o, f, same))) =
    let owner = (==_iff s.source (codes "installation_owner")).1 e in
    let same' = (==_iff o.user_id s.user_id).1 same in
    (
      record {
        source = [];
        external_id = [];
        user_id = s.user_id;
        status = linked;
        groups = [];
        org_roles = [];
        expire_time = 0;
      },
      ground arith,
      refl,
      refl,
    )
IsAnswer-of v s now fresh named (inr (inl (c, k, mode, (i, m, same, is, x)))) =
    let (j, found, same', is') = linked_user v s.user_id now i fresh named mode m same is x in
    let cli = (==_iff s.source (codes "cli")).1 c in
    let keyless = (==_iff s.external_id []).1 k in
    let other : (s.source == codes "installation_owner") ≡ false = rw c cli_not_owner in
    (j, ground arith, same', is')
IsAnswer-of v s now fresh named (inr (inr (o, mode, a, b, (i, unique, same, is)))) =
    let found =
      (lookup_identity_iff v s.source s.external_id now i).1 (mode, a, b, λ e. fresh, unique) in
    let other : (s.source == codes "installation_owner") ≡ false =
      ground (arith, ==_iff s.source (codes "installation_owner")) in
    let keyed : (s.external_id == []) ≡ false = ground (arith, ==_iff s.external_id []) in
    (i, ground arith, same, is)

IsCorroborated-of :
    (v : Payload) (s : SessionSubject) (now : Time) → IsAdmitted v s now → IsCorroborated v s now
IsCorroborated-of v s now a = record {
  current = a.current;
  status = a.status;
  named = a.named;
  identity = identity_of v s now (a.identity, a.known, a.same_user, a.is_linked);
}

IsAdmitted-of :
    (v : Payload) (s : SessionSubject) (now : Time) → IsCorroborated v s now → IsAdmitted v s now
IsAdmitted-of v s now c =
    let (i, known, same, is) = IsAnswer-of v s now c.current c.named c.identity in
    record {
      current = c.current;
      status = c.status;
      named = c.named;
      identity = i;
      known = known;
      same_user = same;
      is_linked = is;
    }

-- The gate of the v2 decisions lets a subject through exactly if it is present, linked and named, the
-- subject snapshot is fresh, and the bundle knows the subject: as the owner of the installation,
-- whom the payload names; as a user of the command line without a key, of whom an unexpired linked
-- identity is listed; or else by its key, which one identity alone has, unexpired, linked and of the
-- same user.
pub v2_subject_denial_iff :
    (v : Payload) (subject : Option SessionSubject) (now : Time)
    → (v2_subject_denial v subject now ≡ none)
      ↔ ((s : SessionSubject) × (subject ≡ some s) × IsCorroborated v s now)
v2_subject_denial_iff v subject now = (
  λ h.
      let (s, e, a) = v2_subject_denial-none v subject now h in (s, e, IsCorroborated-of v s now a),
  λ (s, e, c). rw e (denial_of_IsAdmitted v s now (IsAdmitted-of v s now c)),
)
