-- ===== src/Bundle/Session.antt =====
-- bundle/session.go and bundle/evaluate_v2.go: session subjects against the identity snapshot.
-- A nil receiver, for which these methods answer as for a stale snapshot, is left out.
pub mod Lookup
pub mod Gate
pub mod Corroborated
use kei_connector_contracts.Prelude.{
  ℕ, ◌+◌, Bool, true, false, not, ◌&&◌, ◌||◌, Option, none, some, List, [], ◌∷◌, ◌++◌, Text, codes,
  ◌==◌, find, ltb, eqb, if◌then◌else◌, length,
}
use kei_connector_contracts.Bundle.Types.{
  Time, Payload, Identity, Decision, ReasonCode, refuse, subject_unlinked, subject_pending,
  subject_revoked, subject_cross_workspace, subject_snapshot_stale, schema_v2, identity_list,
}

pub record SessionSubject : Type 0 where
  pub user_id : Text
  pub email : Text
  pub source : Text
  pub external_id : Text
  pub groups : List Text
  pub status : Text

abbrev pub linked : Text
linked = codes "linked"

-- `MaxIssuedAtClockSkew`: five minutes.
abbrev pub max_issued_at_clock_skew : ℕ
max_issued_at_clock_skew = 300_000_000_000

unfoldable pub is_unexpired : Time → Identity → Bool
is_unexpired now id = eqb id.expire_time 0 || ltb now id.expire_time

unfoldable pub status_reason_code : Text → ReasonCode
status_reason_code status =
    if status == codes "pending"
    then subject_pending
    else if status == codes "revoked"
    then subject_revoked
    else if status == codes "cross_workspace"
    then subject_cross_workspace
    else subject_unlinked

-- The denial, or `none` where the subject passes.
unfoldable pub subject_gate : SessionSubject → Option Decision
subject_gate s =
    if s.status == linked
    then (if not (s.user_id == []) then none else some (refuse subject_unlinked))
    else some (refuse (status_reason_code s.status))

unfoldable pub has_identities : Payload → Bool
has_identities v = elim v.identities [ none ↦ false | some ids ↦ true ]

unfoldable pub subject_snapshot_fresh : Payload → Time → Bool
subject_snapshot_fresh v now =
    if not (v.schema == schema_v2) || not (v.mode == codes "bundle") || not (has_identities v)
    then false
    else not (ltb (now + max_issued_at_clock_skew) v.issued_at)

-- The three conditions of the loop of `LookupLinkedUser`.
unfoldable pub is_linked_user : Text → Time → Identity → Bool
is_linked_user user_id now id = id.user_id == user_id && id.status == linked && is_unexpired now id

unfoldable pub lookup_linked_user : Payload → Text → Time → Option Identity
lookup_linked_user v user_id now =
    if not (v.schema == schema_v2)
      || not (v.mode == codes "bundle")
      || not (subject_snapshot_fresh v now)
      || user_id == []
    then none
    else find (is_linked_user user_id now) (identity_list v)

unfoldable pub has_key : Text → Text → Identity → Bool
has_key source external_id id = id.source == source && id.external_id == external_id

-- The loop of `LookupIdentity`, with the identity found so far.
unfoldable pub unique_identity :
    Text → Text → Time → Option Identity → List Identity → Option Identity
unique_identity source external_id now found [] = found
unique_identity source external_id now none (id ∷ ids) =
    let skip = unique_identity source external_id now none ids in
    let take_it = unique_identity source external_id now (some id) ids in
    if not (has_key source external_id id)
    then skip
    else if not (is_unexpired now id)
    then none
    else take_it
unique_identity source external_id now (some first) (id ∷ ids) =
    let skip = unique_identity source external_id now (some first) ids in
    if not (has_key source external_id id) then skip else none

unfoldable pub lookup_identity : Payload → Text → Text → Time → Option Identity
lookup_identity v source external_id now =
    if not (v.mode == codes "bundle")
      || source == []
      || external_id == []
      || (v.schema == schema_v2 && not (subject_snapshot_fresh v now))
    then none
    else unique_identity source external_id now none (identity_list v)

-- The identity that corroborates the session subject.
unfoldable pub session_identity : Payload → SessionSubject → Time → Option Identity
session_identity v s now =
    if s.source == codes "installation_owner"
    then elim v.subject [
      | none ↦ none
      | some owner ↦
          if owner.user_id == s.user_id
          then some (record {
            source = [];
            external_id = [];
            user_id = s.user_id;
            status = linked;
            groups = [];
            org_roles = [];
            expire_time = 0;
          })
          else none
    ]
    else if s.source == codes "cli" && s.external_id == []
    then lookup_linked_user v s.user_id now
    else lookup_identity v s.source s.external_id now

-- The identity is known, of the same user, and linked.
unfoldable pub identity_denial : SessionSubject → Option Identity → Option Decision
identity_denial s none = some (refuse subject_unlinked)
identity_denial s (some id) =
    if not (id.user_id == s.user_id)
    then some (refuse subject_unlinked)
    else if not (id.status == linked)
    then some (refuse (status_reason_code id.status))
    else none

unfoldable pub v2_subject_denial : Payload → Option SessionSubject → Time → Option Decision
v2_subject_denial v subject now =
    if not (v.schema == schema_v2) || not (subject_snapshot_fresh v now)
    then some (refuse subject_snapshot_stale)
    else elim subject [
      | none ↦ some (refuse subject_unlinked)
      | some s ↦ elim (subject_gate s) [
        | some d ↦ some d
        | none ↦ identity_denial s (session_identity v s now)
      ]
    ]

-- What `Lookup` answers.
pub record Membership : Type 0 where
  pub groups : List Text
  pub roles : List Text
  pub granted : Bool
  pub known : Bool

abbrev pub unknown_member : Membership
unknown_member = record { groups = []; roles = []; granted = false; known = false }

-- The loop of `Lookup` over a v2 bundle. A Go set of names is the list of its insertions.
unfoldable pub aggregate_membership : Text → Time → List Identity → Membership
aggregate_membership user_id now [] = unknown_member
aggregate_membership user_id now (id ∷ ids) =
    let rest = aggregate_membership user_id now ids in
    if not (id.user_id == user_id) || not (is_unexpired now id) then rest else record {
      groups = id.groups ++ rest.groups;
      roles = id.org_roles ++ rest.roles;
      granted = id.status == linked || rest.granted;
      known = true;
    }

-- The loop of `Lookup` over a v1 bundle: the first identity of the user answers.
unfoldable pub first_membership : Text → Time → List Identity → Membership
first_membership user_id now ids = elim (find (λ (id : Identity). id.user_id == user_id) ids) [
  | none ↦ unknown_member
  | some id ↦ if not (is_unexpired now id) then unknown_member else record {
    groups = id.groups;
    roles = id.org_roles;
    granted = id.status == linked;
    known = true;
  }
]

-- `BundleMembershipsAt`, as the lookup that it gives.
unfoldable pub bundle_memberships_at : Payload → Time → Option (Text → Membership)
bundle_memberships_at v now =
    if not (v.mode == codes "bundle")
      || eqb (length (identity_list v)) 0
      || (v.schema == schema_v2 && not (subject_snapshot_fresh v now))
    then none
    else some (λ user_id.
      if v.schema == schema_v2
      then aggregate_membership user_id now (identity_list v)
      else first_membership user_id now (identity_list v))
