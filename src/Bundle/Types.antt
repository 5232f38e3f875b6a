-- ===== src/Bundle/Types.antt =====
-- bundle/bundle.go, bundle/evaluate.go, bundle/evaluate_v2.go, bundle/session.go: the data.
-- Raw JSON stands as what its decoding gives, `none` where it is refused.
use kei_connector_contracts.Prelude.{
  ℕ, Bool, true, Option, none, some, List, [], Text, codes, ◌==◌, any, if◌then◌else◌, ℤ,
}

-- Nanoseconds since the zero time; `IsZero` is `eqb t 0` and `Before` is `ltb`.
abbrev pub Time : Type 0
Time = ℕ

pub data Outcome : Type 0 where
  allow deny : Outcome

-- The reason codes; `no_code` is the empty one.
pub data ReasonCode : Type 0 where
  no_code policy_bundle_invalid tool_not_registered tool_action_mismatch : ReasonCode
  agent_not_assigned agent_not_bound_to_connector : ReasonCode
  subject_resolution_unavailable identity_access_denied enrollment_required : ReasonCode
  identity_unassigned identity_access_pending : ReasonCode
  policy_deny policy_permit no_matching_policy : ReasonCode
  subject_snapshot_stale subject_unlinked subject_pending subject_revoked : ReasonCode
  subject_cross_workspace preflight_required operation_plan_invalid : ReasonCode
  model_assigned model_not_assigned model_profile_inactive : ReasonCode

-- The text of `Reason`, which no code reads, is left out.
pub record Decision : Type 0 where
  pub outcome : Outcome
  pub policy_id : Text
  pub reason_code : ReasonCode

abbrev pub refuse : ReasonCode → Decision
refuse code = record { outcome = deny; policy_id = []; reason_code = code }

abbrev pub allow_by : Text → ReasonCode → Decision
allow_by id code = record { outcome = allow; policy_id = id; reason_code = code }

abbrev pub deny_by : Text → Decision
deny_by id = record { outcome = deny; policy_id = id; reason_code = policy_deny }

pub record Call : Type 0 where
  pub tool : Text
  pub action : Text
  pub resource : Text
  pub agent_id : Text
  pub connector_id : Text
  pub capability : Text
  pub user_id : Text
  pub email : Text
  pub connector_invocation : Bool

pub record Subject : Type 0 where
  pub user_id : Text
  pub status : Text
  pub effective_groups : List Text
  pub org_roles : List Text

pub record Tool : Type 0 where
  pub name : Text
  pub service : Text
  pub action : Text
  pub connector_id : Text
  pub capability : Text

pub record Agent : Type 0 where
  pub id : Text
  pub is_default : Bool

pub record Scope : Type 0 where
  pub org_id : Option Text
  pub workspace_id : Option Text
  pub agent_id : Option Text

pub record Policy : Type 0 where
  pub id : Text
  pub src : Text
  pub dst : Text
  pub action : Text
  pub scope : Scope

-- The fields that the lookups of a connector read; `mcp` is the URL of its block, if it has one.
pub record Connector : Type 0 where
  pub id : Text
  pub kind : Text
  pub slug : Text
  pub mcp : Option Text

pub record PolicySet : Type 0 where
  pub tools : List Tool
  pub agents : List Agent
  pub policies : List Policy
  pub order : Text
  pub connectors : List Connector

pub record ResourceType : Type 0 where
  pub type_name : Text
  pub parent_type : Text

-- `connector_binding` holds the connector id, and `plan_length` is `len(Plan)`.
pub record V2Tool : Type 0 where
  pub name : Text
  pub source : Text
  pub connector_binding : Option Text
  pub has_harness_executor : Bool
  pub required_capabilities : List Text
  pub resource_types : List ResourceType
  pub plan_length : ℕ

-- The selector is a map, as a list of its dimensions and expected values.
pub record V2Check : Type 0 where
  pub policy_id : Text
  pub effect : Text
  pub priority : ℤ
  pub scope : Scope
  pub selector : List (Text × Text)

-- `condition` is the harness of `When`.
pub record V2HarnessPolicy : Type 0 where
  pub policy_id : Text
  pub src : Text
  pub dst : Text
  pub action : Text
  pub priority : ℤ
  pub scope : Scope
  pub condition : Option Text

pub record V2PolicySet : Type 0 where
  pub precedence : List Text
  pub tools : List V2Tool
  pub checks : List V2Check
  pub tool_policies : List V2Check
  pub harness_match_semantics : Text
  pub harness_policies : List V2HarnessPolicy

pub record Binding : Type 0 where
  pub agent_id : Text
  pub connector_id : Text
  pub capabilities : List Text

pub record Identity : Type 0 where
  pub source : Text
  pub external_id : Text
  pub user_id : Text
  pub status : Text
  pub groups : List Text
  pub org_roles : List Text
  pub expire_time : Time

pub record HarnessKind : Type 0 where
  pub kind : Text
  pub short_name : Text
  pub tool_prefix : Text
  pub shell_tool : Text
  pub gateable : Bool
  pub decides_via : Text
  pub native_tools : List (Text × Text)

pub record Harness : Type 0 where
  pub agent_id : Text
  pub kind : Text

pub record InstallationSubject : Type 0 where
  pub user_id : Text
  pub email : Text
  pub groups : List Text

pub record AgentModelProfile : Type 0 where
  pub agent_id : Text
  pub profile_id : Text
  pub status : Text

-- `identities` is `none` where the slice is nil. `policy_set` and `policy_set_v2` are what
-- `json.Unmarshal` makes of the raw policy set, and `strict` says whether `strictJSON` accepts it.
pub record Payload : Type 0 where
  pub schema : Text
  pub org_id : Text
  pub workspace_id : Text
  pub issued_at : Time
  pub mode : Text
  pub policy_set : Option PolicySet
  pub policy_set_v2 : Option V2PolicySet
  pub strict : Bool
  pub bindings : Option (List Binding)
  pub identities : Option (List Identity)
  pub harnesses : List Harness
  pub harness_kinds : List HarnessKind
  pub harness_match_semantics : Text
  pub subject : Option InstallationSubject
  pub agent_model_profiles : List AgentModelProfile

abbrev pub schema_v2 : Text
schema_v2 = codes "kei.policy-bundle/v2"

abbrev pub eval_deny_overrides : Text
eval_deny_overrides = codes "deny_overrides"

abbrev pub permit_action : Text
permit_action = codes "permit"

-- The policy set as `strictJSON` decodes it.
unfoldable pub strict_policy_set : Payload → Option V2PolicySet
strict_policy_set v = if v.strict then v.policy_set_v2 else none

unfoldable pub identity_list : Payload → List Identity
identity_list v = elim v.identities [ none ↦ [] | some ids ↦ ids ]

-- A pointer that is nil or holds the given text.
unfoldable pub nil_or : Option Text → Text → Bool
nil_or none t = true
nil_or (some s) t = s == t

unfoldable pub contains_exact : List Text → Text → Bool
contains_exact values want = any (λ value. value == want) values
