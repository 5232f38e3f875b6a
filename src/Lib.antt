-- ===== src/Lib.antt =====
-- The connector contracts of Kei: policies, the policy bundle, and who may do what under it.
--
-- A connector is an account of a provider that agents use under control. Its contract (contract/)
-- says which metadata and which calls are valid: the control plane authorizes a call, and decides
-- (governance/) on the envelope that carries it (envelope/) and records the decision (audit/); the
-- runtime validates the call once more before it executes it. Beside the contract stand how a
-- provider is reached (access/), the canonical form of the tools of an MCP server (manifest/,
-- canonical/) and the templates of calls (calltemplate/).
--
-- The program also decides, inside a runtime, whether an agent's call is allowed. A bundle from
-- the catalog is accepted (bundle/bundle.go), and then one of its evaluators decides each call:
-- for the tools and connectors of a v1 bundle (bundle/evaluate.go), for a v1 bundle and the
-- subject of a session (bundle/session.go), for the tools, operation plans and models of a v2
-- bundle (bundle/evaluate_v2.go, bundle/model_v2.go), and for the shell, server and file calls of
-- a coding harness (bundle/harness_match.go). They share the patterns of principals and targets
-- and the decision over plain rules (policy/), and the matching of harness calls (harnessmatch/).
--
-- Files and sources:
--   Policy/Parse, Principals       policy/policy.go: ParsePrincipal, ParseTarget, MatchPrincipal
--   Policy/Targets, Decide, Grants policy/decide.go: MatchTarget, Precedence, Decide, DecideAt
--   Policy/Typed                   policy/typed.go: TypedTarget, TypedPrincipal
--   Policy/Render, Render/Overlap  policy/render.go: Render, targetsOverlap
--   HarnessMatch/Kinds, Glob, Match, Evaluate  harnessmatch/harnessmatch.go
--   Bundle/Types, Sources          the decoded payload; srcMatch, dstMatch
--   Bundle/Kinds                   bundle/bundle.go: the harness kind registry
--   Bundle/Validate                bundle/bundle.go: Validate, ValidateV2
--   Bundle/Session                 bundle/session.go: gate, lookups, memberships; v2SubjectDenial
--   Bundle/Evaluate                bundle/evaluate.go: Evaluate, EvaluateConnector, EvaluateAction
--   Bundle/SessionWalk             bundle/session.go: EvaluateSessionAt
--   Bundle/Checks, Plan            bundle/evaluate_v2.go, bundle/model_v2.go: evaluateV2Check,
--                                  EvaluateV2HarnessTool, EvaluateV2Plan, EvaluateV2Model
--   Bundle/Connectors              bundle/connector.go: the lookups of connectors and bindings
--   Bundle/Harness                 bundle/harness_match.go, bundle/deny_overrides.go
--   Health                         policybundlehealth/health.go: Health.Validate
--   AuthorizeRequest               authorizerequest/request.go: Request.Validate, Caller.Validate
--   Contract/Types, Names, Catalog contract/contract.go, contract/accountmodel.go: the types, the
--                                  closed sets of names, the tables
--   Contract/Account, References   the credential binding, CredentialSubject, ValidateCredentialRef
--   Contract/Targets, HttpApi      contract/http_api.go: HTTPAPI.Validate, ValidateInvocation
--   Contract/Grafana               contract/grafana.go: GrafanaConfig.Validate
--   Contract/Calls                 contract/contract.go: Metadata.Validate, ValidateCall,
--                                  AuthorizeCall, ValidateInvocation
--   Contract/Hosts                 proofs on the hosts of Contract/HttpApi and Contract/Grafana
--   Capabilities, Envelope         capability/capability.go, envelope/envelope.go
--   Governance, Audit              governance/decision.go, audit/audit.go
--   Canonical                      canonical/resource.go: Resource
--   Access/Types, Tables, Checks, Validate  access/access.go; Access/Provided is about its table
--   Manifest/Values, Numbers, Text16, Jcs   manifest/manifest.go: RFC 8785 serialization
--   Manifest/Tools                 manifest/manifest.go: Canonicalize, ToolHash, Hash
--   CallTemplate/Types, Secrets, Validate   calltemplate/calltemplate.go: Parse, findSecrets
-- Net, Json and Regex model what the code calls of net/url, net, encoding/json and regexp; they
-- stand for the standard library and not for a part of this program.
-- A function keeps its Go name in snake case; a helper that the Go code writes in place says which
-- part it is. A component's proofs are in its child modules, named for what they prove, and the
-- witnesses in those named Tests. Prelude, Strings and Sort hold what is shared.
--
-- Conventions. A Go string is a list of bytes, and the functions of the strings package that the
-- code calls are in Strings; EqualFold, ToLower, Fields and the regular expressions that ignore
-- case know ASCII only. A Go map is a list of entries whose keys differ; where the code loops
-- over a map, the order decides at most which of several errors is returned, or the order of a
-- list of errors. A nil slice is the empty list. A validation that writes to what it was given
-- returns what it leaves. A time is the nanoseconds since the zero time. A pair of a value and an
-- error is a Try, an error alone an Option. Raw JSON stands as what its decoding gives, with none
-- where the decoder refuses; the regular expressions are tests on bytes. The set that the code
-- builds from group names is the list of the insertions. sort.Slice, which is not stable, and
-- sort.SliceStable are an insertion sort. Loops are structural recursion on their list, so that
-- no fuel is needed; the loops of the glob search recurse on the pattern. Two helpers count down:
-- the groups of an IPv6 address, from the eight that it may have, and the decimal digits of a
-- number n, from n + 1, which is enough since each division by ten makes a positive number
-- smaller. Regular expressions are matched by derivatives, which recurse on the text.
--
-- Not modelled: the text of Decision.Reason and of errors, a nil *Verified receiver, the JSON
-- decoders, and the clock, which is an argument as the SHA-256 digest of a manifest is. The
-- schema validators and the plan validator, which a caller installs, are arguments too. The setup
-- schemas (setup/), whose configurations hold mail addresses, the providers (providers/), which
-- build and send HTTP requests, the invocation client (invoke/), the embedded schemas and the
-- generators are left out, and so are the copies that access/access.go makes of its table.
pub mod Prelude
pub mod Strings
pub mod Sort
pub mod Net
pub mod Json
pub mod Regex
pub mod Contract
pub mod Capabilities
pub mod Envelope
pub mod Governance
pub mod Audit
pub mod Canonical
pub mod Access
pub mod Manifest
pub mod CallTemplate
pub mod HarnessMatch
pub mod Policy
pub mod Bundle
pub mod Health
pub mod AuthorizeRequest
