-- ===== src/Contract/Targets/Allowed.antt =====
-- contract/http_api.go: which request targets are allowed.
use kei_connector_contracts.Prelude.{
  ◌≡◌, refl, ◌↔◌, true, not, Option, none, List, [], ◌∷◌, arith, Text, All, In, any_iff, refuse_if,
  first_error,
}
use kei_connector_contracts.Strings.{equal_fold}
use kei_connector_contracts.Contract.Types.{
  HttpApi, HttpInvocation, ContractError, query_not_allowed,
}
use kei_connector_contracts.Contract.Catalog.Laws.{is_one_of_iff}
use kei_connector_contracts.Contract.Targets.{
  is_supported, contains_fold, path_matches, validate_target,
}
use kei_connector_contracts.Contract.Targets.Patterns.{Covers, path_matches_iff}
use kei_connector_contracts.Contract.Targets.Paths.{IsSafePath, validate_relative_path_iff}

-- A name is listed, up to the case of its letters.
abbrev pub IsListed : List Text → Text → Type 0
IsListed names name = (n : Text) × In n names × (equal_fold n name ≡ true)

pub record IsAllowedTarget (api : HttpApi) (call : HttpInvocation) : Type 0 where
  pub supported : is_supported call.method ≡ true
  pub listed : In call.method api.allowed_methods
  pub safe : IsSafePath call.path
  pub covered : (p : Text) × In p api.allowed_path_patterns × Covers p call.path
  pub query : All (λ (q : Text × List Text). IsListed api.query_allowlist q.0) call.query

abbrev check_query : List Text → Text × List Text → Option ContractError
check_query names (name, values) = refuse_if (not (contains_fold names name)) query_not_allowed

query_iff :
    (names : List Text) (query : List (Text × List Text))
    → (first_error (check_query names) query ≡ none)
      ↔ All (λ (q : Text × List Text). IsListed names q.0) query
unfolding contains_fold first_error
query_iff names [] = (λ h. tt, λ h. refl)
query_iff names ((n, v) ∷ query) =
    let (there, back) = any_iff (λ v. equal_fold v n) names in
    let (to, from) = query_iff names query in
    (
      λ h. (there (ground arith), to (ground arith)),
      λ (one, rest). let listed = back one in let others = from rest in ground arith,
    )

-- `validateTarget` accepts exactly the targets with a supported and allowed method, a safe path
-- that an allowed pattern covers, and query parameters that are all listed.
pub validate_target_iff :
    (api : HttpApi) (call : HttpInvocation)
    → (validate_target api call ≡ none) ↔ IsAllowedTarget api call
unfolding validate_target
validate_target_iff api call =
    let method = is_one_of_iff api.allowed_methods call.method in
    let path = validate_relative_path_iff call.path in
    let pattern = any_iff (λ p. path_matches p call.path) api.allowed_path_patterns in
    let query = query_iff api.query_allowlist call.query in
    (
      λ h. record {
        supported = ground arith;
        listed = method.0 (ground arith);
        safe = path.0 (ground arith);
        covered =
            let (p, m, e) = pattern.0 (ground arith) in (p, m, (path_matches_iff p call.path).0 e);
        query = query.0 (ground arith);
      },
      λ a.
          let listed = method.1 a.listed in
          let safe = path.1 a.safe in
          let (p, m, c) = a.covered in
          let covered = pattern.1 (p, m, (path_matches_iff p call.path).1 c) in
          let listed_query = query.1 a.query in let supported = a.supported in ground arith,
    )
