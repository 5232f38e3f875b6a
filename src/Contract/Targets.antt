-- ===== src/Contract/Targets.antt =====
-- contract/http_api.go: methods, paths and the request target.
pub mod Patterns
pub mod Paths
pub mod Allowed
use kei_connector_contracts.Prelude.{
  Bool, true, false, not, ◌&&◌, ◌||◌, Option, none, some, List, [], ◌∷◌, Text, codes, ◌==◌, any,
  if◌then◌else◌, refuse_if, ◌>>?◌, first_error,
}
use kei_connector_contracts.Strings.{
  has_prefix, has_suffix, trim_suffix, contains_any, split, cut_prefix, to_upper, equal_fold,
}
use kei_connector_contracts.Net.Escape.{in_segment, unescape}
use kei_connector_contracts.Net.Url.{parse}
use kei_connector_contracts.Contract.Types.{
  HttpApi, HttpInvocation, ContractError, method_not_allowed, path_not_relative, invalid_escape,
  path_traversal, pattern_has_query, path_not_allowed, query_not_allowed,
}
use kei_connector_contracts.Contract.Names.Action
use kei_connector_contracts.Contract.Names.Method
use kei_connector_contracts.Contract.Catalog.{is_one_of, entry_of}

-- `httpMethodActions`
abbrev pub method_actions : List (Text × Text)
method_actions =
    (Method.get, Action.read)
    ∷ (Method.head, Action.read)
    ∷ (Method.post, Action.create)
    ∷ (Method.patch, Action.update)
    ∷ []

-- `HTTPMethodAction`; `none` where the method is not supported.
unfoldable pub method_action : Text → Option Text
method_action = entry_of method_actions

unfoldable pub is_supported : Text → Bool
is_supported method = elim (method_action method) [ none ↦ false | some action ↦ true ]

unfoldable pub has_body : Text → Bool
has_body method = method == Method.post || method == Method.patch

-- `httpCapabilityMethod`: the method that a capability names, `none` where Go's second result is
-- false.
unfoldable pub capability_method : Text → Option Text
capability_method capability = elim (cut_prefix capability (codes "http.")) [
  | none ↦ none
  | some verb ↦ if verb == [] then none else some (to_upper verb)
]

unfoldable pub contains_fold : List Text → Text → Bool
contains_fold values want = any (λ v. equal_fold v want) values

-- One part of a path: it decodes, and to no separator and no dot segment.
unfoldable pub check_part : Text → Option ContractError
check_part part = elim (unescape in_segment part) [
  | none ↦ some invalid_escape
  | some decoded ↦
      refuse_if (contains_any decoded (codes "/\\")) invalid_escape
      >>? refuse_if (decoded == codes ".." || decoded == codes ".") path_traversal
]

-- `url.Parse` reads the path as one without a scheme and a host.
unfoldable pub reads_as_path : Text → Bool
reads_as_path path = elim (parse path) [ none ↦ false | some u ↦ u.scheme == [] && u.host == [] ]

abbrev pub forbidden_in_path : Text
forbidden_in_path = codes "?#[\\\r\n"

-- `validateRelativeHTTPPath`
unfoldable pub validate_relative_path : Text → Option ContractError
validate_relative_path path =
    refuse_if
      (path == []
        || not (has_prefix path (codes "/"))
        || has_prefix path (codes "//")
        || contains_any path forbidden_in_path)
      path_not_relative
    >>? first_error check_part (split path b'/')
    >>? refuse_if (not (reads_as_path path)) path_not_relative

-- `validateHTTPPathPattern`
unfoldable pub validate_path_pattern : Text → Option ContractError
validate_path_pattern pattern =
    validate_relative_path pattern
    >>? refuse_if (contains_any pattern (codes "?#")) pattern_has_query

unfoldable pub path_matches : Text → Text → Bool
path_matches pattern path =
    let prefix = trim_suffix pattern (codes "*") in
    path == prefix || (has_suffix pattern (codes "*") && has_prefix path prefix)

-- `validateTarget`
unfoldable pub validate_target : HttpApi → HttpInvocation → Option ContractError
validate_target api call =
    refuse_if (not (is_supported call.method) || not (is_one_of api.allowed_methods call.method))
      method_not_allowed
    >>? validate_relative_path call.path
    >>? refuse_if (not (any (λ p. path_matches p call.path) api.allowed_path_patterns))
        path_not_allowed
    >>? first_error
        (λ (name, values).
          refuse_if (not (contains_fold api.query_allowlist name)) query_not_allowed)
        call.query
