-- ===== src/HarnessMatch/Tests.antt =====
-- Globs and harness calls at concrete inputs.
use kei_connector_contracts.Prelude.{
  ◌≡◌, refl, ◌↔◌, true, none, List, [], ◌∷◌, Text, codes, ◌==◌, any, find,
}
use kei_connector_contracts.Strings.{
  has_prefix, cut_prefix, has_suffix, trim_suffix, cut, split, index,
}
use kei_connector_contracts.HarnessMatch.Kinds.{valid_kind, calls_pdp}
use kei_connector_contracts.HarnessMatch.Glob.{
  glob_match, segment_match, parts_match, middle_match, any_suffix, one_segment, is_empty,
}
use kei_connector_contracts.HarnessMatch.Glob.Paths.{Globs, glob_match_iff}
use kei_connector_contracts.HarnessMatch.Match.{
  Call, Policy, match_src, match_dst, match_scheme, match_shell, match_path, match_mcp, match_name,
  argv_prefix,
}
use kei_connector_contracts.HarnessMatch.Evaluate.{
  KindSet, permit, walk, verdict, scope_ok, shell_permit_rejected, decides_via_pdp, path_refused,
  evaluate_with, evaluate,
}
use kei_connector_contracts.HarnessMatch.Evaluate.Laws.{evaluate_with_permit, IsPermitted}

-- What a decision computes with, opened at once.
matching : Unit {0}
unfolding evaluate_with evaluate walk verdict scope_ok shell_permit_rejected decides_via_pdp
    path_refused match_src match_dst match_scheme match_shell match_path match_mcp match_name
    argv_prefix glob_match segment_match parts_match middle_match any_suffix one_segment is_empty
    valid_kind calls_pdp has_prefix cut_prefix has_suffix trim_suffix cut split index any find ◌==◌
matching = tt

abbrev deep_glob : List Text
deep_glob = codes "src" ∷ codes "**" ∷ codes "*.go" ∷ []

abbrev deep_path : List Text
deep_path = codes "src" ∷ codes "a" ∷ codes "b" ∷ codes "main.go" ∷ []

deep_path_matched : glob_match deep_glob deep_path ≡ true
unfolding matching
deep_path_matched = refl

glob_match_iff_example : (glob_match deep_glob deep_path ≡ true) ↔ Globs deep_glob deep_path
glob_match_iff_example = glob_match_iff deep_glob deep_path

abbrev git_push : Call
git_push = record {
  harness_id = [];
  kind = codes "codex";
  agent_id = codes "a1";
  tool = [];
  argv = codes "git" ∷ codes "push" ∷ [];
  skill = [];
  path = [];
  home = [];
  mcp_server = [];
  mcp_tool = [];
}

-- The first permit is a shell wildcard, which does not count; the second one decides.
abbrev shell_policies : List Policy
shell_policies =
    record {
      id = codes "p1";
      src = codes "harness:*";
      dst = codes "shell:*";
      action = codes "permit";
      enabled = true;
      scope = none;
    }
    ∷ record {
      id = codes "p2";
      src = codes "agent:a1";
      dst = codes "shell:git";
      action = codes "permit";
      enabled = true;
      scope = none;
    }
    ∷ []

abbrev built_in : KindSet
built_in = record { known = valid_kind; via_pdp = none }

push_permitted : (evaluate_with git_push shell_policies built_in).outcome ≡ permit
unfolding matching
push_permitted = refl

push_by_p2 : (evaluate_with git_push shell_policies built_in).policy_id ≡ codes "p2"
unfolding matching
push_by_p2 = refl

evaluate_with_permit_example : IsPermitted git_push shell_policies built_in
evaluate_with_permit_example = evaluate_with_permit git_push shell_policies built_in push_permitted
