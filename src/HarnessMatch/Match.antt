-- ===== src/HarnessMatch/Match.antt =====
-- harnessmatch/harnessmatch.go: calls and policies, and the matching of sources and destinations.
use kei_connector_contracts.Prelude.{
  Bool, true, false, not, ◌&&◌, ◌||◌, Option, none, some, List, [], ◌∷◌, ◌++◌, Text, codes, ◌==◌,
  ltb, eqb, if◌then◌else◌, length, drop,
}
use kei_connector_contracts.Strings.{cut, cut_prefix, has_prefix, split, trim_suffix}
use kei_connector_contracts.HarnessMatch.Glob.{glob_match}

pub record Call : Type 0 where
  pub harness_id : Text
  pub kind : Text
  pub agent_id : Text
  pub tool : Text
  pub argv : List Text
  pub skill : Text
  pub path : Text
  pub home : Text
  pub mcp_server : Text
  pub mcp_tool : Text

pub record Policy : Type 0 where
  pub id : Text
  pub src : Text
  pub dst : Text
  pub action : Text
  pub enabled : Bool
  pub scope : Option Text

-- The two results of `MatchSrc`.
pub record SrcMatch : Type 0 where
  pub applies : Bool
  pub human : Bool

unfoldable pub match_src : Text → Call → SrcMatch
match_src src call =
    if src == codes "*" || src == codes "harness:*"
    then record { applies = true; human = false }
    else elim (cut_prefix src (codes "harness:")) [
      | some v ↦ record {
        applies = v == call.kind || (not (call.harness_id == []) && v == call.harness_id);
        human = false;
      }
      | none ↦ elim (cut_prefix src (codes "agent:")) [
        | some v ↦ record {
          applies = not (call.agent_id == []) && (v == codes "*" || v == call.agent_id);
          human = false;
        }
        | none ↦ record { applies = false; human = true }
      ]
    ]

-- The two results of `MatchDst`.
pub record DstMatch : Type 0 where
  pub matched : Bool
  pub renderable : Bool

abbrev renderable_if : Bool → DstMatch
renderable_if b = record { matched = b; renderable = true }

-- The loop over the tokens of a shell prefix, and the comparison of the lengths before it.
unfoldable pub argv_prefix : List Text → List Text → Bool
argv_prefix [] argv = true
argv_prefix (t ∷ ts) [] = false
argv_prefix (t ∷ ts) (a ∷ argv) = if t == [] || not (t == a) then false else argv_prefix ts argv

unfoldable pub match_shell : Text → Call → Bool
match_shell value call =
    if eqb (length call.argv) 0
    then false
    else if value == codes "*"
    then true
    else if ltb (length call.argv) (length (split value b' '))
    then false
    else argv_prefix (split value b' ') call.argv

unfoldable pub match_path : Text → Call → DstMatch
match_path value call =
    if call.path == []
    then renderable_if false
    else if value == codes "*"
    then renderable_if true
    else if has_prefix value (codes "~/")
    then (if call.home == []
        then record { matched = true; renderable = false }
        else renderable_if (
            glob_match (split (trim_suffix call.home (codes "/") ++ drop 1 value) b'/')
              (split call.path b'/')))
    else renderable_if (glob_match (split value b'/') (split call.path b'/'))

unfoldable pub match_mcp : Text → Call → Bool
match_mcp value call =
    if call.mcp_server == []
    then false
    else value == codes "*"
      || value == call.mcp_server
      || (not (call.mcp_tool == []) && value == call.mcp_server ++ b'.' ∷ call.mcp_tool)

-- The cases of the skill and tool schemes: a name that is given, or any such name.
unfoldable pub match_name : Text → Text → Bool
match_name value name = not (name == []) && (value == codes "*" || value == name)

-- The `switch` over the scheme.
unfoldable pub match_scheme : Text → Text → Call → DstMatch
match_scheme scheme value call =
    if scheme == codes "shell"
    then renderable_if (match_shell value call)
    else if scheme == codes "skill"
    then renderable_if (match_name value call.skill)
    else if scheme == codes "path"
    then match_path value call
    else if scheme == codes "mcp"
    then renderable_if (match_mcp value call)
    else if scheme == codes "tool"
    then renderable_if (match_name value call.tool)
    else renderable_if false

unfoldable pub match_dst : Text → Call → DstMatch
match_dst dst call = if dst == codes "*" then renderable_if true else elim (cut dst b':') [
  | none ↦ renderable_if false
  | some (scheme, value) ↦ match_scheme scheme value call
]
