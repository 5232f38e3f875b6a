-- ===== src/Bundle/Kinds.antt =====
-- bundle/bundle.go: the harness kind registry of a bundle and its validation.
use kei_connector_contracts.Prelude.{
  ℕ, ◌+◌, Bool, true, false, not, ◌&&◌, ◌||◌, Option, none, some, List, [], ◌∷◌, Text, codes, ◌==◌,
  any, all, find, leb, eqb, if◌then◌else◌, length,
}
use kei_connector_contracts.Strings.{has_prefix}
use kei_connector_contracts.HarnessMatch.Kinds.{valid_kind, calls_pdp}
use kei_connector_contracts.Bundle.Types.{HarnessKind, Harness, Payload}

unfoldable pub known_harness_kind : Payload → Text → Bool
known_harness_kind p kind =
    if eqb (length p.harness_kinds) 0
    then valid_kind kind
    else any (λ (k : HarnessKind). k.kind == kind) p.harness_kinds

-- The entry that says how a kind is decided.
unfoldable pub describes : Text → HarnessKind → Bool
describes kind k = k.kind == kind && not (k.decides_via == [])

unfoldable pub harness_kind_decides_via_pdp : Payload → Text → Bool
harness_kind_decides_via_pdp p kind = elim (find (describes kind) p.harness_kinds) [
  | some k ↦ k.decides_via == codes "pdp"
  | none ↦ calls_pdp kind
]

abbrev pub legacy_shell_kind : HarnessKind
legacy_shell_kind = record {
  kind = codes "pi";
  short_name = [];
  tool_prefix = [];
  shell_tool = codes "pi.bash";
  gateable = true;
  decides_via = codes "pdp";
  native_tools = [];
}

unfoldable harness_kind_for_shell_tool : Payload → Text → Option HarnessKind
harness_kind_for_shell_tool p tool =
    if tool == []
    then none
    else if eqb (length p.harness_kinds) 0
    then (if tool == legacy_shell_kind.shell_tool then some legacy_shell_kind else none)
    else find (λ (k : HarnessKind). k.shell_tool == tool && harness_kind_decides_via_pdp p k.kind)
        p.harness_kinds

-- The errors of the validators, with the index of the entry that is refused.
pub data KindError : Type 0 where
  invalid_kind listed_twice bad_decides_via bad_shell_tool bad_native_tools : ℕ → KindError
  bad_semantics : KindError
  bad_harness_kind bad_agent_id agent_id_is_kind : ℕ → KindError

unfoldable pub is_lower_letter : ℕ → Bool
is_lower_letter c = leb b'a' c && leb c b'z'

unfoldable pub is_digit : ℕ → Bool
is_digit c = leb b'0' c && leb c b'9'

-- `^[a-z][a-z0-9_]{0,31}$`
unfoldable pub harness_kind_pattern : Text → Bool
harness_kind_pattern [] = false
harness_kind_pattern (c ∷ s) =
    is_lower_letter c
    && all (λ x. is_lower_letter x || is_digit x || eqb x b'_') s
    && leb (length s) 31

-- A byte of `[A-Za-z0-9._-]`.
unfoldable pub is_id_byte : ℕ → Bool
is_id_byte c =
    is_lower_letter c || (leb b'A' c && leb c b'Z') || is_digit c || any (eqb c) (codes "._-")

-- `^[A-Za-z0-9][A-Za-z0-9._-]{0,127}$`
unfoldable pub id_pattern : Text → Bool
id_pattern [] = false
id_pattern (c ∷ s) =
    is_id_byte c && not (any (eqb c) (codes "._-")) && all is_id_byte s && leb (length s) 127

unfoldable pub native_tool_valid : Text → Text × Text → Bool
native_tool_valid tool_prefix (tool_name, native_name) =
    not (tool_prefix == []) && has_prefix tool_name tool_prefix && not (native_name == [])

-- The loop at index `i`, with the kinds seen before.
unfoldable pub validate_kinds_from : ℕ → List Text → List HarnessKind → Option KindError
validate_kinds_from i seen [] = none
validate_kinds_from i seen (k ∷ ks) =
    let rest = validate_kinds_from (i + 1) (k.kind ∷ seen) ks in
    if not (harness_kind_pattern k.kind)
    then some (invalid_kind i)
    else if any (λ s. s == k.kind) seen
    then some (listed_twice i)
    else if not (k.decides_via == [])
        && not (k.decides_via == codes "pdp")
        && not (k.decides_via == codes "native")
    then some (bad_decides_via i)
    else if not (k.shell_tool == []) && not (has_prefix k.shell_tool k.tool_prefix)
    then some (bad_shell_tool i)
    else if not (all (native_tool_valid k.tool_prefix) k.native_tools)
    then some (bad_native_tools i)
    else rest

unfoldable pub validate_harness_kinds : List HarnessKind → Option KindError
validate_harness_kinds kinds = validate_kinds_from 0 [] kinds

-- The loop over the registered harnesses.
unfoldable pub validate_harnesses_from : Payload → ℕ → List Harness → Option KindError
validate_harnesses_from p i [] = none
validate_harnesses_from p i (h ∷ hs) =
    let rest = validate_harnesses_from p (i + 1) hs in
    if not (known_harness_kind p h.kind)
    then some (bad_harness_kind i)
    else if not (id_pattern h.agent_id)
    then some (bad_agent_id i)
    else if known_harness_kind p h.agent_id
    then some (agent_id_is_kind i)
    else rest

unfoldable pub validate_harnesses : Payload → Option KindError
validate_harnesses p = elim (validate_harness_kinds p.harness_kinds) [
  | some e ↦ some e
  | none ↦
      if eqb (length p.harnesses) 0 && p.harness_match_semantics == []
      then none
      else if not (p.harness_match_semantics == codes "kei.harness-match/v1")
      then some bad_semantics
      else validate_harnesses_from p 0 p.harnesses
]
