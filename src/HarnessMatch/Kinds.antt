-- ===== src/HarnessMatch/Kinds.antt =====
-- harnessmatch/harnessmatch.go: the harness kinds.
use kei_connector_contracts.Prelude.{Bool, ◌||◌, List, [], ◌∷◌, Text, codes, ◌==◌, any}

-- The keys of `Kinds`, all of which are mapped to true.
abbrev pub kinds : List Text
kinds =
    codes "claude_code"
    ∷ codes "codex"
    ∷ codes "opencode"
    ∷ codes "pi"
    ∷ codes "cursor"
    ∷ codes "custom"
    ∷ []

unfoldable pub valid_kind : Text → Bool
valid_kind kind = any (λ k. k == kind) kinds

unfoldable pub calls_pdp : Text → Bool
calls_pdp kind = kind == codes "custom" || kind == codes "pi"
