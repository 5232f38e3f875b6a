-- ===== src/HarnessMatch/Paths.antt =====
-- Go's `path` package, as far as `harnessmatch` calls it: `IsAbs`, and `Clean` of an absolute path.
use kei_connector_contracts.Prelude.{
  Bool, ◌||◌, List, [], ◌∷◌, ◌++◌, Text, codes, ◌==◌, if◌then◌else◌, drop,
}
use kei_connector_contracts.Strings.{has_prefix, split}

unfoldable pub is_abs : Text → Bool
is_abs p = has_prefix p (codes "/")

-- One element of the path; ".." at the root is dropped. The stack has its top at the head.
unfoldable pub resolve : List Text → Text → List Text
resolve stack part =
    if part == [] || part == codes "."
    then stack
    else if part == codes ".."
    then drop 1 stack
    else part ∷ stack

unfoldable pub resolve_all : List Text → List Text → List Text
resolve_all stack [] = stack
resolve_all stack (part ∷ parts) = resolve_all (resolve stack part) parts

-- Each element after a slash, from the top of the stack down.
unfoldable pub join_from : Text → List Text → Text
join_from path [] = path
join_from path (part ∷ stack) = join_from (b'/' ∷ part ++ path) stack

unfoldable pub rooted : List Text → Text
rooted [] = codes "/"
rooted (part ∷ stack) = join_from [] (part ∷ stack)

-- `Clean` of a path that begins with a slash.
unfoldable pub clean_abs : Text → Text
clean_abs p = rooted (resolve_all [] (split p b'/'))
