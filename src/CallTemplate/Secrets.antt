-- ===== src/CallTemplate/Secrets.antt =====
-- calltemplate/calltemplate.go: values that look like credentials.
pub mod Clean
use kei_connector_contracts.Prelude.{
  ℕ, String, Bool, false, not, ◌&&◌, ◌||◌, List, [], ◌∷◌, ◌++◌, map, Text, codes, ◌==◌, any, leb,
  eqb, if◌then◌else◌,
}
use kei_connector_contracts.Strings.{has_prefix, has_suffix, to_lower}
use kei_connector_contracts.Net.Escape.{is_alnum, is_digit, among}
use kei_connector_contracts.Regex.{
  Regex, class, seq, star, search_regex, search_at_word, literal, times, at_least, optional, one_of,
}
use kei_connector_contracts.Manifest.Values.{
  Value, null, boolean, number, text, array, object, Items, nil, cons, Fields, end, field,
}

abbrev upper_or_digit : ℕ → Bool
upper_or_digit c = (leb b'A' c && leb c b'Z') || is_digit c

abbrev upper_or_space : ℕ → Bool
upper_or_space c = (leb b'A' c && leb c b'Z') || eqb c b' '

abbrev alnum_or : String → ℕ → Bool
alnum_or cs c = is_alnum c || among c cs

abbrev is_blank : ℕ → Bool
is_blank c = among c " \t\n\r" || eqb c 12

abbrev words : List String → Regex
words ss = one_of (map (λ s. literal (codes s)) ss)

-- `[_-]?`
abbrev dash : Regex
dash = optional (class (λ c. among c "_-"))

abbrev api_key : Regex
api_key = seq (literal (codes "api")) (seq dash (literal (codes "key")))

abbrev private_key : Regex
private_key = seq (literal (codes "private")) (seq dash (literal (codes "key")))

-- The patterns without `(?i)` and `\b`.
abbrev pub plain_patterns : List Regex
plain_patterns =
    seq (literal (codes "gh")) (
      seq (class (λ c. among c "pousr")) (seq (literal (codes "_")) (at_least 16 (class is_alnum))))
    ∷ seq (literal (codes "github_pat_")) (at_least 16 (class (alnum_or "_")))
    ∷ seq (literal (codes "xox")) (
        seq (class (λ c. among c "abprs"))
          (seq (literal (codes "-")) (at_least 8 (class (alnum_or "-")))))
    ∷ seq (literal (codes "AKIA")) (times 16 (class upper_or_digit))
    ∷ seq (literal (codes "eyJ")) (
        seq (at_least 8 (class (alnum_or "_-"))) (
          seq (literal (codes "."))
            (seq (at_least 8 (class (alnum_or "_-"))) (literal (codes ".")))))
    ∷ seq (literal (codes "-----BEGIN "))
        (seq (star (class upper_or_space)) (literal (codes "PRIVATE KEY")))
    ∷ seq (literal (codes "://")) (
        seq (at_least 1 (class (λ c. not (among c "/@{}" || is_blank c)))) (
          seq (literal (codes ":"))
            (seq (star (class (λ c. not (among c "/@{}" || is_blank c)))) (literal (codes "@")))))
    ∷ []

abbrev pub sk_pattern : Regex
sk_pattern = seq (literal (codes "sk-")) (at_least 16 (class (alnum_or "_-")))

-- The patterns with `(?i)`, of a text in lower case.
abbrev pub bearer_pattern : Regex
bearer_pattern =
    seq (words ("bearer" ∷ "basic" ∷ []))
      (seq (at_least 1 (class is_blank)) (at_least 8 (class (alnum_or "._~+/=-"))))

abbrev pub query_pattern : Regex
query_pattern = seq (class (λ c. among c "?&")) (
    seq
      (one_of (
        literal (codes "access_token")
        ∷ literal (codes "token")
        ∷ api_key
        ∷ literal (codes "key")
        ∷ literal (codes "secret")
        ∷ literal (codes "password")
        ∷ []))
      (seq (literal (codes "=")) (class (λ c. not (among c "&{" || is_blank c)))))

-- Whether one of `secretValuePatterns` matches.
unfoldable pub is_secret_value : Text → Bool
is_secret_value s =
    any (λ r. search_regex r s) plain_patterns
    || search_at_word false sk_pattern s
    || search_at_word false bearer_pattern (to_lower s)
    || search_regex query_pattern (to_lower s)

-- `secretKeyPattern`
unfoldable pub is_secret_key : Text → Bool
is_secret_key k =
    search_regex
      (one_of (
        literal (codes "secret")
        ∷ literal (codes "token")
        ∷ literal (codes "password")
        ∷ literal (codes "passwd")
        ∷ api_key
        ∷ literal (codes "credential")
        ∷ private_key
        ∷ []))
      (to_lower k)

unfoldable pub is_placeholder : Text → Bool
is_placeholder s = has_prefix s (codes "{") && has_suffix s (codes "}")

pub data Secret : Type 0 where
  literal_value : Text → Secret
  secret_value : Text → Secret

-- A secret-named key that holds a literal text.
unfoldable pub literal_under : Text → Value → List Secret
literal_under k (text s) =
    if is_secret_key k && not (s == []) && not (is_placeholder s) then literal_value k ∷ [] else []
literal_under k _ = []

-- `findSecrets`, without the paths of its messages.
unfoldable mutual
  pub find_secrets : Value → List Secret
  find_secrets (object fs) = find_in_fields fs
  find_secrets (array xs) = find_in_items xs
  find_secrets (text s) = if is_secret_value s then secret_value s ∷ [] else []
  find_secrets null = []
  find_secrets (boolean b) = []
  find_secrets (number n) = []

  pub find_in_items : Items → List Secret
  find_in_items nil = []
  find_in_items (cons x xs) = find_secrets x ++ find_in_items xs

  pub find_in_fields : Fields → List Secret
  find_in_fields end = []
  find_in_fields (field k v fs) = literal_under k v ++ (find_secrets v ++ find_in_fields fs)
