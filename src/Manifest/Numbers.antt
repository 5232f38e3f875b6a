-- ===== src/Manifest/Numbers.antt =====
-- manifest/manifest.go: numbers in the notation of RFC 8785.
use kei_connector_contracts.Prelude.{
  ℕ, zero, suc, ◌+◌, ◌-◌, ◌/◌, ◌%◌, ◌&&◌, [], ◌∷◌, ◌++◌, Text, codes, ltb, leb, eqb, if◌then◌else◌,
  length, take, drop, ℤ, pos, negsuc, Try, ok, err,
}
use kei_connector_contracts.Manifest.Values.{Number, nan, infinite, zero_number, finite}

pub data JcsError : Type 0 where
  not_a_number infinity : JcsError

-- `strconv.Itoa` of a number that is not negative, before the digits that were written.
unfoldable pub itoa_from : ℕ → ℕ → Text → Text
itoa_from zero n written = written
itoa_from (suc fuel) n written =
    let more = itoa_from fuel (n / 10) ((n % 10 + 48) ∷ written) in
    if ltb n 10 then (n + 48) ∷ written else more

unfoldable pub itoa : ℕ → Text
itoa n = itoa_from (suc n) n []

abbrev pub zero_digits : ℕ → Text
zero_digits zero = []
zero_digits (suc n) = b'0' ∷ zero_digits n

abbrev fraction : Text → Text
fraction [] = []
fraction (c ∷ s) = b'.' ∷ c ∷ s

-- Scientific notation.
unfoldable pub scientific : Text → Text → ℕ → Text
scientific digits sign exponent =
    take 1 digits ++ (fraction (drop 1 digits) ++ (b'e' ∷ (sign ++ itoa exponent)))

-- `formatJCSNumber`: `n` is the number of digits before the decimal point.
unfoldable pub format_jcs_number : Text → ℤ → Text
format_jcs_number digits (pos zero) = codes "0." ++ digits
format_jcs_number digits (pos (suc k)) =
    if leb (suc k) (length digits) && leb (length digits) 21
    then (if eqb (suc k) (length digits)
        then digits
        else take (suc k) digits ++ (b'.' ∷ drop (suc k) digits))
    else if leb (suc k) 21
    then digits ++ zero_digits (suc k - length digits)
    else scientific digits (codes "+") k
format_jcs_number digits (negsuc k) =
    if ltb k 5
    then codes "0." ++ (zero_digits (suc k) ++ digits)
    else scientific digits (codes "-") (k + 2)

-- `jcsNumber`
unfoldable pub jcs_number : Number → Try JcsError Text
jcs_number nan = err not_a_number
jcs_number infinite = err infinity
jcs_number zero_number = ok (codes "0")
jcs_number (finite negative digits n) =
    ok (if negative then b'-' ∷ format_jcs_number digits n else format_jcs_number digits n)
