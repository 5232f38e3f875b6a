-- ===== src/Json.antt =====
-- Go's encoding/json: `Valid`, the scanner over the bytes of a value, as a state machine.
use kei_connector_contracts.Prelude.{
  ℕ, zero, suc, Bool, true, false, ◌&&◌, Option, none, some, List, [], ◌∷◌, Text, codes, ltb, eqb,
  if◌then◌else◌, length,
}
use kei_connector_contracts.Net.Escape.{is_digit, is_hex, among}

-- What the scanner expects next.
pub data Scan : Type 0 where
  value first_item first_key key after : Scan
  string_body string_escape : Scan
  string_hex : ℕ → Scan
  minus leading_zero digits dot fraction exponent exponent_sign exponent_digits : Scan
  literal : Text → Scan

-- The open brackets, the innermost first: an object before a colon or after one, or an array.
pub data Frame : Type 0 where
  in_key in_value in_array : Frame

abbrev State : Type 0
State = Option (Scan × List Frame)

unfoldable pub is_white : ℕ → Bool
is_white c = among c " \t\r\n"

-- At most 10000 brackets are open at once.
abbrev push : Scan → Frame → List Frame → State
push s f stack = if ltb (length stack) 10000 then some (s, f ∷ stack) else none

unfoldable pub begin_value : List Frame → ℕ → State
begin_value stack c =
    if eqb c b'{'
    then push first_key in_key stack
    else if eqb c b'['
    then push first_item in_array stack
    else if eqb c b'"'
    then some (string_body, stack)
    else if eqb c b'-'
    then some (minus, stack)
    else if eqb c b'0'
    then some (leading_zero, stack)
    else if is_digit c
    then some (digits, stack)
    else if eqb c b't'
    then some (literal (codes "rue"), stack)
    else if eqb c b'f'
    then some (literal (codes "alse"), stack)
    else if eqb c b'n'
    then some (literal (codes "ull"), stack)
    else none

-- After a value, or after a key.
unfoldable pub end_value : List Frame → ℕ → State
end_value [] c = none
end_value (in_key ∷ stack) c = if eqb c b':' then some (value, in_value ∷ stack) else none
end_value (in_value ∷ stack) c =
    if eqb c b','
    then some (key, in_key ∷ stack)
    else if eqb c b'}'
    then some (after, stack)
    else none
end_value (in_array ∷ stack) c =
    if eqb c b','
    then some (value, in_array ∷ stack)
    else if eqb c b']'
    then some (after, stack)
    else none

unfoldable pub after_value : List Frame → ℕ → State
after_value stack c = if is_white c then some (after, stack) else end_value stack c

abbrev close_object : List Frame → State
close_object (in_key ∷ stack) = some (after, stack)
close_object _ = none

abbrev close_array : List Frame → State
close_array (in_array ∷ stack) = some (after, stack)
close_array _ = none

abbrev begin_exponent : List Frame → ℕ → State
begin_exponent stack c = if among c "eE" then some (exponent, stack) else after_value stack c

unfoldable pub step : Scan → List Frame → ℕ → State
step value stack c = if is_white c then some (value, stack) else begin_value stack c
step first_item stack c =
    if is_white c
    then some (first_item, stack)
    else if eqb c b']'
    then close_array stack
    else begin_value stack c
step first_key stack c =
    if is_white c
    then some (first_key, stack)
    else if eqb c b'}'
    then close_object stack
    else if eqb c b'"'
    then some (string_body, stack)
    else none
step key stack c =
    if is_white c then some (key, stack) else if eqb c b'"' then some (string_body, stack) else none
step after stack c = after_value stack c
step string_body stack c =
    if eqb c b'"'
    then some (after, stack)
    else if eqb c b'\\'
    then some (string_escape, stack)
    else if ltb c 32
    then none
    else some (string_body, stack)
step string_escape stack c =
    if among c "bfnrt\\/\""
    then some (string_body, stack)
    else if eqb c b'u'
    then some (string_hex 3, stack)
    else none
step (string_hex zero) stack c = if is_hex c then some (string_body, stack) else none
step (string_hex (suc n)) stack c = if is_hex c then some (string_hex n, stack) else none
step minus stack c =
    if eqb c b'0'
    then some (leading_zero, stack)
    else if is_digit c
    then some (digits, stack)
    else none
step digits stack c =
    if is_digit c
    then some (digits, stack)
    else if eqb c b'.'
    then some (dot, stack)
    else begin_exponent stack c
step leading_zero stack c = if eqb c b'.' then some (dot, stack) else begin_exponent stack c
step dot stack c = if is_digit c then some (fraction, stack) else none
step fraction stack c = if is_digit c then some (fraction, stack) else begin_exponent stack c
step exponent stack c =
    if among c "+-"
    then some (exponent_sign, stack)
    else if is_digit c
    then some (exponent_digits, stack)
    else none
step exponent_sign stack c = if is_digit c then some (exponent_digits, stack) else none
step exponent_digits stack c =
    if is_digit c then some (exponent_digits, stack) else after_value stack c
step (literal []) stack c = after_value stack c
step (literal (x ∷ s)) stack c = if eqb c x then some (literal s, stack) else none

-- Whether a value may end here.
unfoldable pub is_complete : Scan → Bool
is_complete after = true
is_complete leading_zero = true
is_complete digits = true
is_complete fraction = true
is_complete exponent_digits = true
is_complete (literal []) = true
is_complete _ = false

abbrev at_top : List Frame → Bool
at_top [] = true
at_top (f ∷ stack) = false

unfoldable pub run : Scan → List Frame → Text → Bool
run s stack [] = is_complete s && at_top stack
run s stack (c ∷ rest) = elim (step s stack c) [
  | none ↦ false
  | some (s', stack') ↦ run s' stack' rest
]

-- `Valid`
unfoldable pub valid : Text → Bool
valid s = run value [] s
