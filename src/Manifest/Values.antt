-- ===== src/Manifest/Values.antt =====
-- manifest/manifest.go: decoded JSON values.
use kei_connector_contracts.Prelude.{Bool, Option, none, some, Text, ◌==◌, if◌then◌else◌, ℤ}

-- A float64, as its shortest decimal: the digits, without a leading or a final zero, and the place
-- of the decimal point. A float64 has at most 17 digits.
pub data Number : Type 0 where
  nan infinite zero_number : Number
  finite : Bool → Text → ℤ → Number

-- An object is a Go map: its keys differ, and its order is of no account.
mutual
  pub data Value : Type 0 where
    null : Value
    boolean : Bool → Value
    number : Number → Value
    text : Text → Value
    array : Items → Value
    object : Fields → Value

  pub data Items : Type 0 where
    nil : Items
    cons : Value → Items → Items

  pub data Fields : Type 0 where
    end : Fields
    field : Text → Value → Fields → Fields

-- The value of a key.
unfoldable pub get : Fields → Text → Option Value
get end k = none
get (field j v fs) k = if j == k then some v else get fs k
