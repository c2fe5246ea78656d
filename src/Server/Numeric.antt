-- ===== src/Server/Numeric.antt =====
-- netlify/functions/_numeric.js: the test of a number in a request body.
pub mod Bounds
use dynastytrust.Prelude.{
  ℕ, ◌-◌, ◌^◌, ℤ, pos, negsuc, String, ◌⧺◌, decimal_ℤ, Bool, true, false, ◌||◌, ◌&&◌, not, Option,
  none, some, ltb, leb, ltb_ℤ, if◌then◌else◌,
}

-- A number of JavaScript by where it lies: `fraction z` is any number strictly between z and z + 1.
pub data Number : Type 0 where
  nan infinity minus_infinity : Number
  whole fraction : ℤ → Number

-- A field of a parsed request body; `structure` is any object or array.
pub data Value : Type 0 where
  undefined null_value structure : Value
  boolean : Bool → Value
  text : String → Value
  number : Number → Value

abbrev pub is_finite : Number → Bool
is_finite nan = false
is_finite infinity = false
is_finite minus_infinity = false
is_finite (whole z) = true
is_finite (fraction z) = true

abbrev pub is_finite_number : Value → Bool
is_finite_number (number n) = is_finite n
is_finite_number undefined = false
is_finite_number null_value = false
is_finite_number structure = false
is_finite_number (boolean b) = false
is_finite_number (text t) = false

abbrev pub max_safe_integer : ℕ
max_safe_integer = 9007199254740991

-- `Number.isSafeInteger`
abbrev pub is_safe : Number → Bool
is_safe (whole (pos n)) = leb n max_safe_integer
is_safe (whole (negsuc n)) = ltb n max_safe_integer
is_safe nan = false
is_safe infinity = false
is_safe minus_infinity = false
is_safe (fraction z) = false

-- `n < min` and `n > max` for whole bounds; nothing is outside of a bound for `nan`.
abbrev pub below : Number → ℤ → Bool
below nan min = false
below infinity min = false
below minus_infinity min = true
below (whole z) min = ltb_ℤ z min
below (fraction z) min = ltb_ℤ z min

abbrev pub above : Number → ℤ → Bool
above nan max = false
above infinity max = true
above minus_infinity max = false
above (whole z) max = ltb_ℤ max z
above (fraction z) max = not (ltb_ℤ z max)

pub record NumberBounds : Type 0 where
  pub field : String
  pub min : ℤ
  pub max : ℤ
  pub integer : Bool

abbrev pub check_range : Number → NumberBounds → Option String
check_range n bounds =
    if bounds.integer && not (is_safe n)
    then some (bounds.field ⧺ " must be a whole number.")
    else if below n bounds.min || above n bounds.max
    then some (
        bounds.field
        ⧺ (" must be between " ⧺ (decimal_ℤ bounds.min ⧺ (" and " ⧺ (decimal_ℤ bounds.max ⧺ ".")))))
    else none

abbrev pub not_finite : String → Option String
not_finite field = some (field ⧺ " must be a finite number.")

-- `checkNumberBounds`: nothing for a good value, else the message. The bounds are given by every
-- caller.
unfoldable pub check_number_bounds : Value → NumberBounds → Option String
check_number_bounds (number n) bounds =
    if is_finite n then check_range n bounds else not_finite bounds.field
check_number_bounds undefined bounds = not_finite bounds.field
check_number_bounds null_value bounds = not_finite bounds.field
check_number_bounds structure bounds = not_finite bounds.field
check_number_bounds (boolean b) bounds = not_finite bounds.field
check_number_bounds (text t) bounds = not_finite bounds.field

abbrev pub min_fee_rate_sat_vb : ℤ
min_fee_rate_sat_vb = pos 1

abbrev pub max_fee_rate_sat_vb : ℤ
max_fee_rate_sat_vb = pos 1000

-- A whole amount from `min` on, the form in which the callers check amounts and heights.
abbrev pub amount_bounds : String → ℕ → NumberBounds
amount_bounds field min = record {
  field = field;
  min = pos min;
  max = pos max_safe_integer;
  integer = true;
}

-- The number that a value stands for, once `check_number_bounds` has let it through.
abbrev pub count_of : Value → ℕ
count_of (number (whole (pos n))) = n
count_of (number (whole (negsuc n))) = 0
count_of (number (fraction z)) = 0
count_of (number nan) = 0
count_of (number infinity) = 0
count_of (number minus_infinity) = 0
count_of undefined = 0
count_of null_value = 0
count_of structure = 0
count_of (boolean b) = 0
count_of (text t) = 0
