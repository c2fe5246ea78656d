-- ===== src/Server/Numeric/Bounds.antt =====
-- netlify/functions/_numeric.js: which values pass.
use dynastytrust.Prelude.{ℕ, ◌≤◌, pos, negsuc, none, String, true, ◌≡◌, ◌↔◌, refl, arith}
use dynastytrust.Server.Numeric.{
  nan, infinity, minus_infinity, whole, fraction, Value, undefined, null_value, structure, boolean,
  text, number, max_safe_integer, check_number_bounds, amount_bounds,
}

check_number_bounds-whole :
    (field : String) (min n : ℕ)
    → (check_number_bounds (number (whole (pos n))) (amount_bounds field min) ≡ none)
      ↔ ((min ≤ n) × (n ≤ max_safe_integer))
unfolding check_number_bounds
check_number_bounds-whole field min n = ground arith

check_number_bounds_other :
    (field : String) (min : ℕ) (value : Value)
    → check_number_bounds value (amount_bounds field min) ≡ none
    → (n : ℕ) × (value ≡ number (whole (pos n)))
unfolding check_number_bounds
check_number_bounds_other field min (number (whole (pos n))) h = (n, refl)
check_number_bounds_other field min (number (whole (negsuc n))) h = absurd (ground arith)
check_number_bounds_other field min (number (fraction z)) h = absurd (ground arith)
check_number_bounds_other field min (number nan) h = cc
check_number_bounds_other field min (number infinity) h = cc
check_number_bounds_other field min (number minus_infinity) h = cc
check_number_bounds_other field min undefined h = cc
check_number_bounds_other field min null_value h = cc
check_number_bounds_other field min structure h = cc
check_number_bounds_other field min (boolean b) h = cc
check_number_bounds_other field min (text t) h = cc

-- A value passes the check of a whole amount exactly when it is a whole number from the least amount
-- up to the greatest integer that a number of JavaScript holds exactly: no text, boolean, null,
-- fraction, NaN or infinity passes.
pub check_number_bounds_iff :
    (field : String) (min : ℕ) (value : Value)
    → (check_number_bounds value (amount_bounds field min) ≡ none)
      ↔ ((n : ℕ) × (value ≡ number (whole (pos n))) × (min ≤ n) × (n ≤ max_safe_integer))
check_number_bounds_iff field min value = (
  λ h.
      let (n, e) = check_number_bounds_other field min value h in
      let (low, high) = (check_number_bounds-whole field min n).0 (rw e at h) in (n, e, low, high),
  λ (n, e, low, high). rw e ((check_number_bounds-whole field min n).1 (low, high)),
)

-- The same for a whole number between any two bounds.
pub check_number_bounds-integer :
    (field : String) (min max : ℕ) (value : Value)
    → check_number_bounds value
        (record { field = field; min = pos min; max = pos max; integer = true })
      ≡ none
    → (n : ℕ) × (value ≡ number (whole (pos n))) × (min ≤ n) × (n ≤ max)
unfolding check_number_bounds
check_number_bounds-integer field min max (number (whole (pos n))) h =
    (n, refl, ground arith, ground arith)
check_number_bounds-integer field min max (number (whole (negsuc n))) h = absurd (ground arith)
check_number_bounds-integer field min max (number (fraction z)) h = absurd (ground arith)
check_number_bounds-integer field min max (number nan) h = absurd (ground arith)
check_number_bounds-integer field min max (number infinity) h = absurd (ground arith)
check_number_bounds-integer field min max (number minus_infinity) h = absurd (ground arith)
check_number_bounds-integer field min max undefined h = absurd (ground arith)
check_number_bounds-integer field min max null_value h = absurd (ground arith)
check_number_bounds-integer field min max structure h = absurd (ground arith)
check_number_bounds-integer field min max (boolean b) h = absurd (ground arith)
check_number_bounds-integer field min max (text t) h = absurd (ground arith)
