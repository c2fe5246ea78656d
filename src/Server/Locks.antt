-- ===== src/Server/Locks.antt =====
-- netlify/functions/_chain.js and _xpub.js: the floor of a timelock, its conversion to a height, and the
-- refusal of private extended keys.
use dynastytrust.Prelude.{
  ℕ, zero, suc, ◌+◌, pos, negsuc, String, ◌⧺◌, Bool, true, false, ◌&&◌, not, Option, none, some,
  List, [], ◌∷◌, take, any, ltb, leb, ◌==◌, str_eq, if◌then◌else◌,
}
use dynastytrust.Publish.{trim_start, trim_end}
use dynastytrust.Psbt.Sighash.{codes}
use dynastytrust.Server.Numeric.{
  Value, undefined, null_value, structure, boolean, text, number, nan, infinity, minus_infinity,
  whole, fraction, max_safe_integer, count_of,
}

abbrev pub min_recovery_blocks : ℕ
min_recovery_blocks = 26000

abbrev pub not_whole : String → Option String
not_whole field = some (field ⧺ " must be a whole number of blocks.")

abbrev pub check_floor : ℕ → String → Option String
check_floor n field =
    if not (leb n max_safe_integer)
    then not_whole field
    else if ltb n min_recovery_blocks
    then some (field ⧺ " must be >= 26000 blocks (or 0 for no leaf).")
    else none

-- `checkTimelockFloor`: what is no value passes, 0 among it.
abbrev pub check_timelock_floor : Value → String → Option String
check_timelock_floor undefined field = none
check_timelock_floor null_value field = none
check_timelock_floor structure field = not_whole field
check_timelock_floor (boolean true) field = not_whole field
check_timelock_floor (boolean false) field = none
check_timelock_floor (text t) field = if str_eq t "" then none else not_whole field
check_timelock_floor (number nan) field = none
check_timelock_floor (number infinity) field = not_whole field
check_timelock_floor (number minus_infinity) field = not_whole field
check_timelock_floor (number (fraction z)) field = not_whole field
check_timelock_floor (number (whole (negsuc n))) field = not_whole field
check_timelock_floor (number (whole (pos zero))) field = none
check_timelock_floor (number (whole (pos (suc n)))) field = check_floor (suc n) field

-- `relativeToAbsolute`, on the values that pass the check above.
abbrev pub relative_to_absolute : Value → ℕ → ℕ
relative_to_absolute offset tip = if count_of offset == 0 then 0 else tip + count_of offset

abbrev pub same_codes : List ℕ → List ℕ → Bool
same_codes [] [] = true
same_codes [] (d ∷ ds) = false
same_codes (c ∷ cs) [] = false
same_codes (c ∷ cs) (d ∷ ds) = (c == d) && same_codes cs ds

-- `PRIVATE_PREFIXES.has(s.trim().slice(0, 4))`
unfoldable pub is_private_extended_key : String → Bool
is_private_extended_key s =
    any (λ prefix. same_codes (take 4 (trim_end (trim_start (codes s)))) (codes prefix))
      ("xprv" ∷ "tprv" ∷ "uprv" ∷ "vprv" ∷ [])

abbrev pub assert_not_private_extended_key : String → Option String
assert_not_private_extended_key s =
    if is_private_extended_key s
    then some
        "Refusing to accept a private extended key (xprv/tprv/uprv/vprv) -- only public xpubs may be sent to the server"
    else none
