-- ===== src/Blocks.antt =====
-- apps/web/src/lib/blocks.ts: the decay ladder of a Bloc vault. A quorum is any JavaScript number that
-- is not below 0, but for the infinity, and without the rounding of a difference; heights are whole.
pub mod Ladder
use dynastytrust.Prelude.{
  ℕ, zero, suc, ◌+◌, ◌-◌, ◌*◌, ◌^◌, Bool, false, Option, none, some, List, [], ◌∷◌, if◌then◌else◌,
  ltb, ◌==◌,
}

-- NaN, or a number of parts of which `2 ^ scale` make one.
pub data Quorum : Type 0 where
  nan : Quorum
  parts : ℕ → Quorum

-- The two quorums are in parts of one size.
pub record DecayPolicy : Type 0 where
  pub scale : ℕ
  pub kids_decay_start_quorum : Quorum
  pub kids_decay_floor_quorum : Quorum
  pub kids_decay_start_after : ℕ
  pub kids_decay_step_blocks : ℕ

pub record Rung : Type 0 where
  pub q : Quorum
  pub abs_after : ℕ

abbrev pub one : DecayPolicy → ℕ
one bp = 2 ^ bp.scale

-- `floor > start`
abbrev pub is_above : Quorum → Quorum → Bool
is_above nan start = false
is_above (parts f) nan = false
is_above (parts f) (parts s) = ltb s f

-- `q === floor` where `gone` parts were taken from the start: a sum, as q may have passed 0.
abbrev pub is_floor : Quorum → Quorum → ℕ → Bool
is_floor nan floor gone = false
is_floor (parts s) nan gone = false
is_floor (parts s) (parts f) gone = s == f + gone

-- The `q` of a rung; a loop that ends has not passed 0.
abbrev pub less : Quorum → ℕ → Quorum
less nan gone = nan
less (parts s) gone = parts (s - gone)

abbrev pub cons_rung : Rung → Option (List Rung) → Option (List Rung)
cons_rung r none = none
cons_rung r (some rs) = some (r ∷ rs)

abbrev pub rung_at : DecayPolicy → ℕ → ℕ → Rung
rung_at bp gone rung = record {
  q = less bp.kids_decay_start_quorum gone;
  abs_after = bp.kids_decay_start_after + rung * bp.kids_decay_step_blocks;
}

-- The `while (true)` loop over `q` and `rung`, with what was taken from `q` so far; `none` means that
-- the fuel ran out.
unfoldable pub ladder_loop : DecayPolicy → ℕ → ℕ → ℕ → Option (List Rung)
ladder_loop bp zero gone rung = none
ladder_loop bp (suc fuel) gone rung =
    let here = rung_at bp gone rung in
    let rest = cons_rung here (ladder_loop bp fuel (gone + one bp) (rung + 1)) in
    if is_floor bp.kids_decay_start_quorum bp.kids_decay_floor_quorum gone
    then some (here ∷ [])
    else rest

unfoldable pub bloc_decay_ladder : ℕ → DecayPolicy → Option (List Rung)
bloc_decay_ladder fuel bp =
    if is_above bp.kids_decay_floor_quorum bp.kids_decay_start_quorum
    then some []
    else ladder_loop bp fuel 0 0
