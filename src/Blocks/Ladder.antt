-- ===== src/Blocks/Ladder.antt =====
-- apps/web/src/lib/blocks.ts: for which policies the decay ladder ends, and with which rungs.
use dynastytrust.Prelude.{ℕ, zero, suc, ◌+◌, ◌*◌, ◌<◌, Bool, List, [], ◌∷◌, ◌≡◌}
use dynastytrust.Blocks.{parts, DecayPolicy, Rung, one, is_floor, rung_at}

-- How many rungs a policy has, if its ladder ends: none where the floor is above the start; one for
-- the start and one for each kid less down to the floor, where that is a whole number of kids.
pub data Rungs (bp : DecayPolicy) : ℕ → Type 0 where
  none_at_all :
      (s f : ℕ)
      → bp.kids_decay_start_quorum ≡ parts s
      → bp.kids_decay_floor_quorum ≡ parts f
      → s < f
      → Rungs bp 0
  down_to_floor :
      (s f n : ℕ)
      → bp.kids_decay_start_quorum ≡ parts s
      → bp.kids_decay_floor_quorum ≡ parts f
      → s ≡ f + n * one bp
      → Rungs bp (suc n)

-- The next rungs of a ladder: of each, one kid less than of the one before, and one step later.
unfoldable pub rungs : DecayPolicy → ℕ → ℕ → ℕ → List Rung
rungs bp gone rung zero = []
rungs bp gone rung (suc n) = rung_at bp gone rung ∷ rungs bp (gone + one bp) (rung + 1) n

module _ (bp : DecayPolicy) where
  abbrev at_floor : ℕ → Bool
  at_floor gone = is_floor bp.kids_decay_start_quorum bp.kids_decay_floor_quorum gone
