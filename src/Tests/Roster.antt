-- ===== src/Tests/Roster.antt =====
-- netlify/functions/vaults-compile.js on a concrete roster.
use dynastytrust.Prelude.{none, some, [], ◌∷◌}
use dynastytrust.Server.Roster.{RosterKey, DirectKeys, Plan, Roster}

abbrev key : RosterKey
key = record {
  role = "founder";
  pubkey = some "0200112233445566778899aabbccddeeff00112233445566778899AABBCCDDEEFF";
  xpub = none;
  fingerprint = none;
  derivation_path = none;
}

abbrev twice : DirectKeys
twice = record {
  founder_keys = some (key ∷ key ∷ []);
  heir_keys = none;
  consent_keys = none;
  backup_keys = none;
  second_heir_keys = none;
}

abbrev plan : Plan
plan = record { planned_founder_count = some 1; planned_heir_count = none }

abbrev one : Roster
one = record { founders = key ∷ []; heirs = []; consenters = []; backups = []; second_heirs = [] }
