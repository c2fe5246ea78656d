-- ===== src/Server/Roster.antt =====
-- netlify/functions/vaults-compile.js: the roster of keys that a draft vault of named fields is
-- compiled with, from the keys that the owner gives or from the members' rows.
pub mod Provisioned
pub mod Planned
use dynastytrust.Prelude.{
  ℕ, String, ◌⧺◌, decimal, Bool, true, false, ◌&&◌, ◌||◌, not, Option, none, some, is_some, List,
  [], ◌∷◌, any, filter, length, ltb, ◌==◌, str_eq, if◌then◌else◌,
}
use Prim.Native.String
use Prim.Native.Char.{code}
use dynastytrust.Paths.{or_else}
use dynastytrust.Server.Http.{Outcome, refused, done, ◌>>=◌, ◌>>◌, unless, truthy}
use dynastytrust.Server.Proposals.{is_hex_text}

-- A key of the request, or the key columns of a member's row.
pub record RosterKey : Type 0 where
  pub role : String
  pub pubkey : Option String
  pub xpub : Option String
  pub fingerprint : Option String
  pub derivation_path : Option String

-- `direct_keys`, whose lists may be absent.
pub record DirectKeys : Type 0 where
  pub founder_keys : Option (List RosterKey)
  pub heir_keys : Option (List RosterKey)
  pub consent_keys : Option (List RosterKey)
  pub backup_keys : Option (List RosterKey)
  pub second_heir_keys : Option (List RosterKey)

pub record Plan : Type 0 where
  pub planned_founder_count : Option ℕ
  pub planned_heir_count : Option ℕ

pub record Roster : Type 0 where
  pub founders : List RosterKey
  pub heirs : List RosterKey
  pub consenters : List RosterKey
  pub backups : List RosterKey
  pub second_heirs : List RosterKey

-- `/^0[23][0-9a-f]{64}$/i`
abbrev pub is_hex_pubkey : String → Bool
is_hex_pubkey String.[] = false
is_hex_pubkey (String.◌∷◌ c String.[]) = false
is_hex_pubkey (String.◌∷◌ c (String.◌∷◌ d s)) =
    (code c == 48) && (((code d == 50) || (code d == 51)) && is_hex_text 64 s)

abbrev pub has_hex_pubkey : Option String → Bool
has_hex_pubkey none = false
has_hex_pubkey (some s) = is_hex_pubkey s

-- A key with an extended key needs its origin; one without needs the public key alone.
unfoldable pub is_provisioned : RosterKey → Bool
is_provisioned k =
    has_hex_pubkey k.pubkey
    && (if is_some (truthy k.xpub)
        then is_some (truthy k.fingerprint) && is_some (truthy k.derivation_path)
        else true)

abbrev pub text_of : Option String → String
text_of none = ""
text_of (some s) = s

-- `k.xpub || k.pubkey`
abbrev pub key_id : RosterKey → String
key_id k = or_else (truthy k.xpub) (text_of k.pubkey)

-- The keys whose id was not seen before, each the first of its id.
unfoldable pub dedupe_from : List String → List RosterKey → List RosterKey
dedupe_from seen [] = []
dedupe_from seen (k ∷ ks) =
    let rest = dedupe_from (key_id k ∷ seen) ks in
    let rest_if_seen = dedupe_from seen ks in
    if any (λ id. str_eq id (key_id k)) seen then rest_if_seen else k ∷ rest

abbrev pub dedupe_by_key : List RosterKey → List RosterKey
dedupe_by_key ks = dedupe_from [] ks

abbrev pub clean : Option (List RosterKey) → List RosterKey
clean ks = filter is_provisioned (or_else ks [])

abbrev pub of_direct_keys : DirectKeys → Roster
of_direct_keys dk = record {
  founders = clean dk.founder_keys;
  heirs = clean dk.heir_keys;
  consenters = clean dk.consent_keys;
  backups = clean dk.backup_keys;
  second_heirs = clean dk.second_heir_keys;
}

-- The active members' keys, by role.
abbrev pub of_members : List RosterKey → Roster
of_members members =
    let ready = filter is_provisioned members in
    record {
      founders = filter (λ m. str_eq m.role "founder" || str_eq m.role "owner") ready;
      heirs = filter (λ m. str_eq m.role "heir") ready;
      consenters = filter (λ m. str_eq m.role "beneficiary") ready;
      backups = [];
      second_heirs = [];
    }

abbrev pub gathered : Option DirectKeys → List RosterKey → Roster
gathered none members = of_members members
gathered (some dk) members = of_direct_keys dk

abbrev pub deduped : Roster → Roster
deduped r = record r { founders = dedupe_by_key r.founders; heirs = dedupe_by_key r.heirs }

-- Without keys of the owner's, the counts must have been planned.
abbrev pub check_planned : Option DirectKeys → Plan → Roster → Outcome (Unit {0})
check_planned (some dk) plan r = done tt
check_planned none plan r = do
  unless (is_some plan.planned_founder_count) 400
      "This vault has no planned founder count set -- cannot compile an invite-based roster without it."
  unless (is_some plan.planned_heir_count || not (ltb 0 (length r.heirs))) 400
      "This vault has heirs but no planned heir count set -- cannot compile without it."

abbrev pub need : ℕ → String → ℕ → String
need planned who ready =
    "Need exactly "
    ⧺ (decimal planned
        ⧺ (" provisioned "
            ⧺ (who ⧺ ("(s); " ⧺ (decimal ready ⧺ " ready (after removing duplicate keys).")))))

unfoldable pub gather_roster : Option DirectKeys → List RosterKey → Plan → Outcome Roster
gather_roster dk members plan = do
  let r = deduped (gathered dk members)
  check_planned dk plan r
  let planned_f = or_else plan.planned_founder_count (length r.founders)
  let planned_h = or_else plan.planned_heir_count (length r.heirs)
  unless (length r.founders == planned_f) 400 (need planned_f "founder" (length r.founders))
  unless (not (ltb 0 planned_h && not (length r.heirs == planned_h))) 400
      (need planned_h "heir" (length r.heirs))
  done r
