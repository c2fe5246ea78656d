-- ===== src/Server/Roster/Provisioned.antt =====
-- netlify/functions/vaults-compile.js: the keys that a roster is gathered from are provisioned.
use dynastytrust.Prelude.{
  String, Bool, true, ◌&&◌, Option, none, some, is_some, List, [], ◌∷◌, filter, All, if◌then◌else◌,
  ◌≡◌, ◌⊎◌, inl, inr, refl, arith, Bool-cases,
}
use dynastytrust.Paths.{or_else}
use dynastytrust.Server.Http.{truthy}
use dynastytrust.Server.Roster.{
  RosterKey, DirectKeys, is_hex_pubkey, has_hex_pubkey, is_provisioned, gathered,
}

pub filter-keeps :
    (P : RosterKey → Type 0) (test : RosterKey → Bool) (ks : List RosterKey)
    → All P ks
    → All P (filter test ks)
filter-keeps P test [] h = tt
filter-keeps P test (k ∷ ks) (now, later) = elim (Bool-cases (test k)) [
  | inl e ↦ rw (e, if◌then◌else◌) (now, filter-keeps P test ks later)
  | inr e ↦ rw (e, if◌then◌else◌) (filter-keeps P test ks later)
]

-- A key with a public key in hexadecimal, and with the origin of its extended key, if it has one.
pub record IsProvisioned (k : RosterKey) : Type 0 where
  pub pubkey : String
  pub given : k.pubkey ≡ some pubkey
  pub is_hex : is_hex_pubkey pubkey ≡ true
  pub origin :
      (truthy k.xpub ≡ none)
      ⊎ (((fingerprint : String) × (truthy k.fingerprint ≡ some fingerprint))
          × ((path : String) × (truthy k.derivation_path ≡ some path)))

pub is_some-some {ℓ} : {A : Type ℓ} (o : Option A) → is_some o ≡ true → (a : A) × (o ≡ some a)
is_some-some none h = cc
is_some-some (some a) h = (a, refl)

has_hex_pubkey-some :
    (o : Option String)
    → has_hex_pubkey o ≡ true
    → (s : String) × (o ≡ some s) × (is_hex_pubkey s ≡ true)
has_hex_pubkey-some none h = cc
has_hex_pubkey-some (some s) h = (s, refl, h)

origin_lem :
    (xpub fingerprint path : Option String)
    → (if is_some xpub then is_some fingerprint && is_some path else true) ≡ true
    → (xpub ≡ none) ⊎ (((f : String) × (fingerprint ≡ some f)) × ((d : String) × (path ≡ some d)))
origin_lem none fingerprint path h = inl refl
origin_lem (some x) fingerprint path h =
    inr (is_some-some fingerprint (ground arith), is_some-some path (ground arith))

is_provisioned-IsProvisioned : (k : RosterKey) → is_provisioned k ≡ true → IsProvisioned k
unfolding is_provisioned
is_provisioned-IsProvisioned k h =
    let (pubkey, given, is_hex) = has_hex_pubkey-some k.pubkey (ground arith) in
    record {
      pubkey = pubkey;
      given = given;
      is_hex = is_hex;
      origin =
          origin_lem (truthy k.xpub) (truthy k.fingerprint) (truthy k.derivation_path)
            (ground arith);
    }

filter-IsProvisioned : (ks : List RosterKey) → All IsProvisioned (filter is_provisioned ks)
filter-IsProvisioned [] = tt
filter-IsProvisioned (k ∷ ks) = elim (Bool-cases (is_provisioned k)) [
  | inl e ↦ rw (e, if◌then◌else◌) (is_provisioned-IsProvisioned k e, filter-IsProvisioned ks)
  | inr e ↦ rw (e, if◌then◌else◌) (filter-IsProvisioned ks)
]

pub gathered-IsProvisioned :
    (dk : Option DirectKeys) (members : List RosterKey)
    → All IsProvisioned (gathered dk members).founders
      × All IsProvisioned (gathered dk members).heirs
gathered-IsProvisioned none members =
    let ready = filter-IsProvisioned members in
    (filter-keeps IsProvisioned _ _ ready, filter-keeps IsProvisioned _ _ ready)
gathered-IsProvisioned (some dk) members = (
  filter-IsProvisioned (or_else dk.founder_keys []),
  filter-IsProvisioned (or_else dk.heir_keys []),
)
