-- ===== src/Server/Proposals.antt =====
-- netlify/functions/proposals.js: the proposals of a vault's spends, listed, created and updated. The
-- signed-in user, the compiler, the chain's explorer and the database's error on a write are
-- parameters; a request is one step of the database.
pub mod Patch
pub mod Create
pub mod Ledger
use dynastytrust.Prelude.{
  ℕ, zero, suc, String, Bool, true, false, ◌&&◌, ◌||◌, not, Option, none, some, is_some, List, [],
  ◌∷◌, str_eq, if◌then◌else◌,
}
use Prim.Native.String
use Prim.Native.Char.{code}
use dynastytrust.Psbt.Hex.{hex_value}
use dynastytrust.Server.Store.{
  ProposalStatus, draft, pending, signed, broadcast, cancelled, fulfilled, Database, VaultEvent,
}

-- A transaction as the explorer gives it; a script may have no address.
pub record TxOutput : Type 0 where
  pub scriptpubkey_address : Option String
  pub value : ℕ

-- What a call of the explorer gives: the outputs of a transaction, or the message of its error.
pub data Fetched : Type 0 where
  failed : String → Fetched
  fetched : List TxOutput → Fetched

abbrev pub is_terminal : ProposalStatus → Bool
is_terminal draft = false
is_terminal pending = false
is_terminal signed = false
is_terminal broadcast = true
is_terminal cancelled = true
is_terminal fulfilled = true

abbrev pub status_name : ProposalStatus → String
status_name draft = "draft"
status_name pending = "pending"
status_name signed = "signed"
status_name broadcast = "broadcast"
status_name cancelled = "cancelled"
status_name fulfilled = "fulfilled"

-- The status of a name in `VALID_STATUSES`.
abbrev pub valid_status : String → Option ProposalStatus
valid_status name =
    if str_eq name "draft"
    then some draft
    else if str_eq name "pending"
    then some pending
    else if str_eq name "signed"
    then some signed
    else if str_eq name "broadcast"
    then some broadcast
    else if str_eq name "cancelled"
    then some cancelled
    else if str_eq name "fulfilled"
    then some fulfilled
    else none

-- `MEMPOOL[network] || MEMPOOL.testnet`
abbrev pub mempool_base : String → String
mempool_base network =
    if str_eq network "signet"
    then "https://mempool.space/signet/api"
    else if str_eq network "bitcoin"
    then "https://mempool.space/api"
    else "https://mempool.space/testnet/api"

-- A text of so many hexadecimal digits, in either case.
unfoldable pub is_hex_text : ℕ → String → Bool
is_hex_text zero String.[] = true
is_hex_text (suc n) String.[] = false
is_hex_text zero (String.◌∷◌ c s) = false
is_hex_text (suc n) (String.◌∷◌ c s) = is_some (hex_value (code c)) && is_hex_text n s

abbrev pub log_event : VaultEvent → Database → Database
log_event event db = record db { events = event ∷ db.events }
