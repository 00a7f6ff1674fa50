-- ===== src/Clients/L1.antt =====
-- `L1Client` of crates/sequencer/src/l1.rs, over alloy as an interface.
use zk_rollup.Base.{ℕ, Bool, not, Option, none, some, Result, ok, ◌>>=◌, ◌>>◌, map_err, fail_if}
use zk_rollup.Types.Address.{Address}
use zk_rollup.Types.Bytes.{Bytes, Hash}
use zk_rollup.Types.Text.{Text, strip_0x}
use zk_rollup.Rollup.{Submission}
use zk_rollup.Routes.{SettleOutcome}

-- what the client reads of a `TransactionReceipt`
pub record Receipt : Type 0 where
  pub status : Bool
  pub gas_used : ℕ
  pub block_number : Option ℕ

-- alloy: parsing, and the calls over a provider for a URL, signed by a wallet
pub record Alloy : Type 1 where
  pub Error : Type 0
  pub Wallet : Type 0
  pub Url : Type 0
  pub parse_signer : Text → Result Wallet Error
  pub parse_address : Text → Result Address Error
  pub parse_url : Text → Result Url Error
  -- `stateRoot().call()` on the contract at an address
  pub state_root : Wallet → Url → Address → Result Hash Error
  -- `submitBatch(..).gas(..).send()`: the hash of the pending transaction
  pub send : Wallet → Url → Address → Submission → ℕ → Result Hash Error
  -- `get_receipt()` of a pending transaction
  pub get_receipt : Url → Hash → Result Receipt Error

module _ ⦃y : Alloy⦄ where
  pub record L1Client : Type 0 where
    pub rollup_address : Address
    pub rpc_url : Text
    pub wallet : y.Wallet

  pub data L1Error : Type 0 where
    -- "parse DEPLOYER_PRIVATE_KEY", "parse ROLLUP_ADDRESS", "parse L1_RPC_URL"
    bad_private_key : y.Error → L1Error
    bad_address : y.Error → L1Error
    bad_url : y.Error → L1Error
    call_failed : y.Error → L1Error
    send_failed : y.Error → L1Error
    receipt_failed : y.Error → L1Error
    reverted : Hash → Option ℕ → L1Error

  -- `L1Client::connect`
  unfoldable pub connect : Text → Text → Text → Result L1Client L1Error
  connect rpc_url private_key rollup_address = do
    wallet ← map_err bad_private_key (y.parse_signer (strip_0x private_key))
    address ← map_err bad_address (y.parse_address rollup_address)
    ok (record { rollup_address = address; rpc_url = rpc_url; wallet = wallet })

  -- `L1Client::provider`: the wallet goes into each call
  unfoldable pub provider : L1Client → Result y.Url L1Error
  provider client = map_err bad_url (y.parse_url client.rpc_url)

  -- `L1Client::state_root`
  unfoldable pub state_root : L1Client → Result Hash L1Error
  unfolding provider
  state_root client = do
    url ← provider client
    map_err call_failed (y.state_root client.wallet url client.rollup_address)

  -- `receipt.block_number.unwrap_or_default()`
  abbrev pub block_or_default : Option ℕ → ℕ
  block_or_default none = 0
  block_or_default (some n) = n

  abbrev pub gas_limit : ℕ
  gas_limit = 800000

  -- `L1Client::submit_batch`
  unfoldable pub submit_batch : L1Client → Bytes → Bytes → Result SettleOutcome L1Error
  unfolding provider
  submit_batch client public_values proof_bytes = do
    url ← provider client
    tx_hash ← map_err send_failed (
        y.send client.wallet url client.rollup_address
          (record { public_values = public_values; proof_bytes = proof_bytes }) gas_limit)
    receipt ← map_err receipt_failed (y.get_receipt url tx_hash)
    fail_if (not receipt.status) (reverted tx_hash receipt.block_number)
    ok (record {
      tx_hash = tx_hash;
      gas_used = receipt.gas_used;
      block_number = block_or_default receipt.block_number;
    })
