-- ===== src/Wallet/Build.antt =====
-- The unsigned PSBT of a spend: `build_unsigned_psbt`, core/coordination/src/wallet.rs.
use kota.Base.{
  ℕ, suc, ◌+◌, ◌-◌, ◌^◌, Option, none, some, List, [], ◌∷◌, ◌++◌, Result, ok, err, ◌>>=◌, ltb, ◌==◌,
  if◌then◌else◌, length,
}
use kota.Primitives.{Network, BitcoinAddress, Text}
use kota.Session.Types.{OutPointRef, SpendOutput, ChangeOutput}
use kota.Session.Propose.{SpendSpec, outpoint_eq}
use kota.Wallet.Types.{
  Descriptor, WalletError, missing_funding, amount_overflow, amount_mismatch, invalid_address,
  psbt_error,
}

pub record TxOut : Type 0 where
  pub value : ℕ  -- u64
  pub script_pubkey : ℕ

pub record FundingUtxo : Type 0 where
  pub outpoint : OutPointRef
  pub txout : TxOut
  pub derivation_index : ℕ  -- u32

pub record TxIn : Type 0 where
  pub previous_output : OutPointRef
  pub sequence : ℕ

pub record Transaction : Type 0 where
  pub version : ℕ
  pub lock_time : ℕ
  pub input : List TxIn
  pub output : List TxOut

-- What the function takes from bitcoin and miniscript. Scripts, derived descriptors and documents
-- are numbers that the code hands on.
pub record PsbtBuilder : Type 0 where
  pub require_network : BitcoinAddress → Network → Result ℕ Text
  pub address_script : ℕ → ℕ
  pub at_derivation_index : Descriptor → ℕ → Result ℕ WalletError
  pub derived_script : ℕ → ℕ
  pub from_unsigned_tx : Transaction → Result ℕ Text
  pub set_witness_utxo : ℕ → ℕ → TxOut → ℕ
  pub update_input_with_descriptor : ℕ → ℕ → ℕ → Result ℕ WalletError
  pub update_output_with_descriptor : ℕ → ℕ → ℕ → Result ℕ WalletError

-- `Sequence::ENABLE_RBF_NO_LOCKTIME`
abbrev pub enable_rbf_no_locktime : ℕ
enable_rbf_no_locktime = 4_294_967_293

-- `checked_add(..).ok_or(WalletError::AmountOverflow)`
abbrev pub checked_add : ℕ → ℕ → Result ℕ WalletError
checked_add a b = if ltb (a + b) (2 ^ 64) then ok (a + b) else err amount_overflow

abbrev pub find_funding : OutPointRef → List FundingUtxo → Option FundingUtxo
find_funding o [] = none
find_funding o (f ∷ fs) =
    let rest = find_funding o fs in if outpoint_eq f.outpoint o then some f else rest

abbrev pub funding_or_err : OutPointRef → Option FundingUtxo → Result FundingUtxo WalletError
funding_or_err o none = err (missing_funding o.txid o.vout)
funding_or_err o (some f) = ok f

-- The vectors and the total of the loop over the inputs.
pub record Funded : Type 0 where
  pub total_in : ℕ
  pub tx_inputs : List TxIn
  pub witness_utxos : List TxOut
  pub derived_descriptors : List ℕ

-- The vector and the total of the loop over the outputs.
pub record Paid : Type 0 where
  pub total_out : ℕ
  pub tx_outputs : List TxOut

-- What the transaction is completed with.
pub record Draft : Type 0 where
  pub tx : Transaction
  pub witness_utxos : List TxOut
  pub derived_descriptors : List ℕ
  pub change_descriptor : Option ℕ

abbrev pub invalid_or : Result ℕ Text → Result ℕ WalletError
invalid_or (ok a) = ok a
invalid_or (err why) = err (invalid_address why)

abbrev pub psbt_or : Result ℕ Text → Result ℕ WalletError
psbt_or (ok p) = ok p
psbt_or (err why) = err (psbt_error why)

module _ (b : PsbtBuilder) (descriptor : Descriptor) (funding : List FundingUtxo) where
  abbrev pub take_coin : OutPointRef → FundingUtxo → Funded → ℕ → ℕ → Funded
  take_coin o f acc total derived = record {
    total_in = total;
    tx_inputs =
        acc.tx_inputs ++ record { previous_output = o; sequence = enable_rbf_no_locktime } ∷ [];
    witness_utxos = acc.witness_utxos ++ f.txout ∷ [];
    derived_descriptors = acc.derived_descriptors ++ derived ∷ [];
  }

  unfoldable pub fund_input : OutPointRef → Funded → Result Funded WalletError
  fund_input o acc = funding_or_err o (find_funding o funding) >>= λ f.
      checked_add acc.total_in f.txout.value >>= λ total.
      b.at_derivation_index descriptor f.derivation_index >>= λ derived.
      ok (take_coin o f acc total derived)

  -- The loop over the inputs.
  unfoldable pub fund_inputs : List OutPointRef → Funded → Result Funded WalletError
  unfolding fund_input
  fund_inputs [] acc = ok acc
  fund_inputs (o ∷ os) acc = fund_input o acc >>= λ next. fund_inputs os next

  abbrev pub pay : Paid → ℕ → ℕ → Result Paid WalletError
  pay acc amount script = checked_add acc.total_out amount >>= λ total. ok (record {
    total_out = total;
    tx_outputs = acc.tx_outputs ++ record { value = amount; script_pubkey = script } ∷ [];
  })

  unfoldable pub pay_output : Network → SpendOutput → Paid → Result Paid WalletError
  pay_output network o acc = invalid_or (b.require_network o.address network) >>= λ address.
      pay acc o.amount_sats (b.address_script address)

  -- The loop over the outputs.
  unfoldable pub pay_outputs : Network → List SpendOutput → Paid → Result Paid WalletError
  unfolding pay_output
  pay_outputs network [] acc = ok acc
  pay_outputs network (o ∷ os) acc =
      pay_output network o acc >>= λ next. pay_outputs network os next

  -- The change output, with the descriptor it is derived from.
  unfoldable pub pay_change : Option ChangeOutput → Paid → Result (Paid × Option ℕ) WalletError
  pay_change none acc = ok (acc, none)
  pay_change (some change) acc =
      b.at_derivation_index descriptor change.derivation_index >>= λ derived.
      pay acc change.amount_sats (b.derived_script derived) >>= λ next. ok (next, some derived)

  abbrev pub balance : ℕ → Funded → Paid × Option ℕ → Result Draft WalletError
  balance fee f p =
      if f.total_in == p.0.total_out
      then ok (record {
        tx = record { version = 2; lock_time = 0; input = f.tx_inputs; output = p.0.tx_outputs };
        witness_utxos = f.witness_utxos;
        derived_descriptors = f.derived_descriptors;
        change_descriptor = p.1;
      })
      else err (amount_mismatch f.total_in (p.0.total_out - fee) fee)

  -- Everything before `Psbt::from_unsigned_tx`.
  unfoldable pub draft : SpendSpec → Network → Result Draft WalletError
  unfolding fund_inputs pay_outputs pay_change
  draft spend network =
      fund_inputs spend.inputs
        (record { total_in = 0; tx_inputs = []; witness_utxos = []; derived_descriptors = [] })
      >>= λ f.
          pay_outputs network spend.outputs (record { total_out = spend.fee_sats; tx_outputs = [] })
          >>= λ p. pay_change spend.change_output p >>= λ q. balance spend.fee_sats f q

  -- The loop over the derived descriptors; both lists grow together, so neither runs out first.
  unfoldable pub update_inputs : ℕ → List ℕ → List TxOut → ℕ → Result ℕ WalletError
  update_inputs idx (d ∷ ds) (w ∷ ws) psbt =
      b.update_input_with_descriptor (b.set_witness_utxo psbt idx w) idx d >>= λ next.
      update_inputs (suc idx) ds ws next
  update_inputs idx _ _ psbt = ok psbt

  abbrev pub update_change : ℕ → Option ℕ → ℕ → Result ℕ WalletError
  update_change n none psbt = ok psbt
  update_change n (some derived) psbt = b.update_output_with_descriptor psbt (n - 1) derived

  unfoldable pub complete : Draft → Result ℕ WalletError
  unfolding update_inputs
  complete d = psbt_or (b.from_unsigned_tx d.tx) >>= λ psbt.
      update_inputs 0 d.derived_descriptors d.witness_utxos psbt >>= λ psbt.
      update_change (length d.tx.output) d.change_descriptor psbt

  unfoldable pub build_unsigned_psbt : SpendSpec → Network → Result ℕ WalletError
  unfolding draft complete
  build_unsigned_psbt spend network = draft spend network >>= λ d. complete d
