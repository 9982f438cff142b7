-- ===== src/Session/Propose.antt =====
-- Proposing a spend: `NewPsbtSession::try_new`, core/coordination/src/psbt_session/entity.rs.
use kota.Base.{
  ℕ, Bool, true, false, not, ◌&&◌, Option, none, some, List, [], ◌∷◌, Result, ok, err, ◌>>=◌, ◌>>◌,
  length, is_empty, ltb, leb, ◌==◌, if◌then◌else◌,
}
use kota.Base.Sort.{sort_by}
use kota.Primitives.{PsbtSessionId, UserId, Network, BitcoinAddress, Text, WalletStatus, active}
use kota.Wallet.Types.{Miniscript, Wallet}
use kota.Wallet.Entity.{submissions, fingerprints}
use kota.Wallet.Entity
use kota.Session.Types.{
  OutPointRef, SpendOutput, ChangeOutput, NewPsbtSession, PsbtSessionEvent, initialized,
  PsbtSessionError, wallet_not_active, empty_inputs, empty_outputs, duplicate_input,
  fee_exceeds_max, invalid_address, dust_output, too_many_inputs, too_many_outputs,
}

pub record SpendSpec : Type 0 where
  pub inputs : List OutPointRef
  pub outputs : List SpendOutput
  pub fee_sats : ℕ
  pub change_output : Option ChangeOutput

abbrev pub max_fee_sats : ℕ
max_fee_sats = 1_000_000

abbrev pub max_spend_inputs : ℕ
max_spend_inputs = 100

abbrev pub max_spend_outputs : ℕ
max_spend_outputs = 100

-- What the proposal takes from the bitcoin crate. Addresses and scripts are numbers that the code
-- does not look into.
pub record Bitcoin : Type 0 where
  pub require_network : BitcoinAddress → Network → Result ℕ Text
  pub script_pubkey : ℕ → ℕ
  pub minimal_non_dust : ℕ → ℕ
  pub new_p2wsh : ℕ → ℕ

-- The derived order of `OutPointRef`: by transaction, then by index.
abbrev pub outpoint_eq : OutPointRef → OutPointRef → Bool
outpoint_eq a b = (a.txid == b.txid) && (a.vout == b.vout)

abbrev pub outpoint_leb : OutPointRef → OutPointRef → Bool
outpoint_leb a b = if a.txid == b.txid then leb a.vout b.vout else ltb a.txid b.txid

-- `windows(2).find(|w| w[0] == w[1])`
unfoldable pub first_twin : List OutPointRef → Option OutPointRef
first_twin [] = none
first_twin (x ∷ []) = none
first_twin (x ∷ y ∷ ys) = let rest = first_twin (y ∷ ys) in if outpoint_eq x y then some x else rest

abbrev pub Checked : Type 0
Checked = Result (Unit {0}) PsbtSessionError

-- `if b { return Err(e) }`
abbrev pub refuse_if : Bool → PsbtSessionError → Checked
refuse_if true e = err e
refuse_if false e = ok tt

abbrev pub refuse_twin : Option OutPointRef → Checked
refuse_twin none = ok tt
refuse_twin (some o) = err (duplicate_input o.txid o.vout)

abbrev pub is_active : WalletStatus → Bool
is_active active = true
is_active _ = false

module _ (m : Miniscript) (b : Bitcoin) where
  abbrev pub p2wsh_dust_threshold : ℕ
  p2wsh_dust_threshold = b.minimal_non_dust (b.new_p2wsh 0)

  -- The loop over the outputs.
  unfoldable pub check_output : Network → ℕ → Result ℕ Text → Checked
  check_output network amount (err reason) = err (invalid_address network reason)
  check_output network amount (ok address) =
      let dust = b.minimal_non_dust (b.script_pubkey address) in
      refuse_if (ltb amount dust) (dust_output amount dust)

  unfoldable pub check_outputs : Network → List SpendOutput → Checked
  unfolding check_output
  check_outputs network [] = ok tt
  check_outputs network (o ∷ os) =
      let rest = check_outputs network os in
      check_output network o.amount_sats (b.require_network o.address network) >>= λ _. rest

  unfoldable pub check_change : Option ChangeOutput → Checked
  check_change none = ok tt
  check_change (some c) =
      refuse_if (ltb c.amount_sats p2wsh_dust_threshold)
        (dust_output c.amount_sats p2wsh_dust_threshold)

  unfoldable pub try_new :
      PsbtSessionId → Wallet → UserId → SpendSpec → Result NewPsbtSession PsbtSessionError
  unfolding first_twin check_outputs check_change
  try_new id wallet proposed_by spend = do
    refuse_if (not (is_active (Entity.status wallet)))
        (wallet_not_active wallet.id (Entity.status wallet))
    refuse_if (is_empty spend.inputs) empty_inputs
    refuse_if (ltb max_spend_inputs (length spend.inputs))
        (too_many_inputs (length spend.inputs) max_spend_inputs)
    refuse_twin (first_twin (sort_by outpoint_leb spend.inputs))
    refuse_if (is_empty spend.outputs) empty_outputs
    refuse_if (ltb max_spend_outputs (length spend.outputs))
        (too_many_outputs (length spend.outputs) max_spend_outputs)
    check_outputs wallet.network spend.outputs
    check_change spend.change_output
    refuse_if (ltb max_fee_sats spend.fee_sats) (fee_exceeds_max spend.fee_sats max_fee_sats)
    ok (record {
      id = id;
      wallet_id = wallet.id;
      proposed_by = proposed_by;
      inputs = spend.inputs;
      outputs = spend.outputs;
      fee_sats = spend.fee_sats;
      change_output = spend.change_output;
      threshold = wallet.threshold;
      keystores = fingerprints m (submissions wallet);
    })

abbrev pub into_events : NewPsbtSession → List PsbtSessionEvent
into_events n = initialized n ∷ []
