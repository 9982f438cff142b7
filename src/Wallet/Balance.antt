-- ===== src/Wallet/Balance.antt =====
-- What an unsigned PSBT is built from.
use kota.Base.{
  ok_of_bind, ℕ, ◌+◌, ◌^◌, ◌<◌, ◌≤◌, ◌≡◌, refl, ap, subst, ◌∙◌, Option, none, some, List, [], ◌∷◌,
  ◌++◌, Result, ok, ◌>>=◌, arith,
}
use kota.Primitives.{Network}
use kota.Session.Types.{OutPointRef, SpendOutput, ChangeOutput}
use kota.Session.Propose.{SpendSpec}
use kota.Wallet.Types.{Descriptor, WalletError}
use kota.Wallet.Build.{
  TxOut, FundingUtxo, TxIn, PsbtBuilder, find_funding, funding_or_err, checked_add, take_coin,
  Funded, Paid, Draft, invalid_or, fund_input, fund_inputs, pay, pay_output, pay_outputs,
  pay_change, balance, draft, complete, build_unsigned_psbt,
}

abbrev pub total_value : List TxOut → ℕ
total_value [] = 0
total_value (o ∷ os) = o.value + total_value os

total_value-append :
    (xs : List TxOut) (o : TxOut) → total_value (xs ++ o ∷ []) ≡ total_value xs + o.value
total_value-append [] o = omega arith
total_value-append (x ∷ xs) o = omega (arith, total_value-append xs o)

abbrev pub spent : List TxIn → List OutPointRef
spent [] = []
spent (i ∷ is) = i.previous_output ∷ spent is

spent-append :
    (is : List TxIn) (i : TxIn) (os : List OutPointRef)
    → spent (is ++ i ∷ []) ++ os ≡ spent is ++ i.previous_output ∷ os
spent-append [] i os = refl
spent-append (j ∷ is) i os = ap (λ rest. j.previous_output ∷ rest) (spent-append is i os)

append_nil : (os : List OutPointRef) → os ++ [] ≡ os
append_nil [] = refl
append_nil (o ∷ os) = ap (λ rest. o ∷ rest) (append_nil os)

checked_add_ok : (a b n : ℕ) → checked_add a b ≡ ok n → n ≡ a + b
checked_add_ok a b n h = ground arith

checked_add_fits : (a b n : ℕ) → checked_add a b ≡ ok n → n < 2 ^ 64
checked_add_fits a b n h = ground arith

ok_injective {ℓ} : {A : Type ℓ} (r : Result A WalletError) (x y : A) → r ≡ ok x → r ≡ ok y → x ≡ y
ok_injective r x y g h = cc

module _ (b : PsbtBuilder) (descriptor : Descriptor) (funding : List FundingUtxo)
    (inputs : List OutPointRef) where
  -- The coins so far, with `os` still to come.
  record IsFunded (os : List OutPointRef) (acc : Funded) : Type 0 where
    pub sum : acc.total_in ≡ total_value acc.witness_utxos
    pub fits : acc.total_in < 2 ^ 64
    pub all_of : spent acc.tx_inputs ++ os ≡ inputs

  take_coin-IsFunded :
      (o : OutPointRef) (os : List OutPointRef) (f : FundingUtxo) (acc : Funded) (n d : ℕ)
      → IsFunded (o ∷ os) acc
      → checked_add acc.total_in f.txout.value ≡ ok n
      → IsFunded os (take_coin b descriptor funding o f acc n d)
  take_coin-IsFunded o os f acc n d s h = record {
    sum = omega (
      arith,
      checked_add_ok acc.total_in f.txout.value n h,
      total_value-append acc.witness_utxos f.txout,
      s.sum,
    );
    fits = checked_add_fits acc.total_in f.txout.value n h;
    all_of =
        spent-append acc.tx_inputs (record { previous_output = o; sequence = 4_294_967_293 }) os
        ∙ s.all_of;
  }

  fund_input-IsFunded :
      (o : OutPointRef) (os : List OutPointRef) (acc r : Funded)
      → IsFunded (o ∷ os) acc
      → fund_input b descriptor funding o acc ≡ ok r
      → IsFunded os r
  unfolding fund_input
  fund_input-IsFunded o os acc r s h =
      let coin =
        ok_of_bind (funding_or_err o (find_funding o funding))
          (λ f. checked_add acc.total_in f.txout.value >>= λ total.
            b.at_derivation_index descriptor f.derivation_index >>= λ derived.
            ok (take_coin b descriptor funding o f acc total derived))
          r h in
      let sum =
        ok_of_bind (checked_add acc.total_in coin.0.txout.value)
          (λ total. b.at_derivation_index descriptor coin.0.derivation_index >>= λ derived.
            ok (take_coin b descriptor funding o coin.0 acc total derived))
          r coin.2 in
      let derived =
        ok_of_bind (b.at_derivation_index descriptor coin.0.derivation_index)
          (λ derived. ok (take_coin b descriptor funding o coin.0 acc sum.0 derived)) r sum.2 in
      subst (IsFunded os)
        (ok_injective (ok (take_coin b descriptor funding o coin.0 acc sum.0 derived.0))
          (take_coin b descriptor funding o coin.0 acc sum.0 derived.0) r refl derived.2)
        (take_coin-IsFunded o os coin.0 acc sum.0 derived.0 s sum.1)

  fund_inputs-IsFunded :
      (os : List OutPointRef) (acc r : Funded)
      → IsFunded os acc
      → fund_inputs b descriptor funding os acc ≡ ok r
      → IsFunded [] r
  unfolding fund_inputs
  fund_inputs-IsFunded [] acc r s h = subst (IsFunded []) (ok_injective (ok acc) acc r refl h) s
  fund_inputs-IsFunded (o ∷ os) acc r s h =
      let next =
        ok_of_bind (fund_input b descriptor funding o acc)
          (λ next. fund_inputs b descriptor funding os next) r h in
      fund_inputs-IsFunded os next.0 r (fund_input-IsFunded o os acc next.0 s next.1) next.2

module _ (b : PsbtBuilder) (descriptor : Descriptor) (funding : List FundingUtxo) (fee : ℕ) where
  -- The outputs so far and the fee are counted.
  abbrev IsCounted : Paid → Type 0
  IsCounted p = p.total_out ≡ fee + total_value p.tx_outputs

  pay-IsCounted :
      (acc r : Paid) (amount script : ℕ)
      → IsCounted acc
      → pay b descriptor funding acc amount script ≡ ok r
      → IsCounted r
  pay-IsCounted acc r amount script s h = ground (
    arith,
    checked_add_ok acc.total_out amount r.total_out,
    total_value-append acc.tx_outputs (record { value = amount; script_pubkey = script }),
  )

  pay_outputs-IsCounted :
      (network : Network) (os : List SpendOutput) (acc r : Paid)
      → IsCounted acc
      → pay_outputs b descriptor funding network os acc ≡ ok r
      → IsCounted r
  unfolding pay_outputs pay_output
  pay_outputs-IsCounted network [] acc r s h = ground arith
  pay_outputs-IsCounted network (o ∷ os) acc r s h =
      let next =
        ok_of_bind (pay_output b descriptor funding network o acc)
          (λ next. pay_outputs b descriptor funding network os next) r h in
      let address =
        ok_of_bind (invalid_or (b.require_network o.address network))
          (λ address. pay b descriptor funding acc o.amount_sats (b.address_script address)) next.0
          next.1 in
      pay_outputs-IsCounted network os next.0 r
        (pay-IsCounted acc next.0 o.amount_sats (b.address_script address.0) s address.2) next.2

  pay_change-IsCounted :
      (change : Option ChangeOutput) (acc : Paid) (r : Paid × Option ℕ)
      → IsCounted acc
      → pay_change b descriptor funding change acc ≡ ok r
      → IsCounted r.0
  unfolding pay_change
  pay_change-IsCounted none acc r s h =
      subst (λ p. IsCounted p.0) (ok_injective (ok (acc, none)) (acc, none) r refl h) s
  pay_change-IsCounted (some change) acc r s h =
      let derived =
        ok_of_bind (b.at_derivation_index descriptor change.derivation_index)
          (λ derived.
            pay b descriptor funding acc change.amount_sats (b.derived_script derived) >>= λ next.
            ok (next, some derived))
          r h in
      let next =
        ok_of_bind (pay b descriptor funding acc change.amount_sats (b.derived_script derived.0))
          (λ next. ok (next, some derived.0)) r derived.2 in
      subst (λ p. IsCounted p.0)
        (ok_injective (ok (next.0, some derived.0)) (next.0, some derived.0) r refl next.2)
        (pay-IsCounted acc next.0 change.amount_sats (b.derived_script derived.0) s next.1)

-- The transaction spends the given inputs, and what it spends is what it pays and the fee.
pub record IsBalanced (spend : SpendSpec) (d : Draft) : Type 0 where
  pub inputs : spent d.tx.input ≡ spend.inputs
  pub amounts : total_value d.witness_utxos ≡ spend.fee_sats + total_value d.tx.output
  pub fits : total_value d.witness_utxos < 2 ^ 64

module _ (b : PsbtBuilder) (descriptor : Descriptor) (funding : List FundingUtxo)
    (spend : SpendSpec) (network : Network) where
  balance-IsBalanced :
      (f : Funded) (q : Paid × Option ℕ) (d : Draft)
      → IsFunded b descriptor funding spend.inputs [] f
      → IsCounted b descriptor funding spend.fee_sats q.0
      → balance b descriptor funding spend.fee_sats f q ≡ ok d
      → IsBalanced spend d
  balance-IsBalanced f q d s c h = record {
    inputs = ground (arith, s.all_of, append_nil (spent f.tx_inputs));
    amounts = ground (arith, s.sum);
    fits = ground (arith, s.sum, s.fits);
  }

  -- The total that `balance` subtracts the fee from is at least the fee.
  fee-le-total_out :
      (p : Paid) (q : Paid × Option ℕ)
      → pay_outputs b descriptor funding network spend.outputs
          (record { total_out = spend.fee_sats; tx_outputs = [] })
        ≡ ok p
      → pay_change b descriptor funding spend.change_output p ≡ ok q
      → spend.fee_sats ≤ q.0.total_out
  fee-le-total_out p q g h =
      let counted : IsCounted b descriptor funding spend.fee_sats q.0 =
        pay_change-IsCounted b descriptor funding spend.fee_sats spend.change_output p q
          (pay_outputs-IsCounted b descriptor funding spend.fee_sats network spend.outputs
            (record { total_out = spend.fee_sats; tx_outputs = [] }) p (omega arith) g)
          h in
      omega (arith, counted)

  draft-IsBalanced :
      (d : Draft) → draft b descriptor funding spend network ≡ ok d → IsBalanced spend d
  unfolding draft
  draft-IsBalanced d h =
      let f =
        ok_of_bind (fund_inputs b descriptor funding spend.inputs no_coins)
          (λ f. pay_outputs b descriptor funding network spend.outputs fee_only >>= λ p.
            pay_change b descriptor funding spend.change_output p >>= λ q.
            balance b descriptor funding spend.fee_sats f q)
          d h in
      let p =
        ok_of_bind (pay_outputs b descriptor funding network spend.outputs fee_only)
          (λ p. pay_change b descriptor funding spend.change_output p >>= λ q.
            balance b descriptor funding spend.fee_sats f.0 q)
          d f.2 in
      let q =
        ok_of_bind (pay_change b descriptor funding spend.change_output p.0)
          (λ q. balance b descriptor funding spend.fee_sats f.0 q) d p.2 in
      balance-IsBalanced f.0 q.0 d
        (fund_inputs-IsFunded b descriptor funding spend.inputs spend.inputs no_coins f.0
          (record { sum = refl; fits = omega arith; all_of = refl }) f.1)
        (pay_change-IsCounted b descriptor funding spend.fee_sats spend.change_output p.0 q.0
          (pay_outputs-IsCounted b descriptor funding spend.fee_sats network spend.outputs fee_only
            p.0 (omega arith) p.1)
          q.1)
        q.2
    where
      no_coins : Funded
      no_coins = record {
        total_in = 0;
        tx_inputs = [];
        witness_utxos = [];
        derived_descriptors = [];
      }

      fee_only : Paid
      fee_only = record { total_out = spend.fee_sats; tx_outputs = [] }

  -- An unsigned PSBT that `build_unsigned_psbt` returns is completed from a transaction that spends
  -- exactly the inputs of the spend, in their order, and whose coins, in sats, add up to its
  -- outputs, change included, and the fee, a total below 2^64.
  pub build_unsigned_psbt-IsBalanced :
      (psbt : ℕ)
      → build_unsigned_psbt b descriptor funding spend network ≡ ok psbt
      → (d : Draft) × IsBalanced spend d × (complete b descriptor funding d ≡ ok psbt)
  unfolding build_unsigned_psbt
  build_unsigned_psbt-IsBalanced psbt h =
      let d =
        ok_of_bind (draft b descriptor funding spend network) (λ d. complete b descriptor funding d)
          psbt h in
      (d.0, draft-IsBalanced d.0 d.1, d.2)
