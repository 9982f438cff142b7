-- ===== src/Session/Proposal.antt =====
-- What a proposal has to meet, and the session that an accepted one starts.
use kota.Base.{
  ℕ, ◌≤◌, ◌<◌, ◌≡◌, refl, ap, subst, ◌∙◌, ◌↔◌, true, false, Option, none, some, List, [], ◌∷◌,
  Result, ok, err, arith, length, is_empty, IsDistinct, nat_order,
}
use kota.Base.Ordering.{Order}
use kota.Base.Sort.{sort, dedup, length-sort, length-dedup-sort_iff, sort-IsDistinct}
use kota.Primitives.{PsbtSessionId, UserId, Network, Text, active}
use kota.EsEntity.{IdempotencyGuard}
use kota.Wallet.Types.{Miniscript, WalletEvent, Wallet}
use kota.Wallet.Entity
use kota.Wallet.Entity.{submissions, fingerprints, keystores, keys, NewWallet}
use kota.Wallet.Submissions.{length-keys, length-fingerprints}
use kota.Wallet.Registered.{IsRegistered, Reaches, active_policy}
use kota.Session.Types.{OutPointRef, SpendOutput, ChangeOutput, NewPsbtSession, PsbtSession}
use kota.Session.Propose.{
  SpendSpec, max_fee_sats, max_spend_inputs, max_spend_outputs, Bitcoin, outpoint_eq, outpoint_leb,
  first_twin, is_active, p2wsh_dust_threshold, check_output, check_outputs, check_change, try_new,
  into_events,
}
use kota.Session.Hydrate.{try_from_events}
use kota.Session.WellFormed.{IsWellFormed}
use kota.Session.Replay.{try_from_events_of_IsReplayed}

-- The session that an accepted proposal starts.
abbrev pub session_of : NewPsbtSession → PsbtSession
session_of n = record {
  proposal = n;
  unsigned_psbt_hash = none;
  signatures = [];
  finalization = none;
  events = into_events n;
}

pub outpoint_eq_iff : (a b : OutPointRef) → (outpoint_eq a b ≡ true) ↔ (a ≡ b)
outpoint_eq_iff a b = ground arith

pub outpoint_leb_total : (a b : OutPointRef) → outpoint_leb a b ≡ false → outpoint_leb b a ≡ true
outpoint_leb_total a b h = ground arith

pub outpoint_leb_trans :
    (a b c : OutPointRef)
    → outpoint_leb a b ≡ true
    → outpoint_leb b c ≡ true
    → outpoint_leb a c ≡ true
outpoint_leb_trans a b c h k = ground arith

pub outpoint_leb_antisymm :
    (a b : OutPointRef) → outpoint_leb a b ≡ true → outpoint_leb b a ≡ true → a ≡ b
outpoint_leb_antisymm a b h k = ground arith

instance abbrev pub outpoint_order : Order OutPointRef
outpoint_order = record {
  beq = outpoint_eq;
  leb = outpoint_leb;
  beq_iff = outpoint_eq_iff;
  leb_total = outpoint_leb_total;
  leb_trans = outpoint_leb_trans;
  leb_antisymm = outpoint_leb_antisymm;
}

dedup_of_no_twin : (xs : List OutPointRef) → first_twin xs ≡ none → dedup xs ≡ xs
unfolding first_twin dedup
dedup_of_no_twin [] h = refl
dedup_of_no_twin (x ∷ []) h = refl
dedup_of_no_twin (x ∷ y ∷ ys) h = ground (arith, dedup_of_no_twin (y ∷ ys))

no_twin_of_IsDistinct : (xs : List OutPointRef) → IsDistinct xs → first_twin xs ≡ none
unfolding first_twin
no_twin_of_IsDistinct [] h = refl
no_twin_of_IsDistinct (x ∷ []) h = refl
no_twin_of_IsDistinct (x ∷ y ∷ ys) h =
    ground (arith, no_twin_of_IsDistinct (y ∷ ys), outpoint_eq_iff x y, outpoint_eq_iff y x)

first_twin_iff : (xs : List OutPointRef) → (first_twin (sort xs) ≡ none) ↔ IsDistinct xs
first_twin_iff xs = (
  λ h. (length-dedup-sort_iff xs).0 (ap length (dedup_of_no_twin (sort xs) h) ∙ length-sort xs),
  λ d. no_twin_of_IsDistinct (sort xs) ((sort-IsDistinct xs).1 d),
)

module _ (m : Miniscript) (b : Bitcoin) where
  -- An output that its network accepts and that relays.
  abbrev pub IsPayable : ℕ → Result ℕ Text → Type 0
  IsPayable amount (err reason) = ⊥
  IsPayable amount (ok address) = b.minimal_non_dust (b.script_pubkey address) ≤ amount

  abbrev pub ArePayable : Network → List SpendOutput → Type 0
  ArePayable network [] = Unit
  ArePayable network (o ∷ os) =
      IsPayable o.amount_sats (b.require_network o.address network) × ArePayable network os

  abbrev pub IsSpendableChange : Option ChangeOutput → Type 0
  IsSpendableChange none = Unit
  IsSpendableChange (some c) = p2wsh_dust_threshold m b ≤ c.amount_sats

  pub record IsProposable (wallet : Wallet) (spend : SpendSpec) : Type 0 where
    pub wallet_active : is_active (Entity.status wallet) ≡ true
    pub has_inputs : 0 < length spend.inputs
    pub few_inputs : length spend.inputs ≤ max_spend_inputs
    pub distinct_inputs : IsDistinct spend.inputs
    pub has_outputs : 0 < length spend.outputs
    pub few_outputs : length spend.outputs ≤ max_spend_outputs
    pub payable : ArePayable wallet.network spend.outputs
    pub spendable_change : IsSpendableChange spend.change_output
    pub capped_fee : spend.fee_sats ≤ max_fee_sats

  check_output_iff :
      (network : Network) (amount : ℕ) (r : Result ℕ Text)
      → (check_output m b network amount r ≡ ok tt) ↔ IsPayable amount r
  unfolding check_output
  check_output_iff network amount (err reason) = ground arith
  check_output_iff network amount (ok address) = ground arith

  check_outputs_iff :
      (network : Network) (os : List SpendOutput)
      → (check_outputs m b network os ≡ ok tt) ↔ ArePayable network os
  unfolding check_outputs
  check_outputs_iff network [] = ground arith
  check_outputs_iff network (o ∷ os) = ground (
    arith,
    check_output_iff network o.amount_sats (b.require_network o.address network),
    check_outputs_iff network os,
  )

  check_change_iff : (c : Option ChangeOutput) → (check_change m b c ≡ ok tt) ↔ IsSpendableChange c
  unfolding check_change
  check_change_iff none = ground arith
  check_change_iff (some c) = ground arith

  is_empty_iff : {A : Type 0} (l : List A) → (is_empty l ≡ false) ↔ (0 < length l)
  is_empty_iff [] = ground arith
  is_empty_iff (x ∷ l) = ground arith

  -- What an accepted proposal holds: the spend as given, and the wallet's policy at this moment.
  abbrev pub proposal_of : PsbtSessionId → Wallet → UserId → SpendSpec → NewPsbtSession
  proposal_of id wallet proposed_by spend = record {
    id = id;
    wallet_id = wallet.id;
    proposed_by = proposed_by;
    inputs = spend.inputs;
    outputs = spend.outputs;
    fee_sats = spend.fee_sats;
    change_output = spend.change_output;
    threshold = wallet.threshold;
    keystores = fingerprints m (submissions wallet);
  }

  -- A proposal is accepted exactly if it meets these conditions, and then it holds the spend as
  -- given and a snapshot of the wallet's policy. The conditions: the wallet is active, the inputs
  -- are non-empty, at most 100 and distinct, the outputs are non-empty, at most 100, valid for the
  -- wallet network and not dust, the change is not dust, and the fee is within the cap. That the
  -- amounts balance is not among them.
  pub try_new_iff :
      (id : PsbtSessionId) (wallet : Wallet) (user : UserId) (spend : SpendSpec)
      → (try_new m b id wallet user spend ≡ ok (proposal_of id wallet user spend))
        ↔ IsProposable wallet spend
  unfolding try_new
  try_new_iff id wallet user spend = ground (
    arith,
    is_empty_iff spend.inputs,
    is_empty_iff spend.outputs,
    first_twin_iff spend.inputs,
    check_outputs_iff wallet.network spend.outputs,
    check_change_iff spend.change_output,
  )

  pub try_new-snapshot :
      (id : PsbtSessionId) (v : Wallet) (user : UserId) (spend : SpendSpec) (p : NewPsbtSession)
      → try_new m b id v user spend ≡ ok p
      → (Entity.status v ≡ active) × (proposal_of id v user spend ≡ p)
  unfolding try_new
  try_new-snapshot id v user spend p h = ground arith

  snapshot-IsWellFormed :
      (v : Wallet) (id : PsbtSessionId) (user : UserId) (spend : SpendSpec)
      → 0 < v.threshold
      → v.threshold ≤ length (keystores v)
      → IsDistinct (fingerprints m (submissions v))
      → IsWellFormed (session_of (proposal_of id v user spend))
  snapshot-IsWellFormed v id user spend t f d = record {
    threshold_pos = t;
    threshold_fits =
        omega (arith, length-keys (submissions v), length-fingerprints m (submissions v));
    keystores_distinct = d;
    signers_known = refl;
    signers_distinct = tt;
    authorized = tt;
  }

  -- A proposal on any wallet that registration and commands lead to starts a session: its only
  -- event hydrates, so the policy that it snapshots is in range and without duplicates.
  pub try_new-hydrates :
      (guard : IdempotencyGuard WalletEvent) (n : NewWallet) (w v : Wallet) (id : PsbtSessionId)
      (user : UserId) (spend : SpendSpec) (p : NewPsbtSession)
      → IsRegistered m guard n w
      → Reaches m guard w v
      → try_new m b id v user spend ≡ ok p
      → try_from_events (into_events p) ≡ ok (session_of p)
  try_new-hydrates guard n w v id user spend p r c h =
      let s = try_new-snapshot id v user spend p h in
      let a = active_policy m guard n w v r c s.0 in
      try_from_events_of_IsReplayed (session_of p) (record { replayed = refl })
        (subst (λ q. IsWellFormed (session_of q)) s.1
          (snapshot-IsWellFormed v id user spend a.1 a.2 a.4))
