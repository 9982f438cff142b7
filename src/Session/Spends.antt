-- ===== src/Session/Spends.antt =====
-- Proposals on a concrete wallet, and the theorems at them.
use kota.Base.{List, ◌+◌, ◌≡◌, ◌↔◌, refl, none, [], ◌∷◌, ok, err}
use kota.Base.Sort.{sort_by}
use kota.Wallet.Types.{key_eq}
use kota.Wallet.Descriptor.{keystore_fingerprint, sortedmulti_wsh_descriptor, string_leb}
use kota.Wallet.Entity.{add_keystore, activation}
use kota.Wallet.Registered.{execute}
use kota.Wallet.Examples.{toy, guard, policy, registered, full, policy-IsRegistered, full-Reaches}
use kota.Wallet.Build.{FundingUtxo, PsbtBuilder, Draft, complete, build_unsigned_psbt}
use kota.Wallet.Balance.{IsBalanced, build_unsigned_psbt-IsBalanced}
use kota.Session.Types.{duplicate_input, NewPsbtSession}
use kota.Session.Hydrate.{try_from_events}
use kota.Session.Propose.{SpendSpec, Bitcoin, try_new, into_events}
use kota.Session.Proposal.{IsProposable, proposal_of, session_of, try_new_iff, try_new-hydrates}

-- A stand-in for the bitcoin crate: an address is its script, and 330 sats are dust's bound.
abbrev pub chain : Bitcoin
chain = record {
  require_network = λ a n. ok a;
  script_pubkey = λ a. a;
  minimal_non_dust = λ s. 330;
  new_p2wsh = λ h. h;
}

abbrev pub spend : SpendSpec
spend = record {
  inputs = record { txid = 9; vout = 1 } ∷ record { txid = 9; vout = 0 } ∷ [];
  outputs = record { address = 5; amount_sats = 90_000 } ∷ [];
  fee_sats = 500;
  change_output = none;
}

abbrev pub proposal : NewPsbtSession
proposal = proposal_of toy chain 8 full 21 spend

pub spend_accepted : try_new toy chain 8 full 21 spend ≡ ok proposal
unfolding try_new sort_by execute add_keystore activation key_eq keystore_fingerprint
    sortedmulti_wsh_descriptor string_leb
spend_accepted = refl

double_spend_refused :
    try_new toy chain 8 full 21
      (record spend { inputs = record { txid = 9; vout = 1 } ∷ record { txid = 9; vout = 1 } ∷ [] })
    ≡ err (duplicate_input 9 1)
unfolding try_new sort_by execute add_keystore activation key_eq keystore_fingerprint
    sortedmulti_wsh_descriptor string_leb
double_spend_refused = refl

try_new_iff_example :
    (try_new toy chain 8 full 21 spend ≡ ok (proposal_of toy chain 8 full 21 spend))
    ↔ IsProposable toy chain full spend
try_new_iff_example = try_new_iff toy chain 8 full 21 spend

try_new-hydrates_example : try_from_events (into_events proposal) ≡ ok (session_of proposal)
try_new-hydrates_example =
    try_new-hydrates toy chain guard policy registered full 8 21 spend proposal policy-IsRegistered
      full-Reaches spend_accepted

-- A stand-in for miniscript: a document counts the calls that were made on it.
abbrev pub builder : PsbtBuilder
builder = record {
  require_network = λ a n. ok a;
  address_script = λ a. a;
  at_derivation_index = λ d i. ok (d + i);
  derived_script = λ d. d;
  from_unsigned_tx = λ tx. ok 1;
  set_witness_utxo = λ psbt idx w. psbt + 10;
  update_input_with_descriptor = λ psbt idx d. ok (psbt + 100);
  update_output_with_descriptor = λ psbt idx d. ok (psbt + 1000);
}

abbrev pub coins : List FundingUtxo
coins =
    record {
      outpoint = record { txid = 9; vout = 0 };
      txout = record { value = 50_000; script_pubkey = 7 };
      derivation_index = 0;
    }
    ∷ record {
      outpoint = record { txid = 9; vout = 1 };
      txout = record { value = 40_500; script_pubkey = 8 };
      derivation_index = 1;
    }
    ∷ []

psbt_built : build_unsigned_psbt builder 5 coins spend 21 ≡ ok 221
unfolding build_unsigned_psbt
psbt_built = refl

build_unsigned_psbt-IsBalanced_example :
    (d : Draft) × IsBalanced spend d × (complete builder 5 coins d ≡ ok 221)
build_unsigned_psbt-IsBalanced_example =
    build_unsigned_psbt-IsBalanced builder 5 coins spend 21 221 psbt_built
