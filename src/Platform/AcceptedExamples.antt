-- ===== src/Platform/AcceptedExamples.antt =====
-- Requests that are not refused, on concrete input.
use kota.Base.{◌≡◌, refl, true, false, some, [], ◌∷◌, ok, contains, nat_order}
use kota.Base.Sort.{sort_by, dedup}
use kota.Session.Types.{PsbtSession}
use kota.Session.Entity.{status, is_collecting, has_signed, record_psbt_created}
use kota.Session.Hydrate.{try_from_events, verify_hydrated_invariants}
use kota.Session.Proposal.{session_of, try_new_iff}
use kota.Session.After.{attached_session, signed_session}
use kota.Session.Commands.{execute}
use kota.Session.Spends.{proposal, spend, coins, chain, builder, spend_accepted}
use kota.Wallet.Types.{key_eq}
use kota.Wallet.Descriptor.{keystore_fingerprint, sortedmulti_wsh_descriptor, string_leb}
use kota.Wallet.Entity
use kota.Wallet.Entity.{add_keystore, activation, keystore_fingerprint_of, descriptor}
use kota.Wallet.Registered
use kota.Wallet.Build.{build_unsigned_psbt}
use kota.Wallet.Examples.{full}
use kota.Wallet.Examples as WalletExamples
use kota.Psbt.Examples as PsbtExamples
use kota.Psbt.Validate.{
  parse_psbt, validate_signed_submission, merge_partial_sigs, verify_merged_blob,
}
use kota.Storage.Store.{put, fetch_verified}
use kota.Platform.Database.{finalization}
use kota.Platform.Repos.{find_session, find_wallet, write_session}
use kota.Platform.Jobs.Units.{run_psbt_creation}
use kota.Platform.Jobs.Accepted.{run_psbt_creation_accepted}
use kota.Platform.Service.{propose_spend, submit_signed_psbt}
use kota.Platform.Service.Upload.{IsUpload}
use kota.Platform.Service.Accepted.{propose_spend_accepted, submit_signed_psbt_accepted}
use kota.Platform.Toy.{Tables, written, services}
use kota.Platform.States.{
  with_wallet, wallet_world, with_wallet-IsConsistent, with_pending, pending_world, attached,
  with_session, with_session-IsConsistent, with_pending-IsConsistent, world,
}

wallet_stored : find_wallet services.database with_wallet 1 ≡ ok full
unfolding find_wallet Entity.try_from_events Registered.execute add_keystore activation key_eq
    keystore_fingerprint sortedmulti_wsh_descriptor string_leb sort_by
wallet_stored = refl

propose_spend_accepted_example :
    propose_spend services 8 1 21 spend wallet_world
    ≡ (ok (session_of proposal), record wallet_world { db = with_pending })
propose_spend_accepted_example =
    propose_spend_accepted services wallet_world with_wallet-IsConsistent 8 1 21 spend full
      with_pending wallet_stored
      ((try_new_iff WalletExamples.toy chain 8 full 21 spend).0 spend_accepted) refl

upload_accepted : IsUpload services world.blobs 8 11 (3 ∷ []) 10
unfolding fetch_verified parse_psbt validate_signed_submission merge_partial_sigs verify_merged_blob
upload_accepted = record {
  bytes = 1 ∷ [];
  fetched = refl;
  original = PsbtExamples.unsigned;
  parsed = refl;
  signed = PsbtExamples.signed;
  upload_parsed = refl;
  extracted = PsbtExamples.added;
  validated = refl;
  merged = PsbtExamples.signed;
  merged_of = refl;
  verified = refl;
  digest = refl;
}

abbrev signed_once : PsbtSession
signed_once = signed_session attached 11 10

-- What is so of the session, its wallet and the signer.
abbrev IsOpen : Type 0
IsOpen =
    (find_session services.database with_session 8 ≡ ok attached)
    × (find_wallet services.database with_session attached.wallet_id ≡ ok full)
    × (keystore_fingerprint_of services.miniscript full 21 ≡ some 11)
    × (contains attached.keystores 11 ≡ true)
    × (has_signed attached 11 ≡ false)
    × (is_collecting (status attached) ≡ true)
    × (attached.unsigned_psbt_hash ≡ some 8)

attached-IsOpen : IsOpen
unfolding find_session find_wallet try_from_events verify_hydrated_invariants dedup sort_by
    Registered.execute add_keystore activation key_eq keystore_fingerprint
    sortedmulti_wsh_descriptor string_leb execute record_psbt_created keystore_fingerprint_of
    Entity.try_from_events
attached-IsOpen = (refl, refl, refl, refl, refl, refl, refl)

abbrev with_signed_once : Tables
with_signed_once = written with_session (write_session signed_once (finalization 8 ∷ []))

submit_signed_psbt_accepted_example :
    (submit_signed_psbt services 8 21 (3 ∷ []) world ≡ (
      ok signed_once,
      record {
        db = with_signed_once;
        blobs =
            (put services.digest_of (services.serialize_psbt upload_accepted.merged) world.blobs).0;
      },
    ))
    × (find_session services.database with_signed_once 8 ≡ ok signed_once)
unfolding execute record_psbt_created
submit_signed_psbt_accepted_example =
    let o = attached-IsOpen in
    submit_signed_psbt_accepted services world with_session-IsConsistent 8 21 (3 ∷ []) attached full
      11 8 10 with_signed_once o.0 o.1 o.2 o.3 o.4 o.5 o.6 upload_accepted refl

pending_stored : find_session services.database with_pending 8 ≡ ok (session_of proposal)
unfolding find_session try_from_events verify_hydrated_invariants dedup sort_by Registered.execute
    add_keystore activation key_eq keystore_fingerprint sortedmulti_wsh_descriptor string_leb
pending_stored = refl

wallet_kept : find_wallet services.database with_pending proposal.wallet_id ≡ ok full
unfolding find_wallet Entity.try_from_events Registered.execute add_keystore activation key_eq
    keystore_fingerprint sortedmulti_wsh_descriptor string_leb sort_by
wallet_kept = refl

described : descriptor full ≡ some 202
unfolding descriptor Registered.execute add_keystore activation key_eq keystore_fingerprint
    sortedmulti_wsh_descriptor string_leb sort_by
described = refl

document_built : build_unsigned_psbt builder 202 coins spend 4 ≡ ok 221
unfolding build_unsigned_psbt
document_built = refl

abbrev created : PsbtSession
created = attached_session (session_of proposal) 228

abbrev with_created : Tables
with_created = written with_pending (write_session created [])

run_psbt_creation_accepted_example :
    (run_psbt_creation services (λ w inputs. ok coins) 8 pending_world
      ≡ (ok 228, record { db = with_created; blobs = (put services.digest_of (221 ∷ []) []).0 }))
    × (find_session services.database with_created 8 ≡ ok created)
run_psbt_creation_accepted_example =
    run_psbt_creation_accepted services pending_world with_pending-IsConsistent
      (λ w inputs. ok coins) 8 (session_of proposal) full coins 202 221 with_created pending_stored
      refl refl wallet_kept refl described document_built refl
