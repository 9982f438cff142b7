-- ===== src/Platform/ServiceExamples.antt =====
-- Use cases on concrete input, and the theorems at them.
use kota.Base.{◌≡◌, refl, [], ◌∷◌, ok, err}
use kota.Base.Sort.{sort_by, dedup}
use kota.Base.Actions.{Ends}
use kota.Session.Entity.{record_psbt_created}
use kota.Session.Hydrate.{try_from_events, verify_hydrated_invariants}
use kota.Session.Commands.{execute}
use kota.Session.Spends.{spend}
use kota.Wallet.Types.{Wallet, key_eq}
use kota.Wallet.Descriptor.{keystore_fingerprint, sortedmulti_wsh_descriptor, string_leb}
use kota.Wallet.Entity.{add_keystore, activation}
use kota.Wallet.Registered
use kota.Platform.Database.{psbt_creation}
use kota.Platform.Repos.{find_session, find_wallet}
use kota.Platform.Jobs.Atomic.{Untouched}
use kota.Wallet.Entity.{descriptor}
use kota.Platform.Repos.{transact}
use kota.Platform.Database.{finalization}
use kota.Session.Commands.{sign}
use kota.Session.Entity.{add_signature}
use kota.Wallet.Entity
use kota.Wallet.Entity.{keystore_fingerprint_of}
use kota.Psbt.Validate.{parse_psbt, validate_signed_submission, merge_partial_sigs}
use kota.Storage.Store.{put, insert, fetch_verified}
use kota.Base.Actions.{◌>>=◌, raised}
use kota.Platform.Jobs.Units.{put_blob}
use kota.Platform.Service.{
  signer_not_bound, submit_signed_psbt, find_session_or, find_wallet_or, accept_upload,
  propose_spend,
}
use kota.Platform.Service.Spends.{IsQueued, IsProposed, propose_spend-Ends}
use kota.Platform.Service.Signing.{IsSigned, submit_signed_psbt-Ends}
use kota.Platform.Toy.{services}
use kota.Platform.States.{
  with_wallet, with_wallet-IsConsistent, attached, wallet_world, with_session,
  with_session-IsConsistent, world,
}

session_stored : find_session services.database with_session 8 ≡ ok attached
unfolding find_session try_from_events verify_hydrated_invariants dedup sort_by Registered.execute
    add_keystore activation key_eq keystore_fingerprint sortedmulti_wsh_descriptor string_leb
    execute record_psbt_created
session_stored = refl

-- A signer whose keystore is of the wallet.
upload_run :
    (submit_signed_psbt services 8 21 (3 ∷ []) world).0
    ≡ ok (execute services.session_guard (sign 11 10) attached)
unfolding submit_signed_psbt find_session_or find_wallet_or accept_upload find_wallet
    keystore_fingerprint_of put_blob put insert fetch_verified parse_psbt validate_signed_submission
    merge_partial_sigs transact ◌>>=◌ Entity.try_from_events find_session try_from_events
    verify_hydrated_invariants dedup sort_by Registered.execute add_keystore activation key_eq
    keystore_fingerprint sortedmulti_wsh_descriptor string_leb execute record_psbt_created
    add_signature
upload_run = refl

stranger_refused :
    (submit_signed_psbt services 8 29 (3 ∷ []) world).0 ≡ err (raised (signer_not_bound 1 29))
unfolding submit_signed_psbt find_session_or find_wallet_or find_wallet keystore_fingerprint_of
    ◌>>=◌ Entity.try_from_events find_session try_from_events verify_hydrated_invariants dedup
    sort_by Registered.execute add_keystore activation key_eq keystore_fingerprint
    sortedmulti_wsh_descriptor string_leb execute record_psbt_created
stranger_refused = refl

submit_signed_psbt-Ends_example :
    Ends
      (λ s u.
        IsQueued services with_session 8 s (finalization 8 ∷ []) u
        × IsSigned services with_session world.blobs 8 21 (3 ∷ []) s)
      (Untouched services with_session)
      (submit_signed_psbt services 8 21 (3 ∷ []) world)
submit_signed_psbt-Ends_example =
    submit_signed_psbt-Ends services with_session with_session-IsConsistent world refl 8 21 (3 ∷ [])

propose_spend-Ends_example :
    Ends
      (λ s u.
        IsQueued services with_wallet 8 s (psbt_creation 8 ∷ []) u
        × IsProposed services with_wallet 8 1 21 spend s)
      (Untouched services with_wallet)
      (propose_spend services 8 1 21 spend wallet_world)
propose_spend-Ends_example =
    propose_spend-Ends services with_wallet with_wallet-IsConsistent 8 1 21 spend wallet_world refl
