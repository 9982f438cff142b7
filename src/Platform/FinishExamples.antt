-- ===== src/Platform/FinishExamples.antt =====
-- A finalization on concrete input: the second recorded signature completes the document.
use kota.Base.{◌≡◌, refl, true, none, some, [], ◌∷◌, ok, executed, List}
use kota.Base.Sort.{sort_by, dedup}
use kota.Primitives.{KeyFingerprint}
use kota.Session.Types.{PsbtSession}
use kota.Session.Entity.{threshold_met, record_psbt_created, add_signature, finalize}
use kota.Session.Hydrate.{try_from_events, verify_hydrated_invariants}
use kota.Session.After.{final_session}
use kota.Session.Policy.{finalize_iff}
use kota.Session.Commands.{execute}
use kota.Wallet.Types.{key_eq}
use kota.Wallet.Descriptor.{keystore_fingerprint, sortedmulti_wsh_descriptor, string_leb}
use kota.Wallet.Entity.{add_keystore, activation}
use kota.Wallet.Registered
use kota.Psbt.Examples as PsbtExamples
use kota.Psbt.Validate.{parse_psbt, verify_merged_blob}
use kota.Storage.Store.{put, fetch_verified}
use kota.Platform.Repos.{find_session, write_session}
use kota.Platform.Jobs.Finalization.{absorb_inputs, absorb_sigs, run_finalization}
use kota.Platform.Jobs.Finishes.{IsLoaded, Finishes, last, more, run_finalization_accepted}
use kota.Platform.Toy.{Tables, written, services}
use kota.Platform.States.{with_signed-IsConsistent, signed, with_signed, signed_world}

abbrev used : List KeyFingerprint
used = 12 ∷ 11 ∷ []

abbrev final : PsbtSession
final = final_session signed 901 907 used

abbrev with_final : Tables
with_final = written with_signed (write_session final [])

original-IsLoaded : IsLoaded services signed_world 8 PsbtExamples.unsigned
unfolding fetch_verified parse_psbt
original-IsLoaded = record { bytes = 1 ∷ []; fetched = refl; parsed = refl }

merged-IsLoaded : IsLoaded services signed_world 10 PsbtExamples.signed
unfolding fetch_verified parse_psbt
merged-IsLoaded = record { bytes = 3 ∷ []; fetched = refl; parsed = refl }

signed-Finishes :
    Finishes services signed_world PsbtExamples.unsigned 900 used PsbtExamples.unsigned.inputs []
      signed.signatures
unfolding verify_merged_blob absorb_inputs absorb_sigs execute record_psbt_created add_signature
    Registered.execute add_keystore activation keystore_fingerprint sortedmulti_wsh_descriptor
    key_eq sort_by string_leb
signed-Finishes =
    more PsbtExamples.unsigned.inputs
      (record {
        signed = PsbtExamples.unsigned;
        loaded = original-IsLoaded;
        verified = refl;
        absorbed = refl;
      })
      refl
      (last PsbtExamples.signed.inputs
        (record {
          signed = PsbtExamples.signed;
          loaded = merged-IsLoaded;
          verified = refl;
          absorbed = refl;
        })
        refl refl)

signed_finalizes : (finalize services.session_guard signed 901 907 used).1 ≡ ok (executed 901)
unfolding finalize dedup execute record_psbt_created add_signature Registered.execute add_keystore
    activation keystore_fingerprint sortedmulti_wsh_descriptor key_eq sort_by string_leb
signed_finalizes = refl

-- What the stored session has.
abbrev IsReady : Type 0
IsReady =
    (find_session services.database with_signed 8 ≡ ok signed)
    × (signed.finalization ≡ none)
    × (threshold_met signed ≡ true)
    × (signed.unsigned_psbt_hash ≡ some 8)

signed-IsReady : IsReady
unfolding find_session try_from_events verify_hydrated_invariants dedup execute record_psbt_created
    add_signature Registered.execute add_keystore activation keystore_fingerprint
    sortedmulti_wsh_descriptor key_eq sort_by string_leb
signed-IsReady = (refl, refl, refl, refl)

run_finalization_accepted_example :
    (run_finalization services 8 signed_world ≡ (
      ok 901,
      record { db = with_final; blobs = (put services.digest_of (900 ∷ []) signed_world.blobs).0 },
    ))
    × (find_session services.database with_final 8 ≡ ok final)
run_finalization_accepted_example =
    let r = signed-IsReady in
    run_finalization_accepted services signed_world signed 900 900 used with_final refl
      ((finalize_iff services.session_guard signed 901 907 used).0 signed_finalizes) refl
      with_signed-IsConsistent 8 8 PsbtExamples.unsigned r.0 r.1 r.2 r.3 original-IsLoaded
      signed-Finishes
