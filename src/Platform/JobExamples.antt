-- ===== src/Platform/JobExamples.antt =====
-- Runs of the jobs on concrete input, and the theorems at them.
use kota.Base.{◌≡◌, refl, ok}
use kota.Base.Sort.{sort_by, dedup}
use kota.Base.Actions.{Ends}
use kota.Session.Types.{PsbtSession}
use kota.Session.Entity.{record_psbt_created}
use kota.Session.Hydrate.{try_from_events, verify_hydrated_invariants}
use kota.Session.Commands.{execute}
use kota.Session.Spends.{coins}
use kota.Wallet.Types.{key_eq}
use kota.Wallet.Descriptor.{keystore_fingerprint, sortedmulti_wsh_descriptor, string_leb}
use kota.Wallet.Entity.{add_keystore, activation}
use kota.Wallet.Registered
use kota.Platform.Repos.{find_session, find_wallet}
use kota.Platform.Consistent.{IsConsistent}
use kota.Platform.Jobs.Atomic.{Untouched}
use kota.Wallet.Build.{build_unsigned_psbt}
use kota.Wallet.Entity.{descriptor}
use kota.Platform.Jobs.Creation.{IsCreated, run_psbt_creation-Ends}
use kota.Platform.Jobs.Units.{run_psbt_creation, create_psbt}
use kota.Platform.Repos.{transact}
use kota.Session.Commands.{see}
use kota.Session.Entity.{add_signature, finalize}
use kota.Wallet.Entity
use kota.Wallet.Entity.{keystore_fingerprint_of}
use kota.Psbt.Validate.{parse_psbt, verify_merged_blob}
use kota.Storage.Store.{put, insert, fetch_verified}
use kota.Base.Actions.{◌>>=◌}
use kota.Platform.Jobs.Types.{broadcast_of}
use kota.Platform.Jobs.Units.{put_blob, apply_chain_observation}
use kota.Platform.Jobs.Finalization.{
  run_finalization, finalize_loop, absorb, load_psbt, absorb_inputs, absorb_sigs, record_final,
}
use kota.Platform.Jobs.Loop.{IsFinalized}
use kota.Platform.Jobs.Final.{Origin, run_finalization-Ends}
use kota.Platform.Jobs.Observation.{apply_chain_observation-refines}
use kota.Platform.Toy.{services}
use kota.Platform.States.{
  with_signed, with_signed-IsConsistent, signed_world, finalized_world,
  finalized_world-IsConsistent, with_pending, pending_world, with_pending-IsConsistent,
}

finalization_run : (run_finalization services 8 signed_world).0 ≡ ok 901
unfolding run_finalization finalize_loop absorb load_psbt absorb_inputs absorb_sigs record_final
    finalize put_blob put insert fetch_verified parse_psbt verify_merged_blob transact ◌>>=◌
    find_session try_from_events verify_hydrated_invariants dedup sort_by Registered.execute
    add_keystore activation key_eq keystore_fingerprint sortedmulti_wsh_descriptor string_leb
    execute record_psbt_created add_signature
finalization_run = refl

run_finalization-Ends_example :
    Ends
      (λ txid u.
        IsFinalized services 8 txid u
        × ((s : PsbtSession) × (find_session services.database with_signed 8 ≡ ok s)
            × Origin services s.finalization s signed_world.blobs txid))
      (Untouched services with_signed)
      (run_finalization services 8 signed_world)
run_finalization-Ends_example =
    run_finalization-Ends services 8 signed_world with_signed-IsConsistent

apply_chain_observation-refines_example :
    Ends
      (λ done u.
        IsConsistent services u.db
        × ((s : PsbtSession) × (find_session services.database finalized_world.db 8 ≡ ok s)
            × (find_session services.database u.db 8
                ≡ ok (execute services.session_guard (see 901) s))))
      (Untouched services finalized_world.db)
      (apply_chain_observation services 8 (broadcast_of 901) finalized_world)
apply_chain_observation-refines_example =
    apply_chain_observation-refines services 8 (broadcast_of 901) finalized_world
      finalized_world-IsConsistent

run_psbt_creation-Ends_example :
    Ends
      (IsCreated services 8)
      (Untouched services with_pending)
      (run_psbt_creation services (λ w inputs. ok coins) 8 pending_world)
run_psbt_creation-Ends_example =
    run_psbt_creation-Ends services with_pending with_pending-IsConsistent (λ w inputs. ok coins) 8
      pending_world refl

creation_run : (run_psbt_creation services (λ w inputs. ok coins) 8 pending_world).0 ≡ ok 228
unfolding run_psbt_creation create_psbt descriptor build_unsigned_psbt find_wallet put_blob put
    insert transact ◌>>=◌ Entity.try_from_events find_session try_from_events
    verify_hydrated_invariants dedup sort_by Registered.execute add_keystore activation key_eq
    keystore_fingerprint sortedmulti_wsh_descriptor string_leb record_psbt_created
creation_run = refl
