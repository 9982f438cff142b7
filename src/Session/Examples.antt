-- ===== src/Session/Examples.antt =====
-- Runs of a session on concrete input, and the theorems at them.
use Prim.Native.Nat.{◌≤◌}
use kota.Base.{
  arith, ◌+◌, ◌≡◌, ◌↔◌, refl, true, false, none, some, [], ◌∷◌, ok, err, executed, already_applied,
  length, all, contains, IsDistinct, nat_order,
}
use kota.Base.Sort.{sort_by, dedup}
use kota.EsEntity.{IdempotencyGuard, documented_guard}
use kota.Session.Types.{
  finalized, FinalizationRecord, NewPsbtSession, PsbtSessionEvent, PsbtSession, duplicate_sigs_used,
}
use kota.Session.Entity.{
  finalization_record, status, is_collecting, has_signed, record_psbt_created, add_signature,
  finalize,
}
use kota.Session.Hydrate.{try_from_events, verify_hydrated_invariants}
use kota.Session.WellFormed.{IsWellFormed, verify_hydrated_invariants_iff}
use kota.Session.Commands.{attach, sign, complete, abandon, execute, reply, Reaches, here, next}
use kota.Session.Invariant.{IsSound-of_hydrated, execute-hydrates}
use kota.Session.Lifecycle.{is_early, is_recorded, ◌⟶◌, Reaches-⟶, collecting_has_psbt}
use kota.Session.Idempotence.{Trail, event_of, execute-Trail, reply-once}
use kota.Session.Policy.{IsFinalizable, finalize_iff, add_signature_iff, sigs_used_within_policy}
use kota.Session.Completion.{sign_all, Reaches_completes}
use kota.Session.Proposal.{session_of}

abbrev guard : IdempotencyGuard PsbtSessionEvent
guard = documented_guard

-- A 2-of-3 policy.
abbrev two_of_three : NewPsbtSession
two_of_three = record {
  id = 1;
  wallet_id = 2;
  proposed_by = 3;
  inputs = record { txid = 9; vout = 0 } ∷ [];
  outputs = record { address = 5; amount_sats = 90_000 } ∷ [];
  fee_sats = 500;
  change_output = none;
  threshold = 2;
  keystores = 11 ∷ 12 ∷ 13 ∷ [];
}

abbrev born : PsbtSession
born = session_of two_of_three

abbrev attached : PsbtSession
attached = execute guard (attach 500) born

abbrev signed : PsbtSession
signed = execute guard (sign 11 602) (execute guard (sign 12 601) attached)

abbrev final : PsbtSession
final = execute guard (complete 77 700 (12 ∷ 11 ∷ [])) signed

signed-Reaches : Reaches guard born signed
signed-Reaches = next (sign 11 602) (next (sign 12 601) (next (attach 500) here))

final-Reaches : Reaches guard born final
final-Reaches = next (complete 77 700 (12 ∷ 11 ∷ [])) signed-Reaches

born_hydrates : try_from_events born.events ≡ ok born
unfolding try_from_events verify_hydrated_invariants dedup sort_by
born_hydrates = refl

signed_hydrates : try_from_events signed.events ≡ ok signed
unfolding try_from_events verify_hydrated_invariants dedup sort_by execute add_signature
    record_psbt_created
signed_hydrates = refl

abbrev final_record : FinalizationRecord
final_record = record { txid = 77; final_tx_hash = 700; sigs_used = 11 ∷ 12 ∷ [] }

finalized_run : (status final ≡ finalized) × (final.finalization ≡ some final_record)
unfolding execute record_psbt_created add_signature finalize dedup sort_by
finalized_run = (refl, refl)

signed_collects : is_collecting (status signed) ≡ true
unfolding execute record_psbt_created add_signature
signed_collects = refl

duplicates_refused : (finalize guard signed 77 700 (11 ∷ 11 ∷ [])).1 ≡ err duplicate_sigs_used
unfolding execute record_psbt_created add_signature finalize dedup sort_by
duplicates_refused = refl

signed_replies : reply guard (sign 13 603) signed ≡ ok (executed tt)
unfolding execute reply record_psbt_created add_signature
signed_replies = refl

sigs_used_within_policy_example :
    (born.threshold ≤ length final_record.sigs_used)
    × IsDistinct final_record.sigs_used
    × (all (contains born.keystores) final_record.sigs_used ≡ true)
sigs_used_within_policy_example =
    sigs_used_within_policy guard born final final_record born_hydrates final-Reaches
      finalized_run.1

execute-hydrates_example :
    try_from_events (execute guard (sign 13 603) signed).events
    ≡ ok (execute guard (sign 13 603) signed)
execute-hydrates_example = execute-hydrates guard (sign 13 603) signed signed_hydrates

finalize_iff_example :
    ((finalize guard signed 77 700 (12 ∷ 11 ∷ [])).1 ≡ ok (executed 77))
    ↔ IsFinalizable signed (12 ∷ 11 ∷ [])
finalize_iff_example = finalize_iff guard signed 77 700 (12 ∷ 11 ∷ [])

add_signature_iff_example : ((add_signature guard signed 13 603).1 ≡ ok (executed tt)) ↔ (
    (has_signed signed 13 ≡ false)
    × (is_collecting (status signed) ≡ true)
    × (contains signed.keystores 13 ≡ true))
add_signature_iff_example =
    add_signature_iff guard signed 13 603 (IsSound-of_hydrated signed signed_hydrates)

Reaches-⟶_example : status signed ⟶ status (execute guard (sign 13 603) signed)
Reaches-⟶_example =
    Reaches-⟶ guard born refl refl (sign 13 603) signed signed-Reaches signed_replies

collecting_has_psbt_example :
    (is_recorded signed.unsigned_psbt_hash ≡ true) × (signed.finalization ≡ none)
collecting_has_psbt_example =
    collecting_has_psbt guard born refl refl signed signed-Reaches signed_collects

execute-Trail_example :
    Trail
      (event_of (sign 13 603))
      signed
      (execute guard (sign 13 603) signed)
      (reply guard (sign 13 603) signed)
execute-Trail_example = execute-Trail guard (sign 13 603) signed

reply-once_example :
    reply guard
      (sign 13 603)
      (execute guard (abandon 3 "lost quorum") (execute guard (sign 13 603) signed))
    ≡ ok already_applied
reply-once_example =
    reply-once guard (sign 13 603) signed refl signed_replies (next (abandon 3 "lost quorum") here)

verify_hydrated_invariants_iff_example :
    (verify_hydrated_invariants signed ≡ ok tt) ↔ IsWellFormed signed
verify_hydrated_invariants_iff_example = verify_hydrated_invariants_iff signed

signed_early : is_early (status signed) ≡ true
unfolding execute record_psbt_created add_signature
signed_early = refl

-- The keystores 12, which signed before, and 13 complete the session.
abbrev ready : PsbtSession
ready = sign_all guard (λ k. k + 600) (13 ∷ 12 ∷ []) (execute guard (attach 500) signed)

Reaches_completes_example :
    (status (execute guard (complete 78 701 (13 ∷ 12 ∷ [])) ready) ≡ finalized)
    × ((execute guard (complete 78 701 (13 ∷ 12 ∷ [])) ready).finalization
        ≡ some (finalization_record 78 701 (13 ∷ 12 ∷ [])))
Reaches_completes_example =
    Reaches_completes guard born signed born_hydrates refl refl signed-Reaches signed_early
      (13 ∷ 12 ∷ []) (omega arith) (ground arith) refl 500 701 (λ k. k + 600) 78
