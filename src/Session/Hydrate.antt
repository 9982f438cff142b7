-- ===== src/Session/Hydrate.antt =====
-- Hydration of a session from its events: `try_from_events` and `verify_hydrated_invariants`,
-- core/coordination/src/psbt_session/entity.rs.
use kota.Base.{
  ℕ, not, ◌||◌, Option, none, some, List, [], ◌∷◌, ◌++◌, Result, ok, err, ◌>>=◌, ◌>>◌, length, all,
  contains, nat_order, ltb, ◌==◌, if◌then◌else◌,
}
use kota.Base.Sort.{sort, dedup}
use kota.Primitives.{PsbtHash, KeyFingerprint}
use kota.Session.Types.{
  SignatureRecord, FinalizationRecord, NewPsbtSession, PsbtSessionEvent, initialized, psbt_created,
  signature_added, finalized_with, broadcast_seen, confirmed_at, invalidated_by, cancelled_by,
  PsbtSession,
}
use kota.Session.Entity.{signed_by}

-- The messages of `violation`.
pub data Violation : Type 0 where
  policy_out_of_range : ℕ → ℕ → Violation
  duplicate_keystore : Violation
  foreign_signature : KeyFingerprint → Violation
  duplicate_signature : KeyFingerprint → Violation
  below_threshold : ℕ → ℕ → Violation
  duplicate_in_sigs_used : Violation
  sigs_used_uncollected : Violation

pub data HydrationError : Type 0 where
  uninitialized_field : HydrationError
  event_deserialization : Violation → HydrationError

-- The builder's fields, and the local `signatures`.
pub record SessionBuilder : Type 0 where
  pub proposal : Option NewPsbtSession
  pub unsigned_psbt_hash : Option PsbtHash
  pub finalization : Option FinalizationRecord
  pub signatures : List SignatureRecord

abbrev pub empty_builder : SessionBuilder
empty_builder = record {
  proposal = none;
  unsigned_psbt_hash = none;
  finalization = none;
  signatures = [];
}

-- One round of the loop over the events.
abbrev pub apply_event : SessionBuilder → PsbtSessionEvent → SessionBuilder
apply_event b (initialized p) = record b { proposal = some p }
apply_event b (psbt_created h) = record b { unsigned_psbt_hash = some h }
apply_event b (signature_added g) = record b { signatures = b.signatures ++ g ∷ [] }
apply_event b (finalized_with f) = record b { finalization = some f }
apply_event b (broadcast_seen t) = b
apply_event b (confirmed_at t h k) = b
apply_event b (invalidated_by r) = b
apply_event b (cancelled_by u r) = b

abbrev pub replay : SessionBuilder → List PsbtSessionEvent → SessionBuilder
replay b [] = b
replay b (e ∷ es) = replay (apply_event b e) es

-- `builder.build()`: a missing `Initialized` leaves required fields unset.
abbrev pub build_from :
    Option NewPsbtSession
    → SessionBuilder
    → List PsbtSessionEvent
    → Result PsbtSession HydrationError
build_from none b es = err uninitialized_field
build_from (some p) b es = ok (record {
  proposal = p;
  unsigned_psbt_hash = b.unsigned_psbt_hash;
  signatures = b.signatures;
  finalization = b.finalization;
  events = es;
})

abbrev pub build : SessionBuilder → List PsbtSessionEvent → Result PsbtSession HydrationError
build b es = build_from b.proposal b es

abbrev pub Checked : Type 0
Checked = Result (Unit {0}) HydrationError

-- The loop over the signatures with the set `seen`.
unfoldable pub verify_signatures :
    List KeyFingerprint → List KeyFingerprint → List SignatureRecord → Checked
verify_signatures keystores seen [] = ok tt
verify_signatures keystores seen (g ∷ gs) =
    let rest = verify_signatures keystores (g.fingerprint ∷ seen) gs in
    if not (contains keystores g.fingerprint)
    then err (event_deserialization (foreign_signature g.fingerprint))
    else if contains seen g.fingerprint
    then err (event_deserialization (duplicate_signature g.fingerprint))
    else rest

-- The checks of `if let Some(finalization)`.
unfoldable pub verify_finalization : ℕ → List SignatureRecord → Option FinalizationRecord → Checked
verify_finalization threshold sigs none = ok tt
verify_finalization threshold sigs (some f) =
    if ltb (length f.sigs_used) threshold
    then err (event_deserialization (below_threshold (length f.sigs_used) threshold))
    else if not (length (dedup (sort f.sigs_used)) == length f.sigs_used)
    then err (event_deserialization duplicate_in_sigs_used)
    else if not (all (signed_by sigs) f.sigs_used)
    then err (event_deserialization sigs_used_uncollected)
    else ok tt

unfoldable pub verify_policy : ℕ → List KeyFingerprint → Checked
verify_policy threshold keystores =
    if threshold == 0 || ltb (length keystores) threshold
    then err (event_deserialization (policy_out_of_range threshold (length keystores)))
    else if not (length (dedup (sort keystores)) == length keystores)
    then err (event_deserialization duplicate_keystore)
    else ok tt

unfoldable pub verify_hydrated_invariants : PsbtSession → Checked
unfolding verify_policy verify_signatures verify_finalization
verify_hydrated_invariants s = do
  verify_policy s.threshold s.keystores
  verify_signatures s.keystores [] s.signatures
  verify_finalization s.threshold s.signatures s.finalization

unfoldable pub try_from_events : List PsbtSessionEvent → Result PsbtSession HydrationError
try_from_events events = do
  entity ← build (replay empty_builder events) events
  verify_hydrated_invariants entity
  ok entity
