-- ===== src/Session/Replay.antt =====
-- What a replayed event stream says about the fields that hydration sets.
use kota.Base.{
  ◌≡◌, refl, ap, sym, ◌∙◌, ◌||◌, some, List, [], ◌∷◌, ◌++◌, ok, arith, any, any-append, ◌==◌,
}
use kota.Primitives.{KeyFingerprint}
use kota.Session.Types.{PsbtSessionEvent, signature_added, PsbtSession}
use kota.Session.Entity.{signed_by, is_signature_of}
use kota.Session.Hydrate.{SessionBuilder, empty_builder, apply_event, replay, try_from_events}
use kota.Session.WellFormed.{IsWellFormed, verify_hydrated_invariants_iff}

pub replay-append :
    (b : SessionBuilder) (es fs : List PsbtSessionEvent)
    → replay b (es ++ fs) ≡ replay (replay b es) fs
replay-append b [] fs = refl
replay-append b (e ∷ es) fs = replay-append (apply_event b e) es fs

-- The builder that a session's fields come from.
abbrev pub builder_of : PsbtSession → SessionBuilder
builder_of s = record {
  proposal = some s.proposal;
  unsigned_psbt_hash = s.unsigned_psbt_hash;
  finalization = s.finalization;
  signatures = s.signatures;
}

-- The session is what its own events say.
pub record IsReplayed (s : PsbtSession) : Type 0 where
  pub replayed : replay empty_builder s.events ≡ builder_of s

-- A session comes back from its own events exactly when they say its fields and the fields are
-- sound.
pub try_from_events_of_IsReplayed :
    (s : PsbtSession) → IsReplayed s → IsWellFormed s → try_from_events s.events ≡ ok s
unfolding try_from_events
try_from_events_of_IsReplayed s r w =
    ground (arith, r.replayed, (verify_hydrated_invariants_iff s).1 w)

module _ (es : List PsbtSessionEvent) (s : PsbtSession) (h : try_from_events es ≡ ok s) where
  pub events_of_hydrated : s.events ≡ es
  unfolding try_from_events
  events_of_hydrated = ground arith

  pub IsReplayed-of_hydrated : IsReplayed s
  unfolding try_from_events
  IsReplayed-of_hydrated = record { replayed = ground arith }

  pub IsWellFormed-of_hydrated : IsWellFormed s
  unfolding try_from_events
  IsWellFormed-of_hydrated = (verify_hydrated_invariants_iff s).0 (ground arith)

-- A signature event of a keystore is in the stream exactly when a signature is recorded.
signed_by-replay :
    (fp : KeyFingerprint) (b : SessionBuilder) (es : List PsbtSessionEvent)
    → signed_by (replay b es).signatures fp
      ≡ (signed_by b.signatures fp || any (is_signature_of fp) es)
signed_by-replay fp b [] = ground arith
signed_by-replay fp b (signature_added g ∷ es) = ground (
  arith,
  signed_by-replay fp (apply_event b (signature_added g)) es,
  any-append (λ k. k.fingerprint == fp) b.signatures (g ∷ []),
)
signed_by-replay fp b (e ∷ es) = ground (arith, signed_by-replay fp (apply_event b e) es)

pub signed_by-iff-event :
    (s : PsbtSession) (fp : KeyFingerprint)
    → IsReplayed s
    → signed_by s.signatures fp ≡ any (is_signature_of fp) s.events
signed_by-iff-event s fp r =
    sym (ap (λ b. signed_by b.signatures fp) r.replayed)
    ∙ signed_by-replay fp empty_builder s.events
