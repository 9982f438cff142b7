-- ===== src/Platform/Dispatch.antt =====
-- The jobs that are queued for a session: the one that builds its PSBT, spawned with the session,
-- and from the first signature on one that finalizes it.
use kota.Base.{
  ◌≡◌, refl, ap, Bool, true, false, ◌||◌, List, [], ◌∷◌, ◌++◌, is_empty, any, any-append, ◌==◌,
  ==_iff, some, none, Option, ℕ, arith,
}
use kota.Primitives.{PsbtSessionId, Txid, BlockHash}
use kota.EsEntity.{IdempotencyGuard}
use kota.Session.Types.{PsbtSessionEvent, PsbtSession, NewPsbtSession, FinalizationRecord}
use kota.Session.Entity.{
  record_psbt_created, finalize, mark_broadcast_seen, mark_broadcast_seen_from, confirm,
  confirm_from, invalidate, cancel,
}
use kota.Session.Commands.{
  Command, attach, sign, complete, see, confirm_tx, reverse_tx, abandon, execute,
}
use kota.Platform.Database.{JobConfig, psbt_creation, finalization}
use kota.Platform.Genuine.{execute-proposal}

abbrev pub is_creation_of : PsbtSessionId → JobConfig → Bool
is_creation_of id (psbt_creation k) = k == id
is_creation_of id (finalization k) = false

abbrev pub is_finalization_of : PsbtSessionId → JobConfig → Bool
is_finalization_of id (psbt_creation k) = false
is_finalization_of id (finalization k) = k == id

pub record IsDispatched (jobs : List JobConfig) (s : PsbtSession) : Type 0 where
  pub creation : any (is_creation_of s.id) jobs ≡ true
  pub completion : (is_empty s.signatures || any (is_finalization_of s.id) jobs) ≡ true

pub IsDispatched-append :
    (jobs more : List JobConfig) (s : PsbtSession)
    → IsDispatched jobs s
    → IsDispatched (jobs ++ more) s
IsDispatched-append jobs more s d = record {
  creation = ground (arith, any-append (is_creation_of s.id) jobs more, d.creation);
  completion = ground (arith, any-append (is_finalization_of s.id) jobs more, d.completion);
}

-- A new session whose PSBT job is spawned with it.
pub IsDispatched-spawned :
    (jobs : List JobConfig) (s : PsbtSession)
    → s.signatures ≡ []
    → IsDispatched (jobs ++ psbt_creation s.id ∷ []) s
IsDispatched-spawned jobs s h = record {
  creation =
      ground
        (arith, any-append (is_creation_of s.id) jobs (psbt_creation s.id ∷ []), ==_iff s.id s.id);
  completion = ground arith;
}

-- A session, however signed, whose finalization is spawned now.
pub IsDispatched-finalization :
    (jobs : List JobConfig) (s : PsbtSession)
    → any (is_creation_of s.id) jobs ≡ true
    → IsDispatched (jobs ++ finalization s.id ∷ []) s
IsDispatched-finalization jobs s h = record {
  creation = ground (arith, any-append (is_creation_of s.id) jobs (finalization s.id ∷ []));
  completion =
      ground (
        arith,
        any-append (is_finalization_of s.id) jobs (finalization s.id ∷ []),
        ==_iff s.id s.id,
      );
}

-- Every command but a signature.
abbrev pub KeepsSignatures : Command → Type 0
KeepsSignatures (attach h) = Unit
KeepsSignatures (sign fp h) = ⊥
KeepsSignatures (complete t h ks) = Unit
KeepsSignatures (see t) = Unit
KeepsSignatures (confirm_tx t n b) = Unit
KeepsSignatures (reverse_tx r) = Unit
KeepsSignatures (abandon u r) = Unit

module _ (guard : IdempotencyGuard PsbtSessionEvent) where
  see-signatures :
      (f : Option FinalizationRecord) (s : PsbtSession) (t : Txid)
      → (mark_broadcast_seen_from guard f s t).0.signatures ≡ s.signatures
  unfolding mark_broadcast_seen_from
  see-signatures none s t = refl
  see-signatures (some f) s t = ground arith

  confirm-signatures :
      (f : Option FinalizationRecord) (s : PsbtSession) (t : Txid) (n : ℕ) (b : BlockHash)
      → (confirm_from guard f s t n b).0.signatures ≡ s.signatures
  unfolding confirm_from
  confirm-signatures none s t n b = refl
  confirm-signatures (some f) s t n b = ground arith

  execute-signatures :
      (c : Command) (s : PsbtSession)
      → KeepsSignatures c
      → (execute guard c s).signatures ≡ s.signatures
  unfolding execute record_psbt_created finalize mark_broadcast_seen confirm invalidate cancel
  execute-signatures (attach h) s k = ground arith
  execute-signatures (sign fp h) s k = absurd k
  execute-signatures (complete t h ks) s k = ground arith
  execute-signatures (see t) s k = see-signatures s.finalization s t
  execute-signatures (confirm_tx t n b) s k = confirm-signatures s.finalization s t n b
  execute-signatures (reverse_tx r) s k = ground arith
  execute-signatures (abandon u r) s k = ground arith

  pub execute-IsDispatched :
      (c : Command) (s : PsbtSession) (jobs : List JobConfig)
      → KeepsSignatures c
      → IsDispatched jobs s
      → IsDispatched jobs (execute guard c s)
  execute-IsDispatched c s jobs k d =
      let same_id = ap (λ (p : NewPsbtSession). p.id) (execute-proposal guard c s) in
      record {
        creation = rw same_id d.creation;
        completion = rw (same_id, execute-signatures c s k) d.completion;
      }
