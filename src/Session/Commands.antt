-- ===== src/Session/Commands.antt =====
-- The commands of a session as data, and the sessions that they lead to.
use kota.Base.{ℕ, List, Result, ok, err, Idempotent, executed, already_applied}
use kota.Primitives.{UserId, PsbtHash, KeyFingerprint, Txid, BlockHash, Text}
use kota.EsEntity.{IdempotencyGuard}
use kota.Session.Types.{InvalidationReason, PsbtSessionEvent, PsbtSession, PsbtSessionError}
use kota.Session.Entity.{
  record_psbt_created, add_signature, finalize, mark_broadcast_seen, confirm, invalidate, cancel,
}

pub data Command : Type 0 where
  attach : PsbtHash → Command
  sign : KeyFingerprint → PsbtHash → Command
  complete : Txid → PsbtHash → List KeyFingerprint → Command
  see : Txid → Command
  confirm_tx : Txid → ℕ → BlockHash → Command
  reverse_tx : InvalidationReason → Command
  abandon : UserId → Text → Command

abbrev pub forget : {A E : Type 0} → Result (Idempotent A) E → Result (Idempotent (Unit {0})) E
forget (ok (executed a)) = ok (executed tt)
forget (ok already_applied) = ok already_applied
forget (err e) = err e

module _ (guard : IdempotencyGuard PsbtSessionEvent) where
  -- The session after a command, whatever its result.
  unfoldable pub execute : Command → PsbtSession → PsbtSession
  execute (attach h) s = (record_psbt_created guard s h).0
  execute (sign fp h) s = (add_signature guard s fp h).0
  execute (complete t h ks) s = (finalize guard s t h ks).0
  execute (see t) s = (mark_broadcast_seen guard s t).0
  execute (confirm_tx t n b) s = (confirm guard s t n b).0
  execute (reverse_tx r) s = (invalidate guard s r).0
  execute (abandon u r) s = (cancel guard s u r).0

  -- What a command answers; the transaction id that `finalize` returns is left out.
  unfoldable pub reply : Command → PsbtSession → Result (Idempotent (Unit {0})) PsbtSessionError
  reply (attach h) s = (record_psbt_created guard s h).1
  reply (sign fp h) s = (add_signature guard s fp h).1
  reply (complete t h ks) s = forget (finalize guard s t h ks).1
  reply (see t) s = (mark_broadcast_seen guard s t).1
  reply (confirm_tx t n b) s = (confirm guard s t n b).1
  reply (reverse_tx r) s = (invalidate guard s r).1
  reply (abandon u r) s = (cancel guard s u r).1

  -- The sessions that commands lead to, in any order.
  pub data Reaches (s : PsbtSession) : PsbtSession → Type 0 where
    here : Reaches s s
    next : {t : PsbtSession} (c : Command) → Reaches s t → Reaches s (execute c t)
