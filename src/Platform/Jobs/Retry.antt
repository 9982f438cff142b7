-- ===== src/Platform/Jobs/Retry.antt =====
-- A job that is run again after it has succeeded: the executor delivers at least once.
use kota.Base.{◌≡◌, refl, subst, ap, ◌∙◌, some, ok}
use kota.Base.Actions.{Ends, ◌>>=◌}
use kota.Primitives.{PsbtSessionId, PsbtHash, Txid}
use kota.Session.Types.{PsbtSession, FinalizationRecord}
use kota.Platform.Repos.{World, find_session}
use kota.Platform.Consistent.{IsConsistent}
use kota.Platform.Jobs.Types.{Services}
use kota.Platform.Jobs.Units.{FundingUtxoProvider, run_psbt_creation}
use kota.Platform.Jobs.Finalization.{run_finalization}
use kota.Platform.Jobs.Creation.{run_psbt_creation-Ends}
use kota.Platform.Jobs.Final.{run_finalization-Ends}

module _ {Db : Type 0} (sv : Services Db) where
  -- A run on a stored finalized session.
  finalized_run :
      (id : PsbtSessionId) (u : World Db) (s : PsbtSession) (f : FinalizationRecord)
      → find_session sv.database u.db id ≡ ok s
      → s.finalization ≡ some f
      → run_finalization sv id u ≡ (ok f.txid, u)
  unfolding run_finalization ◌>>=◌
  finalized_run id u s f h k = rw (h, k) refl

  created_run :
      (funding : FundingUtxoProvider) (id : PsbtSessionId) (u : World Db) (s : PsbtSession)
      (hash : PsbtHash)
      → find_session sv.database u.db id ≡ ok s
      → s.unsigned_psbt_hash ≡ some hash
      → run_psbt_creation sv funding id u ≡ (ok hash, u)
  unfolding run_psbt_creation ◌>>=◌
  created_run funding id u s hash h k = rw (h, k) refl

  -- On a consistent database, a finalization that returned a transaction id returns the same one
  -- when it is run again at once, and changes nothing.
  pub run_finalization_again :
      (id : PsbtSessionId) (txid : Txid) (w u : World Db)
      → IsConsistent sv w.db
      → run_finalization sv id w ≡ (ok txid, u)
      → run_finalization sv id u ≡ (ok txid, u)
  run_finalization_again id txid w u c h =
      let k = (subst (Ends _ _) h (run_finalization-Ends sv id w c)).by.0.1 in
      finalized_run id u k.0 k.1 k.2 k.3 ∙ ap (λ t. (ok t, u)) k.4

  -- On a consistent database, a PSBT creation that returned a digest returns the same one when it
  -- is run again at once, whatever the chain backend answers then, and changes nothing.
  pub run_psbt_creation_again :
      (funding later : FundingUtxoProvider) (id : PsbtSessionId) (hash : PsbtHash) (w u : World Db)
      → IsConsistent sv w.db
      → run_psbt_creation sv funding id w ≡ (ok hash, u)
      → run_psbt_creation sv later id u ≡ (ok hash, u)
  run_psbt_creation_again funding later id hash w u c h =
      let k = (subst (Ends _ _) h (run_psbt_creation-Ends sv w.db c funding id w refl)).by.1 in
      created_run later id u k.0 hash k.1 k.2
