-- ===== src/Platform/Jobs/Accepted.antt =====
-- The runs of the jobs that are not refused: if the transaction commits, they succeed.
use kota.Session.After.{attached_session, record_psbt_created_attaches}
use kota.Base.{ℕ, ◌∙◌, ◌≡◌, refl, ap, subst, sym, true, Option, some, none, List, [], ok, executed}
use kota.Base.Actions.{◌>>=◌}
use kota.Primitives.{PsbtSessionId, PsbtHash}
use kota.Session.Types.{PsbtSession}
use kota.Session.Entity.{Outcome, status, is_pending, record_psbt_created}
use kota.Session.Commands.{attach, reply, execute}
use kota.Wallet.Types.{Wallet, Descriptor}
use kota.Wallet.Entity.{descriptor}
use kota.Wallet.Build.{FundingUtxo, build_unsigned_psbt}
use kota.Storage.Store.{put}
use kota.Platform.Consistent.{IsConsistent}
use kota.Platform.Committed.{committed_command}
use kota.Platform.Repos.{World, find_session, find_wallet, transact, write_session}
use kota.Platform.Jobs.Types.{Services, ChainObservation}
use kota.Platform.Jobs.Units.{
  FundingUtxoProvider, put_blob, observe, save_executed, save_always, create_unless, create_psbt,
  run_psbt_creation, apply_chain_observation,
}
use kota.Platform.Jobs.Observation.{command_of, observe-eq, observe-reply}

module _ {Db : Type 0} (sv : Services Db) (w : World Db) where
  save_executed_executed :
      (o : Outcome Unit) (db' : Db)
      → o.1 ≡ ok (executed tt)
      → sv.database.commit w.db (write_session o.0 []) ≡ ok db'
      → save_executed sv o w ≡ (ok tt, record w { db = db' })
  unfolding transact
  save_executed_executed (s, r) db' h k = rw (h, k) refl

  pub save_always_executed :
      {A : Type 0} (o : Outcome A) (t : World Db) (db' : Db) (a : A)
      → o.1 ≡ ok (executed a)
      → sv.database.commit t.db (write_session o.0 []) ≡ ok db'
      → save_always sv o t ≡ (ok tt, record t { db = db' })
  unfolding transact
  save_always_executed (s, r) t db' a h k = rw (h, k) refl

  -- An observation whose command executes on the stored session is applied.
  pub apply_chain_observation_accepted :
      (id : PsbtSessionId) (o : ChainObservation) (s : PsbtSession) (db' : Db)
      → find_session sv.database w.db id ≡ ok s
      → reply sv.session_guard (command_of o) s ≡ ok (executed tt)
      → sv.database.commit w.db (write_session (execute sv.session_guard (command_of o) s) [])
        ≡ ok db'
      → apply_chain_observation sv id o w ≡ (ok tt, record w { db = db' })
  unfolding apply_chain_observation ◌>>=◌
  apply_chain_observation_accepted id o s db' f h k = rw f (
      save_executed_executed (observe sv o s) db' (observe-reply sv o s ∙ h)
        (rw (observe-eq sv o s) k))

  create_psbt_accepted :
      (funding : FundingUtxoProvider) (s : PsbtSession) (v : Wallet) (utxos : List FundingUtxo)
      (d : Descriptor) (psbt : ℕ) (db' : Db)
      → is_pending (status s) ≡ true
      → find_wallet sv.database w.db s.wallet_id ≡ ok v
      → funding v s.inputs ≡ ok utxos
      → descriptor v ≡ some d
      → build_unsigned_psbt sv.builder d utxos
          (record {
            inputs = s.inputs;
            outputs = s.outputs;
            fee_sats = s.fee_sats;
            change_output = s.change_output;
          })
          sv.network
        ≡ ok psbt
      → sv.database.commit w.db
          (write_session (attached_session s (sv.digest_of (sv.serialize_built psbt))) [])
        ≡ ok db'
      → create_psbt sv funding s w ≡ (
        ok (sv.digest_of (sv.serialize_built psbt)),
        record { db = db'; blobs = (put sv.digest_of (sv.serialize_built psbt) w.blobs).0 },
      )
  unfolding create_psbt put_blob put ◌>>=◌
  create_psbt_accepted funding s v utxos d psbt db' p g q k b h =
      let hash = sv.digest_of (sv.serialize_built psbt) in
      let stored : World Db = record w {
        blobs = (put sv.digest_of (sv.serialize_built psbt) w.blobs).0;
      } in
      let attaches = record_psbt_created_attaches sv.session_guard s hash p in
      let saved : save_always sv (record_psbt_created sv.session_guard s hash) stored
          ≡ (ok tt, record stored { db = db' }) =
        subst (λ o. save_always sv o stored ≡ (ok tt, record stored { db = db' })) (sym attaches)
          (save_always_executed (attached_session s hash, ok (executed tt)) stored db' tt refl h) in
      rw (g, q, k, b, saved) refl

  create_unless_pending :
      (funding : FundingUtxoProvider) (id : PsbtSessionId) (s : PsbtSession) (o : Option PsbtHash)
      → o ≡ none
      → is_pending (status s) ≡ true
      → create_unless sv o funding id s w ≡ create_psbt sv funding s w
  unfolding ◌>>=◌
  create_unless_pending funding id s o n p = rw (n, p) refl

  -- On a consistent database, if a stored pending session has no unsigned document, its stored
  -- wallet has a descriptor, the funding is answered, the document is built and the database
  -- commits the session with the digest of this document, in the field and as a new last event and
  -- with all else unchanged, then a run of the PSBT job returns this digest, stores the document
  -- and ends with the new database, in which exactly this session is found.
  pub run_psbt_creation_accepted :
      (c : IsConsistent sv w.db) (funding : FundingUtxoProvider) (id : PsbtSessionId)
      (s : PsbtSession) (v : Wallet) (utxos : List FundingUtxo) (d : Descriptor) (psbt : ℕ)
      (db' : Db)
      → find_session sv.database w.db id ≡ ok s
      → s.unsigned_psbt_hash ≡ none
      → is_pending (status s) ≡ true
      → find_wallet sv.database w.db s.wallet_id ≡ ok v
      → funding v s.inputs ≡ ok utxos
      → descriptor v ≡ some d
      → build_unsigned_psbt sv.builder d utxos
          (record {
            inputs = s.inputs;
            outputs = s.outputs;
            fee_sats = s.fee_sats;
            change_output = s.change_output;
          })
          sv.network
        ≡ ok psbt
      → sv.database.commit w.db
          (write_session (attached_session s (sv.digest_of (sv.serialize_built psbt))) [])
        ≡ ok db'
      → (run_psbt_creation sv funding id w ≡ (
        ok (sv.digest_of (sv.serialize_built psbt)),
        record { db = db'; blobs = (put sv.digest_of (sv.serialize_built psbt) w.blobs).0 },
      ))
        × (find_session sv.database db' id
            ≡ ok (attached_session s (sv.digest_of (sv.serialize_built psbt))))
  unfolding run_psbt_creation execute ◌>>=◌
  run_psbt_creation_accepted c funding id s v utxos d psbt db' f n p g q k b h =
      let hash = sv.digest_of (sv.serialize_built psbt) in
      let attaches = record_psbt_created_attaches sv.session_guard s hash p in
      (
        rw f (
            create_unless_pending funding id s s.unsigned_psbt_hash n p
            ∙ create_psbt_accepted funding s v utxos d psbt db' p g q k b h),
        committed_command sv w.db db' [] (attach hash) id s (attached_session s hash) c f
            (ap (λ o. o.0) attaches) h,
      )
