-- ===== src/Platform/Consistent.antt =====
-- A database whose rows are those of genuine sessions and wallets.
use kota.Base.{
  ℕ, ◌≡◌, refl, sym, ◌∙◌, subst, Bool, true, false, Option, none, some, List, Result, ok, err, ◌==◌,
  ==_iff, if◌then◌else◌, ◌++◌,
}
use kota.Primitives.{PsbtSessionId, WalletId}
use kota.Session.Types.{PsbtSessionEvent, PsbtSession}
use kota.Wallet.Types.{WalletEvent, Wallet, DescriptorFingerprint}
use kota.Wallet.Entity.{descriptor_fingerprint_of}
use kota.Base.Actions.{Failure, raised, Ends}
use kota.Platform.Database.{TransactionError, JobConfig, Transaction, rows_after, column_after}
use kota.Platform.Dispatch.{IsDispatched, IsDispatched-append}
use kota.Platform.Repos.{
  World, found_session, found_wallet, find_session, find_wallet, committed, transact,
}
use kota.Platform.Jobs.Types.{Services}
use kota.Platform.Genuine
use kota.Platform.GenuineWallet

-- The rows that a transaction writes to an entity meet what all rows do.
abbrev AllWritten : {E : Type 0} → (ℕ → List E → Type 0) → Option (ℕ × List E) → Type 0
AllWritten P none = Unit
AllWritten P (some (id, es)) = P id es

module _ {E : Type 0} (P : ℕ → List E → Type 0) where
  written_or_old :
      (id k : ℕ) (es old : List E) (b : Bool)
      → (k == id) ≡ b
      → P id es
      → P k old
      → P k (if b then es else old)
  written_or_old id k es old true e p q = subst (λ n. P n es) (sym ((==_iff k id).0 e)) p
  written_or_old id k es old false e p q = q

  rows_after-All :
      (t : Option (ℕ × List E)) (k : ℕ) (old : List E)
      → AllWritten P t
      → P k old
      → P k (rows_after t k old)
  rows_after-All none k old w p = p
  rows_after-All (some (id, es)) k old w p = written_or_old id k es old (k == id) refl w p

module _ {Db : Type 0} (sv : Services Db) where
  open sv use {database}

  -- The rows of a session, and the jobs that are queued for it.
  pub record IsSessionRow (jobs : List JobConfig) (id : PsbtSessionId)
      (rows : List PsbtSessionEvent) : Type 0 where
    pub stored : Genuine.IsStored sv.session_guard id rows
    pub dispatched : (s : PsbtSession) → found_session id rows ≡ ok s → IsDispatched jobs s

  IsSessionRow-append :
      (jobs more : List JobConfig) (id : PsbtSessionId) (rows : List PsbtSessionEvent)
      → IsSessionRow jobs id rows
      → IsSessionRow (jobs ++ more) id rows
  IsSessionRow-append jobs more id rows r = record {
    stored = r.stored;
    dispatched = λ s h. IsDispatched-append jobs more s (r.dispatched s h);
  }

  -- The rows of a wallet, and its column.
  pub record IsWalletRow (id : WalletId) (rows : List WalletEvent)
      (column : Option DescriptorFingerprint) : Type 0 where
    pub stored : GenuineWallet.IsStored sv.miniscript sv.wallet_guard id rows
    pub agrees : (v : Wallet) → found_wallet id rows ≡ ok v → descriptor_fingerprint_of v ≡ column

  pub record IsConsistent (db : Db) : Type 0 where
    pub sessions :
        (id : PsbtSessionId) → IsSessionRow (database.jobs db) id (database.session_events db id)
    pub wallets :
        (id : WalletId)
        → IsWalletRow id (database.wallet_events db id) (database.fingerprint_column db id)

  -- What may be committed behind the jobs.
  pub record IsProper (jobs : List JobConfig) (t : Transaction) : Type 0 where
    pub session_rows : AllWritten (IsSessionRow (jobs ++ t.spawned)) t.session
    pub wallet_rows : AllWritten (λ id rows. IsWalletRow id rows t.fingerprint) t.wallet

  row_or_old :
      (id k : WalletId) (es old : List WalletEvent) (f g : Option DescriptorFingerprint) (b : Bool)
      → (k == id) ≡ b
      → IsWalletRow id es f
      → IsWalletRow k old g
      → IsWalletRow k (if b then es else old) (if b then f else g)
  row_or_old id k es old f g true e p q =
      subst (λ n. IsWalletRow n es f) (sym ((==_iff k id).0 e)) p
  row_or_old id k es old f g false e p q = q

  row_after-IsWalletRow :
      (t : Option (WalletId × List WalletEvent)) (f : Option DescriptorFingerprint) (k : WalletId)
      (old : List WalletEvent) (g : Option DescriptorFingerprint)
      → AllWritten (λ id rows. IsWalletRow id rows f) t
      → IsWalletRow k old g
      → IsWalletRow k (rows_after t k old) (column_after t f k g)
  row_after-IsWalletRow none f k old g w p = p
  row_after-IsWalletRow (some (id, es)) f k old g w p =
      row_or_old id k es old f g (k == id) refl w p

  pub commit-IsConsistent :
      (db db' : Db) (t : Transaction)
      → IsConsistent db
      → IsProper (database.jobs db) t
      → database.commit db t ≡ ok db'
      → IsConsistent db'
  commit-IsConsistent db db' t c p h = record {
    sessions = λ id.
        rw (database.session_events-commit db db' t id h, database.jobs-commit db db' t h)
          (rows_after-All (IsSessionRow (database.jobs db ++ t.spawned)) t.session id
            (database.session_events db id) p.session_rows
            (IsSessionRow-append (database.jobs db) t.spawned id (database.session_events db id)
              (c.sessions id)));
    wallets = λ id.
        rw
          (
            database.wallet_events-commit db db' t id h,
            database.fingerprint_column-commit db db' t id h,
          )
          (row_after-IsWalletRow t.wallet t.fingerprint id (database.wallet_events db id)
            (database.fingerprint_column db id) p.wallet_rows (c.wallets id));
  }

  module _ {E : Type 0} (post : Unit {0} → World Db → Type 0)
      (fail : Failure E → World Db → Type 0) where
    transact_from :
        (f : TransactionError → E) (w : World Db) (r : Result Db TransactionError)
        → ((db' : Db) → r ≡ ok db' → post tt (record w { db = db' }))
        → ((why : TransactionError) → fail (raised (f why)) w)
        → Ends post fail (committed database f r w)
    transact_from f w (ok db') p q = record { by = p db' refl }
    transact_from f w (err why) p q = record { by = q why }

    pub transact-Ends :
        (f : TransactionError → E) (t : Transaction) (w : World Db)
        → ((db' : Db) → database.commit w.db t ≡ ok db' → post tt (record w { db = db' }))
        → ((why : TransactionError) → fail (raised (f why)) w)
        → Ends post fail (transact database f t w)
    unfolding transact
    transact-Ends f t w p q = transact_from f w (database.commit w.db t) p q

  pub found_session-IsGenuine :
      (db : Db) (id : PsbtSessionId) (s : PsbtSession)
      → IsConsistent db
      → find_session database db id ≡ ok s
      → Genuine.IsGenuine sv.session_guard id s
  unfolding find_session
  found_session-IsGenuine db id s c h = (c.sessions id).stored.genuine s h

  pub found_session-IsDispatched :
      (db : Db) (id : PsbtSessionId) (s : PsbtSession)
      → IsConsistent db
      → find_session database db id ≡ ok s
      → IsDispatched (database.jobs db) s
  unfolding find_session
  found_session-IsDispatched db id s c h = (c.sessions id).dispatched s h

  pub found_wallet-IsGenuine :
      (db : Db) (id : WalletId) (v : Wallet)
      → IsConsistent db
      → find_wallet database db id ≡ ok v
      → GenuineWallet.IsGenuine sv.miniscript sv.wallet_guard id v
  unfolding find_wallet
  found_wallet-IsGenuine db id v c h = (c.wallets id).stored.genuine v h

  -- The column of a stored wallet is its content address.
  pub found_wallet-column :
      (db : Db) (id : WalletId) (v : Wallet)
      → IsConsistent db
      → find_wallet database db id ≡ ok v
      → descriptor_fingerprint_of v ≡ database.fingerprint_column db id
  unfolding find_wallet
  found_wallet-column db id v c h = (c.wallets id).agrees v h

  -- No two stored wallets have one content address.
  pub found_wallet_unique :
      (db : Db) (i j : WalletId) (v u : Wallet) (f : DescriptorFingerprint)
      → IsConsistent db
      → find_wallet database db i ≡ ok v
      → find_wallet database db j ≡ ok u
      → descriptor_fingerprint_of v ≡ some f
      → descriptor_fingerprint_of u ≡ some f
      → i ≡ j
  found_wallet_unique db i j v u f c p q a b =
      database.unique_fingerprint db f i j (sym (found_wallet-column db i v c p) ∙ a)
        (sym (found_wallet-column db j u c q) ∙ b)
