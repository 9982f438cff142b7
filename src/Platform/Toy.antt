-- ===== src/Platform/Toy.antt =====
-- Stand-ins for the crates of the platform: tables in memory, and a document codec.
use kota.Base.{
  ℕ, ◌+◌, ◌≡◌, ◌≢◌, refl, sym, ap, ◌∙◌, Bool, false, not, Option, none, some, List, [], ◌∷◌, ◌++◌,
  length, Result, ok, err, ◌==◌, ==_iff, if◌then◌else◌, arith,
}
use kota.Primitives.{PsbtSessionId, WalletId, Text}
use kota.EsEntity.{documented_guard}
use kota.Session.Types.{PsbtSessionEvent}
use kota.Session.Spends.{chain, builder}
use kota.Wallet.Types.{WalletEvent, DescriptorFingerprint}
use kota.Wallet.Examples as WalletExamples
use kota.Psbt.Types.{PsbtInput, Psbt}
use kota.Psbt.Examples as PsbtExamples
use kota.Storage.Examples.{digest}
use kota.Platform.Database.{
  TransactionError, rows_failed, JobConfig, Transaction, rows_after, column_after, Database,
}
use kota.Platform.Jobs.Types.{Services}

pub record Tables : Type 0 where
  pub sessions : PsbtSessionId → List PsbtSessionEvent
  pub wallets : WalletId → List WalletEvent
  -- the one wallet with a value in the column `descriptor_fingerprint`
  pub holder : Option (WalletId × DescriptorFingerprint)
  pub queue : List JobConfig

abbrev pub no_rows : Tables
no_rows = record { sessions = λ id. []; wallets = λ id. []; holder = none; queue = [] }

abbrev pub column_of :
    Option (WalletId × DescriptorFingerprint) → WalletId → Option DescriptorFingerprint
column_of none k = none
column_of (some (i, f)) k = if k == i then some f else none

abbrev pub index_of :
    Option (WalletId × DescriptorFingerprint) → DescriptorFingerprint → Option WalletId
index_of none f = none
index_of (some (i, g)) f = if g == f then some i else none

abbrev pub held_after :
    Option (WalletId × List WalletEvent)
    → Option DescriptorFingerprint
    → Option (WalletId × DescriptorFingerprint)
    → Option (WalletId × DescriptorFingerprint)
held_after none f h = h
held_after (some (id, es)) (some f) h = some (id, f)
held_after (some (id, es)) none none = none
held_after (some (id, es)) none (some (i, g)) = if id == i then none else some (i, g)

-- The tables have room for one value in the column.
abbrev pub is_refused :
    Option (WalletId × List WalletEvent)
    → Option (WalletId × DescriptorFingerprint)
    → Option DescriptorFingerprint
    → Bool
is_refused none h f = false
is_refused (some (id, es)) none f = false
is_refused (some (id, es)) (some (i, g)) none = false
is_refused (some (id, es)) (some (i, g)) (some f) = not (id == i)

pub column_of-held_after :
    (t : Option (WalletId × List WalletEvent)) (f : Option DescriptorFingerprint)
    (h : Option (WalletId × DescriptorFingerprint)) (k : WalletId)
    → is_refused t h f ≡ false
    → column_of (held_after t f h) k ≡ column_after t f k (column_of h k)
column_of-held_after none f h k q = refl
column_of-held_after (some (id, es)) none none k q = ground arith
column_of-held_after (some (id, es)) (some f) none k q = ground arith
column_of-held_after (some (id, es)) none (some (i, g)) k q =
    ground (arith, ==_iff id i, ==_iff k i, ==_iff k id)
column_of-held_after (some (id, es)) (some f) (some (i, g)) k q =
    ground (arith, ==_iff id i, ==_iff k i, ==_iff k id)

pub index_of-found :
    (h : Option (WalletId × DescriptorFingerprint)) (f : DescriptorFingerprint) (id : WalletId)
    → index_of h f ≡ some id
    → column_of h id ≡ some f
index_of-found none f id q = ground arith
index_of-found (some (i, g)) f id q = ground (arith, ==_iff g f, ==_iff id i)

pub index_of-absent :
    (h : Option (WalletId × DescriptorFingerprint)) (f : DescriptorFingerprint) (id : WalletId)
    → index_of h f ≡ none
    → column_of h id ≢ some f
index_of-absent none f id q = λ e. ground arith
index_of-absent (some (i, g)) f id q = λ e. ground (arith, ==_iff g f, ==_iff id i)

pub column_of_unique :
    (h : Option (WalletId × DescriptorFingerprint)) (f : DescriptorFingerprint) (i j : WalletId)
    → column_of h i ≡ some f
    → column_of h j ≡ some f
    → i ≡ j
column_of_unique none f i j p q = ground arith
column_of_unique (some (k, g)) f i j p q = ground (arith, ==_iff i k, ==_iff j k)

abbrev pub written : Tables → Transaction → Tables
written db t = record {
  sessions = λ k. rows_after t.session k (db.sessions k);
  wallets = λ k. rows_after t.wallet k (db.wallets k);
  holder = held_after t.wallet t.fingerprint db.holder;
  queue = db.queue ++ t.spawned;
}

abbrev pub commit_all : Tables → Transaction → Result Tables TransactionError
commit_all db t =
    if is_refused t.wallet db.holder t.fingerprint
    then err (rows_failed "duplicate key")
    else ok (written db t)

pub commit_all-written :
    (db db' : Tables) (t : Transaction) → commit_all db t ≡ ok db' → written db t ≡ db'
commit_all-written db db' t h = ground arith

pub commit_all_free :
    (db db' : Tables) (t : Transaction)
    → commit_all db t ≡ ok db'
    → is_refused t.wallet db.holder t.fingerprint ≡ false
commit_all_free db db' t h = ground arith

abbrev pub tables : Database Tables
tables = record {
  session_events = λ db id. db.sessions id;
  wallet_events = λ db id. db.wallets id;
  fingerprint_column = λ db id. column_of db.holder id;
  by_fingerprint = λ db f. index_of db.holder f;
  jobs = λ db. db.queue;
  commit = commit_all;
  session_events-commit =
      λ db db' t k h. ap (λ (x : Tables). x.sessions k) (sym (commit_all-written db db' t h));
  wallet_events-commit =
      λ db db' t k h. ap (λ (x : Tables). x.wallets k) (sym (commit_all-written db db' t h));
  fingerprint_column-commit = λ db db' t k h.
      ap (λ (x : Tables). column_of x.holder k) (sym (commit_all-written db db' t h))
      ∙ column_of-held_after t.wallet t.fingerprint db.holder k (commit_all_free db db' t h);
  by_fingerprint_found = λ db f id h. index_of-found db.holder f id h;
  by_fingerprint_absent = λ db f id h. index_of-absent db.holder f id h;
  unique_fingerprint = λ db f i j p q. column_of_unique db.holder f i j p q;
  jobs-commit = λ db db' t h. ap (λ (x : Tables). x.queue) (sym (commit_all-written db db' t h));
}

abbrev pub signature_count : List PsbtInput → ℕ
signature_count [] = 0
signature_count (i ∷ is) = length i.partial_sigs + signature_count is

-- A document is written as the number of its signatures.
abbrev pub document_of : List ℕ → Result Psbt Text
document_of [] = err "not a psbt"
document_of (n ∷ bytes) =
    if n == 1
    then ok PsbtExamples.unsigned
    else if n == 3
    then ok PsbtExamples.signed
    else err "not a psbt"

abbrev pub enough : ℕ → Option ℕ
enough n = if n == 3 then some 900 else none

abbrev pub services : Services Tables
services = record {
  database = tables;
  session_guard = documented_guard;
  wallet_guard = WalletExamples.guard;
  miniscript = WalletExamples.toy;
  bitcoin = chain;
  builder = builder;
  crypto = record PsbtExamples.toy { deserialize = document_of };
  finalizer = record {
    try_finalize = λ p. enough (signature_count p.inputs);
    extract_tx = λ n. some n;
    compute_txid = λ n. n + 1;
    serialize_tx = λ n. n ∷ [];
  };
  digest_of = digest;
  serialize_psbt = λ p. signature_count p.inputs ∷ [];
  serialize_built = λ n. n ∷ [];
  network = 4;
}
