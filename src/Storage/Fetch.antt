-- ===== src/Storage/Fetch.antt =====
-- What readers of the blob store can rely on.
use kota.Base.{
  ◌≡◌, ◌≢◌, ◌↔◌, Option, none, some, List, [], ◌∷◌, Result, ok, err, arith, ◌==◌, if◌then◌else◌,
}
use kota.Primitives.{PsbtHash}
use kota.Storage.Store.{
  Bytes, InMemoryBlobStore, BlobFetchError, missing, corrupted, get, insert, remove, delete, put,
  verified, fetch_verified,
}

get-insert :
    (k h : PsbtHash) (bytes : Bytes) (store : InMemoryBlobStore)
    → get k (insert h bytes store) ≡ (if k == h then some bytes else get k store)
unfolding get insert
get-insert k h bytes [] = ground arith
get-insert k h bytes (b ∷ bs) = ground (arith, get-insert k h bytes bs)

get-remove :
    (k h : PsbtHash) (store : InMemoryBlobStore)
    → get k (remove h store) ≡ (if k == h then none else get k store)
unfolding get remove
get-remove k h [] = ground arith
get-remove k h (b ∷ bs) = ground (arith, get-remove k h bs)

-- The calls that change a store.
pub data Operation : Type 0 where
  store_blob : Bytes → Operation
  delete_blob : PsbtHash → Operation

module _ (digest_of : Bytes → PsbtHash) where
  abbrev pub apply : Operation → InMemoryBlobStore → InMemoryBlobStore
  apply (store_blob bytes) store = (put digest_of bytes store).0
  apply (delete_blob h) store = (delete h store).0

  unfoldable pub run : List Operation → InMemoryBlobStore → InMemoryBlobStore
  run [] store = store
  run (o ∷ os) store = run os (apply o store)

  -- What `fetch_verified` answers at a key after one more call.
  abbrev pub answer_after :
      Operation → PsbtHash → Result Bytes BlobFetchError → Result Bytes BlobFetchError
  answer_after (store_blob bytes) k before = if k == digest_of bytes then ok bytes else before
  answer_after (delete_blob h) k before = if k == h then err (missing k) else before

  -- A blob that was put is fetched as it was put, a deleted one is missing, and every other key
  -- answers as before.
  pub fetch_verified-apply :
      (o : Operation) (store : InMemoryBlobStore) (k : PsbtHash)
      → fetch_verified digest_of (apply o store) k
        ≡ answer_after o k (fetch_verified digest_of store k)
  unfolding fetch_verified put delete
  fetch_verified-apply (store_blob bytes) store k =
      ground (arith, get-insert k (digest_of bytes) bytes store)
  fetch_verified-apply (delete_blob h) store k = ground (arith, get-remove k h store)

  verified_ok :
      (h : PsbtHash) (o : Option Bytes) (bytes : Bytes)
      → (verified digest_of h o ≡ ok bytes) ↔ ((o ≡ some bytes) × (digest_of bytes ≡ h))
  verified_ok h none bytes = ground arith
  verified_ok h (some b) bytes = ground arith

  -- `fetch_verified` returns bytes exactly when the store holds them under the key and their digest
  -- is the key, whatever the store holds.
  pub fetch_verified_iff :
      (store : InMemoryBlobStore) (h : PsbtHash) (bytes : Bytes)
      → (fetch_verified digest_of store h ≡ ok bytes)
        ↔ ((get h store ≡ some bytes) × (digest_of bytes ≡ h))
  unfolding fetch_verified
  fetch_verified_iff store h bytes = verified_ok h (get h store) bytes

  answer_not_corrupted :
      (o : Operation) (k : PsbtHash) (r : Result Bytes BlobFetchError)
      → r ≢ err (corrupted k)
      → answer_after o k r ≢ err (corrupted k)
  answer_not_corrupted (store_blob bytes) k r n = ground arith
  answer_not_corrupted (delete_blob h) k r n = ground arith

  run_not_corrupted :
      (os : List Operation) (store : InMemoryBlobStore) (k : PsbtHash)
      → fetch_verified digest_of store k ≢ err (corrupted k)
      → fetch_verified digest_of (run os store) k ≢ err (corrupted k)
  unfolding run
  run_not_corrupted [] store k n = n
  run_not_corrupted (o ∷ os) store k n = run_not_corrupted os (apply o store) k (
      rw (fetch_verified-apply o store k)
        (answer_not_corrupted o k (fetch_verified digest_of store k) n))

  -- Whatever was put and deleted since the store was empty, no fetch finds it corrupted.
  pub fetch_verified_not_corrupted :
      (os : List Operation) (k : PsbtHash)
      → fetch_verified digest_of (run os []) k ≢ err (corrupted k)
  unfolding fetch_verified get
  fetch_verified_not_corrupted os k = run_not_corrupted os [] k (ground arith)
