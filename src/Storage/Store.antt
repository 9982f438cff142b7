-- ===== src/Storage/Store.antt =====
-- The in-memory store and `fetch_verified` of core/coordination/src/storage.rs. The map is a list
-- of entries; `digest_of` is `PsbtHash::digest_of`, SHA-256.
use kota.Base.{
  ℕ, Bool, true, false, Option, none, some, List, [], ◌∷◌, Result, ok, err, ◌==◌, if◌then◌else◌,
}
use kota.Primitives.{PsbtHash}

abbrev pub Bytes : Type 0
Bytes = List ℕ

pub record Blob : Type 0 where
  pub hash : PsbtHash
  pub bytes : Bytes

abbrev pub InMemoryBlobStore : Type 0
InMemoryBlobStore = List Blob

pub data BlobFetchError : Type 0 where
  missing corrupted : PsbtHash → BlobFetchError

unfoldable pub get : PsbtHash → InMemoryBlobStore → Option Bytes
get h [] = none
get h (b ∷ bs) = let rest = get h bs in if h == b.hash then some b.bytes else rest

-- `HashMap::insert`
unfoldable pub insert : PsbtHash → Bytes → InMemoryBlobStore → InMemoryBlobStore
insert h bytes [] = record { hash = h; bytes = bytes } ∷ []
insert h bytes (b ∷ bs) =
    let rest = insert h bytes bs in
    if h == b.hash then record { hash = h; bytes = bytes } ∷ bs else b ∷ rest

-- `HashMap::remove`
unfoldable pub remove : PsbtHash → InMemoryBlobStore → InMemoryBlobStore
remove h [] = []
remove h (b ∷ bs) = let rest = remove h bs in if h == b.hash then rest else b ∷ rest

abbrev is_some : Option Bytes → Bool
is_some none = false
is_some (some b) = true

-- The store after it, and whether anything was deleted.
unfoldable pub delete : PsbtHash → InMemoryBlobStore → InMemoryBlobStore × Bool
unfolding get remove
delete h store = (remove h store, is_some (get h store))

module _ (digest_of : Bytes → PsbtHash) where
  unfoldable pub put : Bytes → InMemoryBlobStore → InMemoryBlobStore × PsbtHash
  unfolding insert
  put bytes store = (insert (digest_of bytes) bytes store, digest_of bytes)

  -- The check of what the store answers.
  abbrev pub verified : PsbtHash → Option Bytes → Result Bytes BlobFetchError
  verified h none = err (missing h)
  verified h (some bytes) = if digest_of bytes == h then ok bytes else err (corrupted h)

  -- `fetch_verified` on this store.
  unfoldable pub fetch_verified : InMemoryBlobStore → PsbtHash → Result Bytes BlobFetchError
  unfolding get
  fetch_verified store h = verified h (get h store)
