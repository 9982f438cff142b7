-- ===== src/Storage/Examples.antt =====
-- The store on concrete input, and the theorems at it.
use kota.Base.{ℕ, ◌+◌, ◌≡◌, refl, ◌↔◌, some, [], ◌∷◌, ok, err}
use kota.Storage.Store.{Bytes, InMemoryBlobStore, corrupted, get, put, fetch_verified}
use kota.Storage.Fetch.{
  store_blob, delete_blob, apply, run, answer_after, fetch_verified-apply, fetch_verified_iff,
}

-- A stand-in for SHA-256.
abbrev pub digest : Bytes → ℕ
digest [] = 7
digest (b ∷ bs) = b + digest bs

abbrev two_blobs : InMemoryBlobStore
two_blobs = run digest (store_blob (1 ∷ 2 ∷ []) ∷ store_blob (5 ∷ []) ∷ []) []

abbrev tampered : InMemoryBlobStore
tampered = record { hash = 10; bytes = 9 ∷ [] } ∷ []

stored_fetched : fetch_verified digest two_blobs 12 ≡ ok (5 ∷ [])
unfolding fetch_verified run put
stored_fetched = refl

tampered_refused : fetch_verified digest tampered 10 ≡ err (corrupted 10)
unfolding fetch_verified
tampered_refused = refl

fetch_verified-apply_example :
    fetch_verified digest (apply digest (delete_blob 12) two_blobs) 10
    ≡ answer_after digest (delete_blob 12) 10 (fetch_verified digest two_blobs 10)
fetch_verified-apply_example = fetch_verified-apply digest (delete_blob 12) two_blobs 10

fetch_verified_iff_example :
    (fetch_verified digest two_blobs 12 ≡ ok (5 ∷ []))
    ↔ ((get 12 two_blobs ≡ some (5 ∷ [])) × (digest (5 ∷ []) ≡ 12))
fetch_verified_iff_example = fetch_verified_iff digest two_blobs 12 (5 ∷ [])
