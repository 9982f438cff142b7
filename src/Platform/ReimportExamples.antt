-- ===== src/Platform/ReimportExamples.antt =====
-- A second import of a wallet on concrete input, and the theorems at it.
use kota.Base.{◌≡◌, refl, some, executed, [], ◌∷◌, ok, arith}
use kota.Base.Sort.{sort_by}
use kota.Base.Actions.{◌>>=◌}
use kota.Primitives.{WalletId}
use kota.Wallet.Types.{Wallet, key_eq}
use kota.Wallet.Descriptor.{
  keystore_fingerprint, sortedmulti_wsh_descriptor, string_leb, descriptor_fingerprint,
  before_checksum,
}
use kota.Wallet.Entity
use kota.Wallet.Entity.{new, into_events, add_keystore, activation, descriptor_fingerprint_of}
use kota.Wallet.Registered
use kota.Wallet.Examples.{policy, registered, full, first_key, second_key}
use kota.Platform.Repos.{World, find_wallet, transact}
use kota.Platform.Consistent.{IsConsistent}
use kota.Platform.Service.{register_wallet, find_wallet_or, submit_keystore}
use kota.Platform.Service.Reimport.{submit_keystore_reimport}
use kota.Platform.Steps.{
  register, submit, Reaches, after, perform, system-IsConsistent, system_wallets_unique,
}
use kota.Platform.Runs.{no_rows-IsEmpty, empty_world, full_world, full_world-Reaches, wallet_found}
use kota.Platform.Toy.{Tables, services}

-- The same participants register once more, and one submits the same key.
abbrev again_world : World Tables
again_world = (perform services (register 2 2 (21 ∷ 22 ∷ [])) full_world).0

abbrev ready_world : World Tables
ready_world = (perform services (submit 2 21 first_key) again_world).0

ready_world-Reaches : Reaches services empty_world ready_world
ready_world-Reaches =
    after (submit 2 21 first_key) tt
      (after (register 2 2 (21 ∷ 22 ∷ [])) (omega arith) full_world-Reaches)

ready_world-IsConsistent : IsConsistent services ready_world.db
ready_world-IsConsistent =
    (system-IsConsistent services empty_world ready_world no_rows-IsEmpty ready_world-Reaches
      (submit 2 22 second_key) tt).0

-- The wallet of the second registration.
abbrev second : Wallet
second =
    Registered.execute services.miniscript services.wallet_guard (Registered.submit first_key 21)
      (record registered { id = 2; events = into_events (record policy { id = 2 }) })

first_found : find_wallet services.database ready_world.db 1 ≡ ok full
unfolding find_wallet perform register_wallet submit_keystore find_wallet_or new transact ◌>>=◌
    Entity.try_from_events Registered.execute add_keystore activation key_eq keystore_fingerprint
    sortedmulti_wsh_descriptor sort_by string_leb descriptor_fingerprint_of
first_found = refl

second_found : find_wallet services.database ready_world.db 2 ≡ ok second
unfolding find_wallet perform register_wallet submit_keystore find_wallet_or new transact ◌>>=◌
    Entity.try_from_events Registered.execute add_keystore activation key_eq keystore_fingerprint
    sortedmulti_wsh_descriptor sort_by string_leb descriptor_fingerprint_of
second_found = refl

second_completed : (add_keystore services.miniscript second second_key 22).1 ≡ ok (executed tt)
unfolding Registered.execute add_keystore activation key_eq keystore_fingerprint
    sortedmulti_wsh_descriptor sort_by string_leb
second_completed = refl

full_address : descriptor_fingerprint_of full ≡ some 264
unfolding Registered.execute add_keystore activation key_eq keystore_fingerprint
    sortedmulti_wsh_descriptor sort_by string_leb descriptor_fingerprint_of descriptor_fingerprint
    before_checksum
full_address = refl

second_address :
    descriptor_fingerprint_of (add_keystore services.miniscript second second_key 22).0 ≡ some 264
unfolding Registered.execute add_keystore activation key_eq keystore_fingerprint
    sortedmulti_wsh_descriptor sort_by string_leb descriptor_fingerprint_of descriptor_fingerprint
    before_checksum
second_address = refl

submit_keystore_reimport_example :
    submit_keystore services 2 22 second_key ready_world ≡ (ok full, ready_world)
submit_keystore_reimport_example =
    submit_keystore_reimport services ready_world ready_world-IsConsistent 2 1 22 second_key second
      full 264 second_found first_found (λ e. ground arith) second_completed second_address
      full_address

system_wallets_unique_example : (◌≡◌ {A = WalletId} 1 1) × (full ≡ full)
system_wallets_unique_example =
    system_wallets_unique services empty_world full_world no_rows-IsEmpty full_world-Reaches 1 1
      full full 264 wallet_found wallet_found full_address full_address
