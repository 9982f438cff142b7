-- ===== src/Platform/Runs.antt =====
-- Runs of the whole platform on concrete input, and the theorems at them.
use kota.Base.{◌≡◌, refl, true, ◌||◌, [], ◌∷◌, ok, arith, any, is_empty}
use kota.Base.Sort.{sort_by, dedup}
use kota.Base.Actions.{◌>>=◌}
use kota.Session.Hydrate.{try_from_events, verify_hydrated_invariants}
use kota.Session.Propose.{try_new}
use kota.Session.Proposal.{session_of}
use kota.Session.Spends.{proposal, spend}
use kota.Wallet.Types.{key_eq}
use kota.Wallet.Descriptor.{keystore_fingerprint, sortedmulti_wsh_descriptor, string_leb}
use kota.Wallet.Entity
use kota.Wallet.Entity.{new, add_keystore, activation}
use kota.Wallet.Registered
use kota.Wallet.Examples.{full, first_key, second_key}
use kota.Platform.Repos.{World, find_session, find_wallet, transact}
use kota.Platform.Consistent.{IsConsistent}
use kota.Platform.Dispatch.{is_creation_of, is_finalization_of}
use kota.Platform.Service.{register_wallet, find_wallet_or, submit_keystore, propose_spend}
use kota.Platform.Steps.{
  register, submit, propose, IsEmpty, Reaches, start, after, perform, system-IsConsistent,
  system_dispatches,
}
use kota.Platform.Toy.{Tables, no_rows, services}

pub no_rows-IsEmpty : IsEmpty services no_rows
no_rows-IsEmpty = record { no_sessions = λ id. refl; no_wallets = λ id. refl }

abbrev pub empty_world : World Tables
empty_world = record { db = no_rows; blobs = [] }

-- Two participants register a wallet, submit their keys, and one of them proposes a spend.
abbrev registered_world : World Tables
registered_world = (perform services (register 1 2 (21 ∷ 22 ∷ [])) empty_world).0

abbrev half_world : World Tables
half_world = (perform services (submit 1 21 first_key) registered_world).0

abbrev pub full_world : World Tables
full_world = (perform services (submit 1 22 second_key) half_world).0

abbrev proposed_world : World Tables
proposed_world = (perform services (propose 8 1 21 spend) full_world).0

pub full_world-Reaches : Reaches services empty_world full_world
full_world-Reaches =
    after (submit 1 22 second_key) tt
      (after (submit 1 21 first_key) tt (after (register 1 2 (21 ∷ 22 ∷ [])) (omega arith) start))

proposed_world-Reaches : Reaches services empty_world proposed_world
proposed_world-Reaches = after (propose 8 1 21 spend) tt full_world-Reaches

pub wallet_found : find_wallet services.database full_world.db 1 ≡ ok full
unfolding find_wallet perform register_wallet submit_keystore find_wallet_or new transact ◌>>=◌
    Entity.try_from_events Registered.execute add_keystore activation key_eq keystore_fingerprint
    sortedmulti_wsh_descriptor sort_by string_leb Entity.descriptor_fingerprint_of
wallet_found = refl

session_found : find_session services.database proposed_world.db 8 ≡ ok (session_of proposal)
unfolding find_session find_wallet perform register_wallet submit_keystore find_wallet_or new
    transact ◌>>=◌ Entity.try_from_events Registered.execute add_keystore activation key_eq
    keystore_fingerprint sortedmulti_wsh_descriptor sort_by string_leb propose_spend try_new
    Entity.descriptor_fingerprint_of try_from_events verify_hydrated_invariants dedup
session_found = refl

system-IsConsistent_example :
    IsConsistent services full_world.db
    × ((perform services (propose 8 1 21 spend) full_world).1 ≡ true)
system-IsConsistent_example =
    system-IsConsistent services empty_world full_world no_rows-IsEmpty full_world-Reaches
      (propose 8 1 21 spend) tt

system_dispatches_example :
    (any (is_creation_of 8) (services.database.jobs proposed_world.db) ≡ true)
    × ((is_empty (session_of proposal).signatures
          || any (is_finalization_of 8) (services.database.jobs proposed_world.db))
        ≡ true)
system_dispatches_example =
    system_dispatches services empty_world proposed_world no_rows-IsEmpty proposed_world-Reaches 8
      (session_of proposal) session_found
