-- ===== src/Platform/HistoryExamples.antt =====
-- The history of a session and of a wallet on concrete input.
use kota.Base.{◌≡◌, refl, [], ◌∷◌, ok, arith}
use kota.Base.Sort.{sort_by, dedup}
use kota.Base.Actions.{◌>>=◌}
use kota.Session.Types.{PsbtSession}
use kota.Session.Hydrate.{try_from_events, verify_hydrated_invariants}
use kota.Session.Log.{IsLater}
use kota.Session.Propose.{try_new}
use kota.Session.Proposal.{session_of}
use kota.Session.Spends.{proposal, spend, coins}
use kota.Wallet.Types.{key_eq, Wallet}
use kota.Wallet.Log as WalletLog
use kota.Platform.WalletHistory.{system_wallet_history}
use kota.Wallet.Descriptor.{keystore_fingerprint, sortedmulti_wsh_descriptor, string_leb}
use kota.Wallet.Entity
use kota.Wallet.Entity.{new, add_keystore, activation}
use kota.Wallet.Registered
use kota.Wallet.Examples.{full, first_key, second_key}
use kota.Platform.Repos.{World, find_session, find_wallet, transact}
use kota.Platform.Service.{register_wallet, find_wallet_or, submit_keystore, propose_spend}
use kota.Platform.Steps.{
  register, submit, propose, upload, create_job, IsEmpty, Reaches, start, after, perform,
}
use kota.Platform.History.{system_history}
use kota.Platform.Toy.{Tables, no_rows}
use kota.Platform.AppendToy.{logged, appending-AppendOnly}

no_rows-IsEmpty : IsEmpty logged no_rows
no_rows-IsEmpty = record { no_sessions = λ id. refl; no_wallets = λ id. refl }

abbrev empty_world : World Tables
empty_world = record { db = no_rows; blobs = [] }

-- Two participants register a wallet, submit their keys, and one of them proposes a spend.
abbrev registered_world : World Tables
registered_world = (perform logged (register 1 2 (21 ∷ 22 ∷ [])) empty_world).0

abbrev half_world : World Tables
half_world = (perform logged (submit 1 21 first_key) registered_world).0

abbrev full_world : World Tables
full_world = (perform logged (submit 1 22 second_key) half_world).0

abbrev proposed_world : World Tables
proposed_world = (perform logged (propose 8 1 21 spend) full_world).0

proposed_world-Reaches : Reaches logged empty_world proposed_world
proposed_world-Reaches = after (propose 8 1 21 spend) tt (
    after (submit 1 22 second_key) tt
      (after (submit 1 21 first_key) tt (after (register 1 2 (21 ∷ 22 ∷ [])) (omega arith) start)))

-- The document is built, and a signature is sent in.
abbrev built_world : World Tables
built_world = (perform logged (create_job (λ v is. ok coins) 8) proposed_world).0

abbrev uploaded_world : World Tables
uploaded_world = (perform logged (upload 8 21 (3 ∷ [])) built_world).0

uploaded_world-Reaches : Reaches logged proposed_world uploaded_world
uploaded_world-Reaches =
    after (upload 8 21 (3 ∷ [])) tt (after (create_job (λ v is. ok coins) 8) tt start)

session_found : find_session logged.database proposed_world.db 8 ≡ ok (session_of proposal)
unfolding find_session find_wallet perform register_wallet submit_keystore find_wallet_or new
    transact ◌>>=◌ Entity.try_from_events Registered.execute add_keystore activation key_eq
    keystore_fingerprint sortedmulti_wsh_descriptor sort_by string_leb propose_spend try_new
    Entity.descriptor_fingerprint_of try_from_events verify_hydrated_invariants dedup
session_found = refl

system_history_example :
    (t : PsbtSession) × (find_session logged.database uploaded_world.db 8 ≡ ok t)
    × IsLater (session_of proposal) t
system_history_example =
    system_history logged appending-AppendOnly empty_world proposed_world uploaded_world
      no_rows-IsEmpty proposed_world-Reaches uploaded_world-Reaches 8 (session_of proposal)
      session_found

full_world-Reaches : Reaches logged empty_world full_world
full_world-Reaches =
    after (submit 1 22 second_key) tt
      (after (submit 1 21 first_key) tt (after (register 1 2 (21 ∷ 22 ∷ [])) (omega arith) start))

wallet_found : find_wallet logged.database full_world.db 1 ≡ ok full
unfolding find_wallet perform register_wallet submit_keystore find_wallet_or new transact ◌>>=◌
    Entity.try_from_events Registered.execute add_keystore activation key_eq keystore_fingerprint
    sortedmulti_wsh_descriptor sort_by string_leb Entity.descriptor_fingerprint_of
wallet_found = refl

system_wallet_history_example :
    (t : Wallet) × (find_wallet logged.database uploaded_world.db 1 ≡ ok t)
    × WalletLog.IsLater full t
system_wallet_history_example =
    system_wallet_history logged appending-AppendOnly empty_world full_world uploaded_world
      no_rows-IsEmpty full_world-Reaches
      (after (upload 8 21 (3 ∷ [])) tt
        (after (create_job (λ v is. ok coins) 8) tt (after (propose 8 1 21 spend) tt start)))
      1 full wallet_found
