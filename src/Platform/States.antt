-- ===== src/Platform/States.antt =====
-- Consistent databases of the stand-ins: with a wallet, and with its session at each stage.
use kota.Base.{◌≡◌, refl, List, [], ◌∷◌, ok}
use kota.Base.Sort.{sort_by, dedup}
use kota.Session.Types.{PsbtSession}
use kota.Session.Entity.{record_psbt_created}
use kota.Session.Hydrate.{try_from_events, verify_hydrated_invariants}
use kota.Session.Propose.{into_events}
use kota.Session.Proposal.{session_of}
use kota.Session.Commands.{attach, execute, here, next}
use kota.Session.Spends.{proposal}
use kota.Wallet.Types.{key_eq}
use kota.Wallet.Descriptor.{keystore_fingerprint, sortedmulti_wsh_descriptor, string_leb}
use kota.Wallet.Entity.{add_keystore, activation}
use kota.Wallet.Registered
use kota.Wallet.Examples.{policy, registered, full, half, policy-IsRegistered, full-Reaches}
use kota.Platform.Database.{psbt_creation}
use kota.Platform.Repos.{World, write_session, write_wallet}
use kota.Platform.Dispatch.{IsDispatched}
use kota.Platform.Genuine
use kota.Platform.GenuineWallet
use kota.Platform.Consistent.{IsConsistent, commit-IsConsistent}
use kota.Platform.Jobs.Atomic.{session-IsProper}
use kota.Wallet.Examples.{first_key}
use kota.Platform.Service.Wallets.{wallet-IsProper}
use kota.Platform.Database.{JobConfig, finalization}
use kota.Session.Commands.{sign}
use kota.Session.Entity.{add_signature}
use kota.Platform.Jobs.Finalization.{run_finalization}
use kota.Platform.Steps.{
  finalize_job, perform, perform-IsConsistent, IsEmpty, IsConsistent-of_empty,
}
use kota.Platform.Toy.{Tables, no_rows, written, services}

pub no_rows-IsEmpty : IsEmpty services no_rows
no_rows-IsEmpty = record { no_sessions = λ id. refl; no_wallets = λ id. refl }

pub no_rows-IsConsistent : IsConsistent services no_rows
no_rows-IsConsistent = IsConsistent-of_empty services no_rows no_rows-IsEmpty

-- The active wallet is stored.
abbrev pub with_wallet : Tables
with_wallet = written no_rows (write_wallet full)

pub full-IsGenuine : GenuineWallet.IsGenuine services.miniscript services.wallet_guard 1 full
full-IsGenuine = record {
  registration = policy;
  born = registered;
  registered = policy-IsRegistered;
  reached = full-Reaches;
  same_id =
      (Registered.Reaches-SamePolicy services.miniscript services.wallet_guard full-Reaches).id;
}

pub with_wallet-IsConsistent : IsConsistent services with_wallet
with_wallet-IsConsistent =
    commit-IsConsistent services no_rows with_wallet (write_wallet full) no_rows-IsConsistent
      (wallet-IsProper services no_rows no_rows-IsConsistent 1 full full-IsGenuine) refl

-- The session 8 on it, with its unsigned document.
abbrev pub attached : PsbtSession
attached = execute services.session_guard (attach 8) (session_of proposal)

abbrev pub wallet_world : World Tables
wallet_world = record { db = with_wallet; blobs = [] }

pub proposal_hydrates : try_from_events (into_events proposal) ≡ ok (session_of proposal)
unfolding try_from_events verify_hydrated_invariants dedup sort_by Registered.execute add_keystore
    activation key_eq keystore_fingerprint sortedmulti_wsh_descriptor string_leb
proposal_hydrates = refl

pub attached-IsGenuine : Genuine.IsGenuine services.session_guard 8 attached
unfolding execute record_psbt_created
attached-IsGenuine = record {
  born = proposal;
  born_hydrates = proposal_hydrates;
  reached = next (attach 8) here;
  same_id = refl;
}

pub attached-IsDispatched : IsDispatched (psbt_creation 8 ∷ []) attached
unfolding execute record_psbt_created
attached-IsDispatched = record { creation = refl; completion = refl }

abbrev pub with_session : Tables
with_session = written with_wallet (write_session attached (psbt_creation 8 ∷ []))

pub with_session-IsConsistent : IsConsistent services with_session
with_session-IsConsistent =
    commit-IsConsistent services with_wallet with_session
      (write_session attached (psbt_creation 8 ∷ [])) with_wallet-IsConsistent
      (session-IsProper services with_wallet with_wallet-IsConsistent 8 attached
        (psbt_creation 8 ∷ []) attached-IsGenuine attached-IsDispatched)
      refl

-- The store has the unsigned document under its digest.
abbrev pub world : World Tables
world = record { db = with_session; blobs = record { hash = 8; bytes = 1 ∷ [] } ∷ [] }

-- With the signatures of both keystores, over the blobs that were stored for them.
abbrev pub signed : PsbtSession
signed =
    execute services.session_guard (sign 11 10)
      (execute services.session_guard (sign 12 8) attached)

abbrev pub signed_jobs : List JobConfig
signed_jobs = psbt_creation 8 ∷ finalization 8 ∷ []

pub signed-IsGenuine : Genuine.IsGenuine services.session_guard 8 signed
unfolding execute record_psbt_created add_signature Registered.execute add_keystore activation
    keystore_fingerprint sortedmulti_wsh_descriptor
signed-IsGenuine = record {
  born = proposal;
  born_hydrates = proposal_hydrates;
  reached = next (sign 11 10) (next (sign 12 8) (next (attach 8) here));
  same_id = refl;
}

pub signed-IsDispatched : IsDispatched signed_jobs signed
unfolding execute record_psbt_created add_signature Registered.execute add_keystore activation
    keystore_fingerprint sortedmulti_wsh_descriptor
signed-IsDispatched = record { creation = refl; completion = refl }

abbrev pub with_signed : Tables
with_signed = written with_wallet (write_session signed signed_jobs)

pub with_signed-IsConsistent : IsConsistent services with_signed
with_signed-IsConsistent =
    commit-IsConsistent services with_wallet with_signed (write_session signed signed_jobs)
      with_wallet-IsConsistent
      (session-IsProper services with_wallet with_wallet-IsConsistent 8 signed signed_jobs
        signed-IsGenuine signed-IsDispatched)
      refl

abbrev pub signed_world : World Tables
signed_world = record {
  db = with_signed;
  blobs = record { hash = 10; bytes = 3 ∷ [] } ∷ record { hash = 8; bytes = 1 ∷ [] } ∷ [];
}

abbrev pub finalized_world : World Tables
finalized_world = (run_finalization services 8 signed_world).1

pub finalized_world-IsConsistent : IsConsistent services finalized_world.db
unfolding perform
finalized_world-IsConsistent =
    (perform-IsConsistent services (finalize_job 8) signed_world tt with_signed-IsConsistent).0

pub half-IsGenuine : GenuineWallet.IsGenuine services.miniscript services.wallet_guard 1 half
half-IsGenuine =
    let r = Registered.next (Registered.submit first_key 21) Registered.here in
    record {
      registration = policy;
      born = registered;
      registered = policy-IsRegistered;
      reached = r;
      same_id = (Registered.Reaches-SamePolicy services.miniscript services.wallet_guard r).id;
    }

abbrev pub with_half : Tables
with_half = written no_rows (write_wallet half)

abbrev pub half_world : World Tables
half_world = record { db = with_half; blobs = [] }

pub with_half-IsConsistent : IsConsistent services with_half
with_half-IsConsistent =
    commit-IsConsistent services no_rows with_half (write_wallet half) no_rows-IsConsistent
      (wallet-IsProper services no_rows no_rows-IsConsistent 1 half half-IsGenuine) refl

-- The session before its unsigned document.
abbrev pub with_pending : Tables
with_pending = written with_wallet (write_session (session_of proposal) (psbt_creation 8 ∷ []))

abbrev pub pending_world : World Tables
pending_world = record { db = with_pending; blobs = [] }

pub with_pending-IsConsistent : IsConsistent services with_pending
with_pending-IsConsistent =
    commit-IsConsistent services with_wallet with_pending
      (write_session (session_of proposal) (psbt_creation 8 ∷ [])) with_wallet-IsConsistent
      (session-IsProper services with_wallet with_wallet-IsConsistent 8 (session_of proposal)
        (psbt_creation 8 ∷ [])
        (record {
          born = proposal;
          born_hydrates = proposal_hydrates;
          reached = here;
          same_id = refl;
        })
        (record { creation = refl; completion = refl }))
      refl
