-- ===== src/Wallet/Entity.antt =====
-- The accessors and the commands of `Wallet`, and `NewWallet`,
-- core/coordination/src/wallet/entity.rs. A command returns the wallet after it beside its result.
use kota.Base.{
  ℕ, ◌+◌, ◌%◌, ◌^◌, Bool, true, false, not, ◌||◌, Option, none, some, List, [], ◌∷◌, ◌++◌, reverse,
  Result, ok, err, Idempotent, executed, already_applied, ◌>>=◌, length, is_empty, any, contains,
  nat_order, ltb, ◌==◌, if◌then◌else◌,
}
use kota.Primitives.{
  WalletId, UserId, KeyFingerprint, Network, Text, WalletStatus, collecting_keystores, active,
  cancelled,
}
use kota.EsEntity.{IdempotencyGuard, never}
use kota.Wallet.Types.{
  DescriptorPublicKey, key_eq, Descriptor, DescriptorFingerprint, Miniscript, WalletEvent,
  initialized, keystore_added, keystore_removed, activated, cancelled_by, Wallet, WalletError,
  invalid_policy, duplicate_participant, not_a_participant, participant_already_submitted,
  already_active, duplicate_keystore, was_cancelled, cannot_cancel_active,
}
use kota.Wallet.Descriptor.{
  sortedmulti_wsh_descriptor, descriptor_fingerprint, keystore_fingerprint,
}

-- `as u32`
abbrev pub u32 : ℕ → ℕ
u32 n = n % 2 ^ 32

-- The closure of the fold in `status`.
abbrev pub status_step : WalletStatus → WalletEvent → WalletStatus
status_step status (activated d f) = active
status_step status (cancelled_by u r) = cancelled
status_step status _ = status

abbrev pub status_from : WalletStatus → List WalletEvent → WalletStatus
status_from status [] = status
status_from status (e ∷ es) = status_from (status_step status e) es

abbrev pub status : Wallet → WalletStatus
status w = status_from collecting_keystores w.events

abbrev pub Submission : Type 0
Submission = UserId × DescriptorPublicKey

-- `retain(|(p, _)| p != participant)`
abbrev pub without : UserId → List Submission → List Submission
without u [] = []
without u ((p, k) ∷ l) = let rest = without u l in if p == u then rest else (p, k) ∷ rest

abbrev pub submissions_step : List Submission → WalletEvent → List Submission
submissions_step l (keystore_added k u) = l ++ (u, k) ∷ []
submissions_step l (keystore_removed p k u) = without p l
submissions_step l _ = l

abbrev pub submissions_from : List Submission → List WalletEvent → List Submission
submissions_from l [] = l
submissions_from l (e ∷ es) = submissions_from (submissions_step l e) es

abbrev pub submissions : Wallet → List Submission
submissions w = submissions_from [] w.events

abbrev pub keys : List Submission → List DescriptorPublicKey
keys [] = []
keys ((p, k) ∷ l) = k ∷ keys l

abbrev pub submitters : List Submission → List UserId
submitters [] = []
submitters ((p, k) ∷ l) = p ∷ submitters l

abbrev pub keystores : Wallet → List DescriptorPublicKey
keystores w = keys (submissions w)

abbrev pub total_keystores : Wallet → ℕ
total_keystores w = u32 (length w.participants)

-- `into_iter().find(|(p, _)| *p == user)`
abbrev pub find_submission : UserId → List Submission → Option Submission
find_submission u [] = none
find_submission u ((p, k) ∷ l) = if p == u then some (p, k) else find_submission u l

-- `participants.iter().filter(|p| !submitted.contains(p))`
unfoldable pub not_among : List UserId → List UserId → List UserId
not_among submitted [] = []
not_among submitted (p ∷ ps) =
    let rest = not_among submitted ps in if contains submitted p then rest else p ∷ rest

unfoldable pub pending_participants : Wallet → List UserId
unfolding not_among
pending_participants w = not_among (submitters (submissions w)) w.participants

unfoldable pub missing_keystores : Wallet → ℕ
unfolding pending_participants
missing_keystores w = u32 (length (pending_participants w))

-- `find_map` over the `Activated` events.
abbrev pub first_activation : List WalletEvent → Option (Descriptor × DescriptorFingerprint)
first_activation [] = none
first_activation (activated d f ∷ es) = some (d, f)
first_activation (e ∷ es) = first_activation es

unfoldable pub descriptor : Wallet → Option Descriptor
descriptor w = elim (first_activation w.events) [ none ↦ none | some p ↦ some p.0 ]

unfoldable pub descriptor_fingerprint_of : Wallet → Option DescriptorFingerprint
descriptor_fingerprint_of w = elim (first_activation w.events) [ none ↦ none | some p ↦ some p.1 ]

abbrev pub Outcome : Type 0
Outcome = Wallet × Result (Idempotent (Unit {0})) WalletError

abbrev pub push : Wallet → WalletEvent → Wallet
push w e = record w { events = w.events ++ e ∷ [] }

-- The gate on the lifecycle that `add_keystore` and `remove_keystore` share.
abbrev pub gate : WalletStatus → Option WalletError
gate collecting_keystores = none
gate active = some already_active
gate cancelled = some was_cancelled

-- The first test of `add_keystore`: the same key is held for the participant.
abbrev pub is_held : Option Submission → DescriptorPublicKey → Bool
is_held none keystore = false
is_held (some (p, existing)) keystore = key_eq existing keystore

abbrev pub is_cancelled_event : WalletEvent → Bool
is_cancelled_event (cancelled_by u r) = true
is_cancelled_event _ = false

module _ (m : Miniscript) where
  abbrev pub fingerprints : List Submission → List KeyFingerprint
  fingerprints [] = []
  fingerprints ((p, k) ∷ l) = keystore_fingerprint m k ∷ fingerprints l

  unfoldable pub keystore_fingerprint_of : Wallet → UserId → Option KeyFingerprint
  keystore_fingerprint_of w user = elim (find_submission user (submissions w)) [
    | none ↦ none
    | some p ↦ some (keystore_fingerprint m p.1)
  ]

  -- `let activation = …`
  unfoldable pub activation :
      Wallet
      → DescriptorPublicKey
      → Result (Option (Descriptor × DescriptorFingerprint)) WalletError
  activation w keystore =
      if u32 (u32 (length (keystores w)) + 1) == total_keystores w
      then (do
        d ← sortedmulti_wsh_descriptor m w.threshold (keystores w ++ keystore ∷ [])
        ok (some (d, descriptor_fingerprint m d w.network)))
      else ok none

  -- The events pushed once the activation is known.
  abbrev pub record_keystore :
      Wallet
      → DescriptorPublicKey
      → UserId
      → Result (Option (Descriptor × DescriptorFingerprint)) WalletError
      → Outcome
  record_keystore w keystore u (err e) = (w, err e)
  record_keystore w keystore u (ok none) = (push w (keystore_added keystore u), ok (executed tt))
  record_keystore w keystore u (ok (some (d, f))) =
      (push (push w (keystore_added keystore u)) (activated d f), ok (executed tt))

  -- The checks behind the lifecycle gate.
  unfoldable pub add_collecting : Wallet → DescriptorPublicKey → UserId → Outcome
  add_collecting w keystore u =
      if not (contains w.participants u)
      then (w, err (not_a_participant u))
      else if any (λ s. s.0 == u) (submissions w)
      then (w, err (participant_already_submitted u))
      else if any (λ k. keystore_fingerprint m k == keystore_fingerprint m keystore) (keystores w)
      then (w, err (duplicate_keystore (keystore_fingerprint m keystore)))
      else record_keystore w keystore u (activation w keystore)

  unfoldable pub add_keystore : Wallet → DescriptorPublicKey → UserId → Outcome
  unfolding add_collecting
  add_keystore w keystore u =
      if is_held (find_submission u (submissions w)) keystore
      then (w, ok already_applied)
      else elim (gate (status w)) [ some e ↦ (w, err e) | none ↦ add_collecting w keystore u ]

abbrev pub remove_found : Wallet → UserId → UserId → Option Submission → Outcome
remove_found w participant removed_by none = (w, ok already_applied)
remove_found w participant removed_by (some (p, keystore)) =
    (push w (keystore_removed participant keystore removed_by), ok (executed tt))

unfoldable pub remove_keystore : Wallet → UserId → UserId → Outcome
remove_keystore w participant removed_by = elim (gate (status w)) [
  | some e ↦ (w, err e)
  | none ↦ remove_found w participant removed_by (find_submission participant (submissions w))
]

-- The match of `cancel`. Its last arm is `unreachable!` in the source: `cancel-cancelled` shows
-- that no wallet comes to it; here it answers `was_cancelled`.
abbrev pub cancel_at : WalletStatus → Wallet → UserId → Text → Outcome
cancel_at collecting_keystores w u reason = (push w (cancelled_by u reason), ok (executed tt))
cancel_at active w u reason = (w, err cannot_cancel_active)
cancel_at cancelled w u reason = (w, err was_cancelled)

module _ (guard : IdempotencyGuard WalletEvent) where
  unfoldable pub cancel : Wallet → UserId → Text → Outcome
  cancel w u reason =
      if guard.applied is_cancelled_event never (reverse w.events)
      then (w, ok already_applied)
      else cancel_at (status w) w u reason

pub record NewWallet : Type 0 where
  pub id : WalletId
  pub network : Network
  pub threshold : ℕ
  pub participants : List UserId

-- The loop over `participants[..i].contains(participant)`, with the participants passed.
unfoldable pub first_repeat : List UserId → List UserId → Option UserId
first_repeat passed [] = none
first_repeat passed (p ∷ ps) =
    let rest = first_repeat (passed ++ p ∷ []) ps in if contains passed p then some p else rest

unfoldable pub new : WalletId → Network → ℕ → List UserId → Result NewWallet WalletError
unfolding first_repeat
new id network threshold participants =
    if is_empty participants || (threshold == 0) || ltb (length participants) threshold
    then err (invalid_policy threshold (u32 (length participants)))
    else elim (first_repeat [] participants) [
      | some p ↦ err (duplicate_participant p)
      | none ↦ ok (record {
        id = id;
        network = network;
        threshold = threshold;
        participants = participants;
      })
    ]

-- `NewWallet::descriptor_fingerprint`
abbrev pub new_descriptor_fingerprint : NewWallet → Option DescriptorFingerprint
new_descriptor_fingerprint n = none

abbrev pub into_events : NewWallet → List WalletEvent
into_events n = initialized n.id n.network n.threshold n.participants ∷ []

-- The builder's fields, set together by each `Initialized` event.
abbrev pub builder_from : Option NewWallet → List WalletEvent → Option NewWallet
builder_from b [] = b
builder_from b (initialized i n t ps ∷ es) =
    builder_from (some (record { id = i; network = n; threshold = t; participants = ps })) es
builder_from b (e ∷ es) = builder_from b es

-- `none` is the builder's error on a missing field.
abbrev pub build : Option NewWallet → List WalletEvent → Option Wallet
build none es = none
build (some n) es = some (record {
  id = n.id;
  network = n.network;
  threshold = n.threshold;
  participants = n.participants;
  events = es;
})

unfoldable pub try_from_events : List WalletEvent → Option Wallet
try_from_events es = build (builder_from none es) es
