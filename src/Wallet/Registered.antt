-- ===== src/Wallet/Registered.antt =====
-- The wallets that registration and commands lead to.
use kota.Base.{
  ℕ, ◌≤◌, ◌<◌, ◌^◌, ◌≡◌, refl, sym, ap, subst, ◌↔◌, true, false, none, some, List, [], ◌∷◌, ◌++◌,
  ok, arith, length, is_empty, contains, IsDistinct, nat_order,
}
use kota.Base.Sort.{contains-push, beq_sym}
use kota.Primitives.{WalletId, UserId, Network, Text, active}
use kota.EsEntity.{IdempotencyGuard}
use kota.Wallet.Types.{DescriptorPublicKey, Miniscript, WalletEvent, Wallet}
use kota.Wallet.Entity.{
  status, submissions, keystores, fingerprints, activation, record_keystore, add_collecting,
  add_keystore, remove_keystore, cancel, NewWallet, new, first_repeat, into_events, try_from_events,
}
use kota.Wallet.Submissions.{length-keys}
use kota.Wallet.Invariant.{
  IsWellFormed, IsFilled, add_keystore-IsWellFormed, remove_keystore-IsWellFormed,
  cancel-IsWellFormed,
}
use kota.Wallet.Activation.{
  HasDescriptor, add_keystore-HasDescriptor, remove_keystore-HasDescriptor, cancel-HasDescriptor,
}

pub data Command : Type 0 where
  submit : DescriptorPublicKey → UserId → Command
  withdraw : UserId → UserId → Command
  abandon : UserId → Text → Command

-- None of `ps` stands in `passed`.
abbrev IsFresh : List UserId → List UserId → Type 0
IsFresh passed [] = Unit
IsFresh passed (p ∷ ps) = (contains passed p ≡ false) × IsFresh passed ps

IsFresh-push_iff :
    (passed : List UserId) (x : UserId) (ps : List UserId)
    → IsFresh (passed ++ x ∷ []) ps ↔ ((contains ps x ≡ false) × IsFresh passed ps)
IsFresh-push_iff passed x [] = ground arith
IsFresh-push_iff passed x (p ∷ ps) =
    ground (arith, IsFresh-push_iff passed x ps, contains-push passed x p, beq_sym x p)

IsFresh-nil : (ps : List UserId) → IsFresh [] ps
IsFresh-nil [] = tt
IsFresh-nil (p ∷ ps) = (refl, IsFresh-nil ps)

first_repeat_iff :
    (passed ps : List UserId)
    → (first_repeat passed ps ≡ none) ↔ (IsDistinct ps × IsFresh passed ps)
unfolding first_repeat
first_repeat_iff passed [] = ground arith
first_repeat_iff passed (p ∷ ps) =
    ground (arith, first_repeat_iff (passed ++ p ∷ []) ps, IsFresh-push_iff passed p ps)

-- Registration accepts exactly the policies N-of-M with 0 < N ≤ M over distinct participants.
pub new_iff :
    (id : WalletId) (network : Network) (threshold : ℕ) (ps : List UserId)
    → (new id network threshold ps
        ≡ ok (record { id = id; network = network; threshold = threshold; participants = ps }))
      ↔ ((0 < threshold) × (threshold ≤ length ps) × IsDistinct ps)
unfolding new
new_iff id network threshold ps =
    ground (arith, first_repeat_iff [] ps, IsFresh-nil ps, empty_short ps)
  where
    empty_short : (l : List UserId) → is_empty l ≡ true → length l ≡ 0
    empty_short [] h = refl
    empty_short (x ∷ xs) h = cc

module _ (m : Miniscript) (guard : IdempotencyGuard WalletEvent) where
  unfoldable pub execute : Command → Wallet → Wallet
  execute (submit k u) w = (add_keystore m w k u).0
  execute (withdraw p by) w = (remove_keystore w p by).0
  execute (abandon u r) w = (cancel guard w u r).0

  pub data Reaches (w : Wallet) : Wallet → Type 0 where
    here : Reaches w w
    next : {v : Wallet} (c : Command) → Reaches w v → Reaches w (execute c v)

  -- Commands leave the policy alone.
  pub record SamePolicy (w v : Wallet) : Type 0 where
    pub threshold : v.threshold ≡ w.threshold
    pub participants : v.participants ≡ w.participants
    pub network : v.network ≡ w.network
    pub id : v.id ≡ w.id

  record_keystore-SamePolicy :
      (w : Wallet) (k : DescriptorPublicKey) (u : UserId)
      → SamePolicy w (record_keystore m w k u (activation m w k)).0
  record_keystore-SamePolicy w k u = ground arith

  add_collecting-SamePolicy :
      (w : Wallet) (k : DescriptorPublicKey) (u : UserId) → SamePolicy w (add_collecting m w k u).0
  unfolding add_collecting
  add_collecting-SamePolicy w k u = ground (arith, record_keystore-SamePolicy w k u)

  execute-SamePolicy : (c : Command) (w : Wallet) → SamePolicy w (execute c w)
  unfolding execute add_keystore remove_keystore cancel
  execute-SamePolicy (submit k u) w = ground (arith, add_collecting-SamePolicy w k u)
  execute-SamePolicy (withdraw p by) w = ground arith
  execute-SamePolicy (abandon u r) w = ground arith

  pub Reaches-SamePolicy : {w v : Wallet} → Reaches w v → SamePolicy w v
  Reaches-SamePolicy here = record {
    threshold = refl;
    participants = refl;
    network = refl;
    id = refl;
  }
  Reaches-SamePolicy (next {v = u} c r) =
      ground (arith, execute-SamePolicy c u, Reaches-SamePolicy r)

  execute-IsWellFormed :
      (c : Command) (w : Wallet)
      → length w.participants < 2 ^ 32
      → IsWellFormed m w
      → IsWellFormed m (execute c w)
  unfolding execute
  execute-IsWellFormed (submit k u) w s i = add_keystore-IsWellFormed m w s i k u
  execute-IsWellFormed (withdraw p by) w s i = remove_keystore-IsWellFormed m w s i p by
  execute-IsWellFormed (abandon u r) w s i = cancel-IsWellFormed m w s i guard u r

  execute-HasDescriptor :
      (c : Command) (w : Wallet) → HasDescriptor m w → HasDescriptor m (execute c w)
  unfolding execute
  execute-HasDescriptor (submit k u) w i = add_keystore-HasDescriptor m w i k u
  execute-HasDescriptor (withdraw p by) w i = remove_keystore-HasDescriptor m w i p by
  execute-HasDescriptor (abandon u r) w i = cancel-HasDescriptor m w i guard u r

  pub Reaches-IsWellFormed :
      {w v : Wallet}
      → length w.participants < 2 ^ 32
      → IsWellFormed m w
      → Reaches w v
      → IsWellFormed m v
  Reaches-IsWellFormed s i here = i
  Reaches-IsWellFormed s i (next {v = u} c r) =
      execute-IsWellFormed c u
        (subst (λ (l : List UserId). length l < 2 ^ 32) (sym (Reaches-SamePolicy r).participants) s)
        (Reaches-IsWellFormed s i r)

  pub Reaches-HasDescriptor : {w v : Wallet} → HasDescriptor m w → Reaches w v → HasDescriptor m v
  Reaches-HasDescriptor i here = i
  Reaches-HasDescriptor i (next {v = u} c r) = execute-HasDescriptor c u (Reaches-HasDescriptor i r)

  -- A wallet hydrated from what an accepted registration recorded.
  pub record IsRegistered (n : NewWallet) (w : Wallet) : Type 0 where
    pub accepted : new n.id n.network n.threshold n.participants ≡ ok n
    pub hydrated : try_from_events (into_events n) ≡ some w
    -- A `Vec` of so many 16-byte ids would not fit the memory of the platform.
    pub countable : length n.participants < 2 ^ 32

  abbrev first_state : NewWallet → Wallet
  first_state n = record {
    id = n.id;
    network = n.network;
    threshold = n.threshold;
    participants = n.participants;
    events = into_events n;
  }

  registered-eq : (n : NewWallet) (w : Wallet) → IsRegistered n w → first_state n ≡ w
  unfolding try_from_events
  registered-eq n w r = ground (arith, r.hydrated)

  policy_of_accepted :
      (n : NewWallet)
      → new n.id n.network n.threshold n.participants ≡ ok n
      → (0 < n.threshold) × (n.threshold ≤ length n.participants) × IsDistinct n.participants
  policy_of_accepted n h = (new_iff n.id n.network n.threshold n.participants).0 h

  first-IsWellFormed : (n : NewWallet) → 0 < length n.participants → IsWellFormed m (first_state n)
  first-IsWellFormed n h = record { known = refl; one_each = tt; distinct_devices = tt; filled = h }

  -- An active wallet's policy is valid by construction: the registered threshold is between one
  -- and the number of its keystores, there is one keystore for each registered participant, all
  -- with distinct master fingerprints, and the recorded descriptor and its content address are
  -- those of these keystores on the wallet's network.
  pub active_policy :
      (n : NewWallet) (w v : Wallet)
      → IsRegistered n w
      → Reaches w v
      → status v ≡ active
      → (v.threshold ≡ n.threshold)
        × (0 < v.threshold)
        × (v.threshold ≤ length (keystores v))
        × (length (keystores v) ≡ length n.participants)
        × IsDistinct (fingerprints m (submissions v))
        × HasDescriptor m v
  active_policy n w v r c a =
      let p = policy_of_accepted n r.accepted in
      let e : first_state n ≡ w = registered-eq n w r in
      let q : SamePolicy (first_state n) v =
        subst (λ x. SamePolicy x v) (sym e) (Reaches-SamePolicy c) in
      let i : IsWellFormed m v =
        Reaches-IsWellFormed (subst (λ (x : Wallet). length x.participants < 2 ^ 32) e r.countable)
          (subst (λ x. IsWellFormed m x) e (first-IsWellFormed n (omega arith))) c in
      let f : IsFilled active (length (submissions v)) (length v.participants) =
        subst (λ b. IsFilled b (length (submissions v)) (length v.participants)) a i.filled in
      let g : length v.participants ≡ length n.participants = ap length q.participants in
      (
        q.threshold,
        omega arith,
        omega (arith, length-keys (submissions v)),
        omega (arith, length-keys (submissions v)),
        i.distinct_devices,
        Reaches-HasDescriptor (subst (λ x. HasDescriptor m x) e refl) c,
      )
