-- ===== src/Platform/AppendToy.antt =====
-- A database that only appends event rows: a write is refused unless the rows of the entity that
-- are there come first in it.
use native.Mathlib.Decide.{ℕ_discrete}
use mathlib.Core.HLevel.{Discrete}
use mathlib.Core.List.{append-nil}
use kota.Base.{
  ℕ, ◌≡◌, refl, sym, ap, subst, ◌∙◌, Bool, true, false, ◌&&◌, Option, some, none, List, [], ◌∷◌,
  ◌++◌, Result, ok, err, ◌==◌, ==_iff, arith, if◌then◌else◌,
}
use kota.Primitives.{UserId}
use kota.Session.Types.{
  NewPsbtSession, FinalizationRecord, SignatureRecord, PsbtSessionEvent, initialized, psbt_created,
  signature_added, finalized_with,
}
use kota.Wallet.Types as WalletTypes
use kota.Wallet.Types.{
  DescriptorPublicKey, xpub, other, key_eq, WalletEvent, keystore_added, activated, Wallet,
}
use kota.Platform.Database.{TransactionError, rows_failed, Transaction, Database, rows_after}
use kota.Platform.Jobs.Types.{Services}
use kota.Platform.History.{AppendOnly}
use kota.Platform.Toy.{Tables, tables, commit_all, services}

pub NewPsbtSession-discrete : Discrete NewPsbtSession
NewPsbtSession-discrete = hlevel ℕ_discrete

pub SignatureRecord-discrete : Discrete SignatureRecord
SignatureRecord-discrete = hlevel ℕ_discrete

pub FinalizationRecord-discrete : Discrete FinalizationRecord
FinalizationRecord-discrete = hlevel ℕ_discrete

abbrev pub decided : {A : Type 0} {a b : A} → Dec (a ≡ b) → Bool
decided (yes e) = true
decided (no n) = false

decided_sound : {A : Type 0} {a b : A} (d : Dec (a ≡ b)) → decided d ≡ true → a ≡ b
decided_sound (yes e) h = e
decided_sound (no n) h = ground arith

-- Equal events of the kinds up to the finalization.
abbrev pub event_eq : PsbtSessionEvent → PsbtSessionEvent → Bool
event_eq (initialized p) (initialized q) = decided (NewPsbtSession-discrete p q)
event_eq (psbt_created h) (psbt_created k) = h == k
event_eq (signature_added g) (signature_added i) = decided (SignatureRecord-discrete g i)
event_eq (finalized_with f) (finalized_with g) = decided (FinalizationRecord-discrete f g)
event_eq _ _ = false

event_eq_sound : (d e : PsbtSessionEvent) → event_eq d e ≡ true → d ≡ e
event_eq_sound (initialized p) (initialized q) h =
    ap initialized (decided_sound (NewPsbtSession-discrete p q) h)
event_eq_sound (psbt_created h) (psbt_created k) e = ap psbt_created ((==_iff h k).0 e)
event_eq_sound (signature_added g) (signature_added i) h =
    ap signature_added (decided_sound (SignatureRecord-discrete g i) h)
event_eq_sound (finalized_with f) (finalized_with g) h =
    ap finalized_with (decided_sound (FinalizationRecord-discrete f g) h)
event_eq_sound _ _ h = ground arith

abbrev pub same_users : List UserId → List UserId → Bool
same_users [] [] = true
same_users (u ∷ us) (v ∷ vs) = let rest = same_users us vs in u == v && rest
same_users _ _ = false

same_users_sound : (us vs : List UserId) → same_users us vs ≡ true → us ≡ vs
same_users_sound [] [] h = refl
same_users_sound (u ∷ us) (v ∷ vs) h = ground (arith, ==_iff u v, same_users_sound us vs)
same_users_sound _ _ h = ground arith

key_eq_sound : (k l : DescriptorPublicKey) → key_eq k l ≡ true → k ≡ l
unfolding key_eq
key_eq_sound (xpub none k) (xpub none l) h = ap (xpub none) ((==_iff k l).0 h)
key_eq_sound (xpub (some (f, p)) k) (xpub (some (g, q)) l) h =
    ground (arith, ==_iff f g, ==_iff p q, ==_iff k l)
key_eq_sound (other k) (other l) h = ap other ((==_iff k l).0 h)
key_eq_sound _ _ h = ground arith

-- Equal events of the kinds up to the activation.
abbrev pub wallet_event_eq : WalletEvent → WalletEvent → Bool
wallet_event_eq (WalletTypes.initialized i n t ps) (WalletTypes.initialized j o u qs) =
    ((i == j) && (n == o) && (t == u)) && same_users ps qs
wallet_event_eq (keystore_added k u) (keystore_added l v) = key_eq k l && (u == v)
wallet_event_eq (activated d f) (activated e g) = (d == e) && (f == g)
wallet_event_eq _ _ = false

wallet_event_eq_sound : (d e : WalletEvent) → wallet_event_eq d e ≡ true → d ≡ e
wallet_event_eq_sound (WalletTypes.initialized i n t ps) (WalletTypes.initialized j o u qs) h =
    ground (arith, ==_iff i j, ==_iff n o, ==_iff t u, same_users_sound ps qs)
wallet_event_eq_sound (keystore_added k u) (keystore_added l v) h =
    ground (arith, key_eq_sound k l, ==_iff u v)
wallet_event_eq_sound (activated d f) (activated e g) h = ground (arith, ==_iff d e, ==_iff f g)
wallet_event_eq_sound _ _ h = ground arith

module _ {E : Type 0} (eq : E → E → Bool) where
  abbrev pub is_prefix : List E → List E → Bool
  is_prefix [] es = true
  is_prefix (d ∷ ds) [] = false
  is_prefix (d ∷ ds) (e ∷ es) = eq d e && is_prefix ds es

  abbrev pub accepts : Option (ℕ × List E) → (ℕ → List E) → Bool
  accepts none rows = true
  accepts (some (id, es)) rows = is_prefix (rows id) es

  module _ (sound : (d e : E) → eq d e ≡ true → d ≡ e) where
    is_prefix_sound : (ds es : List E) → is_prefix ds es ≡ true → (new : List E) × (es ≡ ds ++ new)
    is_prefix_sound [] es h = (es, refl)
    is_prefix_sound (d ∷ ds) [] h = ground arith
    is_prefix_sound (d ∷ ds) (e ∷ es) h =
        let rest = is_prefix_sound ds es (ground arith) in
        let same = sound d e (ground arith) in
        (rest.0, ap (λ x. x ∷ es) (sym same) ∙ ap (λ xs. d ∷ xs) rest.1)

    accepts_appended :
        (t : Option (ℕ × List E)) (rows : ℕ → List E) (k : ℕ)
        → accepts t rows ≡ true
        → (new : List E) × (rows_after t k (rows k) ≡ rows k ++ new)
    accepts_appended none rows k h = ([], sym (append-nil (rows k)))
    accepts_appended (some (id, es)) rows k h = of_test (k == id) refl
      where
        of_test :
            (b : Bool)
            → (k == id) ≡ b
            → (new : List E) × ((if b then es else rows k) ≡ rows k ++ new)
        of_test false q = ([], sym (append-nil (rows k)))
        of_test true q =
            subst (λ n. (new : List E) × (es ≡ rows n ++ new)) (sym ((==_iff k id).0 q))
              (is_prefix_sound (rows id) es h)

abbrev pub append_commit : Tables → Transaction → Result Tables TransactionError
append_commit db t =
    if accepts event_eq t.session db.sessions && accepts wallet_event_eq t.wallet db.wallets
    then commit_all db t
    else err (rows_failed "duplicate key")

pub append_commit_all :
    (db db' : Tables) (t : Transaction) → append_commit db t ≡ ok db' → commit_all db t ≡ ok db'
append_commit_all db db' t h = ground arith

append_commit-accepts :
    (db db' : Tables) (t : Transaction)
    → append_commit db t ≡ ok db'
    → (accepts event_eq t.session db.sessions ≡ true)
      × (accepts wallet_event_eq t.wallet db.wallets ≡ true)
append_commit-accepts db db' t h = ground arith

abbrev pub appending : Database Tables
appending = record tables {
  commit = append_commit;
  session_events-commit =
      λ db db' t k h. tables.session_events-commit db db' t k (append_commit_all db db' t h);
  wallet_events-commit =
      λ db db' t k h. tables.wallet_events-commit db db' t k (append_commit_all db db' t h);
  fingerprint_column-commit =
      λ db db' t k h. tables.fingerprint_column-commit db db' t k (append_commit_all db db' t h);
  jobs-commit = λ db db' t h. tables.jobs-commit db db' t (append_commit_all db db' t h);
}

abbrev pub logged : Services Tables
logged = record services { database = appending }

pub appending-AppendOnly : AppendOnly appending
appending-AppendOnly = record {
  appended = λ db db' t id h.
      let grown =
        accepts_appended event_eq event_eq_sound t.session db.sessions id
          (append_commit-accepts db db' t h).0 in
      (grown.0, tables.session_events-commit db db' t id (append_commit_all db db' t h) ∙ grown.1);
  appended_wallet = λ db db' t id h.
      let grown =
        accepts_appended wallet_event_eq wallet_event_eq_sound t.wallet db.wallets id
          (append_commit-accepts db db' t h).1 in
      (grown.0, tables.wallet_events-commit db db' t id (append_commit_all db db' t h) ∙ grown.1);
}
