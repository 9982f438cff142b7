-- ===== src/Platform/Columns.antt =====
-- The columns of the repositories: the sqlx codecs of core/coordination/src/wallet/repo.rs and
-- psbt_session/repo.rs, over the texts that strum derives for the statuses in their primitives.rs.
use kota.Base.{
  ℕ, ◌≡◌, ◌↔◌, refl, sym, Bool, true, false, ◌&&◌, Option, none, some, List, [], ◌∷◌, Result, ok,
  err, ◌==◌, ==_iff, if◌then◌else◌, ap, length, all, arith,
}
use kota.Primitives.{Text, WalletStatus, collecting_keystores, active, cancelled}
use kota.Primitives.Hex.{is_byte}
use kota.Primitives.Fingerprint.{display_fingerprint, parse_fingerprint, parse_fingerprint-display}
use kota.Session.Types as Session
use kota.Session.Types.{
  PsbtSessionStatus, pending, collecting, finalized, broadcast, confirmed, invalidated,
}

-- Texts are their ASCII codes.
abbrev pub text_eq : List ℕ → List ℕ → Bool
text_eq [] [] = true
text_eq [] (y ∷ ys) = false
text_eq (x ∷ xs) [] = false
text_eq (x ∷ xs) (y ∷ ys) = let rest = text_eq xs ys in x == y && rest

pub text_eq_iff : (xs ys : List ℕ) → (text_eq xs ys ≡ true) ↔ (xs ≡ ys)
text_eq_iff [] [] = (λ h. refl, λ h. refl)
text_eq_iff [] (y ∷ ys) = (λ h. ground arith, λ h. ground arith)
text_eq_iff (x ∷ xs) [] = (λ h. ground arith, λ h. ground arith)
text_eq_iff (x ∷ xs) (y ∷ ys) = ground (arith, ==_iff x y, text_eq_iff xs ys)

-- `Display` of strum with `serialize_all = "snake_case"`
unfoldable pub wallet_status_text : WalletStatus → List ℕ
wallet_status_text collecting_keystores =
    b'c' ∷ b'o' ∷ b'l' ∷ b'l' ∷ b'e' ∷ b'c' ∷ b't' ∷ b'i' ∷ b'n' ∷ b'g' ∷ b'_' ∷ b'k' ∷ b'e' ∷ b'y'
    ∷ b's' ∷ b't' ∷ b'o' ∷ b'r' ∷ b'e' ∷ b's' ∷ []
wallet_status_text active = b'a' ∷ b'c' ∷ b't' ∷ b'i' ∷ b'v' ∷ b'e' ∷ []
wallet_status_text cancelled = b'c' ∷ b'a' ∷ b'n' ∷ b'c' ∷ b'e' ∷ b'l' ∷ b'l' ∷ b'e' ∷ b'd' ∷ []

unfoldable pub session_status_text : PsbtSessionStatus → List ℕ
session_status_text pending = b'p' ∷ b'e' ∷ b'n' ∷ b'd' ∷ b'i' ∷ b'n' ∷ b'g' ∷ []
session_status_text collecting =
    b'c' ∷ b'o' ∷ b'l' ∷ b'l' ∷ b'e' ∷ b'c' ∷ b't' ∷ b'i' ∷ b'n' ∷ b'g' ∷ []
session_status_text finalized = b'f' ∷ b'i' ∷ b'n' ∷ b'a' ∷ b'l' ∷ b'i' ∷ b'z' ∷ b'e' ∷ b'd' ∷ []
session_status_text broadcast = b'b' ∷ b'r' ∷ b'o' ∷ b'a' ∷ b'd' ∷ b'c' ∷ b'a' ∷ b's' ∷ b't' ∷ []
session_status_text confirmed = b'c' ∷ b'o' ∷ b'n' ∷ b'f' ∷ b'i' ∷ b'r' ∷ b'm' ∷ b'e' ∷ b'd' ∷ []
session_status_text invalidated =
    b'i' ∷ b'n' ∷ b'v' ∷ b'a' ∷ b'l' ∷ b'i' ∷ b'd' ∷ b'a' ∷ b't' ∷ b'e' ∷ b'd' ∷ []
session_status_text Session.cancelled =
    b'c' ∷ b'a' ∷ b'n' ∷ b'c' ∷ b'e' ∷ b'l' ∷ b'l' ∷ b'e' ∷ b'd' ∷ []

-- `EnumString` of strum: the variant with the text.
abbrev pub variant_of : {A : Type 0} → (A → List ℕ) → List A → List ℕ → Option A
variant_of text [] s = none
variant_of text (x ∷ xs) s =
    let rest = variant_of text xs s in if text_eq (text x) s then some x else rest

abbrev pub wallet_statuses : List WalletStatus
wallet_statuses = collecting_keystores ∷ active ∷ cancelled ∷ []

abbrev pub session_statuses : List PsbtSessionStatus
session_statuses =
    pending ∷ collecting ∷ finalized ∷ broadcast ∷ confirmed ∷ invalidated ∷ Session.cancelled ∷ []

unfoldable pub parse_wallet_status : List ℕ → Option WalletStatus
parse_wallet_status s = variant_of wallet_status_text wallet_statuses s

unfoldable pub parse_session_status : List ℕ → Option PsbtSessionStatus
parse_session_status s = variant_of session_status_text session_statuses s

variant_of_sound :
    {A : Type 0} (text : A → List ℕ) (xs : List A) (s : List ℕ) (x : A)
    → variant_of text xs s ≡ some x
    → text x ≡ s
variant_of_sound text [] s x h = ground arith
variant_of_sound text (y ∷ ys) s x h =
    ground (arith, text_eq_iff (text y) s, variant_of_sound text ys s x)

wallet_status_parsed : (st : WalletStatus) → parse_wallet_status (wallet_status_text st) ≡ some st
unfolding parse_wallet_status wallet_status_text
wallet_status_parsed collecting_keystores = refl
wallet_status_parsed active = refl
wallet_status_parsed cancelled = refl

session_status_parsed :
    (st : PsbtSessionStatus) → parse_session_status (session_status_text st) ≡ some st
unfolding parse_session_status session_status_text
session_status_parsed pending = refl
session_status_parsed collecting = refl
session_status_parsed finalized = refl
session_status_parsed broadcast = refl
session_status_parsed confirmed = refl
session_status_parsed invalidated = refl
session_status_parsed Session.cancelled = refl

parse_wallet_status_sound :
    (s : List ℕ) (st : WalletStatus) → parse_wallet_status s ≡ some st → wallet_status_text st ≡ s
unfolding parse_wallet_status
parse_wallet_status_sound s st h = variant_of_sound wallet_status_text wallet_statuses s st h

parse_session_status_sound :
    (s : List ℕ) (st : PsbtSessionStatus)
    → parse_session_status s ≡ some st
    → session_status_text st ≡ s
unfolding parse_session_status
parse_session_status_sound s st h = variant_of_sound session_status_text session_statuses s st h

-- `sqlx::Encode` and `Decode` of `String`, with what the code relies on.
pub record StringCodec (Value : Type 0) : Type 0 where
  pub encode : List ℕ → Value
  pub decode : Value → Result (List ℕ) Text
  pub decode-encode : (s : List ℕ) → decode (encode s) ≡ ok s

-- The boxed error of a decoder: of the text, or of what it spells.
pub data DecodeError : Type 0 where
  no_text : Text → DecodeError
  not_parsed : DecodeError

-- `s.parse()?` on the decoded text
abbrev pub parsed : {A : Type 0} → (List ℕ → Option A) → Result (List ℕ) Text → Result A DecodeError
parsed parse (err e) = err (no_text e)
parsed parse (ok s) = elim (parse s) [ some a ↦ ok a | none ↦ err not_parsed ]

-- A parser that reads back what is printed, and nothing else.
parsed_iff :
    {A : Type 0} (text : A → List ℕ) (parse : List ℕ → Option A)
    → ((x : A) → parse (text x) ≡ some x)
    → ((s : List ℕ) (x : A) → parse s ≡ some x → text x ≡ s)
    → (r : Result (List ℕ) Text) (x : A) → (parsed parse r ≡ ok x) ↔ (r ≡ ok (text x))
parsed_iff text parse p q (err e) x = (λ h. ground arith, λ h. ground arith)
parsed_iff {A = A} text parse p q (ok s) x = (
  λ h. ap ok (sym (q s x (of_some (parse s) h))),
  λ h. rw (sym (of_ok s (text x) h), p x, parsed) refl,
)
  where
    of_some :
        (o : Option A)
        → (elim o as (λ y. Result A DecodeError) [ some a ↦ ok a | none ↦ err not_parsed ]) ≡ ok x
        → o ≡ some x
    of_some none k = ground arith
    of_some (some a) k = ground arith

    of_ok : (s t : List ℕ) → ◌≡◌ {A = Result (List ℕ) Text} (ok s) (ok t) → t ≡ s
    of_ok s t k = ground arith

module _ {Value : Type 0} (codec : StringCodec Value) where
  unfoldable pub encode_wallet_status : WalletStatus → Value
  encode_wallet_status status = codec.encode (wallet_status_text status)

  unfoldable pub decode_wallet_status : Value → Result WalletStatus DecodeError
  decode_wallet_status value = parsed parse_wallet_status (codec.decode value)

  unfoldable pub encode_session_status : PsbtSessionStatus → Value
  encode_session_status status = codec.encode (session_status_text status)

  unfoldable pub decode_session_status : Value → Result PsbtSessionStatus DecodeError
  decode_session_status value = parsed parse_session_status (codec.decode value)

  unfoldable pub encode_fingerprint : List ℕ → Value
  encode_fingerprint fingerprint = codec.encode (display_fingerprint fingerprint)

  unfoldable pub decode_fingerprint : Value → Result (List ℕ) DecodeError
  decode_fingerprint value = parsed parse_fingerprint (codec.decode value)

  -- A status column decodes to a status exactly when it holds the text that this status is encoded
  -- as, for wallets and for sessions.
  pub decode_status_iff :
      (value : Value) (ws : WalletStatus) (ss : PsbtSessionStatus)
      → ((decode_wallet_status value ≡ ok ws)
          ↔ (codec.decode value ≡ codec.decode (encode_wallet_status ws)))
        × ((decode_session_status value ≡ ok ss)
            ↔ (codec.decode value ≡ codec.decode (encode_session_status ss)))
  unfolding decode_wallet_status decode_session_status encode_wallet_status encode_session_status
  decode_status_iff value ws ss = (
    rw (codec.decode-encode (wallet_status_text ws)) (
        parsed_iff wallet_status_text parse_wallet_status wallet_status_parsed
          parse_wallet_status_sound (codec.decode value) ws),
    rw (codec.decode-encode (session_status_text ss)) (
        parsed_iff session_status_text parse_session_status session_status_parsed
          parse_session_status_sound (codec.decode value) ss),
  )

  -- Each column is read back as it was written: the statuses, and a fingerprint of 32 bytes.
  pub columns-roundtrip :
      (ws : WalletStatus) (ss : PsbtSessionStatus) (fingerprint : List ℕ)
      → length fingerprint ≡ 32
      → all is_byte fingerprint ≡ true
      → (decode_wallet_status (encode_wallet_status ws) ≡ ok ws)
        × (decode_session_status (encode_session_status ss) ≡ ok ss)
        × (decode_fingerprint (encode_fingerprint fingerprint) ≡ ok fingerprint)
  unfolding decode_fingerprint encode_fingerprint
  columns-roundtrip ws ss fingerprint l b = (
    (decode_status_iff (encode_wallet_status ws) ws ss).0.1 refl,
    (decode_status_iff (encode_session_status ss) ws ss).1.1 refl,
    rw
        (
          codec.decode-encode (display_fingerprint fingerprint),
          parse_fingerprint-display fingerprint l b,
          parsed,
        )
        refl,
  )
