-- ===== src/Primitives/Hex.antt =====
-- The hexadecimal form of digests, core/coordination/src/primitives.rs: `Display` and `FromStr` of
-- `PsbtHash`. A digest is its bytes here, and a text its ASCII codes.
use Prim.Native.Nat.{◌/◌}
use kota.Base.{
  ℕ, ◌+◌, ◌-◌, ◌*◌, ◌%◌, ◌<◌, ◌≡◌, refl, ◌∙◌, ap, Bool, true, ◌&&◌, Option, none, some, List, [],
  ◌∷◌, map, length, length-map, all, arith, ltb, leb, ◌==◌, if◌then◌else◌,
}

-- `{:x}` of a digit
abbrev pub hex_digit : ℕ → ℕ
hex_digit d = if ltb d 10 then 48 + d else 87 + d

-- `write!(f, "{byte:02x}")` for each byte
unfoldable pub display : List ℕ → List ℕ
display [] = []
display (b ∷ bs) = hex_digit (b / 16) ∷ hex_digit (b % 16) ∷ display bs

-- `char::to_digit(16)`
unfoldable pub to_digit : ℕ → Option ℕ
to_digit ch =
    if leb 48 ch && leb ch 57
    then some (ch - 48)
    else if leb 97 ch && leb ch 102
    then some (ch - 87)
    else if leb 65 ch && leb ch 70
    then some (ch - 55)
    else none

-- `((hi << 4) | lo) as u8` in front of the other bytes, with `?` on each.
abbrev pub push_byte : Option ℕ → Option ℕ → Option (List ℕ) → Option (List ℕ)
push_byte none lo rest = none
push_byte (some hi) none rest = none
push_byte (some hi) (some lo) none = none
push_byte (some hi) (some lo) (some bytes) = some ((hi * 16 + lo) % 256 ∷ bytes)

-- The loop over `chunks(2)`; a chunk of one byte, where the source would panic, does not occur in
-- a text of 64 bytes.
unfoldable pub parse_chunks : List ℕ → Option (List ℕ)
unfolding to_digit
parse_chunks [] = some []
parse_chunks (hi ∷ []) = none
parse_chunks (hi ∷ lo ∷ cs) =
    let rest = parse_chunks cs in push_byte (to_digit hi) (to_digit lo) rest

unfoldable pub from_str : List ℕ → Option (List ℕ)
unfolding parse_chunks
from_str s = if length s == 64 then parse_chunks s else none

abbrev pub is_byte : ℕ → Bool
is_byte b = ltb b 256

to_digit-hex_digit : (d : ℕ) → d < 16 → to_digit (hex_digit d) ≡ some d
unfolding to_digit
to_digit-hex_digit d h = ground arith

length-display : (bs : List ℕ) → length (display bs) ≡ 2 * length bs
unfolding display
length-display [] = refl
length-display (b ∷ bs) = omega (arith, length-display bs)

byte_split : (b : ℕ) → ((b / 16) * 16 + b % 16) ≡ b
byte_split b = omega arith

parse_chunks-display : (bs : List ℕ) → all is_byte bs ≡ true → parse_chunks (display bs) ≡ some bs
unfolding display parse_chunks
parse_chunks-display [] h = refl
parse_chunks-display (b ∷ bs) h =
    rw
      (
        to_digit-hex_digit (b / 16) (ground arith),
        to_digit-hex_digit (b % 16) (omega arith),
        parse_chunks-display bs (ground arith),
      )
      (ap (λ n. some (n ∷ bs)) (omega (arith, byte_lt b bs h)))
  where
    byte_lt : (b : ℕ) (bs : List ℕ) → all is_byte (b ∷ bs) ≡ true → b < 256
    byte_lt b bs h = ground arith

from_str-parse_chunks : (s : List ℕ) → length s ≡ 64 → from_str s ≡ parse_chunks s
unfolding from_str
from_str-parse_chunks s h = rw h refl

-- The printed form of 32 bytes is parsed back to them.
pub from_str-display :
    (bs : List ℕ) → length bs ≡ 32 → all is_byte bs ≡ true → from_str (display bs) ≡ some bs
from_str-display bs l h =
    from_str-parse_chunks (display bs) (omega (arith, length-display bs, l))
    ∙ parse_chunks-display bs h

-- `to_ascii_uppercase` of a character
abbrev pub upper : ℕ → ℕ
upper ch = if leb 97 ch && leb ch 122 then ch - 32 else ch

to_digit-upper : (ch : ℕ) → to_digit (upper ch) ≡ to_digit ch
unfolding to_digit
to_digit-upper ch = ground arith

parse_chunks-upper : (s : List ℕ) → parse_chunks (map upper s) ≡ parse_chunks s
unfolding parse_chunks
parse_chunks-upper [] = refl
parse_chunks-upper (hi ∷ []) = refl
parse_chunks-upper (hi ∷ lo ∷ cs) =
    rw (to_digit-upper hi, to_digit-upper lo, parse_chunks-upper cs) refl

-- The parser reads a text and its upper-case form alike, also where it is not the printed form.
pub from_str-upper : (s : List ℕ) → from_str (map upper s) ≡ from_str s
unfolding from_str
from_str-upper s = rw (length-map upper s, parse_chunks-upper s) refl
