-- ===== src/Primitives/Address.antt =====
-- `BitcoinAddress`, core/coordination/src/primitives.rs: an address as text at the boundary.
use kota.Base.{◌≡◌, refl, Result, ok, err, ◌>>=◌}
use kota.Primitives.{BitcoinAddress, Network, Text}

-- `Address<NetworkUnchecked>` of the bitcoin crate, and the strings of a serde format.
pub record AddressCrate (Value Checked : Type 0) : Type 0 where
  pub parse : Text → Result BitcoinAddress Text
  pub address_string : BitcoinAddress → Text
  pub require_network : BitcoinAddress → Network → Result Checked Text
  pub serialize_string : Text → Value
  pub deserialize_string : Value → Result Text Text
  pub parse-address_string : (a : BitcoinAddress) → parse (address_string a) ≡ ok a
  pub string_kept : (t : Text) → deserialize_string (serialize_string t) ≡ ok t

-- `map_err(Error::custom)`
abbrev pub as_custom : {A : Type 0} → Result A Text → Result A Text
as_custom (ok a) = ok a
as_custom (err e) = err e

module _ {Value Checked : Type 0} (crate : AddressCrate Value Checked) where
  -- `FromStr`
  unfoldable pub from_str : Text → Result BitcoinAddress Text
  from_str s = crate.parse s

  unfoldable pub require_network : BitcoinAddress → Network → Result Checked Text
  require_network address network = crate.require_network address network

  unfoldable pub serialize : BitcoinAddress → Value
  serialize address = crate.serialize_string (crate.address_string address)

  unfoldable pub deserialize : Value → Result BitcoinAddress Text
  unfolding from_str
  deserialize value = crate.deserialize_string value >>= λ s. as_custom (from_str s)

  -- A persisted address is read back as it was.
  deserialize-serialize : (a : BitcoinAddress) → deserialize (serialize a) ≡ ok a
  unfolding deserialize serialize from_str
  deserialize-serialize a =
      rw (crate.string_kept (crate.address_string a), crate.parse-address_string a) refl
