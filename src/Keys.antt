-- ===== src/Keys.antt =====
-- The crate cjdns-keys: public keys, and the IPv6 addresses that are derived from them. The hash
-- SHA-512 of the crate cjdns-crypto is libsodium's, and a parameter.
use cjdns_route_server.Base.{
  ℕ, Bool, not, ◌||◌, List, length, get_elem?, take, replicate, bytes_eq, ◌==◌, if◌then◌else◌,
  Result, ok, err, ◌>>=◌, ◌>>◌, fail_if, expect,
}

pub data KeyCreationError : Type 0 where
  not_decodable_string bad_string resulting_ip6_out_of_valid_range : KeyCreationError
  invalid_length : KeyCreationError

-- 32 bytes.
pub record CjdnsPublicKey : Type 0 where
  pub k : List ℕ

-- 16 bytes.
pub record CjdnsIp6 : Type 0 where
  pub k : List ℕ

abbrev pub ip6_size : ℕ
ip6_size = 16

abbrev pub first_byte : ℕ
first_byte = 0xfc

-- `TryFrom<&[u8]>`
unfoldable pub ip6_from_bytes : List ℕ → Result KeyCreationError CjdnsIp6
ip6_from_bytes bytes = do
  fail_if (not (length bytes == ip6_size)) invalid_length
  b ← expect (get_elem? bytes 0)
  if b == first_byte || bytes_eq bytes (replicate ip6_size 0)
      then ok (record { k = bytes })
      else err resulting_ip6_out_of_valid_range

-- `TryFrom<&CJDNSPublicKey>`: the start of the double hash.
unfoldable pub ip6_from_key : (List ℕ → List ℕ) → CjdnsPublicKey → Result KeyCreationError CjdnsIp6
ip6_from_key sha512 key = ip6_from_bytes (take ip6_size (sha512 (sha512 key.k)))

-- `From<[u8; 32]>`
unfoldable pub key_from_array : List ℕ → CjdnsPublicKey
key_from_array bytes = record { k = bytes }

-- `==` on addresses, derived.
unfoldable pub ip6_eq : CjdnsIp6 → CjdnsIp6 → Bool
ip6_eq a b = bytes_eq a.k b.k

unfoldable pub ip6_is_zero : CjdnsIp6 → Bool
ip6_is_zero a = bytes_eq a.k (replicate 16 0)

unfoldable pub key_is_zero : CjdnsPublicKey → Bool
key_is_zero key = bytes_eq key.k (replicate 32 0)
