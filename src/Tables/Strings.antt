-- ===== src/Tables/Strings.antt =====
-- include/mdbx_containers/detail/utils.hpp: the overloads for `std::string`, whose bytes are stored as they are.
use mdbx_containers.Prelude.{refl, ok, Result, bytes_eq, bytes_eq_iff, arith}
use mdbx_containers.Mdbx.{Bytes}
use mdbx_containers.Tables.{Serializer, IsSerializer}

unfoldable pub serialize_string_key : Bytes → Result Bytes
serialize_string_key key = ok key

unfoldable pub deserialize_string_key : Bytes → Result Bytes
deserialize_string_key val = ok val

unfoldable pub serialize_string_value : Bytes → Bytes
serialize_string_value value = value

unfoldable pub deserialize_string_value : Bytes → Result Bytes
deserialize_string_value val = ok val

unfoldable pub strings : Serializer Bytes Bytes
unfolding serialize_string_key deserialize_string_key serialize_string_value
    deserialize_string_value
strings = record {
  serialize_key = serialize_string_key;
  deserialize_key = deserialize_string_key;
  serialize_value = serialize_string_value;
  deserialize_value = deserialize_string_value;
  equal_keys = bytes_eq;
}

pub strings-IsSerializer : IsSerializer strings
unfolding strings serialize_string_key deserialize_string_key serialize_string_value
    deserialize_string_value
strings-IsSerializer = record {
  deserialize-serialize_key = λ k b h. ground arith;
  deserialize-serialize_value = λ v. refl;
  equal_keys_iff = λ j k. bytes_eq_iff j k;
}
