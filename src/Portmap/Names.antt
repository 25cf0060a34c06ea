-- ===== src/Portmap/Names.antt =====
-- pkg/utils/utils.go: names of chains, filled up with a hash; the SHA-512 of the standard library, in
-- hexadecimal digits, is a parameter.
use containerz_plugin.Common.{
  ℕ, ◌||◌, [], ◌++◌, Option, none, some, length, take, leb, ltb, if◌then◌else◌, Text, text,
}

abbrev pub max_chain_length : ℕ
max_chain_length = 28

abbrev pub chain_prefix : Text
chain_prefix = text "CNI-"

abbrev pub max_hash_len : ℕ
max_hash_len = 128

module _ (sha512_hex : Text → Text) where
  -- `MustFormatHashWithPrefix`; `none` is its panic.
  unfoldable pub format_hash_with_prefix : ℕ → Text → Text → Option Text
  format_hash_with_prefix len prefix to_hash =
      if leb len (length prefix) || ltb max_hash_len len
      then none
      else some (take len (prefix ++ sha512_hex to_hash))

  unfoldable pub format_chain_name_with_prefix : Text → Text → Text → Option Text
  format_chain_name_with_prefix name id prefix =
      format_hash_with_prefix max_chain_length (chain_prefix ++ prefix) (name ++ id)

  unfoldable pub format_chain_name : Text → Text → Option Text
  format_chain_name name id = format_chain_name_with_prefix name id []
