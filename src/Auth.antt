-- ===== src/Auth.antt =====
-- internal/auth/auth.go: users and their passwords, and `AuthenticateConnection` of
-- internal/commands/commands.go. `sum256` stands for sha256.Sum256.
use redis_in_go.Prelude.{
  ℕ, ◌+◌, ◌-◌, ◌/◌, ◌%◌, Bool, true, false, ◌||◌, not, List, [], ◌∷◌, ◌++◌, Option, none, some, ltb,
  if◌then◌else◌,
}
use redis_in_go.Text.{Bytes, codes, str_eq}
use redis_in_go.Table
use redis_in_go.Table.{Table}
pub mod Laws

pub record User : Type 0 where
  pub name : Bytes
  pub flags : Table Bool
  pub passwords : List Bytes

-- the only user that the program makes
abbrev pub new_user : User
new_user = record { name = codes "default"; flags = (codes "nopass", true) ∷ []; passwords = [] }

hex_digit : ℕ → ℕ
hex_digit d = if ltb d 10 then b'0' + d else b'a' + d - 10

-- hex.EncodeToString
unfoldable pub encode_to_string : Bytes → Bytes
unfolding hex_digit
encode_to_string [] = []
encode_to_string (b ∷ bs) = hex_digit (b / 16) ∷ hex_digit (b % 16) ∷ encode_to_string bs

unfoldable pub any_equal : Bytes → List Bytes → Bool
any_equal hashed [] = false
any_equal hashed (pass ∷ passwords) = str_eq pass hashed || any_equal hashed passwords

unfoldable pub is_set : Option Bool → Bool
is_set none = false
is_set (some nopass) = nopass

needs_no_password : Option User → Bool
unfolding is_set
needs_no_password none = false
needs_no_password (some u) = is_set (Table.get u.flags (codes "nopass"))

-- The connection of a client is authenticated at once if the default user has the flag "nopass".
unfoldable pub authenticate_connection : Table User → Bool
unfolding needs_no_password
authenticate_connection users = needs_no_password (Table.get users (codes "default"))

module _ (sum256 : Bytes → Bytes) where
  unfoldable pub generate_sha : Bytes → Bytes
  generate_sha input = encode_to_string (sum256 input)

  unfoldable pub add_password : Bytes → User → User
  add_password pass u = record u {
    passwords = u.passwords ++ generate_sha pass ∷ [];
    flags = Table.remove u.flags (codes "nopass");
  }

  unfoldable pub authorize : Bytes → User → Bool
  unfolding any_equal
  authorize password u = any_equal (generate_sha password) u.passwords
