-- ===== src/Auth.antt =====
-- The authentication of src/server/connection.rs: `parse_client_info_extensions`, `verify_auth` and
-- `verify_password`.
pub mod Handshake
pub mod Laws
pub mod Accepts
use shrimpwisp.Prelude.{ℕ, suc, ◌+◌}
use shrimpwisp.Prelude.{Bool, false, ◌&&◌, ◌||◌, not, Option, none, some}
use shrimpwisp.Prelude.{List, [], ◌∷◌, ◌++◌}
use shrimpwisp.Prelude.{ltb, leb, if◌then◌else◌}
use shrimpwisp.Prelude.{length, is_empty, take, drop}
use shrimpwisp.Prelude.Bytes.{Bytes, u32_from_le}
use shrimpwisp.Prelude.Bytes.{is_utf8, bytes_eq}
use shrimpwisp.Prelude.Bytes.{starts_with}
use shrimpwisp.Config.{codes, ServerConfig}
use shrimpwisp.Protocol.{ExtensionEntry}

-- `parse_client_info_extensions`, whose loop is `parse_extensions`' loop written out again.
unfoldable pub client_extensions_loop : ℕ → Bytes → List ExtensionEntry → List ExtensionEntry
client_extensions_loop (suc fuel) (id ∷ l0 ∷ l1 ∷ l2 ∷ l3 ∷ rest) extensions =
    let length_ = u32_from_le l0 l1 l2 l3 in
    let more =
      client_extensions_loop fuel (drop length_ rest)
        (extensions ++ (record { ext_id = id; payload = take length_ rest } ∷ [])) in
    if ltb (length rest) length_ then extensions else more
client_extensions_loop _ _ extensions = extensions

unfoldable pub parse_client_info_extensions : Bytes → List ExtensionEntry
unfolding client_extensions_loop
parse_client_info_extensions payload =
    if leb (length payload) 7
    then []
    else client_extensions_loop (length payload) (drop 7 payload) []

-- `HashMap::get` on `auth_users`.
unfoldable pub find_user : Bytes → List (Bytes × Bytes) → Option Bytes
find_user name [] = none
find_user name ((user, stored) ∷ users) =
    if bytes_eq user name then some stored else find_user name users

-- `bcrypt::verify`, `none` for an error, and `ConstantTimeEq::ct_eq`.
pub record Crypto : Type 0 where
  pub bcrypt_verify : Bytes → Bytes → Option Bool
  pub ct_eq : Bytes → Bytes → Bool

abbrev or_false : Option Bool → Bool
or_false none = false
or_false (some b) = b

module _ (crypto : Crypto) where
  unfoldable pub verify_password : Bytes → Bytes → Bool
  verify_password password_bytes stored =
      if is_utf8 password_bytes
      then if starts_with (codes "$2b$") stored || starts_with (codes "$2a$") stored
        then or_false (crypto.bcrypt_verify password_bytes stored)
        else crypto.ct_eq password_bytes stored
      else false

  abbrev pub check_stored : Bytes → Option Bytes → Bool
  check_stored password none = false
  check_stored password (some stored) = verify_password password stored

  -- `[username_len][username][password]`; the dummy hash of an unknown name only costs time.
  unfoldable pub verify_named : ℕ → Bytes → ServerConfig → Bool
  unfolding verify_password find_user
  verify_named username_len rest config =
      if is_utf8 (take username_len rest)
      then check_stored (drop username_len rest)
          (find_user (take username_len rest) config.auth_users)
      else false

  -- The raw password of the user "default".
  unfoldable pub verify_default : Bytes → ServerConfig → Bool
  unfolding verify_password find_user
  verify_default auth_payload config =
      check_stored auth_payload (find_user (codes "default") config.auth_users)

  unfoldable pub verify_users : Bytes → ServerConfig → Bool
  unfolding verify_named verify_default
  verify_users [] config = verify_default [] config
  verify_users (username_len ∷ rest) config =
      if leb 2 (length (username_len ∷ rest))
        && leb (1 + username_len + 1) (length (username_len ∷ rest))
      then verify_named username_len rest config
      else verify_default (username_len ∷ rest) config

  unfoldable pub verify_auth : Bytes → ServerConfig → Bool
  unfolding verify_users
  verify_auth auth_payload config =
      if not (is_empty config.auth_users)
      then verify_users auth_payload config
      else elim config.auth_password [
        | none ↦ false
        | some required_pw ↦ crypto.ct_eq auth_payload required_pw
      ]
