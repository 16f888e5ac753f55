-- ===== src/Identity/Password.antt =====
-- backend/identity/password.go: the argon2id hash of a password in the PHC format, and its check. The key
-- derivation is a parameter: password, salt, time, memory, threads and key length. Where argon2 would
-- panic, on a time or a number of threads that is 0 after its conversion, the check fails with an error.
pub mod Laws
use motivra.Prelude.{
  ℕ, ◌+◌, ◌*◌, ◌%◌, ◌^◌, Bool, true, false, not, ◌&&◌, ◌||◌, List, [], ◌∷◌, ◌++◌, Option, none,
  some, ltb, ◌==◌, length, if◌then◌else◌,
}
use motivra.Prelude.Int.{ℤ, pos, negsuc}
use motivra.Prelude.Text.{Text, bytes, text_eq}
use motivra.Prelude.Base64.{std_alphabet, encode, decode}
use motivra.Prelude.Strings.{after_prefix, split, atoi}
use motivra.Prelude.Exec.{ok, err, ◌>>=◌, ◌>>◌, pure, require, lift}
use motivra.Identity.World.{Field, IdentityError, validation, Action, random_bytes}

abbrev pub min_password_length : ℕ
min_password_length = 10

abbrev pub max_password_length : ℕ
max_password_length = 128

abbrev pub argon2_memory : ℕ
argon2_memory = 65536

abbrev pub argon2_time : ℕ
argon2_time = 3

abbrev pub argon2_threads : ℕ
argon2_threads = 4

abbrev pub argon2_key_length : ℕ
argon2_key_length = 32

abbrev pub argon2_salt_length : ℕ
argon2_salt_length = 16

-- argon2.IDKey
abbrev pub KeyDerivation : Type 0
KeyDerivation = Text → Text → ℕ → ℕ → ℕ → ℕ → Text

unfoldable pub phc_header : Text
unfolding bytes
phc_header = bytes "$argon2id$v=19$m=65536,t=3,p=4$"

abbrev pub phc : Text → Text → Text
phc salt key = phc_header ++ (encode std_alphabet salt ++ b'$' ∷ encode std_alphabet key)

unfoldable pub hash_with_salt : KeyDerivation → Text → Text → Text
unfolding phc_header
hash_with_salt id_key password salt =
    phc salt (id_key password salt argon2_time argon2_memory argon2_threads argon2_key_length)

unfoldable pub hash_password : KeyDerivation → Text → Action Text
unfolding hash_with_salt
hash_password id_key password = do
  require (not (ltb (length password) min_password_length)) (validation (Field.password ∷ []))
  require (not (ltb max_password_length (length password))) (validation (Field.password ∷ []))
  salt ← random_bytes
  pure (hash_with_salt id_key password salt)

abbrev number_after : Option Text → Option ℤ
number_after none = none
number_after (some s) = atoi s

-- parsePHCField, with the key and its '='.
unfoldable pub parse_phc_field : Text → Text → Option ℤ
unfolding atoi after_prefix
parse_phc_field key field = number_after (after_prefix key field)

-- argon2.Version
abbrev pub is_version : Option ℤ → Bool
is_version (some (pos n)) = n == 19
is_version _ = false

pub record Argon2Params : Type 0 where
  pub memory : ℕ
  pub time : ℕ
  pub threads : ℕ

-- The three numbers, where they are positive.
abbrev pub positive_params : Option ℤ → Option ℤ → Option ℤ → Option Argon2Params
positive_params (some (pos m)) (some (pos t)) (some (pos p)) =
    if m == 0 || (t == 0 || p == 0)
    then none
    else some (record { memory = m; time = t; threads = p })
positive_params _ _ _ = none

unfoldable pub parse_params : List Text → Option Argon2Params
unfolding parse_phc_field bytes
parse_params (m ∷ t ∷ p ∷ []) =
    positive_params (parse_phc_field (bytes "m=") m) (parse_phc_field (bytes "t=") t)
      (parse_phc_field (bytes "p=") p)
parse_params _ = none

abbrev pub bad_key : Text → Bool
bad_key key = length key == 0 || ltb max_password_length (length key)

-- The comparison of the key with the derived one.
abbrev pub compare_key :
    KeyDerivation → Text → Option Argon2Params → Option Text → Option Text → Option Bool
compare_key id_key password (some q) (some salt) (some want) =
    if length salt == 0 || (bad_key want || (q.time % 2 ^ 32 == 0 || q.threads % 2 ^ 8 == 0))
    then none
    else some (
        text_eq
          (id_key password salt (q.time % 2 ^ 32) (q.memory % 2 ^ 32) (q.threads % 2 ^ 8)
            (length want))
          want)
compare_key id_key password _ _ _ = none

-- The five fields of the hash.
unfoldable pub verify_fields : KeyDerivation → Text → List Text → Option Bool
unfolding parse_phc_field parse_params bytes
verify_fields id_key password (kind ∷ version ∷ params ∷ salt ∷ key ∷ []) =
    if text_eq kind (bytes "argon2id") && is_version (parse_phc_field (bytes "v=") version)
    then compare_key id_key password (parse_params (split b',' params)) (decode std_alphabet salt)
        (decode std_alphabet key)
    else none
verify_fields id_key password _ = none

abbrev pub verify_after : KeyDerivation → Text → Text → Option Text → Option Bool
verify_after id_key password encoded none = none
verify_after id_key password encoded (some rest) =
    verify_fields id_key password (split b'$' encoded)

-- The text without its first '$'.
abbrev pub drop_dollar : Option Text → Text → Text
drop_dollar none s = s
drop_dollar (some t) s = t

-- `none` is an error. The prefix is tested before the text is split.
unfoldable pub verify_password : KeyDerivation → Text → Text → Option Bool
unfolding verify_fields bytes after_prefix
verify_password id_key password encoded =
    verify_after id_key password (drop_dollar (after_prefix (bytes "$") encoded) encoded)
      (after_prefix (bytes "$argon2id$") encoded)

abbrev pub password_result : Option Bool → Action Bool
password_result none = lift (err IdentityError.bad_hash)
password_result (some b) = pure b
