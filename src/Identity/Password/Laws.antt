-- ===== src/Identity/Password/Laws.antt =====
-- A password is accepted under the hash that was made of it.
use motivra.Prelude.{◌≡◌, ◌≢◌, refl, ap, ◌∙◌, true, [], ◌∷◌, ◌++◌, some, arith, length, All}
use motivra.Prelude.Text.{Text, bytes, text_eq, text_eq_refl}
use motivra.Prelude.Base64.{std_alphabet, encode, decode, IsByte}
use motivra.Prelude.Base64.Laws.{Plain, encode-Plain, decode-encode}
use motivra.Prelude.Strings.{split, split-append, split-none}
use motivra.Identity.Password.{
  KeyDerivation, phc, phc_header, hash_with_salt, verify_fields, verify_password, compare_key,
}

no_dollar : (s : Text) → All Plain s → All (λ c. b'$' ≢ c) s
no_dollar [] h = tt
no_dollar (c ∷ s) h = (h.0.2, no_dollar s h.1)

-- The fields of a hash.
split-phc :
    (salt key : Text)
    → split b'$' (
        bytes "argon2id$v=19$m=65536,t=3,p=4$"
        ++ (encode std_alphabet salt ++ b'$' ∷ encode std_alphabet key))
      ≡ bytes "argon2id"
        ∷ bytes "v=19"
        ∷ bytes "m=65536,t=3,p=4"
        ∷ encode std_alphabet salt
        ∷ encode std_alphabet key
        ∷ []
unfolding split bytes
split-phc salt key =
    ap (λ r. bytes "argon2id" ∷ bytes "v=19" ∷ bytes "m=65536,t=3,p=4" ∷ r)
      (split-append b'$' (encode std_alphabet salt) (encode std_alphabet key)
          (no_dollar _ (encode-Plain salt))
        ∙ ap (λ r. encode std_alphabet salt ∷ r)
            (split-none b'$' (encode std_alphabet key) (no_dollar _ (encode-Plain key))))

-- The version and the three numbers of the format are read back.
fields-verified :
    (id_key : KeyDerivation) (password salt key : Text)
    → verify_fields id_key password
        (bytes "argon2id" ∷ bytes "v=19" ∷ bytes "m=65536,t=3,p=4" ∷ salt ∷ key ∷ [])
      ≡ compare_key id_key password
          (some (record { memory = 65536; time = 3; threads = 4 }))
          (decode std_alphabet salt)
          (decode std_alphabet key)
unfolding verify_fields bytes text_eq split
fields-verified id_key password salt key = refl

abbrev header_left : Text → Text → Text
header_left salt key =
    bytes "argon2id$v=19$m=65536,t=3,p=4$"
    ++ (encode std_alphabet salt ++ b'$' ∷ encode std_alphabet key)

prefix-stripped :
    (id_key : KeyDerivation) (password salt key : Text)
    → verify_password id_key password (phc salt key)
      ≡ verify_fields id_key password (split b'$' (header_left salt key))
unfolding verify_password bytes phc_header
prefix-stripped id_key password salt key = refl

key-accepted :
    (id_key : KeyDerivation) (password salt key : Text)
    → length salt ≢ 0
    → length key ≡ 32
    → id_key password salt 3 65536 4 32 ≡ key
    → compare_key id_key password
        (some (record { memory = 65536; time = 3; threads = 4 }))
        (some salt)
        (some key)
      ≡ some true
key-accepted id_key password salt key some_salt size derived =
    rw (size, derived, text_eq_refl key) (ground arith)

-- VerifyPassword accepts a password under the hash that HashPassword makes of it with any salt that is
-- not empty, where argon2 gives as many bytes as it is asked for.
pub verify_password-hash :
    (id_key : KeyDerivation) (password salt : Text)
    → length salt ≢ 0
    → All IsByte salt
    → length (id_key password salt 3 65536 4 32) ≡ 32
    → All IsByte (id_key password salt 3 65536 4 32)
    → verify_password id_key password (hash_with_salt id_key password salt) ≡ some true
unfolding hash_with_salt
verify_password-hash id_key password salt some_salt salt_bytes size key_bytes =
    let key = id_key password salt 3 65536 4 32 in
    prefix-stripped id_key password salt key
    ∙ ap (verify_fields id_key password) (split-phc salt key)
    ∙ fields-verified id_key password (encode std_alphabet salt) (encode std_alphabet key)
    ∙ rw (decode-encode salt salt_bytes, decode-encode key key_bytes)
        (key-accepted id_key password salt key some_salt size refl)
