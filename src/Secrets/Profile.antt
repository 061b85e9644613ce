-- ===== src/Secrets/Profile.antt =====
-- internal/config/profile.go: the secrets of a hub's profile, which are decrypted into memory.
use altclaw.Common.{
  true, Option, none, some, List, [], ◌∷◌, Bytes, ltb, if◌then◌else◌, length, take, drop, map,
}
use altclaw.Secrets.{Secret, Store, is_blank}

-- What the program uses of base64, hex, ECDH on P-256 and AES-GCM; `none` is an error. A private key is
-- its bytes.
pub record Crypto : Type 0 where
  pub base64_decode : Bytes → Option Bytes
  pub hex_decode : Bytes → Option Bytes
  pub new_private_key : Bytes → Option Bytes
  pub new_public_key : Bytes → Option Bytes
  pub agree : Bytes → Bytes → Option Bytes
  pub new_gcm : Bytes → Option Bytes
  pub gcm_open : Bytes → Bytes → Bytes → Option Bytes

abbrev pub and_then : Option Bytes → (Bytes → Option Bytes) → Option Bytes
and_then none next = none
and_then (some b) next = next b

abbrev pub keep_decrypted : Secret → Option Bytes → List Secret → List Secret
keep_decrypted s none rest = rest
keep_decrypted s (some plain) rest = record s { value = plain } ∷ rest

abbrev pub provisioned : Secret → Secret
provisioned s = record s { in_memory = true }

module _ (c : Crypto) where
  unfoldable pub decrypt_parts : Bytes → Bytes → Bytes → Bytes → Option Bytes
  decrypt_parts public iv ciphertext private = and_then (c.new_public_key public) (λ pub_key.
      and_then (c.agree private pub_key)
        (λ shared. and_then (c.new_gcm shared) (λ gcm. c.gcm_open gcm iv ciphertext)))

  -- A payload that is too short gives the error of the decoding before, which is none.
  unfoldable pub decrypt_combined : Bytes → Bytes → Option Bytes
  unfolding decrypt_parts
  decrypt_combined combined private =
      if ltb (length combined) 78
      then some []
      else decrypt_parts (take 65 combined) (take 12 (drop 65 combined)) (drop 77 combined) private

  -- `decryptECDH`
  unfoldable pub decrypt_ecdh : Bytes → Bytes → Option Bytes
  unfolding decrypt_combined
  decrypt_ecdh encoded private =
      and_then (c.base64_decode encoded) (λ b. decrypt_combined b private)

  unfoldable pub decrypt_all : Bytes → List Secret → List Secret
  unfolding decrypt_ecdh
  decrypt_all private [] = []
  decrypt_all private (s ∷ secrets) =
      let rest = decrypt_all private secrets in keep_decrypted s (decrypt_ecdh s.value private) rest

  abbrev pub decrypt_with : Option Bytes → List Secret → List Secret
  decrypt_with none secrets = secrets
  decrypt_with (some private) secrets = decrypt_all private secrets

  abbrev pub private_key : Bytes → Option Bytes
  private_key hex = and_then (c.hex_decode hex) c.new_private_key

  -- `DecryptProfileSecrets`
  unfoldable pub decrypt_profile_secrets : List Secret → Bytes → List Secret
  unfolding decrypt_all
  decrypt_profile_secrets secrets hex =
      if is_blank hex then secrets else decrypt_with (private_key hex) secrets

  -- The secrets' part of `ApplyProfile`; `none` is a store without a configuration.
  abbrev pub decrypted_for : Option Bytes → List Secret → List Secret
  decrypted_for none secrets = secrets
  decrypted_for (some hex) secrets = decrypt_profile_secrets secrets hex

  unfoldable pub apply_profile : List Secret → Option Bytes → Store → Store
  unfolding decrypt_profile_secrets
  apply_profile secrets key s = record s { profile = map provisioned (decrypted_for key secrets) }
