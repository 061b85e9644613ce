-- ===== src/Secrets/Examples.antt =====
-- The secrets at concrete inputs.
use altclaw.Common.{
  true, false, Option, some, List, [], ◌∷◌, ◌++◌, map, replicate, drop, length-append, Bytes, codes,
  text_eq, arith, ◌≡◌, refl,
}
use altclaw.Secrets.{Secret, Store, set_secret, placeholder, expand_secrets, resolve, masked}
use altclaw.Secrets.Expand.{Piece, text, secret, render, expand_secrets-render, set_secret-expand}
use altclaw.Secrets.Profile.{Crypto, decrypt_ecdh, apply_profile, provisioned}
use altclaw.Secrets.Sealed.{Sealing, Sent, sealed_secret, apply_profile-sealed}

abbrev row : Bytes → Bytes → Bytes → Secret
row workspace id value = record { id = id; workspace = workspace; value = value; in_memory = false }

abbrev two_rows : Store
two_rows = record {
  rows =
      row (codes "w") (codes "KEY") (codes "abc{{secrets.OTHER}}")
      ∷ row [] (codes "OTHER") (codes "xyz")
      ∷ [];
  workspace = some (codes "w");
  profile = [];
}

abbrev header : List Piece
header =
    text (codes "{a} ")
    ∷ secret (codes "KEY")
    ∷ text (codes ", ")
    ∷ secret (codes "OTHER")
    ∷ secret (codes "MISSING")
    ∷ []

expand_secrets-render_example :
    expand_secrets (some two_rows) (render placeholder header) ≡ render (resolve two_rows) header
expand_secrets-render_example = expand_secrets-render two_rows header refl

-- A value is not expanded again, and an unknown name stays.
header_expanded :
    expand_secrets
      (some two_rows)
      (codes "{a} {{secrets.KEY}}, {{secrets.OTHER}}{{secrets.MISSING}}")
    ≡ codes "{a} abc{{secrets.OTHER}}, xyz{{secrets.MISSING}}"
unfolding expand_secrets text_eq placeholder
header_expanded = refl

abbrev after_set : Store
after_set = (set_secret (codes "w") (codes "KEY") (codes "new") two_rows).1

set_works : set_secret (codes "w") (codes "KEY") (codes "new") two_rows ≡ (true, after_set)
unfolding set_secret text_eq
set_works = refl

set_secret-expand_example :
    expand_secrets (some after_set) (codes "Bearer " ++ (placeholder (codes "KEY") ++ codes "!"))
    ≡ codes "Bearer " ++ (codes "new" ++ codes "!")
set_secret-expand_example =
    set_secret-expand (codes "w") (codes "KEY") (codes "new") (codes "Bearer ") (codes "!") two_rows
      after_set refl refl refl refl set_works

-- A name with a dot can be set, but its placeholder is never replaced.
dotted_name :
    expand_secrets
      (some (set_secret (codes "w") (codes "my.key") (codes "new") two_rows).1)
      (placeholder (codes "my.key"))
    ≡ placeholder (codes "my.key")
unfolding expand_secrets set_secret placeholder text_eq
dotted_name = refl

masked_long : (masked (row [] (codes "K") (codes "0123456789"))).value ≡ codes "0123***6789"
unfolding masked
masked_long = refl

-- A cipher that adds 16 bytes, keys of any bytes, and texts that are their own encoding.
abbrev toy : Crypto
toy = record {
  base64_decode = some;
  hex_decode = some;
  new_private_key = some;
  new_public_key = some;
  agree = λ a b. some [];
  new_gcm = some;
  gcm_open = λ g iv b. drop_16 b;
}
  where
    drop_16 : Bytes → Option Bytes
    drop_16 b = some (drop 16 b)

abbrev toy_sealing : Sealing toy
toy_sealing = record {
  base64_encode = λ b. b;
  public_of = λ k. replicate 65 0;
  seal = λ g iv b. replicate 16 0 ++ b;
  decode_encode = λ b. refl;
  public_length = λ k. refl;
  public_valid = λ k. refl;
  agreement = λ a b. refl;
  seal_tag = λ g iv b. omega (arith, length-append (replicate 16 0) b);
  open_seal = λ g iv b. refl;
}

abbrev sent : Sent toy toy_sealing (codes "k")
sent = record {
  secret = row [] (codes "KEY") (codes "abc");
  ephemeral = codes "e";
  shared = [];
  gcm = [];
  iv = replicate 12 7;
  agreed = refl;
  keyed = refl;
  iv_length = refl;
}

apply_profile-sealed_example :
    (apply_profile toy
      (map (sealed_secret toy toy_sealing (codes "k")) (sent ∷ []))
      (some (codes "k"))
      two_rows).profile
    ≡ map (λ m. provisioned m.secret) (sent ∷ [])
apply_profile-sealed_example =
    apply_profile-sealed toy toy_sealing (codes "k") (codes "k") (sent ∷ []) two_rows refl refl

-- A payload that is too short is taken for a secret with an empty value.
short_payload : decrypt_ecdh toy (codes "short") (codes "k") ≡ some []
unfolding decrypt_ecdh
short_payload = refl
