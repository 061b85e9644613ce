-- ===== src/Secrets/Sealed.antt =====
-- What the hub encrypts for an instance arrives there, in memory only.
use altclaw.Common.{
  ℕ, zero, suc, ◌+◌, ◌≤◌, false, some, List, [], ◌∷◌, ◌++◌, Bytes, ltb, if◌then◌else◌, length,
  length-append, take, drop, map, arith, ◌≡◌, refl, ap, ◌∙◌,
}
use altclaw.Secrets.{is_blank, Secret, Store}
use altclaw.Secrets.Profile.{
  Crypto, and_then, private_key, decrypt_parts, decrypt_combined, decrypt_ecdh, keep_decrypted,
  decrypt_all, decrypt_with, decrypt_profile_secrets, provisioned, apply_profile,
}

-- The other side of the cryptography, with what its standards promise.
pub record Sealing (c : Crypto) : Type 0 where
  pub base64_encode : Bytes → Bytes
  pub public_of : Bytes → Bytes
  pub seal : Bytes → Bytes → Bytes → Bytes
  pub decode_encode : (b : Bytes) → c.base64_decode (base64_encode b) ≡ some b
  pub public_length : (k : Bytes) → length (public_of k) ≡ 65
  pub public_valid : (k : Bytes) → c.new_public_key (public_of k) ≡ some (public_of k)
  pub agreement : (a b : Bytes) → c.agree a (public_of b) ≡ c.agree b (public_of a)
  pub seal_tag : (gcm iv plain : Bytes) → 16 ≤ length (seal gcm iv plain)
  pub open_seal : (gcm iv plain : Bytes) → c.gcm_open gcm iv (seal gcm iv plain) ≡ some plain

take_app : (n : ℕ) (xs ys : Bytes) → length xs ≡ n → take n (xs ++ ys) ≡ xs
take_app zero [] ys h = refl
take_app zero (x ∷ xs) ys h = absurd (omega arith)
take_app (suc n) [] ys h = absurd (omega arith)
take_app (suc n) (x ∷ xs) ys h = ap (λ t. x ∷ t) (take_app n xs ys (omega arith))

drop_app : (k m : ℕ) (xs ys : Bytes) → k ≡ length xs + m → drop k (xs ++ ys) ≡ drop m ys
drop_app k m [] ys h = ap (λ n. drop n ys) (omega (arith, h))
drop_app zero m (x ∷ xs) ys h = absurd (omega (arith, h))
drop_app (suc k) m (x ∷ xs) ys h = drop_app k m xs ys (omega (arith, h))

long_enough : (n : ℕ) → 78 ≤ n → ltb n 78 ≡ false
long_enough n h = ground arith

-- The parts of a payload are found at their places.
decrypt_combined-parts :
    (c : Crypto) (public iv sealed private : Bytes)
    → length public ≡ 65
    → length iv ≡ 12
    → 1 ≤ length sealed
    → decrypt_combined c (public ++ (iv ++ sealed)) private
      ≡ decrypt_parts c public iv sealed private
unfolding decrypt_combined
decrypt_combined-parts c public iv sealed private p n l =
    let all : Bytes = public ++ (iv ++ sealed) in
    let size : 78 ≤ length all =
      omega (arith, length-append public (iv ++ sealed), length-append iv sealed, p, n, l) in
    let rest : drop 65 all ≡ iv ++ sealed =
      drop_app 65 0 public (iv ++ sealed) (omega (arith, p)) in
    let last : drop 77 all ≡ sealed =
      drop_app 77 12 public (iv ++ sealed) (omega (arith, p))
      ∙ drop_app 12 0 iv sealed (omega (arith, n)) in
    ap
      (λ b.
        if b
        then some []
        else decrypt_parts c (take 65 all) (take 12 (drop 65 all)) (drop 77 all) private)
      (long_enough (length all) size)
    ∙ ap (λ k. decrypt_parts c k (take 12 (drop 65 all)) (drop 77 all) private)
        (take_app 65 public (iv ++ sealed) p)
    ∙ ap (λ i. decrypt_parts c public i (drop 77 all) private)
        (ap (take 12) rest ∙ take_app 12 iv sealed n)
    ∙ ap (λ d. decrypt_parts c public iv d private) last

module _ (c : Crypto) (q : Sealing c) where
  -- What the hub sends: a fresh key, the instance's public key, a nonce and the value.
  abbrev pub payload : Bytes → Bytes → Bytes → Bytes → Bytes
  payload gcm e iv plain = q.base64_encode (q.public_of e ++ (iv ++ q.seal gcm iv plain))

  decrypt_parts-seal :
      (e private shared gcm iv plain : Bytes)
      → c.agree e (q.public_of private) ≡ some shared
      → c.new_gcm shared ≡ some gcm
      → decrypt_parts c (q.public_of e) iv (q.seal gcm iv plain) private ≡ some plain
  unfolding decrypt_parts
  decrypt_parts-seal e private shared gcm iv plain a g =
      rw (q.public_valid e, q.agreement private e, a, g, q.open_seal gcm iv plain)

  decrypt_ecdh-payload :
      (e private shared gcm iv plain : Bytes)
      → c.agree e (q.public_of private) ≡ some shared
      → c.new_gcm shared ≡ some gcm
      → length iv ≡ 12
      → decrypt_ecdh c (payload gcm e iv plain) private ≡ some plain
  unfolding decrypt_ecdh
  decrypt_ecdh-payload e private shared gcm iv plain a g n =
      ap (λ o. and_then o (λ b. decrypt_combined c b private))
        (q.decode_encode (q.public_of e ++ (iv ++ q.seal gcm iv plain)))
      ∙ decrypt_combined-parts c (q.public_of e) iv (q.seal gcm iv plain) private
          (q.public_length e) n (omega (arith, q.seal_tag gcm iv plain))
      ∙ decrypt_parts-seal e private shared gcm iv plain a g

  -- A value as the hub sends it: with what it was encrypted with.
  pub record Sent (private : Bytes) : Type 0 where
    pub secret : Secret
    pub ephemeral : Bytes
    pub shared : Bytes
    pub gcm : Bytes
    pub iv : Bytes
    pub agreed : c.agree ephemeral (q.public_of private) ≡ some shared
    pub keyed : c.new_gcm shared ≡ some gcm
    pub iv_length : length iv ≡ 12

  abbrev pub sealed_secret : (private : Bytes) → Sent private → Secret
  sealed_secret private m = record m.secret {
    value = payload m.gcm m.ephemeral m.iv m.secret.value;
  }

  decrypt_all-sealed :
      (private : Bytes) (ms : List (Sent private))
      → decrypt_all c private (map (sealed_secret private) ms) ≡ map (λ m. m.secret) ms
  unfolding decrypt_all
  decrypt_all-sealed private [] = refl
  decrypt_all-sealed private (m ∷ ms) =
      ap
        (λ o.
          keep_decrypted (sealed_secret private m) o
            (decrypt_all c private (map (sealed_secret private) ms)))
        (decrypt_ecdh-payload m.ephemeral private m.shared m.gcm m.iv m.secret.value m.agreed
          m.keyed m.iv_length)
      ∙ ap (λ rest. m.secret ∷ rest) (decrypt_all-sealed private ms)

  map-map :
      (private : Bytes) (ms : List (Sent private))
      → map provisioned (map (λ m. m.secret) ms) ≡ map (λ m. provisioned m.secret) ms
  map-map private [] = refl
  map-map private (m ∷ ms) = ap (λ rest. provisioned m.secret ∷ rest) (map-map private ms)

  -- If the instance's key is the hexadecimal form of a valid private key, and the hub encrypts each
  -- secret for it (with a fresh key that agrees with the instance's, a nonce of 12 bytes, and the format
  -- that is documented), then `ApplyProfile` leaves the store with all secrets, in order, with the values
  -- that were encrypted, marked as in memory.
  pub apply_profile-sealed :
      (hex private : Bytes) (ms : List (Sent private)) (s : Store)
      → is_blank hex ≡ false
      → private_key c hex ≡ some private
      → (apply_profile c (map (sealed_secret private) ms) (some hex) s).profile
        ≡ map (λ m. provisioned m.secret) ms
  unfolding apply_profile decrypt_profile_secrets
  apply_profile-sealed hex private ms s b k =
      ap
        (λ x. map provisioned (
          if x
          then map (sealed_secret private) ms
          else decrypt_with c (private_key c hex) (map (sealed_secret private) ms)))
        b
      ∙ ap (λ o. map provisioned (decrypt_with c o (map (sealed_secret private) ms))) k
      ∙ ap (map provisioned) (decrypt_all-sealed private ms)
      ∙ map-map private ms
