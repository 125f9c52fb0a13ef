-- ===== src/Mme/Encrypted/Padding.antt =====
-- Decryption undoes encryption.
use tulum_utils.Base.{
  ℕ, zero, suc, ◌+◌, ◌-◌, ◌%◌, ◌≤◌, ◌<◌, ◌≡◌, ◌==◌, false, refl, ap, ◌∙◌, arith, Bytes, byte_at,
  le16, le32, ◌∷◌, ◌++◌, [], some, ◌>>=◌, String, copy_out_lem, copy_onto_lem, slice, take, drop,
  take_all, take-append, drop-append, get_or-append_right, length, length-append, length-slice,
}
use tulum_utils.Frame.Layout.{EthFrame, wire_size}
use tulum_utils.Mme.Security.{generate_dak}
use tulum_utils.Mme.Encrypted.{
  CryptoLib, EncryptedPayload, initial_aes_iv, rand_filler_size, unpadded_size, padding_size,
  pid_of, prn_of, pmn_of, data_to_encrypt, encrypt_with_dak, unpacked, decrypt_with_key,
  decrypt_with_dpw, decrypt,
}

-- Whole blocks keep their length, and are decrypted with the key and the vector that they were
-- encrypted with; RAND_bytes writes as many bytes as it is asked for.
pub record IsCryptoLib (lib : CryptoLib) : Type 0 where
  pub decrypted :
      (key iv d : Bytes)
      → length d % 16 ≡ 0
      → lib.aes_cbc_decrypt key iv (lib.aes_cbc_encrypt key iv d) ≡ d
  pub blocks :
      (key iv d : Bytes) → length d % 16 ≡ 0 → length (lib.aes_cbc_encrypt key iv d) ≡ length d
  pub random : (n size : ℕ) → length (lib.rand_bytes n size) ≡ size

byte_at-slice : (i : ℕ) (b : Bytes) → byte_at (slice i 1 b) 0 ≡ byte_at b i
byte_at-slice zero [] = refl
byte_at-slice zero (x ∷ b) = refl
byte_at-slice (suc i) [] = refl
byte_at-slice (suc i) (x ∷ b) = byte_at-slice i b

-- The last byte.
abbrev IsLast : ℕ → Bytes → Type 0
IsLast x b = (1 ≤ length b) × ((n : ℕ) → suc n ≡ length b → byte_at b n ≡ x)

IsLast-one : (x : ℕ) → IsLast x (x ∷ [])
IsLast-one x = (omega arith, λ n e. ap (byte_at (x ∷ [])) (let z : n ≡ 0 = omega arith in z))

IsLast-append : (x : ℕ) (a b : Bytes) → IsLast x b → IsLast x (a ++ b)
IsLast-append x a b h =
    let sized = length-append a b in
    (
      omega (arith, h.0),
      λ n e.
          get_or-append_right a b n (n - length a) 0 (omega (arith, h.0))
          ∙ h.1 (n - length a) (omega (arith, h.0)),
    )

module _ (lib : CryptoLib) (works : IsCryptoLib lib) (f : EthFrame) (mme : Bytes)
    (sized : length mme ≡ f.frame_size) where
  abbrev tail : Bytes
  tail =
      le32 (lib.crc32 mme)
      ++ (pid_of f ∷ [])
      ++ le16 (prn_of f)
      ++ (pmn_of f ∷ [])
      ++ lib.rand_bytes 2 (padding_size f)
      ++ rand_filler_size ∷ []

  length-tail : length tail ≡ padding_size f + 9
  length-tail = omega (
    arith,
    works.random 2 (padding_size f),
    length-append (lib.rand_bytes 2 (padding_size f)) (rand_filler_size ∷ []),
  )

  length-data : length (data_to_encrypt lib f mme) ≡ unpadded_size f + padding_size f
  unfolding data_to_encrypt
  length-data = omega (
    arith,
    works.random 1 rand_filler_size,
    sized,
    length-tail,
    length-append (lib.rand_bytes 1 rand_filler_size) (mme ++ tail),
    length-append mme tail,
  )

  IsLast-data : IsLast rand_filler_size (data_to_encrypt lib f mme)
  unfolding data_to_encrypt
  IsLast-data = IsLast-append 5 (lib.rand_bytes 1 rand_filler_size) (mme ++ tail) (
      IsLast-append 5 mme tail (
        IsLast-append 5
          (le32 (lib.crc32 mme) ++ (pid_of f ∷ []) ++ le16 (prn_of f) ++ (pmn_of f ∷ []))
          (lib.rand_bytes 2 (padding_size f) ++ rand_filler_size ∷ [])
          (IsLast-append 5 (lib.rand_bytes 2 (padding_size f)) (rand_filler_size ∷ [])
            (IsLast-one 5))))

  aligned : (unpadded_size f + padding_size f) % 16 ≡ 0
  unfolding padding_size
  aligned = omega arith

  frame_bytes : slice 5 f.frame_size (data_to_encrypt lib f mme) ≡ mme
  unfolding data_to_encrypt
  frame_bytes =
      ap (take f.frame_size) (drop-append 5 (lib.rand_bytes 1 5) (mme ++ tail) (works.random 1 5))
      ∙ take-append f.frame_size mme tail sized

  -- What is read from the plain bytes.
  unpacked-data :
      (heap : EthFrame) (e : EncryptedPayload)
      → e.mme_length ≡ f.frame_size
      → e.encrypted_data_length ≡ unpadded_size f + padding_size f
      → f.frame_size ≤ length heap.wire
      → unpacked heap e (data_to_encrypt lib f mme)
        ≡ some (record {
          wire = mme ++ drop f.frame_size heap.wire;
          frame_size = f.frame_size;
          ts = heap.ts;
        })
  unfolding unpacked
  unpacked-data heap e l k room =
      let total = unpadded_size f + padding_size f in
      let plain = data_to_encrypt lib f mme in
      let whole = length-data in
      let last : byte_at (slice (total - 1) 1 plain) 0 ≡ 5 =
        byte_at-slice (total - 1) plain ∙ IsLast-data.1 (total - 1) (omega arith) in
      let some_bytes : (total == 0) ≡ false = ground arith in
      rw
        (
          k,
          some_bytes,
          copy_out_lem (total - 1) 1 plain (omega arith),
          last,
          l,
          copy_out_lem 5 f.frame_size plain (omega arith),
          frame_bytes,
          copy_onto_lem mme heap.wire (omega (arith, sized)),
          sized,
        )
        refl

padding_bound : (f : EthFrame) → padding_size f < 16
unfolding padding_size
padding_bound f = omega arith

-- If the cipher decrypts whole blocks and keeps their length, and RAND_bytes gives as many bytes
-- as it is asked for: a frame that holds the bytes that it states, and no more than fit in a
-- frame, encrypted with a password and decrypted with the same one, comes back with its size and
-- its bytes; behind them, and in its time, lies what was in the new frame.
pub decrypt-encrypt_with_dak :
    (lib : CryptoLib) (f : EthFrame) (device_password : String) (nmk : Bytes) (heap : EthFrame)
    → IsCryptoLib lib
    → f.frame_size ≤ length f.wire
    → length heap.wire ≡ wire_size
    → f.frame_size ≤ wire_size
    → (encrypt_with_dak lib (f ∷ []) device_password >>= λ rx.
        decrypt lib heap rx device_password nmk)
      ≡ some (
          record {
            wire = take f.frame_size f.wire ++ drop f.frame_size heap.wire;
            frame_size = f.frame_size;
            ts = heap.ts;
          }
          ∷ [])
unfolding encrypt_with_dak decrypt decrypt_with_dpw decrypt_with_key
decrypt-encrypt_with_dak lib f device_password nmk heap works holds room fits =
    let mme = slice 0 f.frame_size f.wire in
    let sized = length-slice 0 f.frame_size f.wire (omega arith) in
    let total = unpadded_size f + padding_size f in
    let plain = data_to_encrypt lib f mme in
    let key = generate_dak lib.sha256 device_password in
    let whole = length-data lib works f mme sized in
    let blocks : length plain % 16 ≡ 0 = omega (arith, aligned lib works f mme sized) in
    let short : total % 65536 ≡ total = omega (arith, padding_bound f) in
    let encrypted = lib.aes_cbc_encrypt key initial_aes_iv plain in
    let kept = works.blocks key initial_aes_iv plain blocks in
    let all : slice 0 total encrypted ≡ encrypted = take_all total encrypted (omega arith) in
    rw
      (
        copy_out_lem 0 f.frame_size f.wire (omega arith),
        short,
        copy_out_lem 0 total encrypted (omega arith),
        all,
        works.decrypted key initial_aes_iv plain blocks,
        unpacked-data lib works f mme sized heap
            (record {
              peks = 0;
              avln_status = 0;
              pid = pid_of f;
              prn = prn_of f;
              pmn = pmn_of f;
              aes_iv = initial_aes_iv;
              mme_length = f.frame_size % 65536;
              encrypted_data_length = total;
              encrypted_data = encrypted;
            })
            (omega arith) refl (omega arith),
      )
      refl
