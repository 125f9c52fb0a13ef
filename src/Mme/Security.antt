-- ===== src/Mme/Security.antt =====
-- Keys from passwords (hpav_test/libhpav/hpav_security.c). The hash function is OpenSSL's SHA256, as
-- an argument: of all the bytes given to SHA256_Update since SHA256_Init.
use tulum_utils.Base.{
  ℕ, zero, suc, ◌+◌, ◌-◌, ◌*◌, ◌/◌, ◌%◌, ◌<◌, ◌≡◌, ap, ◌∙◌, arith, min, Bytes, IsByte, byte_at,
  codes, ltb, if◌then◌else◌, ◌∷◌, ◌++◌, [], String, length, length-append, length-take, take,
  take_all, take-append, get_or-append_right,
}

abbrev pub sha256_digest_length : ℕ
sha256_digest_length = 32

module _ (sha256 : Bytes → Bytes) where
  -- The loop from `iteration_index` on, with so many rounds left.
  unfoldable pub hash_again : ℕ → Bytes → Bytes
  hash_again zero digest = digest
  hash_again (suc n) digest = hash_again n (sha256 digest)

  -- What is written to `result`.
  unfoldable pub pbkdf1_sha256 : Bytes → Bytes → ℕ → ℕ → Bytes
  pbkdf1_sha256 password salt iteration_count result_size =
      let digest = hash_again (iteration_count - 1) (sha256 (password ++ salt)) in
      if ltb sha256_digest_length result_size
      then take sha256_digest_length digest
      else take result_size digest

  -- HPAV_AES_KEY_SIZE and HPAV_PBKDF1_ITERATION_COUNT
  unfoldable pub generate_key : String → Bytes → Bytes
  generate_key password salt = pbkdf1_sha256 (codes password) salt 1000 16

  unfoldable pub generate_nmk : String → Bytes
  generate_nmk password =
      generate_key password (0x08 ∷ 0x85 ∷ 0x6D ∷ 0xAF ∷ 0x7C ∷ 0xF5 ∷ 0x81 ∷ 0x86 ∷ [])

  unfoldable pub generate_dak : String → Bytes
  generate_dak password =
      generate_key password (0x08 ∷ 0x85 ∷ 0x6D ∷ 0xAF ∷ 0x7C ∷ 0xF5 ∷ 0x81 ∷ 0x85 ∷ [])

  -- The last byte keeps its high bits, moved to the right, and takes the security level above.
  unfoldable pub generate_nid : Bytes → ℕ → Bytes
  generate_nid nmk security_level =
      let result = pbkdf1_sha256 nmk [] 5 7 in
      take 6 result ++ (byte_at result 6 / 16 + security_level % 4 * 16) ∷ []

  module _ (hashes : (b : Bytes) → length (sha256 b) ≡ sha256_digest_length) where
    length-hash_again :
        (n : ℕ) (digest : Bytes)
        → length digest ≡ sha256_digest_length
        → length (hash_again n digest) ≡ sha256_digest_length
    unfolding hash_again
    length-hash_again zero digest h = h
    length-hash_again (suc n) digest h = length-hash_again n (sha256 digest) (hashes digest)

    pbkdf1_sha256-take :
        (password salt : Bytes) (count size : ℕ)
        → pbkdf1_sha256 password salt count size
          ≡ take size (hash_again (count - 1) (sha256 (password ++ salt)))
    unfolding pbkdf1_sha256
    pbkdf1_sha256-take password salt count size =
        let digest = hash_again (count - 1) (sha256 (password ++ salt)) in
        let whole : length digest ≡ 32 =
          length-hash_again (count - 1) (sha256 (password ++ salt)) (hashes (password ++ salt)) in
        ground (arith, take_all size digest, take_all 32 digest)

    -- With a hash of the length of SHA-256, the result has the size asked for, but at most the 32
    -- bytes of the digest.
    pub length-pbkdf1_sha256 :
        (password salt : Bytes) (count size : ℕ)
        → length (pbkdf1_sha256 password salt count size) ≡ min size 32
    length-pbkdf1_sha256 password salt count size =
        let digest = hash_again (count - 1) (sha256 (password ++ salt)) in
        let whole : length digest ≡ 32 =
          length-hash_again (count - 1) (sha256 (password ++ salt)) (hashes (password ++ salt)) in
        ap length (pbkdf1_sha256-take password salt count size)
        ∙ omega (arith, length-take size digest)

    -- With a hash of the length of SHA-256 and made of bytes, the network identifier of a key has
    -- seven bytes: six of the hash, and one whose two high bits are zero, whose next two hold the
    -- security level, and whose low four are the high four of the seventh byte of the hash.
    pub generate_nid_lem :
        (nmk : Bytes) (level : ℕ)
        → IsByte (byte_at (pbkdf1_sha256 nmk [] 5 7) 6)
        → (length (generate_nid nmk level) ≡ 7)
          × (take 6 (generate_nid nmk level) ≡ take 6 (pbkdf1_sha256 nmk [] 5 7))
          × (byte_at (generate_nid nmk level) 6 < 64)
          × (byte_at (generate_nid nmk level) 6 / 16 ≡ level % 4)
          × (byte_at (generate_nid nmk level) 6 % 16 ≡ byte_at (pbkdf1_sha256 nmk [] 5 7) 6 / 16)
    unfolding generate_nid
    generate_nid_lem nmk level small =
        let r = pbkdf1_sha256 nmk [] 5 7 in
        let b = byte_at r 6 / 16 + level % 4 * 16 in
        let six : length (take 6 r) ≡ 6 =
          omega (arith, length-pbkdf1_sha256 nmk [] 5 7, length-take 6 r) in
        let last : byte_at (take 6 r ++ b ∷ []) 6 ≡ b =
          get_or-append_right (take 6 r) (b ∷ []) 6 0 0 (omega arith) in
        (
          omega (arith, length-append (take 6 r) (b ∷ [])),
          take-append 6 (take 6 r) (b ∷ []) six,
          omega arith,
          omega arith,
          omega arith,
        )
