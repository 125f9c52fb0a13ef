-- ===== src/Tests/Messages.antt =====
-- Answers, encrypted payloads, keys and interfaces.
use tulum_utils.Base.{
  ℕ, suc, ◌+◌, ◌%◌, ◌/◌, ◌<◌, ◌≡◌, refl, ap, arith, Bytes, Bool, byte_at, ◌∷◌, ◌++◌, [], List, some,
  none, ◌>>=◌, length, take, drop, min, replicate, length-replicate, select, map, codes,
}
use tulum_utils.Errors.{ErrorStack, add_error, append_error_stack, category_network, module_core}
use tulum_utils.Errors.Stack.{append-add_error}
use tulum_utils.Frame.Layout.{EthFrame, wire_size}
use tulum_utils.Frame.Build.{build_frames}
use tulum_utils.Frame.Build.Spec.{built}
use tulum_utils.Frame.Defrag.{defrag_frames}
use tulum_utils.Mme.Encode.{encode_mme, encode_mtk_mme}
use tulum_utils.Mme.Decode.{smart_copy, decode_mme, decode_mtk_mme}
use tulum_utils.Mme.RoundTrip.{decode-encode_mme, decode-encode_mtk_mme}
use tulum_utils.Mme.Security.{
  pbkdf1_sha256, length-pbkdf1_sha256, generate_nid, generate_nid_lem, hash_again,
}
use tulum_utils.Mme.Encrypted.Transport.{decode-encode_cm_encrypted_payload_ind}
use tulum_utils.Mme.Encrypted.{
  EncryptedPayload, encode_cm_encrypted_payload_ind, smart_copy_cm_encrypted_payload_ind, CryptoLib,
  encrypt_with_dak, decrypt,
}
use tulum_utils.Mme.Encrypted.Padding.{IsCryptoLib, decrypt-encrypt_with_dak}
use tulum_utils.Interfaces.{
  If, PcapIf, copy_interfaces, is_usable, new_interface, populate_mac_addr,
}
use tulum_utils.Interfaces.Sorted.{IsSorted, copy_interfaces_lem}
use tulum_utils.Interfaces.Populate.{addressed, populate_mac_addr_lem}
use tulum_utils.Tests.Frames.{host, station, single}

decode_mme_example :
    (build_frames (encode_mme 0x6009 (1 ∷ 2 ∷ 3 ∷ 4 ∷ []) host station) 60
      >>= defrag_frames
      >>= decode_mme (smart_copy 3))
    ≡ some (record { fields = 1 ∷ 2 ∷ 3 ∷ []; sta_mac_addr = station } ∷ [])
decode_mme_example =
    decode-encode_mme 0x6009 3 (1 ∷ 2 ∷ 3 ∷ 4 ∷ []) host station refl refl (omega arith)
      (omega arith) (omega arith)

decode_mtk_mme_example :
    (build_frames (encode_mtk_mme 0xA00B (1 ∷ 2 ∷ []) host station) 60
      >>= defrag_frames
      >>= decode_mtk_mme (smart_copy 2))
    ≡ some (record { fields = 1 ∷ 2 ∷ []; sta_mac_addr = station } ∷ [])
decode_mtk_mme_example =
    decode-encode_mtk_mme 0xA00B 2 (1 ∷ 2 ∷ []) host station refl refl (omega arith) (omega arith)

-- A cipher that swaps neighbours.
swap : Bytes → Bytes
swap (x ∷ y ∷ d) = y ∷ x ∷ swap d
swap d = d

swap-swap : (d : Bytes) → swap (swap d) ≡ d
unfolding swap
swap-swap (x ∷ y ∷ d) = ap (λ z. x ∷ y ∷ z) (swap-swap d)
swap-swap (x ∷ []) = refl
swap-swap [] = refl

length-swap : (d : Bytes) → length (swap d) ≡ length d
unfolding swap
length-swap (x ∷ y ∷ d) = ap (λ n. suc (suc n)) (length-swap d)
length-swap (x ∷ []) = refl
length-swap [] = refl

abbrev lib : CryptoLib
lib = record {
  sha256 = λ b. replicate 32 (length b % 256);
  aes_cbc_encrypt = λ key iv d. swap d;
  aes_cbc_decrypt = λ key iv d. swap d;
  crc32 = λ b. length b;
  rand_bytes = λ n size. replicate size n;
}

lib-IsCryptoLib : IsCryptoLib lib
lib-IsCryptoLib = record {
  decrypted = λ key iv d h. swap-swap d;
  blocks = λ key iv d h. length-swap d;
  random = λ n size. length-replicate size n;
}

length-sha256 : (b : Bytes) → length (lib.sha256 b) ≡ 32
length-sha256 b = length-replicate 32 (length b % 256)

abbrev old_frame : EthFrame
old_frame = record {
  wire = replicate wire_size 7;
  frame_size = 9;
  ts = record { tv_sec = 3; tv_usec = 4 };
}

decrypt_example :
    (encrypt_with_dak lib (built single 0 ∷ []) "password" >>= λ rx.
    decrypt lib old_frame rx "password" [])
    ≡ some (
        record {
          wire = take 23 (built single 0).wire ++ drop 23 old_frame.wire;
          frame_size = 23;
          ts = old_frame.ts;
        }
        ∷ [])
unfolding built replicate
decrypt_example =
    decrypt-encrypt_with_dak lib (built single 0) "password" [] old_frame lib-IsCryptoLib
      (omega arith) (length-replicate {A = ℕ} wire_size 7) (omega arith)

length-pbkdf1_sha256_example :
    length (pbkdf1_sha256 lib.sha256 (1 ∷ 2 ∷ []) (3 ∷ []) 1000 16) ≡ min 16 32
length-pbkdf1_sha256_example =
    length-pbkdf1_sha256 lib.sha256 length-sha256 (1 ∷ 2 ∷ []) (3 ∷ []) 1000 16

generate_nid_example :
    (length (generate_nid lib.sha256 (1 ∷ 2 ∷ []) 1) ≡ 7)
    × (take 6 (generate_nid lib.sha256 (1 ∷ 2 ∷ []) 1)
        ≡ take 6 (pbkdf1_sha256 lib.sha256 (1 ∷ 2 ∷ []) [] 5 7))
    × (byte_at (generate_nid lib.sha256 (1 ∷ 2 ∷ []) 1) 6 < 64)
    × (byte_at (generate_nid lib.sha256 (1 ∷ 2 ∷ []) 1) 6 / 16 ≡ 1 % 4)
    × (byte_at (generate_nid lib.sha256 (1 ∷ 2 ∷ []) 1) 6 % 16
        ≡ byte_at (pbkdf1_sha256 lib.sha256 (1 ∷ 2 ∷ []) [] 5 7) 6 / 16)
unfolding pbkdf1_sha256 hash_again replicate
generate_nid_example = generate_nid_lem lib.sha256 length-sha256 (1 ∷ 2 ∷ []) 1 (omega arith)

abbrev found : List PcapIf
found =
    record { name = codes "wlan0"; description = none; flags = 0 }
    ∷ record { name = codes "lo"; description = none; flags = 1 }
    ∷ record { name = codes "eth1"; description = none; flags = 0 }
    ∷ record { name = codes "any"; description = none; flags = 0 }
    ∷ record { name = codes "eth0"; description = none; flags = 0 }
    ∷ []

copy_interfaces_example :
    IsSorted (copy_interfaces 1 found [])
    × ((q : If → Bool)
        → length (select q (copy_interfaces 1 found []))
          ≡ length (select q (map new_interface (select (is_usable 1) found))) + 0)
copy_interfaces_example = copy_interfaces_lem 1 found [] tt

populate_mac_addr_example :
    populate_mac_addr (λ name. replicate 6 (byte_at name 3 % 49)) (map new_interface found)
    ≡ some (addressed (λ name. replicate 6 (byte_at name 3 % 49)) (map new_interface found))
populate_mac_addr_example =
    populate_mac_addr_lem (λ name. replicate 6 (byte_at name 3 % 49)) (map new_interface found)

abbrev one_error : ErrorStack
one_error = add_error [] category_network module_core 1 (some "pcap_compile failed") none

append-add_error_example :
    (append_error_stack one_error (add_error [] category_network module_core 2 none none)
      ≡ add_error (append_error_stack one_error []) category_network module_core 2 none none)
    × (append_error_stack (append_error_stack one_error []) one_error
        ≡ append_error_stack one_error (append_error_stack [] one_error))
append-add_error_example =
    append-add_error one_error [] one_error category_network module_core 2 none none

abbrev payload : EncryptedPayload
payload = record {
  peks = 1;
  avln_status = 0;
  pid = 4;
  prn = 300;
  pmn = 2;
  aes_iv = replicate 16 9;
  mme_length = 20;
  encrypted_data_length = 32;
  encrypted_data = replicate 32 8;
}

payload_example :
    (encode_cm_encrypted_payload_ind (some payload) host station
      >>= (λ p. build_frames p 60)
      >>= defrag_frames
      >>= decode_mme smart_copy_cm_encrypted_payload_ind)
    ≡ some (record { fields = payload; sta_mac_addr = station } ∷ [])
payload_example =
    decode-encode_cm_encrypted_payload_ind payload host station
      (record {
        prn_fits = omega arith;
        length_fits = omega arith;
        iv_sized = length-replicate 16 9;
        data_sized = length-replicate 32 8;
      })
      refl refl (omega arith) (omega arith)
