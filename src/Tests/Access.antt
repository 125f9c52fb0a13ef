-- ===== src/Tests/Access.antt =====
-- A file of two fragments that is written with lost answers, checksums, memory images and addresses.
use tulum_utils.Base.{
  ℕ, ◌+◌, ◌≡◌, refl, arith, true, false, List, [], ◌∷◌, ◌++◌, some, Bytes, codes, length, map,
  replicate, length-replicate, take, drop, All, IsByte, All-append,
}
use tulum_utils.Base.Int.{pos}
use tulum_utils.Channel.Run.{returns}
use tulum_utils.Access.Transfer.{Finish, access_loop, first_request, fragments_of}
use tulum_utils.Access.Response.{Response, Local}
use tulum_utils.Access.Fragments.{piece, joined}
use tulum_utils.Access.Steps.{script, expected}
use tulum_utils.Access.Delivery.{access_loop-delivers}
use tulum_utils.Access.Checksum.{xorchecksum}
use tulum_utils.Nvram.Image.{
  test_nvram_modify, test_nvram_parse, test_nvram_parse-modify, nvram_size, mac_offset, mac_line,
}
use tulum_utils.Nvram.Write.{SetNvramReq, prepare_write, prepare_write_lem, sends, htonl}
use tulum_utils.Libc.Hex.{lower, hex_bytes}
use tulum_utils.Utils.Text.{
  stomac, stomac_lem, mactos, stonid, nidtos, stocid, cidtos, stomd5sum, md5sumtos, stomac-mactos,
}
use tulum_utils.Tests.Frames.{station}

abbrev two_fragments : Bytes
two_fragments = replicate 1500 7

abbrev taken : ℕ → Response
taken i = record {
  mstatus = 0;
  op = 0;
  total_fragments = 2;
  fragment_number = i;
  data_length = 0;
  data_bytes = [];
  sta_mac_addr = station;
}

abbrev untouched : Local
untouched = record { null = false; saved = []; list_null = false; sta_list = [] }

-- The first answer but one is lost, and the last but two.
abbrev losses : List ℕ
losses = 1 ∷ 2 ∷ []

access_loop-delivers_example :
    (f : Finish) × (access_loop 0 true
        (replicate 8 0)
        two_fragments
        (script taken 0 losses)
        0
        (first_request station (fragments_of (length two_fragments)))
        untouched
      ≡ returns f)
    × (f.rv ≡ pos 0)
    × (f.file ≡ untouched)
    × (map piece f.sent ≡ expected two_fragments 0 losses)
    × (joined two_fragments 0 2 ≡ two_fragments)
access_loop-delivers_example =
    let size : length two_fragments ≡ 1500 = length-replicate 1500 7 in
    access_loop-delivers true (replicate 8 0) station two_fragments taken untouched losses
      (omega (arith, size)) (omega (arith, size)) (omega (arith, size))
      (omega arith, (omega arith, tt))
      (λ i h. record { success = refl; write = refl; total = refl; number = refl })

-- An image of two words for the station with the address 01:02:03:04:05:06.
abbrev two_words : Bytes
two_words = 1 ∷ 2 ∷ 3 ∷ 4 ∷ 5 ∷ 6 ∷ 7 ∷ 8 ∷ []

abbrev number_mac : Bytes
number_mac = 1 ∷ 2 ∷ 3 ∷ 4 ∷ 5 ∷ 6 ∷ []

six_bytes : All IsByte number_mac
six_bytes =
    (omega arith, (omega arith, (omega arith, (omega arith, (omega arith, (omega arith, tt))))))

eight_bytes : All IsByte two_words
eight_bytes = (
  omega arith,
  (
    omega arith,
    (omega arith, (omega arith, (omega arith, (omega arith, (omega arith, (omega arith, tt)))))),
  ),
)

abbrev image_file : Bytes
image_file = replicate 1024 9

test_nvram_parse-modify_example :
    (image : Bytes) × (test_nvram_modify
        (replicate 6 1)
        true
        (codes "image" ∷ codes "mac" ∷ hex_bytes lower (58 ∷ []) station ∷ [])
        (some image_file)
      ≡ record { code = pos 0; file = some image; output = [] })
    × (test_nvram_parse (codes "image" ∷ []) (some image)
        ≡ record { code = pos 0; file = some image; output = mac_line station })
    × (length image ≡ nvram_size)
    × (take mac_offset image ≡ take mac_offset (take nvram_size image_file))
    × (drop (mac_offset + 6) image ≡ drop (mac_offset + 6) (take nvram_size image_file))
test_nvram_parse-modify_example =
    let size : length image_file ≡ 1024 = length-replicate 1024 9 in
    test_nvram_parse-modify (replicate 6 1) (codes "image") station image_file
      (omega arith, (omega arith, (omega arith, (omega arith, (omega arith, (omega arith, tt))))))
      refl (length-replicate {A = ℕ} 6 1) (omega (arith, size))

prepare_write_example :
    (req : SetNvramReq) × (prepare_write
        (replicate 1024 0)
        (mactos number_mac ∷ codes "image" ∷ [])
        (some two_words)
      ≡ sends number_mac req)
    × (req.nvram_size ≡ length two_words)
    × (length req.data_bytes ≡ 1024)
    × (take (length two_words) req.data_bytes ≡ two_words)
    × (xorchecksum (two_words ++ htonl req.checksum) ≡ some (0 ∷ 0 ∷ 0 ∷ 0 ∷ []))
prepare_write_example =
    prepare_write_lem (replicate 1024 0) (mactos number_mac) number_mac (codes "image") two_words
      (stomac_lem number_mac six_bytes refl) eight_bytes (length-replicate {A = ℕ} 1024 0)
      (omega arith) (omega arith) (omega arith)

stomac-mactos_example :
    (stomac (mactos number_mac) ≡ some number_mac)
    × (stonid (nidtos (7 ∷ number_mac)) ≡ 7 ∷ number_mac)
    × (stocid (cidtos (0xAB ∷ 0xCD ∷ [])) ≡ 0xAB ∷ 0xCD ∷ [])
    × (stomd5sum (md5sumtos (two_words ++ two_words)) ≡ two_words ++ two_words)
stomac-mactos_example =
    stomac-mactos number_mac (7 ∷ number_mac) (0xAB ∷ 0xCD ∷ []) (two_words ++ two_words) six_bytes
      (omega arith, six_bytes) (omega arith, (omega arith, tt))
      (All-append IsByte two_words two_words eight_bytes eight_bytes) refl refl refl refl
