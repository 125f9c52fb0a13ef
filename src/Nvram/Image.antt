-- ===== src/Nvram/Image.antt =====
-- The struct nvram_t as its 968 bytes, and the commands on a file that holds one: test_nvram_parse and
-- test_nvram_modify.
use tulum_utils.Base.{
  ℕ, ◌+◌, ◌%◌, ◌≤◌, ◌≡◌, refl, sym, subst, ap, ◌∙◌, inr, arith, Bool, true, ◌||◌, leb, ltb, le→leb,
  ◌==◌, if◌then◌else◌, Option, none, some, List, [], ◌∷◌, ◌++◌, Bytes, IsByte, All, codes, bytes_eq,
  length, take, drop, slice, take-append, drop-append, length-append, length-take, length-drop,
  take_all, drop-drop, append-nil, drop_all,
}
use tulum_utils.Base.Int.{ℤ, pos, negsuc}
use tulum_utils.Libc.Hex.{lower, hex_bytes, scan_bytes, scan_bytes-hex_bytes, Separates}

abbrev colon : Bytes
colon = 58 ∷ []

-- sizeof(nvram_t), and where its address lies.
abbrev pub nvram_size : ℕ
nvram_size = 968

abbrev pub mac_offset : ℕ
mac_offset = 928

-- The bytes of the struct with another address.
unfoldable pub with_mac : Bytes → Bytes → Bytes
with_mac mac image = take mac_offset image ++ (mac ++ drop (mac_offset + 6) image)

-- What a command returns, what its file holds afterwards, and what it prints of the image.
pub record Command : Type 0 where
  pub code : ℤ
  pub file : Option Bytes
  pub output : Bytes

abbrev pub ended : ℤ → Option Bytes → Command
ended code file = record { code = code; file = file; output = [] }

-- The struct at the start of a file, if the file has so many bytes.
abbrev pub read_image : Bytes → Option Bytes
read_image file = if leb nvram_size (length file) then some (take nvram_size file) else none

abbrev pub mac_line : Bytes → Bytes
mac_line mac = codes "mac\t\t: " ++ hex_bytes lower colon mac ++ (10 ∷ [])

unfoldable pub print_image : Option Bytes → Option Bytes → Command
print_image file none = ended (negsuc 0) file
print_image file (some image) = record {
  code = pos 0;
  file = file;
  output = mac_line (slice mac_offset 6 image);
}

-- A file that cannot be opened is `none`.
unfoldable pub test_nvram_parse : List Bytes → Option Bytes → Command
test_nvram_parse (name ∷ []) none = ended (negsuc 0) none
test_nvram_parse (name ∷ []) (some file) = print_image (some file) (read_image file)
test_nvram_parse _ file = ended (pos 2) file

-- The numbers that sscanf stores, as bytes; those that it does not store hold what was there before.
unfoldable pub scan_mac : Bytes → Bytes → Bytes
scan_mac garbage text =
    let mac_int = scan_bytes colon none 6 text in mac_int ++ drop (length mac_int) garbage

-- `garbage` are the six unset numbers, and `writable` tells whether the file can be opened for writing.
module _ (garbage : Bytes) (writable : Bool) where
  unfoldable pub save_image : Bytes → Bytes → Bytes → Command
  save_image file text image =
      if writable
      then ended (pos 0) (some (with_mac (scan_mac garbage text) image))
      else ended (negsuc 0) (some file)

  unfoldable pub modify_image : Bytes → Bytes → Bytes → Option Bytes → Command
  modify_image field text file none = ended (negsuc 0) (some file)
  modify_image field text file (some image) =
      if bytes_eq field (codes "mac") then save_image file text image else ended (pos 2) (some file)

  -- argc < 3 || (argc & 1) == 0
  abbrev pub is_usage_error : ℕ → Bool
  is_usage_error argc = ltb argc 3 || argc % 2 == 0

  unfoldable pub test_nvram_modify : List Bytes → Option Bytes → Command
  test_nvram_modify (name ∷ field ∷ text ∷ rest) none =
      if is_usage_error (3 + length rest) then ended (pos 2) none else ended (negsuc 0) none
  test_nvram_modify (name ∷ field ∷ text ∷ rest) (some file) =
      if is_usage_error (3 + length rest)
      then ended (pos 2) (some file)
      else modify_image field text file (read_image file)
  test_nvram_modify _ file = ended (pos 2) file

-- The parts of an image with another address.
with_mac_parts :
    (mac image : Bytes)
    → length mac ≡ 6
    → length image ≡ nvram_size
    → (length (with_mac mac image) ≡ nvram_size)
      × (take mac_offset (with_mac mac image) ≡ take mac_offset image)
      × (slice mac_offset 6 (with_mac mac image) ≡ mac)
      × (drop (mac_offset + 6) (with_mac mac image) ≡ drop (mac_offset + 6) image)
unfolding with_mac
with_mac_parts mac image six whole =
    let before : length (take mac_offset image) ≡ mac_offset =
      omega (arith, length-take mac_offset image) in
    let after = drop (mac_offset + 6) image in
    let front = drop-append mac_offset (take mac_offset image) (mac ++ after) before in
    (
      omega (
        arith,
        length-append (take mac_offset image) (mac ++ after),
        length-append mac after,
        length-drop (mac_offset + 6) image,
        before,
      ),
      take-append mac_offset (take mac_offset image) (mac ++ after) before,
      ap (take 6) front ∙ take-append 6 mac after six,
      sym (drop-drop 6 mac_offset (take mac_offset image ++ (mac ++ after)))
          ∙ ap (drop 6) front
          ∙ drop-append 6 mac after six,
    )

scan_mac-hex_bytes :
    (garbage mac : Bytes)
    → All IsByte mac
    → length mac ≡ 6
    → length garbage ≡ 6
    → scan_mac garbage (hex_bytes lower colon mac) ≡ mac
unfolding scan_mac Separates
scan_mac-hex_bytes garbage mac all six unset =
    let read : scan_bytes colon none 6 (hex_bytes lower colon mac) ≡ mac =
      subst (λ n. scan_bytes colon none n (hex_bytes lower colon mac) ≡ mac) six
        (scan_bytes-hex_bytes colon none lower mac (inr (refl, refl)) all) in
    let none_left : drop (length mac) garbage ≡ [] = drop_all (length mac) garbage (omega arith) in
    rw (scan_mac, read, none_left) (append-nil mac)

-- A file with an image is given another address: the file then holds an image of 968 bytes, in which only
-- the address is changed, and whose printed address is the one given.
pub test_nvram_parse-modify :
    (garbage name mac file : Bytes)
    → All IsByte mac
    → length mac ≡ 6
    → length garbage ≡ 6
    → nvram_size ≤ length file
    → (image : Bytes) × (test_nvram_modify garbage true
          (name ∷ codes "mac" ∷ hex_bytes lower colon mac ∷ [])
          (some file)
        ≡ record { code = pos 0; file = some image; output = [] })
      × (test_nvram_parse (name ∷ []) (some image)
          ≡ record { code = pos 0; file = some image; output = mac_line mac })
      × (length image ≡ nvram_size)
      × (take mac_offset image ≡ take mac_offset (take nvram_size file))
      × (drop (mac_offset + 6) image ≡ drop (mac_offset + 6) (take nvram_size file))
unfolding test_nvram_modify test_nvram_parse modify_image save_image print_image bytes_eq
test_nvram_parse-modify garbage name mac file all six unset enough =
    let old = take nvram_size file in
    let whole : length old ≡ nvram_size = omega (arith, length-take nvram_size file) in
    let image = with_mac mac old in
    let (size, front, address, back) = with_mac_parts mac old six whole in
    let kept : take nvram_size image ≡ image = take_all nvram_size image (omega arith) in
    (
      image,
      rw (le→leb nvram_size (length file) enough, scan_mac-hex_bytes garbage mac all six unset)
          refl,
      rw (le→leb nvram_size (length image) (omega arith), kept, address) refl,
      size,
      front,
      back,
    )
