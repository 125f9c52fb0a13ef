-- ===== src/Access/Transfer.antt =====
-- The loop of test_mme_mtk_vs_file_access_req over the fragments of a file, for one station.
use tulum_utils.Base.{
  ℕ, suc, ◌+◌, ◌-◌, ◌*◌, ◌/◌, ◌%◌, ◌^◌, Bool, true, false, ◌||◌, leb, ltb, ◌==◌, if◌then◌else◌,
  Option, none, some, ◌>>=◌, List, [], ◌∷◌, Bytes, length, copy_out, copy_onto, replicate,
}
use tulum_utils.Base.Int.{ℤ, pos, negsuc}
use tulum_utils.Channel.Run.{Run, returns, no_fuel, lift, ◌>>=◌ as ◌>>>◌}
use tulum_utils.Access.Response.{Response, Local, process_responses}
use tulum_utils.Access.Checksum.{xorchecksum}

-- struct hpav_mtk_vs_file_access_req: the fields that change from one fragment to the next, and the
-- address that the request goes to.
pub record Request : Type 0 where
  pub dest_mac : Bytes
  pub total_fragments : ℕ
  pub fragment_number : ℕ
  pub offset : ℕ
  pub checksum : Bytes
  pub data_length : ℕ
  pub data_bytes : Bytes

-- A call of hpav_mtk_vs_file_access_sndrcv: it fails, or gives the chain of answers, which may be empty.
pub data Reply : Type 0 where
  failure : Reply
  answers : List Response → Reply

-- The fragment of a file for a request to write: as many bytes as are left, up to 1024. The number of
-- bytes left is an unsigned number of 32 bits.
unfoldable pub remain_len : ℕ → ℕ → ℕ
remain_len file_size fragment_number =
    (file_size + (2 ^ 32 - 1024 * fragment_number % 2 ^ 32)) % 2 ^ 32

unfoldable pub fragment_size : ℕ → ℕ
fragment_size remain = if ltb 1024 remain then 1024 else remain

-- The checksum stays as it is if the size is no multiple of four.
unfoldable pub checksum_of : Bool → Bytes → Bytes → Bytes
checksum_of general old payload =
    if general then old else elim (xorchecksum payload) [ none ↦ old | some c ↦ c ]

-- The request for the current fragment; copying past the buffer faults.
unfoldable pub next_request : Bool → Bytes → Request → Option Request
next_request general buf req = do
  let size = fragment_size (remain_len (length buf) req.fragment_number)
  payload ← copy_out (1024 * req.fragment_number) size buf
  data_bytes ← copy_onto payload req.data_bytes
  some (record req {
    data_bytes = data_bytes;
    data_length = size;
    offset = 1024 * req.fragment_number;
    checksum = checksum_of general req.checksum payload;
  })

-- What the loop leaves: the result, the requests that were sent, and the file.
pub record Finish : Type 0 where
  pub rv : ℤ
  pub sent : List Request
  pub file : Local

abbrev pub add_sent : Request → Run Finish → Run Finish
add_sent req run = run >>> λ f. returns (record f { sent = req ∷ f.sent })

abbrev pub stop : ℤ → Request → Local → Run Finish
stop rv req l = returns (record { rv = rv; sent = req ∷ []; file = l })

-- The request after an answer.
abbrev pub advance : Request → Response → Request
advance req r = record req {
  dest_mac = r.sta_mac_addr;
  total_fragments = r.total_fragments;
  fragment_number = (r.fragment_number + 1) % 65536;
}

-- The loop, with the replies of its calls in their order; `op` is the operation, 0 for a write and 8 for
-- the list of stations. After a reply the loop goes on as long as there has been no error and there is a fragment to come, or, if no
-- number of fragments is known, no answer. After three empty replies in a row it ends.
unfoldable pub access_loop :
    ℕ → Bool → Bytes → Bytes → List Reply → ℕ → Request → Local → Run Finish
access_loop op general unset buf [] retry_count req l = no_fuel
access_loop op general unset buf (failure ∷ replies) retry_count req l =
    lift (if op == 0 then next_request general buf req else some req) >>> λ sent.
    stop (negsuc 0) sent l
access_loop op general unset buf (answers [] ∷ replies) retry_count req l =
    lift (if op == 0 then next_request general buf req else some req) >>> λ sent.
    elim (leb 3 (retry_count + 1)) [
      | true ↦ stop (negsuc 1) sent l
      | false ↦ elim (sent.total_fragments == 0 || ltb sent.fragment_number sent.total_fragments) [
        | true ↦ add_sent sent (access_loop op general unset buf replies (suc retry_count) sent l)
        | false ↦ stop (pos 0) sent l
      ]
    ]
access_loop op general unset buf (answers (r ∷ rs) ∷ replies) retry_count req l =
    lift (if op == 0 then next_request general buf req else some req) >>> λ sent.
    lift (process_responses (op == 8) unset (r ∷ rs) l) >>> λ result. elim result.0 [
      | false ↦ stop (negsuc 0) sent result.1
      | true ↦ elim (ltb (advance sent r).fragment_number (advance sent r).total_fragments) [
        | true ↦
            add_sent sent (access_loop op general unset buf replies 0 (advance sent r) result.1)
        | false ↦ stop (pos 0) sent result.1
      ]
    ]

-- The number of fragments of a file, in 16 bits.
abbrev pub fragments_of : ℕ → ℕ
fragments_of file_size = (file_size + 1024 - 1) / 1024 % 65536

-- The request before the first fragment: cleared, with the number of fragments, which is 0 for what is no
-- write.
abbrev pub first_request : Bytes → ℕ → Request
first_request dest_mac total = record {
  dest_mac = dest_mac;
  total_fragments = total;
  fragment_number = 0;
  offset = 0;
  checksum = replicate 4 0;
  data_length = 0;
  data_bytes = replicate 1024 0;
}
