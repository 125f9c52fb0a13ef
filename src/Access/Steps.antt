-- ===== src/Access/Steps.antt =====
-- The steps of the loop of test_mme_mtk_vs_file_access_req, for a station that takes what it is sent.
use tulum_utils.Base.{
  ℕ, zero, suc, ◌-◌, ◌*◌, ◌^◌, ◌≤◌, ◌<◌, ◌≡◌, refl, ap, ◌∙◌, arith, Bool, true, false, some, List,
  [], ◌∷◌, ◌++◌, Bytes, length, min, slice, drop, take-append, length-slice, length-append,
  length-drop, copy_out_lem, copy_onto_lem,
}
use tulum_utils.Base.Int.{pos}
use tulum_utils.Channel.Run.{returns}
use tulum_utils.Access.Transfer.{
  Request, Reply, answers, next_request, remain_len, fragment_size, checksum_of, access_loop,
  add_sent, advance,
}
use tulum_utils.Access.Response.{
  Response, Local, process_responses, process_chain, process_response,
}
use tulum_utils.Access.Fragments.{Piece, piece, fragment}

-- A request for fragment `i` of `n`.
pub record IsAt (n i : ℕ) (req : Request) : Type 0 where
  pub number : req.fragment_number ≡ i
  pub total : req.total_fragments ≡ n
  pub room : length req.data_bytes ≡ 1024

remain_lem : (size i : ℕ) → 1024 * i < size → size < 2 ^ 32 → remain_len size i ≡ size - 1024 * i
unfolding remain_len
remain_lem size i h g = omega arith

size_lem :
    (size i : ℕ)
    → 1024 * i < size
    → size < 2 ^ 32
    → fragment_size (remain_len size i) ≡ min 1024 (size - 1024 * i)
unfolding fragment_size
size_lem size i h g = rw (remain_lem size i h g) (ground arith)

-- What is sent for the fragment that a request stands at.
abbrev pub sent_of : Bool → Bytes → Request → Request
sent_of general buf req =
    let m = min 1024 (length buf - 1024 * req.fragment_number) in
    let payload = slice (1024 * req.fragment_number) m buf in
    record req {
      data_bytes = payload ++ drop (length payload) req.data_bytes;
      data_length = m;
      offset = 1024 * req.fragment_number;
      checksum = checksum_of general req.checksum payload;
    }

next_request-sent_of :
    (general : Bool) (buf : Bytes) (req : Request)
    → 1024 * req.fragment_number < length buf
    → length buf < 2 ^ 32
    → length req.data_bytes ≡ 1024
    → next_request general buf req ≡ some (sent_of general buf req)
unfolding next_request
next_request-sent_of general buf req inside small room =
    let f = req.fragment_number in
    let m = min 1024 (length buf - 1024 * f) in
    let payload = slice (1024 * f) m buf in
    let whole : length payload ≡ m = length-slice (1024 * f) m buf (omega arith) in
    rw
      (
        next_request,
        size_lem (length buf) f inside small,
        copy_out_lem (1024 * f) m buf (omega arith),
        copy_onto_lem payload req.data_bytes (omega arith),
      )
      refl

pub next_request_lem :
    (general : Bool) (buf : Bytes) (n i : ℕ) (req : Request)
    → IsAt n i req
    → 1024 * i < length buf
    → length buf < 2 ^ 32
    → (next_request general buf req ≡ some (sent_of general buf req))
      × IsAt n i (sent_of general buf req)
      × (piece (sent_of general buf req) ≡ fragment buf i)
next_request_lem general buf n i req at inside small =
    let f = req.fragment_number in
    let m = min 1024 (length buf - 1024 * f) in
    let payload = slice (1024 * f) m buf in
    let inside' : 1024 * f < length buf = omega (arith, at.number) in
    let whole : length payload ≡ m = length-slice (1024 * f) m buf (omega arith) in
    (
      next_request-sent_of general buf req inside' small at.room,
      record {
        number = at.number;
        total = at.total;
        room = omega (
          arith,
          length-append payload (drop (length payload) req.data_bytes),
          length-drop (length payload) req.data_bytes,
          at.room,
        );
      },
      ap (λ taken. (f, 1024 * f, taken))
            (take-append m payload (drop (length payload) req.data_bytes) whole)
          ∙ ap (fragment buf) at.number,
    )

-- The answer of a station that has taken fragment `i` of `n`.
pub record IsEcho (n i : ℕ) (r : Response) : Type 0 where
  pub success : r.mstatus ≡ 0
  pub write : r.op ≡ 0
  pub total : r.total_fragments ≡ n
  pub number : r.fragment_number ≡ i

-- `e` calls without an answer.
abbrev pub lose : ℕ → List Reply → List Reply
lose zero replies = replies
lose (suc e) replies = answers [] ∷ lose e replies

-- The replies from fragment `i` on, with as many lost ones before each answer as the list says.
abbrev pub script : (ℕ → Response) → ℕ → List ℕ → List Reply
script answer i [] = []
script answer i (e ∷ es) = lose e (answers (answer i ∷ []) ∷ script answer (suc i) es)

-- `e` more times the same.
abbrev pub repeated : ℕ → Piece → List Piece → List Piece
repeated zero p ps = ps
repeated (suc e) p ps = p ∷ repeated e p ps

-- The fragments that are sent, each as often as it takes.
abbrev pub expected : Bytes → ℕ → List ℕ → List Piece
expected buf i [] = []
expected buf i (e ∷ es) = fragment buf i ∷ repeated e (fragment buf i) (expected buf (suc i) es)

pub process_echo :
    (unset : Bytes) (n i : ℕ) (r : Response) (l : Local)
    → IsEcho n i r
    → process_responses false unset (r ∷ []) l ≡ some (true, l)
unfolding process_responses process_chain process_response
process_echo unset n i r l h = ground (arith, h.success, h.write)

module _ (general : Bool) (unset buf : Bytes) where
  pub lost_step :
      (c : ℕ) (req sent : Request) (l : Local) (replies : List Reply)
      → next_request general buf req ≡ some sent
      → c < 2
      → sent.fragment_number < sent.total_fragments
      → access_loop 0 general unset buf (answers [] ∷ replies) c req l
        ≡ add_sent sent (access_loop 0 general unset buf replies (suc c) sent l)
  unfolding access_loop
  lost_step c req sent l replies e few more = ground arith

  pub taken_step :
      (c : ℕ) (req sent : Request) (r : Response) (l : Local) (replies : List Reply)
      → next_request general buf req ≡ some sent
      → process_responses false unset (r ∷ []) l ≡ some (true, l)
      → (advance sent r).fragment_number < r.total_fragments
      → access_loop 0 general unset buf (answers (r ∷ []) ∷ replies) c req l
        ≡ add_sent sent (access_loop 0 general unset buf replies 0 (advance sent r) l)
  unfolding access_loop
  taken_step c req sent r l replies e done_of more = ground arith

  pub last_step :
      (c : ℕ) (req sent : Request) (r : Response) (l : Local) (replies : List Reply)
      → next_request general buf req ≡ some sent
      → process_responses false unset (r ∷ []) l ≡ some (true, l)
      → r.total_fragments ≤ (advance sent r).fragment_number
      → access_loop 0 general unset buf (answers (r ∷ []) ∷ replies) c req l
        ≡ returns (record { rv = pos 0; sent = sent ∷ []; file = l })
  unfolding access_loop
  last_step c req sent r l replies e done_of last = ground arith
