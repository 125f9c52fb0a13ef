-- ===== src/Access/Delivery.antt =====
-- Writing a file by the loop of test_mme_mtk_vs_file_access_req, to a station that answers.
use tulum_utils.Base.{
  ℕ, zero, suc, ◌+◌, ◌-◌, ◌*◌, ◌^◌, ◌≤◌, ◌<◌, ◌≡◌, refl, sym, ap, ◌∙◌, arith, Bool, List, [], ◌∷◌,
  Bytes, length, map, replicate, length-replicate, All,
}
use tulum_utils.Base.Int.{pos}
use tulum_utils.Channel.Run.{Run, returns}
use tulum_utils.Access.Transfer.{
  Request, answers, Finish, access_loop, add_sent, advance, fragments_of, first_request,
}
use tulum_utils.Access.Response.{Response, Local}
use tulum_utils.Access.Fragments.{Piece, piece, fragment, joined, joined_lem}
use tulum_utils.Access.Steps.{
  IsAt, sent_of, next_request_lem, IsEcho, lose, script, repeated, expected, process_echo,
  lost_step, taken_step, last_step,
}

module _ (general : Bool) (unset buf : Bytes) where
  -- The whole of what is said of a run.
  record IsDelivery (l : Local) (pieces : List Piece) (run : Run Finish) : Type 0 where
    finish : Finish
    returned : run ≡ returns finish
    success : finish.rv ≡ pos 0
    same_file : finish.file ≡ l
    sent_pieces : map piece finish.sent ≡ pieces

  add_sent-IsDelivery :
      (l : Local) (p : Piece) (pieces : List Piece) (sent : Request) (run run' : Run Finish)
      → run' ≡ add_sent sent run
      → piece sent ≡ p
      → IsDelivery l pieces run
      → IsDelivery l (p ∷ pieces) run'
  add_sent-IsDelivery l p pieces sent run run' e first d = record {
    finish = record d.finish { sent = sent ∷ d.finish.sent };
    returned = e ∙ ap (add_sent sent) d.returned;
    success = d.success;
    same_file = d.same_file;
    sent_pieces = λ i. first i ∷ d.sent_pieces i;
  }

  module _ (n : ℕ) (answer : ℕ → Response) (l : Local)
      (echoes : (i : ℕ) → i < n → IsEcho n i (answer i)) (few : n < 65536)
      (inside : 1024 * (n - 1) < length buf) (small : length buf < 2 ^ 32) where
    access_loop-IsDelivery :
        (es : List ℕ) (e c i : ℕ) (req : Request)
        → All (λ k. k ≤ 2) es
        → c + e ≤ 2
        → i + suc (length es) ≡ n
        → IsAt n i req
        → IsDelivery l (fragment buf i ∷ repeated e (fragment buf i) (expected buf (suc i) es)) (
            access_loop 0 general unset buf
              (lose e (answers (answer i ∷ []) ∷ script answer (suc i) es))
              c
              req
              l)
    access_loop-IsDelivery es (suc e) c i req all lost count at =
        let (sent, at', same) = next_request_lem general buf n i req at (omega arith) small in
        add_sent-IsDelivery l (fragment buf i) _ (sent_of general buf req) _ _
          (lost_step general unset buf c req (sent_of general buf req) l _ sent (omega arith)
            (omega (arith, at'.number, at'.total)))
          same
          (access_loop-IsDelivery es e (suc c) i (sent_of general buf req) all (omega arith) count
            at')
    access_loop-IsDelivery [] zero c i req all lost count at =
        let (sent, at', same) = next_request_lem general buf n i req at (omega arith) small in
        let echo = echoes i (omega arith) in
        record {
          finish = record { rv = pos 0; sent = sent_of general buf req ∷ []; file = l };
          returned =
              last_step general unset buf c req (sent_of general buf req) (answer i) l [] sent
                (process_echo unset n i (answer i) l echo) (omega (arith, echo.total, echo.number));
          success = refl;
          same_file = refl;
          sent_pieces = λ j. same j ∷ [];
        }
    access_loop-IsDelivery (e ∷ es) zero c i req all lost count at =
        let (sent, at', same) = next_request_lem general buf n i req at (omega arith) small in
        let echo = echoes i (omega arith) in
        let next : IsAt n (suc i) (advance (sent_of general buf req) (answer i)) = record {
          number = omega (arith, echo.number);
          total = echo.total;
          room = at'.room;
        } in
        add_sent-IsDelivery l (fragment buf i) _ (sent_of general buf req) _ _
          (taken_step general unset buf c req (sent_of general buf req) (answer i) l _ sent
            (process_echo unset n i (answer i) l echo) (omega (arith, echo.number, echo.total)))
          same
          (access_loop-IsDelivery es e 0 (suc i) (advance (sent_of general buf req) (answer i))
            all.1 (omega (arith, all.0)) (omega arith) next)

-- A file of 1 to 65535 * 1024 bytes is delivered to a station that answers each request with success and
-- with the numbers of the request, if at most two answers in a row are lost: the loop ends with the
-- result 0 and without touching the named file, and has sent the fragments in order, each as often as it
-- took. Put together, the fragments are the file.
pub access_loop-delivers :
    (general : Bool) (unset dest_mac buf : Bytes) (answer : ℕ → Response) (l : Local) (es : List ℕ)
    → 0 < length buf
    → length buf ≤ 65535 * 1024
    → length es ≡ fragments_of (length buf)
    → All (λ e. e ≤ 2) es
    → ((i : ℕ) → i < length es → IsEcho (length es) i (answer i))
    → (f : Finish) × (access_loop 0 general unset buf
          (script answer 0 es)
          0
          (first_request dest_mac (fragments_of (length buf)))
          l
        ≡ returns f)
      × (f.rv ≡ pos 0)
      × (f.file ≡ l)
      × (map piece f.sent ≡ expected buf 0 es)
      × (joined buf 0 (length es) ≡ buf)
unfolding replicate
access_loop-delivers general unset dest_mac buf answer l [] some_bytes most count all echoes =
    absurd (omega arith)
access_loop-delivers general unset dest_mac buf answer l (e ∷ es) some_bytes most count all echoes =
    let n = suc (length es) in
    let d =
      access_loop-IsDelivery general unset buf n answer l echoes (omega arith) (omega arith)
        (omega arith) es e 0 0 (first_request dest_mac (fragments_of (length buf))) all.1
        (omega (arith, all.0)) (omega arith)
        (record { number = refl; total = sym count; room = length-replicate {A = ℕ} 1024 0 }) in
    (d.finish, d.returned, d.success, d.same_file, d.sent_pieces, joined_lem buf 0 n (omega arith))
