-- ===== src/Replica/Dispatch/Read.antt =====
-- `replica_on_read` of src/replica-sys/replica.c, as it reads what a proxy writes: requests, which are
-- handed to the consensus one by one.
use libevent_paxos.Base.{
  ℕ, ◌+◌, ◌%◌, ◌^◌, ◌<◌, ◌≡◌, refl, sym, ap, ◌∙◌, subst, List, [], ◌∷◌, ◌++◌, map, concat, length,
  take, drop, true, false, Bool-cases, inl, inr, Outcome, ok, out_of_bounds, never_ends, ◌>>=◌,
  >>=-ok, >>=-cong, has_frame, read_all, FaultsWhenEmpty, read_all-Frames, Frames, no_frames,
  one_frame, process_all, elim_true, elim_false, append_assoc, arith, le_bytes, le_value,
  le_value-le_bytes, length-append, length-le_bytes, ltb, lt→ltb,
}
use libevent_paxos.Db.{Bdb}
use libevent_paxos.Proxy.Message.{ReqSubMsg, read_word, req_sub_bytes, encode_proxy_msg}
use libevent_paxos.Proxy.Message.Coding.{read_word-le_bytes}
use libevent_paxos.Replica.Node.{Node, NodeEnv}
use libevent_paxos.Replica.View.{handle_request_submit}
use libevent_paxos.Replica.Dispatch.{
  Layout, replica_frame_size, is_active, handle_typed, handle_msg, replica_on_read,
}

-- A request whose size is that of its message, and fits an `int` with the header.
pub record IsRequest (padding : ℕ) (r : ReqSubMsg) : Type 0 where
  pub sized : length (encode_proxy_msg padding r.msg) ≡ r.data_size
  pub fits : r.data_size + 16 < 2 ^ 31

pub data AreRequests (padding : ℕ) : List ReqSubMsg → Type 0 where
  no_requests : AreRequests padding []
  one_request :
      {r : ReqSubMsg} {rs : List ReqSubMsg}
      → IsRequest padding r
      → AreRequests padding rs
      → AreRequests padding (r ∷ rs)

req_type_read : (padding : ℕ) (r : ReqSubMsg) → read_word 0 4 (req_sub_bytes padding r) ≡ ok 2
unfolding req_sub_bytes
req_type_read padding r = read_word-le_bytes [] _ 4 2 (omega arith)

req_size_read :
    (padding : ℕ) (r : ReqSubMsg)
    → r.data_size < 2 ^ 64
    → read_word 8 8 (req_sub_bytes padding r) ≡ ok r.data_size
unfolding req_sub_bytes
req_size_read padding r small =
    let front = le_bytes 4 2 ++ le_bytes 4 padding in
    let sized : length front ≡ 8 = simp (length-append, length-le_bytes) refl in
    let behind = encode_proxy_msg padding r.msg in
    ap (read_word 8 8)
      (sym (append_assoc (le_bytes 4 2) (le_bytes 4 padding) (le_bytes 8 r.data_size ++ behind)))
    ∙ subst (λ n. read_word n 8 (front ++ (le_bytes 8 r.data_size ++ behind)) ≡ ok r.data_size)
        sized (read_word-le_bytes front behind 8 r.data_size small)

req_data_read :
    (padding : ℕ) (r : ReqSubMsg)
    → drop 16 (req_sub_bytes padding r) ≡ encode_proxy_msg padding r.msg
unfolding req_sub_bytes le_bytes
req_data_read padding r = refl

length-req_sub_bytes :
    (padding : ℕ) (r : ReqSubMsg)
    → length (req_sub_bytes padding r) ≡ 16 + length (encode_proxy_msg padding r.msg)
unfolding req_sub_bytes
length-req_sub_bytes padding r = simp (length-append, length-le_bytes) (omega arith)

request_sized :
    (padding : ℕ) (r : ReqSubMsg)
    → IsRequest padding r
    → replica_frame_size (take 16 (req_sub_bytes padding r)) ≡ length (req_sub_bytes padding r)
unfolding req_sub_bytes replica_frame_size le_bytes
request_sized padding r good =
    let small = good.fits in
    let read : le_value 8 (le_bytes 8 r.data_size ++ []) ≡ r.data_size =
      le_value-le_bytes 8 r.data_size [] (omega arith) in
    let low : r.data_size % 2 ^ 32 ≡ r.data_size = omega arith in
    let positive : ltb r.data_size (2 ^ 31) ≡ true = lt→ltb r.data_size (2 ^ 31) (omega arith) in
    rw (read, low, positive) (omega (arith, good.sized))

module _ (bdb : Bdb) (e : NodeEnv) (l : Layout) where
  handle_msg-empty : FaultsWhenEmpty {S = Node bdb.Store} replica_frame_size (handle_msg bdb e l)
  unfolding handle_msg read_word
  handle_msg-empty n = elim (Bool-cases (e.env.malloc 0)) [
    | inl enough ↦ (out_of_bounds, rw (enough, handle_msg) refl)
    | inr refused ↦ (never_ends, rw (refused, handle_msg) refl)
  ]

  on_read-read_all :
      (n : Node bdb.Store) (buf : List ℕ)
      → e.env.malloc 16 ≡ true
      → replica_on_read bdb e l n buf ≡ read_all replica_frame_size (handle_msg bdb e l) n buf
  unfolding replica_on_read
  on_read-read_all n buf enough = elim_true _ _ enough

  -- A request of the proxy, which only an active node takes.
  unfoldable pub submit_if_active : ℕ → Node bdb.Store → ReqSubMsg → Outcome (Node bdb.Store)
  submit_if_active padding n r = elim (is_active n.state) [
    | true ↦ handle_request_submit bdb e n r.data_size (encode_proxy_msg padding r.msg)
    | false ↦ ok n
  ]

  unfoldable pub submit_all : ℕ → Node bdb.Store → List ReqSubMsg → Outcome (Node bdb.Store)
  submit_all padding n [] = ok n
  submit_all padding n (r ∷ rs) = submit_if_active padding n r >>= λ n'. submit_all padding n' rs

  handle_msg-submit :
      (padding : ℕ) (n : Node bdb.Store) (r : ReqSubMsg)
      → ((size : ℕ) → e.env.malloc size ≡ true)
      → IsRequest padding r
      → handle_msg bdb e l n (req_sub_bytes padding r) ≡ submit_if_active padding n r
  unfolding handle_msg handle_typed submit_if_active
  handle_msg-submit padding n r mem good =
      elim_true _ _ (mem (length (req_sub_bytes padding r)))
      ∙ >>=-ok _ (req_type_read padding r)
      ∙ elim (Bool-cases (is_active n.state)) [
        | inl active ↦
            elim_true _ _ active
            ∙ >>=-ok _ (req_size_read padding r (omega (arith, good.fits)))
            ∙ ap (handle_request_submit bdb e n r.data_size) (req_data_read padding r)
            ∙ sym (elim_true _ _ active)
        | inr idle ↦ elim_false _ _ idle ∙ sym (elim_false _ _ idle)
      ]

  process_all-submit_all :
      (padding : ℕ) (n : Node bdb.Store) (rs : List ReqSubMsg)
      → ((size : ℕ) → e.env.malloc size ≡ true)
      → AreRequests padding rs
      → process_all replica_frame_size (handle_msg bdb e l) n (map (req_sub_bytes padding) rs)
        ≡ submit_all padding n rs
  unfolding process_all submit_all
  process_all-submit_all padding n [] mem no_requests = refl
  process_all-submit_all padding n (r ∷ rs) mem (one_request good rest) =
      let handle_rest = λ (n' : Node bdb.Store).
        process_all replica_frame_size (handle_msg bdb e l) n' (map (req_sub_bytes padding) rs) in
      ap (λ o. o >>= handle_rest) (handle_msg-submit padding n r mem good)
      ∙ >>=-cong (submit_if_active padding n r) handle_rest (λ n'. submit_all padding n' rs)
          (λ n' done. process_all-submit_all padding n' rs mem rest)

  req_sub_bytes-Frames :
      (padding : ℕ) (rs : List ReqSubMsg)
      → AreRequests padding rs
      → Frames replica_frame_size (handle_msg bdb e l) (map (req_sub_bytes padding) rs)
  req_sub_bytes-Frames padding [] no_requests = no_frames
  req_sub_bytes-Frames padding (r ∷ rs) (one_request good rest) =
      one_frame (omega (arith, length-req_sub_bytes padding r)) (request_sized padding r good)
        (req_sub_bytes-Frames padding rs rest)

  -- While there is memory, the bytes of any list of requests as a proxy writes them, whatever part of
  -- a message follows, are read back as these requests: an active node submits each of them to the
  -- consensus, with the size and the bytes of its message, in their order, and the part stays in the
  -- buffer.
  pub replica_on_read-submit_all :
      (padding : ℕ) (n : Node bdb.Store) (rs : List ReqSubMsg) (rest : List ℕ)
      → ((size : ℕ) → e.env.malloc size ≡ true)
      → AreRequests padding rs
      → has_frame replica_frame_size (handle_msg bdb e l) rest ≡ false
      → replica_on_read bdb e l n (concat (map (req_sub_bytes padding) rs) ++ rest)
        ≡ (submit_all padding n rs >>= λ n'. ok (n', rest))
  replica_on_read-submit_all padding n rs rest mem good part =
      let process = handle_msg bdb e l in
      let frames = map (req_sub_bytes padding) rs in
      on_read-read_all n (concat frames ++ rest) (mem 16)
      ∙ read_all-Frames replica_frame_size process handle_msg-empty n frames rest
          (req_sub_bytes-Frames padding rs good) part
      ∙ ap (λ o. o >>= λ n'. ok (n', rest)) (process_all-submit_all padding n rs mem good)
