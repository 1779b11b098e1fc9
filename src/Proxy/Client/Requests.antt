-- ===== src/Proxy/Client/Requests.antt =====
-- The requests that the messages of a client become in src/proxy/proxy.c: one for each message to
-- send, in their order, with counts that follow one another.
use libevent_paxos.Base.{
  ℕ, zero, suc, ◌+◌, ◌%◌, ◌^◌, ◌<◌, ◌≡◌, ◌≢◌, refl, sym, ap, ◌∙◌, subst, List, [], ◌∷◌, ◌++◌, map,
  length, take, drop, true, false, some, ok, >>=-ok, le_bytes, le_value, has_frame, read_all-Frames,
  Frames, no_frames, one_frame, process_all, concat, arith, ◌==◌, eq_or_ne, eq→==, ne→==, modify,
  append-nil, append_assoc, elim_some, elim_true, elim_false, length-append, length-le_bytes,
  le_value-le_bytes, some-injective, inl, inr, if◌then◌else◌,
}
use libevent_paxos.Proxy.Message.{
  ProxyEnv, ReqSubMsg, send_msg, new_header, p_send, c_send_wr, read_word, build_req_sub_msg,
  received_at, req_sub_bytes,
}
use libevent_paxos.Proxy.Message.Coding.{read_word-le_bytes, copied-length}
use libevent_paxos.Proxy.State.{
  SocketPair, Proxy, ProxyEffect, write_bytes, pair_at, put_pair, with_effects,
}
use libevent_paxos.Proxy.Sessions.Pairs.{pair_at-modify}
use libevent_paxos.Proxy.Client.{
  client_frame_size, count_up, client_process_data, client_side_on_read, submit,
}
use libevent_paxos.Proxy.Client.Read.{client_process_data-empty, client_side_on_read-read_all}

-- What a client sends, by value.
pub record ClientMsg : Type 0 where
  pub type : ℕ
  pub body : List ℕ

unfoldable pub client_msg_bytes : ℕ → ClientMsg → List ℕ
client_msg_bytes padding m =
    le_bytes 4 m.type ++ (le_bytes 4 padding ++ (le_bytes 8 (length m.body) ++ m.body))

-- The type fits its word, and the sizes of the messages made of it fit theirs.
pub record IsClientMsg (m : ClientMsg) : Type 0 where
  pub type_fits : m.type < 2 ^ 32
  pub size_fits : length m.body + 80 < 2 ^ 64

-- The request for data of a client that is received and made at the times of `env`.
unfoldable pub request_of : ProxyEnv → SocketPair → List ℕ → ReqSubMsg
request_of env pair bytes = record {
  data_size = 64 + length bytes;
  msg =
      send_msg
        record {
          action = p_send;
          received_time = env.received pair.counter;
          created_time = env.created pair.counter;
          connection_id = pair.key;
          counter = pair.counter;
        }
        (length bytes) bytes;
}

-- The requests of messages, and the pair with its new count. Other messages than those to send are
-- passed over.
unfoldable pub requests : ProxyEnv → SocketPair → List ClientMsg → List ReqSubMsg × SocketPair
requests env pair [] = ([], pair)
requests env pair (m ∷ ms) =
    let others = requests env pair ms in
    let rest = requests env (count_up pair) ms in
    if m.type == c_send_wr then (request_of env pair m.body ∷ rest.0, rest.1) else others

pub requests_send :
    (env : ProxyEnv) (pair : SocketPair) (m : ClientMsg) (ms : List ClientMsg)
    → m.type ≡ c_send_wr
    → requests env pair (m ∷ ms) ≡ (
      request_of env pair m.body ∷ (requests env (count_up pair) ms).0,
      (requests env (count_up pair) ms).1,
    )
unfolding requests
requests_send env pair m ms send = rw (eq→== m.type c_send_wr send) refl

pub requests_other :
    (env : ProxyEnv) (pair : SocketPair) (m : ClientMsg) (ms : List ClientMsg)
    → m.type ≢ c_send_wr
    → requests env pair (m ∷ ms) ≡ requests env pair ms
unfolding requests
requests_other env pair m ms other = rw (ne→== m.type c_send_wr other) refl

build_send :
    (env : ProxyEnv) (key counter : ℕ) (bytes : List ℕ)
    → ((n : ℕ) → env.malloc n ≡ true)
    → length bytes + 80 < 2 ^ 64
    → build_req_sub_msg env key counter p_send (length bytes) bytes
      ≡ ok (
          some record {
            data_size = 64 + length bytes;
            msg = send_msg (new_header env p_send key counter) (length bytes) bytes;
          })
unfolding build_req_sub_msg
build_send env key counter bytes mem small =
    let no_wrap : (64 + length bytes) % 2 ^ 64 ≡ 64 + length bytes = omega arith in
    rw (mem ((16 + 64 + length bytes) % 2 ^ 64), copied-length bytes, no_wrap) refl

submit_send :
    {M S : Type 0} (env : ProxyEnv) (p : Proxy M S) (pair : SocketPair) (con : ℕ) (bytes : List ℕ)
    → ((n : ℕ) → env.malloc n ≡ true)
    → p.con_conn ≡ some con
    → length bytes + 80 < 2 ^ 64
    → submit env p pair p_send (length bytes) bytes
      ≡ ok (
          with_effects p
            (write_bytes con (req_sub_bytes env.padding (request_of env pair bytes)) ∷ []))
unfolding received_at request_of
submit_send env p pair con bytes mem up small =
    >>=-ok _ (build_send env pair.key pair.counter bytes mem small) ∙ elim_some _ _ up

length-client_msg_bytes :
    (padding : ℕ) (m : ClientMsg) → length (client_msg_bytes padding m) ≡ 16 + length m.body
unfolding client_msg_bytes
length-client_msg_bytes padding m = simp (length-append, length-le_bytes) (omega arith)

type_read :
    (padding : ℕ) (m : ClientMsg)
    → IsClientMsg m
    → read_word 0 4 (client_msg_bytes padding m) ≡ ok m.type
unfolding client_msg_bytes
type_read padding m fits = read_word-le_bytes [] _ 4 m.type fits.type_fits

size_read :
    (padding : ℕ) (m : ClientMsg)
    → IsClientMsg m
    → read_word 8 8 (client_msg_bytes padding m) ≡ ok (length m.body)
unfolding client_msg_bytes
size_read padding m fits =
    let front = le_bytes 4 m.type ++ le_bytes 4 padding in
    let sized : length front ≡ 8 = simp (length-append, length-le_bytes) refl in
    ap (read_word 8 8) (
      sym (
        append_assoc (le_bytes 4 m.type) (le_bytes 4 padding)
          (le_bytes 8 (length m.body) ++ m.body)))
    ∙ subst
        (λ n. read_word n 8 (front ++ (le_bytes 8 (length m.body) ++ m.body)) ≡ ok (length m.body))
        sized (read_word-le_bytes front m.body 8 (length m.body) (omega (arith, fits.size_fits)))

body_read : (padding : ℕ) (m : ClientMsg) → drop 16 (client_msg_bytes padding m) ≡ m.body
unfolding client_msg_bytes le_bytes
body_read padding m = refl

frame_sized :
    (padding : ℕ) (m : ClientMsg)
    → IsClientMsg m
    → client_frame_size (take 16 (client_msg_bytes padding m)) ≡ length (client_msg_bytes padding m)
unfolding client_msg_bytes client_frame_size le_bytes
frame_sized padding m fits =
    let read : le_value 8 (le_bytes 8 (length m.body) ++ []) ≡ length m.body =
      le_value-le_bytes 8 (length m.body) [] (omega (arith, fits.size_fits)) in
    rw read (omega (arith, fits.size_fits))

module _ {M S : Type 0} where
  -- One message to send.
  process_send :
      (env : ProxyEnv) (i con padding : ℕ) (p : Proxy M S) (pair : SocketPair) (m : ClientMsg)
      → ((n : ℕ) → env.malloc n ≡ true)
      → p.con_conn ≡ some con
      → pair_at p.pairs i ≡ some pair
      → IsClientMsg m
      → m.type ≡ c_send_wr
      → client_process_data env i p (client_msg_bytes padding m)
        ≡ ok (
            with_effects
              (put_pair p i (count_up pair))
              (write_bytes con (req_sub_bytes env.padding (request_of env pair m.body)) ∷ []))
  unfolding client_process_data
  process_send env i con padding p pair m mem up there fits send =
      let p' = put_pair p i (count_up pair) in
      elim_true _ _ (mem (length (client_msg_bytes padding m)))
      ∙ >>=-ok _ (type_read padding m fits)
      ∙ elim_true _ _ (eq→== m.type c_send_wr send)
      ∙ >>=-ok _ (size_read padding m fits)
      ∙ elim_some _ _ there
      ∙ ap (submit env p' pair p_send (length m.body)) (body_read padding m)
      ∙ submit_send env p' pair con m.body mem up fits.size_fits

  process_other :
      (env : ProxyEnv) (i padding : ℕ) (p : Proxy M S) (m : ClientMsg)
      → ((n : ℕ) → env.malloc n ≡ true)
      → IsClientMsg m
      → m.type ≢ c_send_wr
      → client_process_data env i p (client_msg_bytes padding m) ≡ ok p
  unfolding client_process_data
  process_other env i padding p m mem fits other =
      elim_true _ _ (mem (length (client_msg_bytes padding m)))
      ∙ >>=-ok _ (type_read padding m fits)
      ∙ elim_false _ _ (ne→== m.type c_send_wr other)

modify_same :
    (xs : List SocketPair) (i : ℕ) (pair : SocketPair)
    → pair_at xs i ≡ some pair
    → modify xs i (λ old. pair) ≡ xs
modify_same [] i pair e = refl
modify_same (x ∷ xs) zero pair e = ap (λ y. y ∷ xs) (sym (some-injective e))
modify_same (x ∷ xs) (suc i) pair e = ap (◌∷◌ x) (modify_same xs i pair e)

modify_twice :
    (xs : List SocketPair) (i : ℕ) (a b : SocketPair)
    → modify (modify xs i (λ old. a)) i (λ old. b) ≡ modify xs i (λ old. b)
modify_twice [] i a b = refl
modify_twice (x ∷ xs) zero a b = refl
modify_twice (x ∷ xs) (suc i) a b = ap (◌∷◌ x) (modify_twice xs i a b)

-- The writes of requests to the consensus.
abbrev pub written_to : ProxyEnv → ℕ → List ReqSubMsg → List ProxyEffect
written_to env con [] = []
written_to env con (r ∷ rs) = write_bytes con (req_sub_bytes env.padding r) ∷ written_to env con rs

-- All of them fit.
pub data AreClientMsgs : List ClientMsg → Type 0 where
  no_msgs : AreClientMsgs []
  one_msg :
      {m : ClientMsg} {ms : List ClientMsg}
      → IsClientMsg m
      → AreClientMsgs ms
      → AreClientMsgs (m ∷ ms)

module _ {M S : Type 0} where
  -- The proxy after the requests of messages.
  abbrev pub requested : ProxyEnv → ℕ → ℕ → Proxy M S → List ReqSubMsg × SocketPair → Proxy M S
  requested env i con p (reqs, pair) = with_effects (put_pair p i pair) (written_to env con reqs)

  requested_first :
      (env : ProxyEnv) (i con : ℕ) (p : Proxy M S) (pair pair' : SocketPair) (r : ReqSubMsg)
      (rs : List ReqSubMsg)
      → requested env i con
          (with_effects (put_pair p i pair) (write_bytes con (req_sub_bytes env.padding r) ∷ []))
          (rs, pair')
        ≡ requested env i con p (r ∷ rs, pair')
  requested_first env i con p pair pair' r rs =
      ap
        (λ xs. record p {
          pairs = xs;
          effects =
              (p.effects ++ write_bytes con (req_sub_bytes env.padding r) ∷ [])
              ++ written_to env con rs;
        })
        (modify_twice p.pairs i pair pair')
      ∙ ap (λ es. record p { pairs = modify p.pairs i (λ old. pair'); effects = es })
          (append_assoc p.effects (write_bytes con (req_sub_bytes env.padding r) ∷ [])
            (written_to env con rs))

  process_all-requested :
      (env : ProxyEnv) (i con padding : ℕ) (p : Proxy M S) (pair : SocketPair) (ms : List ClientMsg)
      → ((n : ℕ) → env.malloc n ≡ true)
      → p.con_conn ≡ some con
      → pair_at p.pairs i ≡ some pair
      → AreClientMsgs ms
      → process_all client_frame_size
          (client_process_data env i)
          p
          (map (client_msg_bytes padding) ms)
        ≡ ok (requested env i con p (requests env pair ms))
  unfolding process_all requests
  process_all-requested env i con padding p pair [] mem up there no_msgs = ap ok (
      sym (
        ap (λ xs. record p { pairs = xs; effects = p.effects ++ [] })
          (modify_same p.pairs i pair there)
        ∙ ap (λ es. record p { effects = es }) (append-nil p.effects)))
  process_all-requested env i con padding p pair (m ∷ ms) mem up there (one_msg fits rest) =
      elim (eq_or_ne m.type c_send_wr) [
        | inl send ↦
            let next = count_up pair in
            let more = requests env next ms in
            let p' =
              with_effects (put_pair p i next)
                (write_bytes con (req_sub_bytes env.padding (request_of env pair m.body)) ∷ []) in
            >>=-ok _ (process_send env i con padding p pair m mem up there fits send)
            ∙ process_all-requested env i con padding p' next ms mem up
                (pair_at-modify p.pairs i pair next there) rest
            ∙ ap ok (requested_first env i con p next more.1 (request_of env pair m.body) more.0)
            ∙ ap (λ r. ok (requested env i con p r)) (sym (requests_send env pair m ms send))
        | inr other ↦
            >>=-ok _ (process_other env i padding p m mem fits other)
            ∙ process_all-requested env i con padding p pair ms mem up there rest
            ∙ ap (λ r. ok (requested env i con p r)) (sym (requests_other env pair m ms other))
      ]

  client_msg_bytes-Frames :
      (env : ProxyEnv) (i padding : ℕ) (ms : List ClientMsg)
      → AreClientMsgs ms
      → Frames client_frame_size
          (client_process_data {M = M} {S = S} env i)
          (map (client_msg_bytes padding) ms)
  client_msg_bytes-Frames env i padding [] no_msgs = no_frames
  client_msg_bytes-Frames env i padding (m ∷ ms) (one_msg fits rest) =
      one_frame (omega (arith, length-client_msg_bytes padding m)) (frame_sized padding m fits)
        (client_msg_bytes-Frames env i padding ms rest)

  -- While there is memory and a connection to the consensus, the bytes of any list of messages of a
  -- client are all read, whatever part of a message follows them: each message to send becomes one
  -- request with the next count of the connection and the data of the message, in their order, other
  -- messages become none, and the part stays in the buffer.
  pub client_side_on_read-requests :
      (env : ProxyEnv) (i con padding : ℕ) (p : Proxy M S) (pair : SocketPair) (ms : List ClientMsg)
      → (rest : List ℕ) → ((n : ℕ) → env.malloc n ≡ true)
      → p.con_conn ≡ some con
      → pair_at p.pairs i ≡ some pair
      → AreClientMsgs ms
      → has_frame client_frame_size (client_process_data {M = M} {S = S} env i) rest ≡ false
      → client_side_on_read env i p (concat (map (client_msg_bytes padding) ms) ++ rest)
        ≡ ok (requested env i con p (requests env pair ms), rest)
  client_side_on_read-requests env i con padding p pair ms rest mem up there fits part =
      let process = client_process_data {M = M} {S = S} env i in
      let frames = map (client_msg_bytes padding) ms in
      client_side_on_read-read_all env i p (concat frames ++ rest) (mem 16)
      ∙ read_all-Frames client_frame_size process (client_process_data-empty env i) p frames rest
          (client_msg_bytes-Frames env i padding ms fits) part
      ∙ >>=-ok _ (process_all-requested env i con padding p pair ms mem up there fits)
