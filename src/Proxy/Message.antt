-- ===== src/Proxy/Message.antt =====
-- The messages of the proxy: src/include/proxy/proxy.h and src/include/rsm-interface.h, and
-- `build_req_sub_msg` of src/proxy/proxy.c. The layout is that of x86-64, with four bytes of padding
-- behind an `enum` that a word of eight bytes follows.
pub mod Coding
use libevent_paxos.Base.{
  ℕ, zero, suc, ◌+◌, ◌%◌, ◌^◌, ◌<◌, ◌≡◌, Bool, Option, none, some, List, ◌++◌, length, take, drop,
  ltb, le_bytes, le_value, if◌then◌else◌, ◌>>=◌, Outcome, ok, crash, null_deref, out_of_bounds,
}
use libevent_paxos.Stamp.{Timeval}

-- What a call of the proxy meets: the clock, read at the start and for each request of a pair at its
-- receipt and when its message is made, which allocations succeed, what fresh memory holds in four
-- bytes of padding, and the buffer event that libevent makes (`none` is NULL).
pub record ProxyEnv : Type 0 where
  pub now : Timeval
  pub received : ℕ → Timeval
  pub created : ℕ → Timeval
  pub malloc : ℕ → Bool
  pub padding : ℕ
  pub new_bev : Option ℕ

abbrev pub p_connect : ℕ
p_connect = 0

abbrev pub p_send : ℕ
p_send = 1

abbrev pub p_close : ℕ
p_close = 2

abbrev pub c_send_wr : ℕ
c_send_wr = 0

abbrev pub request_submit_code : ℕ
request_submit_code = 2

pub record ProxyHeader : Type 0 where
  pub action : ℕ
  pub received_time : Timeval
  pub created_time : Timeval
  pub connection_id : ℕ
  pub counter : ℕ

-- sizeof(proxy_msg_header)
abbrev pub proxy_header_size : ℕ
proxy_header_size = 56

-- PROXY_CONNECT_MSG_SIZE
abbrev pub connect_msg_size : ℕ
connect_msg_size = proxy_header_size

-- sizeof(proxy_send_msg)
abbrev pub send_msg_size : ℕ
send_msg_size = proxy_header_size + 8

pub data ProxyMsg : Type 0 where
  connect_msg : ProxyHeader → ProxyMsg
  send_msg : ProxyHeader → ℕ → List ℕ → ProxyMsg
  close_msg : ProxyHeader → ProxyMsg

abbrev pub header_of : ProxyMsg → ProxyHeader
header_of (connect_msg h) = h
header_of (send_msg h size bytes) = h
header_of (close_msg h) = h

abbrev pub with_header : ProxyMsg → ProxyHeader → ProxyMsg
with_header (connect_msg h) h' = connect_msg h'
with_header (send_msg h size bytes) h' = send_msg h' size bytes
with_header (close_msg h) h' = close_msg h'

-- A request for the consensus, with the size that its header announces.
pub record ReqSubMsg : Type 0 where
  pub data_size : ℕ
  pub msg : ProxyMsg

abbrev pub timeval_bytes : Timeval → List ℕ
timeval_bytes t = le_bytes 8 t.tv_sec ++ le_bytes 8 t.tv_usec

unfoldable pub proxy_header_bytes : ℕ → ProxyHeader → List ℕ
proxy_header_bytes padding h =
    le_bytes 4 h.action
    ++ (le_bytes 4 padding
        ++ (le_bytes 8 h.received_time.tv_sec
            ++ (le_bytes 8 h.received_time.tv_usec
                ++ (le_bytes 8 h.created_time.tv_sec
                    ++ (le_bytes 8 h.created_time.tv_usec
                        ++ (le_bytes 8 h.connection_id ++ le_bytes 8 h.counter))))))

unfoldable pub encode_proxy_msg : ℕ → ProxyMsg → List ℕ
encode_proxy_msg padding (connect_msg h) = proxy_header_bytes padding h
encode_proxy_msg padding (send_msg h size bytes) =
    proxy_header_bytes padding h ++ (le_bytes 8 size ++ bytes)
encode_proxy_msg padding (close_msg h) = proxy_header_bytes padding h

-- The REQ_SUB_SIZE(M) bytes that are written to the consensus.
unfoldable pub req_sub_bytes : ℕ → ReqSubMsg → List ℕ
req_sub_bytes padding m =
    le_bytes 4 request_submit_code
    ++ (le_bytes 4 padding ++ (le_bytes 8 m.data_size ++ encode_proxy_msg padding m.msg))

-- Fields of a message, read from its bytes. A read past the end is a fault.
unfoldable pub read_word : ℕ → ℕ → List ℕ → Outcome ℕ
read_word at size mem =
    if ltb (length mem) (at + size) then crash out_of_bounds else ok (le_value size (drop at mem))

abbrev pub read_action : List ℕ → Outcome ℕ
read_action mem = read_word 0 4 mem

abbrev pub read_connection_id : List ℕ → Outcome ℕ
read_connection_id mem = read_word 40 8 mem

abbrev pub read_data_size : List ℕ → Outcome ℕ
read_data_size mem = read_word proxy_header_size 8 mem

-- `n` bytes of a buffer, all of which must lie in it.
unfoldable pub copied : ℕ → List ℕ → Outcome (List ℕ)
copied n mem = if ltb (length mem) n then crash out_of_bounds else ok (take n mem)

abbrev pub new_header : ProxyEnv → ℕ → ℕ → ℕ → ProxyHeader
new_header env action s_key counter = record {
  action = action;
  received_time = record { tv_sec = 0; tv_usec = 0 };
  created_time = env.created counter;
  connection_id = s_key;
  counter = counter;
}

-- The fresh memory is used with no test for NULL. A type that is no action gives NULL. The time of
-- receipt stays open here: each caller sets it.
unfoldable pub build_req_sub_msg : ProxyEnv → ℕ → ℕ → ℕ → ℕ → List ℕ → Outcome (Option ReqSubMsg)
build_req_sub_msg env s_key counter zero size bytes =
    if env.malloc (16 + connect_msg_size)
    then ok (
        some record {
          data_size = connect_msg_size;
          msg = connect_msg (new_header env p_connect s_key counter);
        })
    else crash null_deref
build_req_sub_msg env s_key counter (suc zero) size bytes =
    if env.malloc ((16 + send_msg_size + size) % 2 ^ 64)
    then (copied size bytes >>= λ body. ok (
        some record {
          data_size = (send_msg_size + size) % 2 ^ 64;
          msg = send_msg (new_header env p_send s_key counter) size body;
        }))
    else crash null_deref
build_req_sub_msg env s_key counter (suc (suc zero)) size bytes =
    if env.malloc (16 + connect_msg_size)
    then ok (
        some record {
          data_size = connect_msg_size;
          msg = close_msg (new_header env p_close s_key counter);
        })
    else crash null_deref
build_req_sub_msg env s_key counter (suc (suc (suc n))) size bytes = ok none

-- `((proxy_..._msg*)msg->data)->header.received_time = recv_time`, which reads a NULL message too.
unfoldable pub received_at : Timeval → Option ReqSubMsg → Outcome ReqSubMsg
received_at t none = crash null_deref
received_at t (some m) =
    ok (record m { msg = with_header m.msg (record (header_of m.msg) { received_time = t }) })
