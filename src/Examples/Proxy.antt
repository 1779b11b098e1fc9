-- ===== src/Examples/Proxy.antt =====
-- A proxy with a small table, at which the theorems about src/proxy/proxy.c are applied.
use libevent_paxos.Base.{
  ℕ, ◌+◌, ◌^◌, ◌<◌, ◌≡◌, refl, sym, Option, none, some, List, [], ◌∷◌, ◌++◌, ◌==◌, if◌then◌else◌,
  map, concat, arith, eq_or_ne, inl, inr, some-injective, subst, ◌∙◌, eq→==, ne→==, true, some≢none,
  ok, ◌>>=◌, Ends, length, has_frame, le_bytes, le_value,
}
use libevent_paxos.Stamp.{Timeval}
use libevent_paxos.Db.{open_db, retrieve_record}
use libevent_paxos.Consensus.Record.{header_bytes, encode_record, decode_record}
use libevent_paxos.Proxy.Message.{
  ProxyEnv, ProxyHeader, ProxyMsg, connect_msg, send_msg, proxy_header_bytes, encode_proxy_msg,
}
use libevent_paxos.Proxy.Message.Coding.{IsHeader}
use libevent_paxos.Proxy.State.{Hash, SocketPair, Opening, opens, Proxy, pair_at}
use libevent_paxos.Proxy.Key.{gen_key-injective}
use libevent_paxos.Proxy.Action.{act_up_to, real_do_action, do_action_to_server}
use libevent_paxos.Proxy.Action.Batches.{Past, act_up_to_twice, real_do_action-Ends}
use libevent_paxos.Proxy.Action.Order.{
  Log, log_end, log_record, log_gap, act_on, real_do_action-act_on,
}
use libevent_paxos.Proxy.Sessions.{serve, serve_all, link, IsSound}
use libevent_paxos.Proxy.Sessions.Refine.{Serves}
use libevent_paxos.Proxy.Sessions.Run.{
  Carries, carries_none, carries_one, do_action_to_server-serve, real_do_action-serve_all,
}
use libevent_paxos.Proxy.Client.{client_side_on_read}
use libevent_paxos.Proxy.Client.Read.{client_reads_on, client_side_on_read-append}
use libevent_paxos.Proxy.Client.Requests.{
  ClientMsg, AreClientMsgs, no_msgs, one_msg, client_msg_bytes, request_of, requests, requested,
  client_side_on_read-requests,
}
use libevent_paxos.Proxy.Client.Delivered.{queued, to_send, client_to_server}
use libevent_paxos.Examples.{map_db, found, Map, with_entry}

-- A table in memory.
abbrev pub map_hash : Hash
map_hash = record {
  Map = ℕ → Option ℕ;
  empty = λ k. none;
  find = λ m k. m k;
  add = λ m k i j. if k == j then some i else m j;
  find-empty = λ k. refl;
  find-add = λ m k i fresh. rw (eq→== k k refl) refl;
  find-add_ne = λ m k i j fresh apart. rw (ne→== k j apart) refl;
}

abbrev at_noon : Timeval
at_noon = record { tv_sec = 43200; tv_usec = 0 }

abbrev pub proxy_env : ProxyEnv
proxy_env = record {
  now = at_noon;
  received = λ n. at_noon;
  created = λ n. at_noon;
  malloc = λ n. true;
  padding = 0;
  new_bev = some 9;
}

abbrev header : ℕ → ℕ → ProxyHeader
header action counter = record {
  action = action;
  received_time = at_noon;
  created_time = at_noon;
  connection_id = 77;
  counter = counter;
}

abbrev stored_msg : ProxyMsg → List ℕ
stored_msg m = encode_record record {
  created_time = at_noon;
  is_closed = 0;
  bit_map = 7;
  data_size = length (encode_proxy_msg 0 m);
  body = encode_proxy_msg 0 m;
}

abbrev pub connects : ProxyMsg
connects = connect_msg (header 0 0)

abbrev sends : ProxyMsg
sends = send_msg (header 1 1) 2 (104 ∷ 105 ∷ [])

-- The first record of view 1.
abbrev first_rec : ℕ
first_rec = 4294967297

abbrev two_records : Map
two_records =
    with_entry (with_entry (λ k. none) first_rec (some (stored_msg connects))) (first_rec + 1)
      (some (stored_msg sends))

abbrev pub fresh_proxy : Proxy (ℕ → Option ℕ) Map
fresh_proxy = record {
  node_id = 0;
  pair_count = 0;
  pairs = [];
  hash_map = λ k. none;
  cur_rec = 0;
  highest_rec = first_rec + 1;
  con_conn = some 3;
  recon_period = at_noon;
  db_ptr = open_db two_records;
  effects = [];
}

abbrev makes_nine : ℕ → Opening
makes_nine k = opens 9

abbrev the_log : List (ℕ × List ℕ)
the_log = (first_rec, stored_msg connects) ∷ (first_rec + 1, stored_msg sends) ∷ []

fresh_proxy-Log :
    Log map_db map_hash (open_db two_records) (first_rec + 1) 0 the_log (first_rec + 2)
unfolding retrieve_record encode_record header_bytes encode_proxy_msg proxy_header_bytes le_bytes
fresh_proxy-Log =
    log_gap (omega arith) refl
      (log_record (omega arith) refl (log_record (omega arith) refl (log_end (omega arith))))

fresh_proxy-IsSound : IsSound map_hash fresh_proxy
fresh_proxy-IsSound k i found = absurd (some≢none (sym found))

header-IsHeader : (action counter : ℕ) → action < 2 ^ 32 → IsHeader (header action counter)
header-IsHeader action counter small = record { action_fits = small; id_fits = omega arith }

the_log-Carries : Carries map_db map_hash 0 makes_nine the_log ((9, connects) ∷ (9, sends) ∷ [])
unfolding encode_record header_bytes decode_record encode_proxy_msg proxy_header_bytes le_bytes
    le_value
the_log-Carries =
    carries_one refl refl (header-IsHeader 0 0 (omega arith), refl)
      (carries_one refl refl (header-IsHeader 1 1 (omega arith), refl, refl, omega arith)
        carries_none)

real_do_action-serve_all_example :
    Serves map_hash fresh_proxy
      (real_do_action map_db map_hash makes_nine fresh_proxy)
      (serve_all ((9, connects) ∷ (9, sends) ∷ []) (link map_hash fresh_proxy)).0
      (serve_all ((9, connects) ∷ (9, sends) ∷ []) (link map_hash fresh_proxy)).1
real_do_action-serve_all_example =
    real_do_action-serve_all map_db map_hash 0 makes_nine the_log ((9, connects) ∷ (9, sends) ∷ [])
      fresh_proxy (first_rec + 2) (omega arith) fresh_proxy-Log the_log-Carries fresh_proxy-IsSound

do_action_to_server-serve_example :
    Serves map_hash fresh_proxy
      (do_action_to_server map_hash (opens 9) fresh_proxy (encode_proxy_msg 0 connects))
      (serve 9 connects (link map_hash fresh_proxy)).0
      (serve 9 connects (link map_hash fresh_proxy)).1
do_action_to_server-serve_example =
    do_action_to_server-serve map_hash 0 9 connects fresh_proxy
      (header-IsHeader 0 0 (omega arith), refl) fresh_proxy-IsSound

real_do_action-act_on_example : real_do_action map_db map_hash makes_nine fresh_proxy ≡ (
    act_on map_db map_hash makes_nine the_log fresh_proxy >>= λ q.
    ok (record q { cur_rec = first_rec + 2 }))
real_do_action-act_on_example =
    real_do_action-act_on map_db map_hash makes_nine fresh_proxy the_log (first_rec + 2)
      (omega arith) fresh_proxy-Log

real_do_action-Ends_example :
    Ends
      (Past map_db map_hash (first_rec + 1) fresh_proxy)
      (real_do_action map_db map_hash makes_nine fresh_proxy)
real_do_action-Ends_example =
    real_do_action-Ends map_db map_hash makes_nine fresh_proxy (omega arith)

act_up_to_twice_example :
    (act_up_to map_db map_hash makes_nine first_rec fresh_proxy
      >>= act_up_to map_db map_hash makes_nine (first_rec + 1))
    ≡ act_up_to map_db map_hash makes_nine (first_rec + 1) fresh_proxy
act_up_to_twice_example =
    act_up_to_twice map_db map_hash first_rec (first_rec + 1) makes_nine fresh_proxy (omega arith)
      (omega arith)

abbrev node_one : ℕ
node_one = 1

abbrev fifth : ℕ
fifth = 5

gen_key-injective_example :
    (node_one ≡ node_one) × (fifth ≡ fifth) × (at_noon.tv_sec ≡ at_noon.tv_sec)
gen_key-injective_example =
    gen_key-injective 1 5 43200 1 5 43200 (omega arith) (omega arith) (omega arith) (omega arith)
      (omega arith) (omega arith) refl

abbrev a_pair : SocketPair
a_pair = record { key = 77; counter = 1; p_s = none; p_c = some 4 }

abbrev one_client : Proxy (ℕ → Option ℕ) Map
one_client = record fresh_proxy { pairs = a_pair ∷ [] }

abbrev hi : ClientMsg
hi = record { type = 0; body = 104 ∷ 105 ∷ [] }

hi-AreClientMsgs : AreClientMsgs (hi ∷ hi ∷ [])
hi-AreClientMsgs =
    one_msg record { type_fits = omega arith; size_fits = omega arith }
      (one_msg record { type_fits = omega arith; size_fits = omega arith } no_msgs)

client_side_on_read-append_example :
    client_side_on_read proxy_env 0 one_client (client_msg_bytes 0 hi ++ 0 ∷ 0 ∷ []) ≡ (
      client_side_on_read proxy_env 0 one_client (client_msg_bytes 0 hi)
      >>= client_reads_on proxy_env 0 (0 ∷ 0 ∷ []))
client_side_on_read-append_example =
    client_side_on_read-append proxy_env 0 one_client (client_msg_bytes 0 hi) (0 ∷ 0 ∷ [])

client_side_on_read-requests_example :
    client_side_on_read proxy_env 0 one_client
      (concat (map (client_msg_bytes 0) (hi ∷ hi ∷ [])) ++ 0 ∷ 0 ∷ [])
    ≡ ok (requested proxy_env 0 3 one_client (requests proxy_env a_pair (hi ∷ hi ∷ [])), 0 ∷ 0 ∷ [])
unfolding has_frame
client_side_on_read-requests_example =
    client_side_on_read-requests proxy_env 0 3 0 one_client a_pair (hi ∷ hi ∷ []) (0 ∷ 0 ∷ [])
      (λ n. refl) refl refl hi-AreClientMsgs refl

-- The request of the client's message, as the log of a proxy holds it.
abbrev sent_request : ProxyMsg
sent_request = (request_of proxy_env a_pair (104 ∷ 105 ∷ [])).msg

abbrev linked_pair : SocketPair
linked_pair = record a_pair { p_s = some 6 }

abbrev linked_proxy : Proxy (ℕ → Option ℕ) Map
linked_proxy = record fresh_proxy {
  pairs = linked_pair ∷ [];
  hash_map = λ k. if 77 == k then some 0 else none;
  cur_rec = first_rec;
  highest_rec = first_rec;
  db_ptr = open_db (with_entry (λ k. none) first_rec (some (stored_msg sent_request)));
}

linked_proxy-IsSound : IsSound map_hash linked_proxy
linked_proxy-IsSound k i found = elim (eq_or_ne 77 k) [
  | inl same ↦
      let place : 0 ≡ i = some-injective (sym (rw (eq→== 77 k same) refl) ∙ found) in
      subst (λ x. (pair : SocketPair) × (pair_at (linked_pair ∷ []) x ≡ some pair) × (pair.key ≡ k))
        place (linked_pair, refl, same)
  | inr apart ↦ absurd (some≢none (sym found ∙ rw (ne→== 77 k apart) refl))
]

sent_request-Log :
    Log map_db map_hash linked_proxy.db_ptr first_rec first_rec
      ((first_rec, stored_msg sent_request) ∷ [])
      (first_rec + 1)
unfolding retrieve_record encode_record header_bytes encode_proxy_msg proxy_header_bytes le_bytes
    request_of
sent_request-Log = log_record (omega arith) refl (log_end (omega arith))

sent_request-Carries :
    Carries map_db map_hash 0 makes_nine
      ((first_rec, stored_msg sent_request) ∷ [])
      (queued 9 (requests proxy_env a_pair (hi ∷ [])).0)
unfolding encode_record header_bytes decode_record encode_proxy_msg proxy_header_bytes le_bytes
    le_value request_of requests
sent_request-Carries =
    carries_one refl refl
      (record { action_fits = omega arith; id_fits = omega arith }, refl, refl, omega arith)
      carries_none

client_to_server_example :
    (client_side_on_read proxy_env 0 one_client
        (concat (map (client_msg_bytes 0) (hi ∷ [])) ++ 0 ∷ 0 ∷ [])
      ≡ ok (requested proxy_env 0 3 one_client (requests proxy_env a_pair (hi ∷ [])), 0 ∷ 0 ∷ []))
    × Serves map_hash linked_proxy
        (real_do_action map_db map_hash makes_nine linked_proxy)
        (link map_hash linked_proxy)
        (to_send 6 (hi ∷ []))
unfolding has_frame link
client_to_server_example =
    client_to_server map_db map_hash proxy_env 0 3 0 9 6 one_client linked_proxy a_pair (hi ∷ [])
      (0 ∷ 0 ∷ []) makes_nine ((first_rec, stored_msg sent_request) ∷ []) (first_rec + 1)
      (λ n. refl) refl refl
      (one_msg record { type_fits = omega arith; size_fits = omega arith } no_msgs) refl
      (omega arith) sent_request-Log sent_request-Carries linked_proxy-IsSound refl
