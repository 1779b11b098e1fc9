-- ===== src/Stamp/Examples.antt =====
-- Stamps at concrete values.
use libevent_paxos.Base.{◌≡◌, refl, arith}
use libevent_paxos.Stamp.{ViewStamp, vstol, ltovs}
use libevent_paxos.Stamp.Order.{vstol_is_exact}

abbrev third_request : ViewStamp
third_request = record { view_id = 2; req_id = 3 }

third_request_number : vstol third_request ≡ 8589934595
unfolding vstol
third_request_number = refl

vstol_is_exact_example :
    (ltovs (vstol third_request) ≡ third_request) × (vstol (ltovs 4294967297) ≡ 4294967297)
vstol_is_exact_example = vstol_is_exact third_request 4294967297 (omega arith) (omega arith)
