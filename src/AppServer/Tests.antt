-- ===== src/AppServer/Tests.antt =====
-- The theorems at one exchange.
use dtu.Prelude.{◌≡◌, refl, true, false, none, some, [], arith, codes}
use dtu.AppServer.{
  ok, ServerResult, sh, command_code, encode_header, good, Stream, send_command_serialized, pack,
}
use dtu.AppServer.Framing.{decode_header, send_framed}

-- The length that the other side claims is not the body's.
abbrev exchange : Stream
exchange = record {
  written = [];
  incoming = codes "GOOD000000ffok";
  header_fails = false;
  payload_fails = false;
  read_fails = false;
}

send_framed_example :
    ((send_command_serialized (λ b. true) (λ t. none) sh (codes "{}") exchange).0 ≡ ok (codes "ok"))
    × ((send_command_serialized (λ b. true) (λ t. none) sh (codes "{}") exchange).1.written
        ≡ codes "__sh00000002{}")
    × (decode_header (codes "__sh00000002") ≡ some (command_code sh, 2))
unfolding dtu.AppServer.status_from_bytes encode_header dtu.AppServer.len_digit command_code
send_framed_example =
    send_framed (λ b. true) (λ t. none) sh good (pack b'G' b'O' b'O' b'D') 0xff (codes "{}")
      (codes "ok") exchange (omega arith) refl refl refl refl refl refl
