-- ===== src/Tests/Wire.antt =====
-- A client hello, a request and a DNS question that name the host `a.b`.
use qare.Prelude.{
  ℕ, Bool, none, some, List, [], ◌∷◌, ◌++◌, drop, String, ◌%◌, get_or, digits_value, codes, ◌≡◌,
  refl, arith,
}
use qare.Png.Bytes.{zeros}
use qare.CellWire.{Peeked, read, u16_at}
use qare.CellWire.Tls.{tls_server_name, extensions}
use qare.CellWire.Tls.Stable.{tls_server_name-append}
use qare.CellWire.Http.{http_host_within}
use qare.CellWire.Http.Stable.{http_host-append}
use qare.CellWire.Dns.{DnsQuestion, DnsAnswer, address, read_dns_question, answer_record, dns_reply}
use qare.CellWire.Dns.Reply.{Asks, wire_question, dns_reply-echoes}

abbrev host : List ℕ
host = 97 ∷ 46 ∷ 98 ∷ []

abbrev hello : List ℕ
hello =
    0x16
    ∷ 3
    ∷ 1
    ∷ 0
    ∷ 59
    ∷ 1
    ∷ 0
    ∷ 0
    ∷ 55
    ∷ (zeros 34
        ++ 0 ∷ 0 ∷ 2 ∷ 0x13 ∷ 1 ∷ 1 ∷ 0 ∷ 0 ∷ 12 ∷ 0 ∷ 0 ∷ 0 ∷ 8 ∷ 0 ∷ 6 ∷ 0 ∷ 0 ∷ 3 ∷ 65 ∷ 46 ∷ 98
          ∷ [])

hello_named : tls_server_name hello ≡ read (some host)
unfolding tls_server_name qare.CellWire.Tls.server_name_in qare.CellWire.Tls.hello_extensions
    qare.CellWire.Tls.take_bytes qare.CellWire.Tls.skip_sized_1 qare.CellWire.Tls.skip_sized_2
    qare.CellWire.Tls.extensions qare.CellWire.Tls.extension_round qare.CellWire.Tls.extension_body
    qare.CellWire.Tls.server_name_of qare.CellWire.named qare.CellWire.host_name
hello_named = refl

tls_server_name-append_example : tls_server_name (hello ++ 0x17 ∷ 3 ∷ []) ≡ read (some host)
tls_server_name-append_example =
    tls_server_name-append hello (0x17 ∷ 3 ∷ []) (some host) hello_named

abbrev request : List ℕ
request = codes "GET / HTTP/1.1" ++ 13 ∷ 10 ∷ (codes "Host: A.b:80" ++ 13 ∷ 10 ∷ 13 ∷ 10 ∷ [])

request_named : http_host_within 64 request ≡ read (some host)
unfolding http_host_within qare.CellWire.Http.http_host_from qare.CellWire.Http.head_of
    qare.CellWire.Http.host_in qare.CellWire.Http.split_lines qare.CellWire.Http.host_value
    qare.CellWire.named qare.CellWire.host_name qare.CellWire.Http.without_port
request_named = refl

http_host-append_example : http_host_within 64 (request ++ codes "Host: c.d") ≡ read (some host)
http_host-append_example = http_host-append 64 request (codes "Host: c.d") (some host) request_named

abbrev question : List ℕ
question = 1 ∷ 97 ∷ 1 ∷ 98 ∷ 0 ∷ 0 ∷ 1 ∷ 0 ∷ 1 ∷ []

abbrev message : List ℕ
message = 0x12 ∷ 0x34 ∷ 1 ∷ 0 ∷ 0 ∷ 1 ∷ 0 ∷ 0 ∷ 0 ∷ 0 ∷ 0 ∷ 0 ∷ question

abbrev asked : DnsQuestion
asked = record {
  id = 0x1234;
  name = some host;
  type_ = 1;
  question = question;
  is_recursive = Bool.true;
}

question_read : read_dns_question message ≡ some asked
unfolding read_dns_question qare.CellWire.Dns.question_of qare.CellWire.Dns.read_labels
    qare.CellWire.host_name qare.CellWire.Dns.join_labels
question_read = refl

abbrev byte_of : String → ℕ
byte_of part = get_or (digits_value part) 0 % 256

reply_runs :
    dns_reply byte_of asked (address "10.0.0.1")
    ≡ 0x12
      ∷ 0x34
      ∷ 0x81
      ∷ 0x80
      ∷ 0
      ∷ 1
      ∷ 0
      ∷ 1
      ∷ 0
      ∷ 0
      ∷ 0
      ∷ 0
      ∷ (question ++ 0xc0 ∷ 0x0c ∷ 0 ∷ 1 ∷ 0 ∷ 1 ∷ 0 ∷ 0 ∷ 0 ∷ 0 ∷ 0 ∷ 4 ∷ 10 ∷ 0 ∷ 0 ∷ 1 ∷ [])
unfolding dns_reply answer_record
reply_runs = refl

dns_reply-echoes_example :
    (u16_at 0 (dns_reply byte_of asked (address "10.0.0.1")) ≡ u16_at 0 message)
    × (read_dns_question (dns_reply byte_of asked (address "10.0.0.1")) ≡ none)
    × ((labels : List (List ℕ)) × (type_class : List ℕ) × (after : List ℕ) × Asks message asked
          labels type_class after
        × (drop 12 (dns_reply byte_of asked (address "10.0.0.1"))
            ≡ wire_question labels type_class ++ answer_record byte_of (address "10.0.0.1")))
dns_reply-echoes_example =
    dns_reply-echoes byte_of message asked (address "10.0.0.1") (omega arith) question_read
