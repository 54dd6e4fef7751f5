-- ===== src/Dns/Tests/Message.antt =====
-- Tests of the requests and answers of the DNS resolver of swoole_async.cc.
use async_ext.Prelude.{ℕ, ◌≡◌, refl, true, some, List, [], ◌∷◌, ◌++◌, take, arith}
use async_ext.Str.{Memory}
use async_ext.Dns.Packet.{Platform, Answer, read_reply, addresses}
use async_ext.Dns.Packet.Address.{AddressRecord}
use async_ext.Dns.Resolver.{
  Resolver, Network, Event, initial, request, refused, question_name, question,
}
use async_ext.Dns.Resolver.Idle.{requested, start, next, Trace-initial}
use async_ext.Dns.Resolver.Send.{question_bytes, question_name-question_bytes}
use async_ext.Dns.Resolver.Deliver.{Ignored, reply_bytes, read_reply-reply_bytes}

abbrev text : List ℕ
text = 97 ∷ 46 ∷ 98 ∷ []

abbrev labels : List (List ℕ)
labels = (97 ∷ []) ∷ (98 ∷ []) ∷ []

abbrev platform : Platform
platform = record {
  client_buffer_size = 65536;
  buffer_size_std = 8192;
  host_buffer_size = 16;
  print_key = λ domain id. domain ++ (45 ∷ id ∷ []);
  print_address = λ a b c d. a ∷ 46 ∷ b ∷ 46 ∷ c ∷ 46 ∷ d ∷ [];
}

abbrev network : Network
network = record {
  has_server = true;
  has_socket = true;
  connects = true;
  is_watched = true;
  sends = true;
}

abbrev blank : Memory
blank i = 0

abbrev ignored : Ignored
ignored = record {
  flags = (129, 128);
  qdcount = (0, 1);
  nscount = (0, 0);
  arcount = (0, 0);
  question = (0, 1, 0, 1);
}

abbrev records : List AddressRecord
records = record { class_hi = 0; class_lo = 1; ttl = (0, 0, 1, 0); address = (192, 168, 0, 1) } ∷ []

request-refused : request platform network blank text 5 initial ≡ some (refused initial)
unfolding request
request-refused = refl

Trace-initial_example : (◌≡◌ {A = List Event} [] []) × (◌≡◌ {A = Resolver} initial initial)
Trace-initial_example = Trace-initial {p = platform} {done = []} {r = initial} (
    next [] initial (refused initial) start
      (requested network blank text 5 initial (refused initial) request-refused))

question_name-question_bytes_example :
    (m : Memory) × (question_name blank text 6 ≡ some m)
    × (question platform m ≡ some (question_bytes 6 labels))
question_name-question_bytes_example =
    question_name-question_bytes platform blank text 6 labels (omega arith) (omega arith)
      (omega arith) refl (omega arith)

read_reply-reply_bytes_example :
    (answers : List Answer) × (read_reply platform 5 blank (reply_bytes ignored 1 labels records)
      ≡ some (record { domain = text; answers = answers; id = 1 }))
    × ((left : ℕ)
        → addresses platform left answers
          ≡ take left ((192 ∷ 46 ∷ 168 ∷ 46 ∷ 0 ∷ 46 ∷ 1 ∷ []) ∷ []))
read_reply-reply_bytes_example =
    read_reply-reply_bytes platform 4 blank ignored 1 text labels records (omega arith)
      (omega arith) (omega arith) (omega arith) refl (omega arith) (omega arith) (omega arith)
      (omega arith) (omega arith)
