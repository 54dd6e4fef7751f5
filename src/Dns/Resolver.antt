-- ===== src/Dns/Resolver.antt =====
-- The state of the resolver of swoole_async.cc, and its two operations: swDNSResolver_request and
-- swDNSResolver_onReceive.
pub mod Idle
pub mod Deliver
pub mod Send
use async_ext.Prelude.{
  ℕ, zero, suc, ◌+◌, ◌-◌, ◌/◌, ◌%◌, ◌^◌, Bool, true, false, not, ◌&&◌, Option, none, some, List, [],
  ◌∷◌, length, get_or, leb, ◌==◌, if◌then◌else◌, ◌>>=◌,
}
use async_ext.Prelude.Bytes.{str_eq}
use async_ext.Str.{Memory, byte, store, slice}
use async_ext.Dns.Name.{strlen, domain_encode}
use async_ext.Dns.Packet.{Platform, Answer, Reply, header_size, read_reply, addresses}

-- `swDNS_lookup_request`; `callback` is the function with its `data`.
pub record Lookup : Type 0 where
  pub domain : List ℕ
  pub callback : ℕ

-- `resolver_socket`: a null pointer, a pointer to a client that was deleted, or an open client.
pub data Socket : Type 0 where
  null : Socket
  dangling : Socket
  opened : Socket

-- `swoole_dns_request_id`, `resolver_socket` and `request_map`.
pub record Resolver : Type 0 where
  pub request_id : ℕ
  pub socket : Socket
  pub request_map : List (List ℕ × Lookup)

-- The state when the extension is loaded.
abbrev pub initial : Resolver
initial = record { request_id = 1; socket = null; request_map = [] }

-- `request_map->find`, `emplace` of a key, and `erase`.
unfoldable pub find : List ℕ → List (List ℕ × Lookup) → Option Lookup
find key [] = none
find key ((k, r) ∷ rest) = if str_eq k key then some r else find key rest

unfoldable pub emplace : List ℕ → Lookup → List (List ℕ × Lookup) → List (List ℕ × Lookup)
emplace key r [] = (key, r) ∷ []
emplace key r ((k, s) ∷ rest) = if str_eq k key then (k, s) ∷ rest else (k, s) ∷ emplace key r rest

unfoldable pub erase : List ℕ → List (List ℕ × Lookup) → List (List ℕ × Lookup)
erase key [] = []
erase key ((k, s) ∷ rest) = if str_eq k key then rest else (k, s) ∷ erase key rest

-- What the calls of the core answer: whether a server is known, a socket is made, connected and
-- in the reactor, and the packet is sent.
pub record Network : Type 0 where
  pub has_server : Bool
  pub has_socket : Bool
  pub connects : Bool
  pub is_watched : Bool
  pub sends : Bool

-- What an operation does to the outside.
pub data Event : Type 0 where
  send : List ℕ → Event
  call : Lookup → List (List ℕ) → Event
  event_del : Event

-- `none` is undefined behaviour; the Boolean is SW_OK.
pub record Outcome : Type 0 where
  pub ok : Bool
  pub next : Resolver
  pub events : List Event

abbrev pub htons : Memory → ℕ → ℕ → Memory
htons m k v = store (store m k (v / 256)) (k + 1) v

-- The header of a question: `rd` is the lowest bit of the first byte of flags.
unfoldable pub question_header : ℕ → Memory → Memory
unfolding store
question_header id m =
    htons (htons (htons (htons (store (store (htons m 0 id) 2 1) 3 0) 4 1) 6 0) 8 0) 10 0

-- The name of the question behind the header; `none` is a domain that `domain_encode` refuses.
unfoldable pub question_name : Memory → List ℕ → ℕ → Option Memory
unfolding question_header domain_encode
question_name stack domain id =
    let c_str = λ (i : ℕ). get_or domain i 0 in
    domain_encode c_str 0 (length domain) (question_header id stack) header_size

-- The flags behind the name, and the packet.
unfoldable pub question : Platform → Memory → Option (List ℕ)
unfolding strlen store
question p m = strlen (p.buffer_size_std - header_size) m header_size >>= λ n.
    let steps = header_size + (n + 1) in
    some (slice (htons (htons m steps 1) (steps + 2) 1) 0 (steps + 4))

-- The socket for a request: the one there is, or a new one; the Boolean is false on SW_ERR.
unfoldable pub open_socket : Network → Socket → Option (Bool × Socket)
open_socket net null =
    if not net.has_socket
    then some (false, dangling)
    else if not net.connects
    then some (false, null)
    else some (true, opened)
open_socket net dangling = none
open_socket net opened = some (true, opened)

abbrev pub refused : Resolver → Outcome
refused r = record { ok = false; next = r; events = [] }

-- From the socket on. `packet` is the question.
unfoldable pub transmit : Network → List ℕ → Lookup → List ℕ → Resolver → Bool × Socket → Outcome
unfolding emplace
transmit net key lookup packet r (done, s) =
    if not done
    then refused (record r { socket = s })
    else if not net.is_watched
    then refused (record r { socket = null })
    else if not net.sends
    then refused (record r { socket = null })
    else record {
      ok = true;
      next = record {
        request_id = (r.request_id + 1) % 2 ^ 16;
        socket = s;
        request_map = emplace key lookup r.request_map;
      };
      events = send packet ∷ [];
    }

-- `swDNSResolver_request`. A key that the map does not have is taken for a duplicate; a domain that
-- `domain_encode` refuses is SW_ERR too.
unfoldable pub request : Platform → Network → Memory → List ℕ → ℕ → Resolver → Option Outcome
unfolding find question_name question open_socket transmit
request p net stack domain callback r =
    let key = p.print_key domain r.request_id in
    let lookup : Lookup = record { domain = domain; callback = callback } in
    if not net.has_server
    then some (refused r)
    else if leb 1024 (length domain)
    then some (refused r)
    else elim (find key r.request_map) [
      | none ↦ some (refused r)
      | some _ ↦ elim (question_name stack domain r.request_id) [
        | none ↦ some (refused r)
        | some m ↦ question p m >>= λ packet.
            open_socket net r.socket >>= λ s. some (transmit net key lookup packet r s)
      ]
    ]

-- The answer to the request that the reply is for.
unfoldable pub dispatch : Platform → Resolver → Reply → Outcome
unfolding find erase addresses
dispatch p r reply =
    let key = p.print_key reply.domain reply.id in
    let rest = erase key r.request_map in
    elim (find key r.request_map) [
      | none ↦ record { ok = true; next = r; events = [] }
      | some lookup ↦ record {
        ok = true;
        next = record r { request_map = rest };
        events =
            call lookup (addresses p p.host_buffer_size reply.answers)
            ∷ (if length rest == 0 then event_del ∷ [] else []);
      }
    ]

-- `swDNSResolver_onReceive`, with what `recv` gives: nothing stands for a result that is not
-- positive.
unfoldable pub on_receive : Platform → ℕ → Memory → List ℕ → Resolver → Option Outcome
unfolding read_reply dispatch
on_receive p fuel stack [] r = some (refused r)
on_receive p fuel stack (b ∷ bytes) r =
    read_reply p fuel stack (b ∷ bytes) >>= λ reply. some (dispatch p r reply)
