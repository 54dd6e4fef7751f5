-- ===== src/Dns/Packet.antt =====
-- swDNSResolver_onReceive of swoole_async.cc, up to the records of the answer that it reads.
pub mod Row
pub mod Address
use async_ext.Prelude.{
  ℕ, zero, suc, ◌+◌, ◌-◌, ◌*◌, ◌%◌, ◌^◌, Bool, ◌&&◌, Option, none, some, List, [], ◌∷◌, length,
  get_or, min, ltb, leb, ◌==◌, if◌then◌else◌, ◌>>=◌,
}
use async_ext.Str.{Memory, byte, store, memcpy}
use async_ext.Dns.Name.{strlen, domain_decode}

-- What the swoole core and the C library fix: the sizes of buffers, and the texts of
-- `sw_snprintf(key, sizeof(key), "%s-%d", ...)` and `sprintf(address, "%d.%d.%d.%d", ...)`.
pub record Platform : Type 0 where
  pub client_buffer_size : ℕ
  pub buffer_size_std : ℕ
  pub host_buffer_size : ℕ
  pub print_key : List ℕ → ℕ → List ℕ
  pub print_address : ℕ → ℕ → ℕ → ℕ → List ℕ

-- `ntohs` of a field in memory, and a field set by `htons`.
abbrev pub ntohs : Memory → ℕ → ℕ
ntohs m k = byte m k * 256 + byte m (k + 1)

-- The rows of `name` and `rdata`, and `sizeof(swDNSResolver_header)`.
abbrev pub row_size : ℕ
row_size = 254

abbrev pub header_size : ℕ
header_size = 12

-- The bytes that `recv` wrote into the buffer, with the zero behind them.
unfoldable pub received : Memory → List ℕ → Memory
unfolding store
received stack bytes =
    store (λ i. if ltb i (length bytes) then get_or bytes i 0 else stack i) (length bytes) 0

-- The loops `while (*temp != 0)`, over a name at `temp`, with `j` chars in the row. The bytes
-- 0xc0 and `k` go on at `packet[k]`, so the loop need not end: it takes fuel.
unfoldable pub read_name : ℕ → ℕ → Memory → ℕ → ℕ → Memory → Option (ℕ × Memory)
unfolding store
read_name zero size m temp j row = none
read_name (suc fuel) size m temp j row =
    let jump = read_name fuel size m (byte m (temp + 1)) j row in
    let next = read_name fuel size m (temp + 1) (j + 1) (store row j (byte m temp)) in
    if leb size temp
    then none
    else if byte m temp == 0
    then some (j, row)
    else if byte m temp == 0xc0
    then (if ltb (temp + 1) size then jump else none)
    else if ltb j row_size
    then next
    else none

-- Behind the loop: the zero, and `domain_decode` of the row.
unfoldable pub end_row : ℕ × Memory → Option Memory
unfolding store
end_row (j, row) = if ltb j row_size then domain_decode row_size (store row j 0) 0 else none

unfoldable pub name_row : ℕ → ℕ → Memory → Memory → ℕ → Option Memory
unfolding read_name end_row
name_row fuel size stack m temp = read_name fuel size m temp 0 stack >>= end_row

-- `type[i]` and `rdata[i]`.
pub record Answer : Type 0 where
  pub type : ℕ
  pub rdata : Memory

-- The data of a record at `steps`, of the type and the length that its flags give. The code copies as
-- many bytes as the length says, without a test: a copy that leaves the row `rdata[i]` or the memory of
-- the packet is undefined, and `none`.
unfoldable pub record_data : ℕ → ℕ → Memory → Memory → ℕ → ℕ → ℕ → Option Answer
unfolding name_row memcpy
record_data fuel size stack m steps type rdlength =
    if type == 1
    then (if leb rdlength row_size && leb (steps + rdlength) size
        then some (record { type = 1; rdata = memcpy stack 0 m steps rdlength })
        else none)
    else if type == 5
    then (name_row fuel size stack m steps >>= λ row. some (record { type = 5; rdata = row }))
    else some (record { type = 0; rdata = stack })

-- One round of the loop over the records: the record at `steps`, and where the next one starts.
-- The flags are those of RR_FLAGS: type at 0, rdlength at 8.
unfoldable pub read_record : ℕ → ℕ → Memory → Memory → ℕ → Option (Answer × ℕ)
unfolding name_row record_data
read_record fuel size stack m steps =
    let flags = (steps + 2) % 2 ^ 16 in
    let body = (flags + 10) % 2 ^ 16 in
    let rdlength = ntohs m (flags + 8) in
    name_row fuel size stack m steps >>= λ _.
    if leb (flags + 10) size
    then (record_data fuel size stack m body (ntohs m flags) rdlength >>= λ a.
        some (a, (body + rdlength) % 2 ^ 16))
    else none

unfoldable pub read_records : ℕ → ℕ → Memory → Memory → ℕ → ℕ → Option (List Answer)
unfolding read_record
read_records fuel size stack m zero steps = some []
read_records fuel size stack m (suc n) steps = read_record fuel size stack m steps >>= λ r.
    read_records fuel size stack m n r.1 >>= λ rest. some (r.0 ∷ rest)

-- `_domain_name`, the records, and `request_id`.
pub record Reply : Type 0 where
  pub domain : List ℕ
  pub answers : List Answer
  pub id : ℕ

-- The text of a C string.
unfoldable pub text_at : ℕ → Memory → ℕ → Option (List ℕ)
unfolding strlen
text_at zero m k = none
text_at (suc room) m k =
    let rest = text_at room m (k + 1) in
    if byte m k == 0 then some [] else rest >>= λ t. some (byte m k ∷ t)

-- The question's name is decoded where it stands, and the records are read behind it.
unfoldable pub read_reply : Platform → ℕ → Memory → List ℕ → Option Reply
unfolding received text_at read_records
read_reply p fuel stack bytes =
    let size = p.client_buffer_size in
    let room = size - header_size in
    domain_decode room (received stack bytes) header_size >>= λ m.
    text_at room m header_size >>= λ domain.
    let steps = (header_size + (length domain + 2) + 4) % 2 ^ 16 in
    let ancount = min (ntohs m 6) 10 in
    read_records fuel size stack m ancount steps >>= λ answers.
    some (record { domain = domain; answers = answers; id = ntohs m 0 })

-- `result`: the addresses of the A records, as many as there is room for.
unfoldable pub addresses : Platform → ℕ → List Answer → List (List ℕ)
addresses p left [] = []
addresses p zero (a ∷ rest) = []
addresses p (suc left) (a ∷ rest) =
    if a.type == 1
    then p.print_address (byte a.rdata 0) (byte a.rdata 1) (byte a.rdata 2) (byte a.rdata 3)
      ∷ addresses p left rest
    else addresses p (suc left) rest
