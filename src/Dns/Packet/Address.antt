-- ===== src/Dns/Packet/Address.antt =====
-- The records of an answer in swDNSResolver_onReceive of swoole_async.cc: A records behind a pointer
-- to the question's name.
use async_ext.Prelude.{
  ℕ, zero, suc, ◌+◌, ◌*◌, ◌%◌, ◌^◌, ◌<◌, ◌≤◌, ◌≡◌, refl, ap, ap₂, ◌∙◌, true, some, List, [], ◌∷◌,
  ◌++◌, map, take, get_or, length, arith, leb, le→leb,
}
use async_ext.Str.{Memory, byte, memcpy}
use async_ext.Str.Holds.{Holds, Holds-append, Holds-byte, memcpy-byte}
use async_ext.Dns.Packet.{
  Platform, Answer, ntohs, record_data, read_record, read_records, addresses,
}
use async_ext.Dns.Packet.Row.{IsPlainText, name_row-pointer}

-- An A record whose name is a pointer to the question's name, with its class, its time to live and
-- its address.
pub record AddressRecord : Type 0 where
  pub class_hi : ℕ
  pub class_lo : ℕ
  pub ttl : ℕ × ℕ × ℕ × ℕ
  pub address : ℕ × ℕ × ℕ × ℕ

abbrev pub record_bytes : AddressRecord → List ℕ
record_bytes r =
    0xc0 ∷ 12 ∷ 0 ∷ 1 ∷ r.class_hi ∷ r.class_lo ∷ r.ttl.0 ∷ r.ttl.1 ∷ r.ttl.2 ∷ r.ttl.3 ∷ 0 ∷ 4
    ∷ r.address.0 ∷ r.address.1 ∷ r.address.2 ∷ r.address.3 ∷ []

abbrev pub records_bytes : List AddressRecord → List ℕ
records_bytes [] = []
records_bytes (r ∷ rs) = record_bytes r ++ records_bytes rs

read_record-address :
    (fuel size : ℕ) (stack m : Memory) (steps : ℕ) (text : List ℕ) (r : AddressRecord)
    → Holds m steps (record_bytes r)
    → steps + 16 < size
    → size ≤ 2 ^ 16
    → IsPlainText text
    → Holds m 12 (text ++ (0 ∷ []))
    → 0 < length text
    → length text ≤ 125
    → 12 + length text < size
    → length text < fuel
    → read_record (suc fuel) size stack m steps
      ≡ some (record { type = 1; rdata = memcpy stack 0 m (steps + 12) 4 }, steps + 16)
unfolding read_record record_data
read_record-address fuel size stack m steps text r h fits small t ht pos len inside enough =
    let at = Holds-byte m steps (record_bytes r) h in
    let (row, named) =
      name_row-pointer fuel size stack m steps 12 text
        (ap (byte m) {x = steps} {y = steps + 0} (omega arith) ∙ at 0 (omega arith))
        (at 1 (omega arith)) (omega arith) t ht pos len inside enough in
    let f : (steps + 2) % 65536 ≡ steps + 2 = omega arith in
    let b : (steps + 2 + 10) % 65536 ≡ steps + 12 = omega arith in
    let type : ntohs m (steps + 2) ≡ 1 = omega (
      arith,
      at 2 (omega arith),
      at 3 (omega arith),
      ap (byte m) {x = steps + 2 + 1} {y = steps + 3} (omega arith),
    ) in
    let size4 : ntohs m (steps + 2 + 8) ≡ 4 = omega (
      arith,
      at 10 (omega arith),
      at 11 (omega arith),
      ap (byte m) {x = steps + 2 + 8} {y = steps + 10} (omega arith),
      ap (byte m) {x = steps + 2 + 8 + 1} {y = steps + 11} (omega arith),
    ) in
    let room : leb (steps + 2 + 10) size ≡ true = le→leb _ _ (omega arith) in
    let room' : leb (steps + 12 + 4) size ≡ true = le→leb _ _ (omega arith) in
    let end : (steps + 12 + 4) % 65536 ≡ steps + 16 = omega arith in
    rw (named, f, room, b, type, size4, room', end) refl

abbrev pub print : Platform → AddressRecord → List ℕ
print p r = p.print_address r.address.0 r.address.1 r.address.2 r.address.3

rdata-print :
    (p : Platform) (stack m : Memory) (steps : ℕ) (r : AddressRecord)
    → Holds m steps (record_bytes r)
    → let d = memcpy stack 0 m (steps + 12) 4 in
      p.print_address (byte d 0) (byte d 1) (byte d 2) (byte d 3) ≡ print p r
rdata-print p stack m steps r h =
    let at : (i : ℕ)
        → i < 4
        → byte (memcpy stack 0 m (steps + 12) 4) (0 + i) ≡ get_or (record_bytes r) (12 + i) 0 =
      λ i l.
        memcpy-byte stack m 0 (steps + 12) 4 i l
        ∙ ap (byte m) {x = steps + 12 + i} {y = steps + (12 + i)} (omega arith)
        ∙ Holds-byte m steps (record_bytes r) h (12 + i) (omega arith) in
    rw (at 0 (omega arith), at 1 (omega arith), at 2 (omega arith), at 3 (omega arith)) refl

addresses-cons :
    (p : Platform) (d : Memory) (answers : List Answer) (text : List ℕ) (texts : List (List ℕ))
    → p.print_address (byte d 0) (byte d 1) (byte d 2) (byte d 3) ≡ text
    → ((left : ℕ) → addresses p left answers ≡ take left texts)
    → (left : ℕ)
    → addresses p left (record { type = 1; rdata = d } ∷ answers) ≡ take left (text ∷ texts)
unfolding addresses
addresses-cons p d answers text texts e h zero = refl
addresses-cons p d answers text texts e h (suc left) = ap₂ ◌∷◌ e (h left)

addresses-nil : (p : Platform) (left : ℕ) → addresses p left [] ≡ take left []
unfolding addresses
addresses-nil p zero = refl
addresses-nil p (suc left) = refl

pub read_records-addresses :
    (p : Platform) (fuel size : ℕ) (stack m : Memory) (steps : ℕ) (text : List ℕ)
    (rs : List AddressRecord)
    → Holds m steps (records_bytes rs)
    → steps + 16 * length rs < size
    → size ≤ 2 ^ 16
    → IsPlainText text
    → Holds m 12 (text ++ (0 ∷ []))
    → 0 < length text
    → length text ≤ 125
    → 12 + length text < size
    → length text < fuel
    → (answers : List Answer) × (read_records (suc fuel) size stack m (length rs) steps
        ≡ some answers)
      × ((left : ℕ) → addresses p left answers ≡ take left (map (print p) rs))
unfolding read_records
read_records-addresses p fuel size stack m steps text [] h fits small t ht pos len inside enough =
    ([], refl, addresses-nil p)
read_records-addresses p fuel size stack m steps text (r ∷ rs) h fits small t ht pos len inside
      enough =
    let (first, later) = Holds-append m steps (record_bytes r) (records_bytes rs) h in
    let one =
      read_record-address fuel size stack m steps text r first (omega arith) small t ht pos len
        inside enough in
    let (answers, run, same) =
      read_records-addresses p fuel size stack m (steps + 16) text rs later (omega arith) small t ht
        pos len inside enough in
    (
      record { type = 1; rdata = memcpy stack 0 m (steps + 12) 4 } ∷ answers,
      rw (one, run) refl,
      addresses-cons p _ answers (print p r) (map (print p) rs)
          (rdata-print p stack m steps r first) same,
    )
