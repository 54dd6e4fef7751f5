-- ===== src/Dns/Resolver/Idle.antt =====
-- The histories of the resolver of swoole_async.cc, from the load of the extension on.
use async_ext.Prelude.{
  ℕ, ◌≡◌, inl, inr, refl, ap, sym, ◌∙◌, Bool-cases, not, Option-cases, none, some, List, [], ◌∷◌,
  ◌++◌, length, leb,
}
use async_ext.Str.{Memory}
use async_ext.Dns.Packet.{Platform, Reply, read_reply}
use async_ext.Dns.Resolver.{
  Resolver, Network, Event, Outcome, initial, find, refused, request, dispatch, on_receive,
}

-- A call of an operation, and what it leads to.
pub data Step (p : Platform) : Resolver → Outcome → Type 0 where
  requested :
      (net : Network) (stack : Memory) (domain : List ℕ) (callback : ℕ) (r : Resolver) (o : Outcome)
      → request p net stack domain callback r ≡ some o
      → Step p r o
  received :
      (fuel : ℕ) (stack : Memory) (bytes : List ℕ) (r : Resolver) (o : Outcome)
      → on_receive p fuel stack bytes r ≡ some o
      → Step p r o

-- The resolver after any number of calls, and what all of them did.
pub data Trace (p : Platform) : List Event → Resolver → Type 0 where
  start : Trace p [] initial
  next :
      (done : List Event) (r : Resolver) (o : Outcome)
      → Trace p done r
      → Step p r o
      → Trace p (done ++ o.events) o.next

-- A request whose key is not in the map is refused, whatever the network does.
request-unknown :
    (p : Platform) (net : Network) (stack : Memory) (domain : List ℕ) (callback : ℕ) (r : Resolver)
    → find (p.print_key domain r.request_id) r.request_map ≡ none
    → request p net stack domain callback r ≡ some (refused r)
unfolding request
request-unknown p net stack domain callback r h = elim (Bool-cases (not net.has_server)) [
  | inl none_known ↦ rw none_known refl
  | inr known ↦ elim (Bool-cases (leb 1024 (length domain))) [
    | inl long ↦ rw (known, long) refl
    | inr short ↦ rw (known, short, h) refl
  ]
]

-- A request that leads to `o` does nothing and leaves the map as it is.
abbrev IsSilent : Resolver → Outcome → Type 0
IsSilent r o = (o.events ≡ []) × (o.next ≡ r)

IsSilent-ok : {r : Resolver} {a o : Outcome} → IsSilent r a → some a ≡ some o → IsSilent r o
IsSilent-ok {r} {a} {o} (x, y) e = let e' : a ≡ o = cc in (rw (← e') x, rw (← e') y)

dispatch-unknown :
    (p : Platform) (r : Resolver) (reply : Reply)
    → r.request_map ≡ []
    → IsSilent r (dispatch p r reply)
unfolding dispatch find
dispatch-unknown p r reply e =
    let h : find (p.print_key reply.domain reply.id) r.request_map ≡ none = rw e refl in
    (rw (h, dispatch) refl, rw (h, dispatch) refl)

on_receive-unknown :
    (p : Platform) (fuel : ℕ) (stack : Memory) (bytes : List ℕ) (r : Resolver) (o : Outcome)
    → r.request_map ≡ []
    → on_receive p fuel stack bytes r ≡ some o
    → IsSilent r o
unfolding on_receive
on_receive-unknown p fuel stack [] r o e h = IsSilent-ok {a = refused r} (refl, refl) h
on_receive-unknown p fuel stack (b ∷ bytes) r o e h =
    elim (Option-cases (read_reply p fuel stack (b ∷ bytes))) [
      | inl lost ↦ let h' : none ≡ some o = rw lost at h in cc
      | inr (reply, e') ↦ IsSilent-ok (dispatch-unknown p r reply e) (rw e' at h)
    ]

Step-IsSilent :
    {p : Platform} {r : Resolver} {o : Outcome} → Step p r o → r.request_map ≡ [] → IsSilent r o
unfolding find
Step-IsSilent {p} (requested net stack domain callback r o h) e =
    IsSilent-ok {a = refused r} (refl, refl)
      (sym (request-unknown p net stack domain callback r (rw e refl)) ∙ h)
Step-IsSilent {p} (received fuel stack bytes r o h) e =
    on_receive-unknown p fuel stack bytes r o e h

-- From the load of the extension on, no sequence of calls of swDNSResolver_request and
-- swDNSResolver_onReceive, whatever the network does, sends a packet, calls a callback or changes
-- the resolver.
pub Trace-initial :
    {p : Platform} {done : List Event} {r : Resolver} → Trace p done r → (done ≡ []) × (r ≡ initial)
Trace-initial start = (refl, refl)
Trace-initial (next done r o t s) =
    let (none_done, same) = Trace-initial t in
    let (quiet, kept) = Step-IsSilent s (ap (λ x. x.request_map) same) in
    (rw (none_done, quiet) refl, kept ∙ same)
