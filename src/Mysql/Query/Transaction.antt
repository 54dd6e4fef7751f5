-- ===== src/Mysql/Query/Transaction.antt =====
-- The transactions of a `swoole_mysql` object, and the one request that it may have on its way.
use async_ext.Prelude.{
  ℕ, ◌≡◌, refl, sym, ◌∙◌, Bool, true, false, not, Option, none, some, List, [], ◌∷◌, if◌then◌else◌,
  inl, inr, Bool-cases, ◌>>=◌, subst, arith,
}
use async_ext.Str.{Str}
use async_ext.Mysql.Client.{ReadState, Command}
use async_ext.Mysql.Query.{
  StrApi, Session, Sending, sent, lost, refused, is_query_state, send_request, mysql_query,
  request_pack, Reply, replied, thrown, set_transaction, end_method, query, begin, finish,
}

-- A call of a method, with what the reactor does with its request.
pub data MethodCall : Type 0 where
  call_query call_begin call_finish : Sending → List ℕ → MethodCall

-- A call, and what the reactor did since the call before: `state` and `connected` are any.
pub record Event : Type 0 where
  pub method : MethodCall
  pub state : ReadState
  pub connected : Bool

abbrev pub arrived : Event → Session → Session
arrived e s = record s { client = record s.client { state = e.state; connected = e.connected } }

-- The calls that opened and closed a transaction, as true and false.
abbrev pub add_switch : MethodCall → Reply → List Bool → List Bool
add_switch (call_begin w sql) (replied true) xs = true ∷ xs
add_switch (call_finish w sql) (replied true) xs = false ∷ xs
add_switch _ _ xs = xs

-- Each opening is followed by a closing before the next one, and the last is the state `after`.
unfoldable pub Alternates : Bool → List Bool → Bool → Type 0
Alternates b [] after = b ≡ after
Alternates b (x ∷ xs) after = (x ≡ not b) × Alternates x xs after

-- A session whose client is there, with the flag `b`.
abbrev Keeps : Bool → Option (Bool × Session) → Type 0
Keeps b o =
    (r : Bool) × (s : Session) × (o ≡ some (r, s)) × (s.client.transaction ≡ b) × (s.has_cli ≡ true)

query-switch :
    (w : Sending) (sql : List ℕ) (r t t' : Bool)
    → t' ≡ (if r then t else t)
    → (xs : List Bool) (after : Bool) → Alternates t' xs after
    → Alternates t (add_switch (call_query w sql) (replied r) xs) after
query-switch w sql true t t' k xs after a = rw (← k) a
query-switch w sql false t t' k xs after a = rw (← k) a

begin-switch :
    (w : Sending) (sql : List ℕ) (r t t' : Bool)
    → t ≡ false
    → t' ≡ (if r then true else t)
    → (xs : List Bool) (after : Bool) → Alternates t' xs after
    → Alternates t (add_switch (call_begin w sql) (replied r) xs) after
unfolding Alternates
begin-switch w sql true t t' e k xs after a = (rw e, rw (← k) a)
begin-switch w sql false t t' e k xs after a = rw (← k) a

finish-switch :
    (w : Sending) (sql : List ℕ) (r t t' : Bool)
    → t ≡ true
    → t' ≡ (if r then false else t)
    → (xs : List Bool) (after : Bool) → Alternates t' xs after
    → Alternates t (add_switch (call_finish w sql) (replied r) xs) after
unfolding Alternates
finish-switch w sql true t t' e k xs after a = (rw e, rw (← k) a)
finish-switch w sql false t t' e k xs after a = rw (← k) a

abbrev asking : Session → Session
asking s = record s { client = record s.client { cmd = Command.query } }

module _ (api : StrApi) (buffer : Str) where
  unfoldable pub call : MethodCall → Session → Option (Reply × Session)
  unfolding query begin finish
  call (call_query w sql) s = query api buffer w sql s
  call (call_begin w sql) s = begin api buffer w sql s
  call (call_finish w sql) s = finish api buffer w sql s

  send_request-Keeps :
      (w : Sending) (o : Option Str) (s : Session)
      → s.has_cli ≡ true
      → Keeps s.client.transaction (some (send_request s w o))
  unfolding send_request
  send_request-Keeps w none s h = (false, s, refl, refl, h)
  send_request-Keeps sent (some b) s h = (_, _, refl, refl, h)
  send_request-Keeps lost (some b) s h = (_, _, refl, refl, h)
  send_request-Keeps refused (some b) s h = (_, _, refl, refl, h)

  mysql_query-Keeps :
      (w : Sending) (sql : List ℕ) (s : Session)
      → s.has_cli ≡ true
      → Keeps s.client.transaction (mysql_query api buffer w sql s)
  unfolding mysql_query
  mysql_query-Keeps w sql s h = elim (Bool-cases s.client.connected) [
    | inl c ↦ elim (Bool-cases (is_query_state s.client.state)) [
      | inl q ↦
          let e : mysql_query api buffer w sql s
              ≡ some (send_request (asking s) w (request_pack api sql buffer)) =
            rw (h, c, q) in
          subst (Keeps s.client.transaction) (sym e)
            (send_request-Keeps w (request_pack api sql buffer) (asking s) h)
      | inr q ↦ (false, s, rw (h, c, q), refl, h)
    ]
    | inr c ↦ (false, s, rw (h, c), refl, h)
  ]

  -- `end_method` on the result of mysql_query: only a reply of true sets the flag.
  end_method-Keeps :
      (b t : Bool) (o : Option (Bool × Session))
      → Keeps t o
      → (r : Bool) × (s : Session) × (end_method b o ≡ some (replied r, s))
        × (s.has_cli ≡ true)
        × (s.client.transaction ≡ (if r then b else t))
  unfolding end_method
  end_method-Keeps b t o (true, s, e, k, h) = (true, set_transaction b s, rw e, h, refl)
  end_method-Keeps b t o (false, s, e, k, h) = (false, s, rw e, h, k)

  -- What a call does to the flag, for the list of the calls behind it.
  abbrev Switches : MethodCall → Session → Type 0
  Switches m s =
      (r : Reply) × (s' : Session) × (call m s ≡ some (r, s'))
      × (s'.has_cli ≡ true)
      × ((xs : List Bool) (after : Bool)
          → Alternates s'.client.transaction xs after
          → Alternates s.client.transaction (add_switch m r xs) after)

  begin-closed :
      (w : Sending) (sql : List ℕ) (s : Session)
      → s.client.transaction ≡ false
      → begin api buffer w sql s ≡ end_method true (mysql_query api buffer w sql s)
  unfolding begin
  begin-closed w sql s t = rw t

  finish-open :
      (w : Sending) (sql : List ℕ) (s : Session)
      → s.client.transaction ≡ true
      → finish api buffer w sql s ≡ end_method false (mysql_query api buffer w sql s)
  unfolding finish
  finish-open w sql s t = rw t

  call-Switches : (m : MethodCall) (s : Session) → s.has_cli ≡ true → Switches m s
  unfolding call query begin finish
  call-Switches (call_query w []) s h = (replied false, s, refl, h, λ xs after a. a)
  call-Switches (call_query w (c ∷ sql)) s h =
      let t = s.client.transaction in
      let (r, s', e, h', k) = end_method-Keeps t t _ (mysql_query-Keeps w (c ∷ sql) s h) in
      (replied r, s', e, h', query-switch w (c ∷ sql) r t _ k)
  call-Switches (call_begin w sql) s h = elim (Bool-cases s.client.transaction) [
    | inl t ↦ (thrown 21, s, rw t, h, λ xs after a. a)
    | inr t ↦
        let (r, s', e, h', k) =
          end_method-Keeps true s.client.transaction _ (mysql_query-Keeps w sql s h) in
        (replied r, s', begin-closed w sql s t ∙ e, h', begin-switch w sql r _ _ t k)
  ]
  call-Switches (call_finish w sql) s h = elim (Bool-cases s.client.transaction) [
    | inl t ↦
        let (r, s', e, h', k) =
          end_method-Keeps false s.client.transaction _ (mysql_query-Keeps w sql s h) in
        (replied r, s', finish-open w sql s t ∙ e, h', finish-switch w sql r _ _ t k)
    | inr t ↦ (thrown 22, s, rw t, h, λ xs after a. a)
  ]

  -- A sequence of calls, with the reactor's work in between.
  unfoldable pub run_calls : List Event → Session → Option (List Bool × Session)
  unfolding call
  run_calls [] s = some ([], s)
  run_calls (e ∷ es) s = do
    (r, s') ← call e.method (arrived e s)
    (xs, s'') ← run_calls es s'
    some (add_switch e.method r xs, s'')

  -- Whatever the calls of query, begin, commit and rollback on an object whose client is there,
  -- and whatever the states in which the reactor leaves the client in between, every call returns
  -- or throws, and the calls that opened and closed a transaction alternate, from the flag at the
  -- start to the flag at the end.
  pub transactions-Alternates :
      (es : List Event) (s : Session)
      → s.has_cli ≡ true
      → (xs : List Bool) × (s' : Session) × (run_calls es s ≡ some (xs, s'))
        × Alternates s.client.transaction xs s'.client.transaction
  unfolding run_calls Alternates
  transactions-Alternates [] s h = ([], s, refl, refl)
  transactions-Alternates (e ∷ es) s h =
      let (r, s', e1, h1, k) = call-Switches e.method (arrived e s) h in
      let (xs, s'', e2, a) = transactions-Alternates es s' h1 in
      (add_switch e.method r xs, s'', rw (e1, e2), k xs _ a)

  -- If mysql_query sent a request, then each further call of mysql_query on the session that it
  -- left sends nothing and leaves the session as it is.
  pub mysql_query_once :
      (w w' : Sending) (sql sql' : List ℕ) (s s' : Session)
      → mysql_query api buffer w sql s ≡ some (true, s')
      → mysql_query api buffer w' sql' s' ≡ some (false, s')
  unfolding mysql_query send_request
  mysql_query_once w w' sql sql' s s' e = elim (Bool-cases s.has_cli) [
    | inl h ↦ elim (Bool-cases s.client.connected) [
      | inl c ↦ elim (Bool-cases (is_query_state s.client.state)) [
        | inl q ↦ ground (arith, h, c, q, e)
        | inr q ↦ ground (arith, h, c, q, e)
      ]
      | inr c ↦ ground (arith, h, c, e)
    ]
    | inr h ↦ ground (arith, h, e)
  ]
