-- ===== src/Mysql/Auth/Early.antt =====
-- Where swoole_mysql_onHandShake reports a connection before the server has granted it.
use async_ext.Prelude.{
  ◌%◌, ℕ, ◌+◌, ◌^◌, ◌<◌, ◌≤◌, ◌≡◌, ◌≢◌, ◌⊎◌, inl, inr, refl, sym, ap, subst, ◌∙◌, true, false,
  Bool-cases, some, [], ◌∷◌, ◌++◌, arith, ltb, lt→ltb, ◌==◌, ==_iff, if◌then◌else◌,
}
use async_ext.Str.{Memory, Str, byte}
use async_ext.Mysql.Wire.{uint3korr, header_size}
use async_ext.Mysql.Packet.{packet_err, packet_eof}
use async_ext.Mysql.Auth.{
  Connector, Crypto, wait_signature, wait_result, completed, waits, auth_switch, neither,
  parse_auth_signature, signature, signature_success, full_auth_required,
}
use async_ext.Mysql.Auth.Connect.{
  Connection, Socket, on_connect, parsed, signed, by_state, switched, on_handshake,
}
use async_ext.Mysql.Auth.Outcome.{not_same, unchecked, on_handshake-result}

eof-not-err : packet_eof ≢ packet_err
eof-not-err = omega arith

at_zero : (n k : ℕ) → n ≤ k → 0 + n ≤ k
at_zero n k l = omega arith

-- The buffer holds no whole packet, or one that is neither of the signatures that the code looks for.
abbrev pub NoSignature : Str → Type 0
NoSignature b =
    (b.length < header_size + uint3korr b.str 0)
    ⊎ (byte b.str 4 ≢ signature)
    ⊎ ((byte b.str 5 ≢ signature_success) × (byte b.str 5 ≢ full_auth_required))

parse_auth_signature-neither :
    (b : Str) (c : Connector)
    → NoSignature b
    → (b' : Str) × (parse_auth_signature b c ≡ (neither, b', c))
unfolding parse_auth_signature
parse_auth_signature-neither b c h =
    elim (Bool-cases (ltb b.length (header_size + uint3korr b.str 0))) [
      | inl short ↦ (b, rw short refl)
      | inr whole ↦ elim (Bool-cases (byte b.str 4 == signature)) [
        | inr strange ↦ (b, rw (whole, strange) refl)
        | inl good ↦ elim h [
          | inl l ↦ let e = lt→ltb b.length (header_size + uint3korr b.str 0) l in cc
          | inr (inl d) ↦ absurd (d ((==_iff (byte b.str 4) signature).0 good))
          | inr (inr (d, d')) ↦ (
            record b { offset = header_size + uint3korr b.str 0 },
            rw (whole, good, not_same (byte b.str 5) 4 d', not_same (byte b.str 5) 3 d) refl,
          )
        ]
      ]
    ]

module _ (h : Crypto) (w : Socket) where
  -- When the signature is awaited, no auth switch is looked for and no error is recorded, and the
  -- buffer holds no whole packet or one that is neither the success nor the demand for full
  -- authentication, then swoole_mysql_onHandShake makes the client connected and calls the
  -- callback once with true.
  pub on_handshake-NoSignature :
      (p : Connection)
      → p.state ≡ wait_signature
      → p.switch_check ≡ false
      → p.connector.error_code ≡ 0
      → NoSignature p.buffer
      → (p' : Connection) × (on_handshake h w p ≡ some p')
        × (p'.connected ≡ true)
        × (p'.calls ≡ p.calls ++ (true ∷ []))
  unfolding on_handshake by_state signed on_connect
  on_handshake-NoSignature p s f e n =
      let (b, run) = parse_auth_signature-neither p.buffer p.connector n in
      let p1 = record p { buffer = b } in
      (
        on_connect p1,
        ap
              (λ x.
                if x
                then switched h w
                    (auth_switch h p.buffer.str p.buffer.length p.buffer.size p.connector)
                    (record p { switch_check = false })
                else by_state h w p.state p)
              f
            ∙ ap (λ x. by_state h w x p) s
            ∙ ap (λ x. some (signed h w x p)) run,
        rw (ap (ltb 0) e) refl,
        rw (ap (ltb 0) e) refl,
      )

  auth_switch-waits :
      (m : Memory) (len size : ℕ) (c : Connector)
      → byte m 4 ≡ packet_eof
      → len < header_size + uint3korr m 0
      → auth_switch h m len size c ≡ waits c
  unfolding auth_switch
  auth_switch-waits m len size c e l =
      rw
        (
          (==_iff (byte m 4) packet_eof).1 e,
          lt→ltb (len % 2 ^ 32) (header_size + uint3korr m 0) (omega arith),
        )
        refl

  -- When the server's result is awaited, an auth switch is looked for and no error is recorded,
  -- and the buffer holds the first bytes of an auth switch packet, to its kind at least, then
  -- swoole_mysql_onHandShake returns; if the packet then stands in the buffer as a whole, from
  -- offset 0 on and in less than 2^31 bytes, the next call takes it for a successful result: the
  -- client is connected and its handshake completed, the callback is called once with true, and no
  -- packet has been sent.
  pub switch_in_two :
      (p : Connection) (b : Str)
      → p.state ≡ wait_result
      → p.switch_check ≡ true
      → p.connector.error_code ≡ 0
      → byte p.buffer.str 4 ≡ packet_eof
      → p.buffer.length < header_size + uint3korr p.buffer.str 0
      → byte b.str 4 ≡ packet_eof
      → b.offset ≡ 0
      → header_size + uint3korr b.str 0 ≤ b.length
      → b.length < 2 ^ 31
      → (p1 p2 : Connection) × (on_handshake h w p ≡ some p1)
        × (on_handshake h w (record p1 { buffer = b }) ≡ some p2)
        × (p2.state ≡ completed)
        × (p2.connected ≡ true)
        × (p2.calls ≡ p.calls ++ (true ∷ []))
        × (p2.sent ≡ p.sent)
  unfolding on_handshake switched parsed
  switch_in_two p b s t e eof part eof' start whole small =
      let m = b.str in
      let q = unchecked h w p in
      let run : on_handshake h w p ≡ some q =
        ap
          (λ x.
            if x
            then switched h w (auth_switch h p.buffer.str p.buffer.length p.buffer.size p.connector)
                q
            else by_state h w p.state p)
          t
        ∙ ap (λ x. switched h w x q)
            (auth_switch-waits p.buffer.str p.buffer.length p.buffer.size p.connector eof part) in
      let at_start : byte m (b.offset + 4) ≡ packet_eof = ap (λ x. byte m (x + 4)) start ∙ eof' in
      let not_err : byte m (b.offset + 4) ≢ packet_err = λ x. eof-not-err (sym at_start ∙ x) in
      let fits : b.offset + (header_size + uint3korr m b.offset) ≤ b.length =
        subst (λ x. x + (header_size + uint3korr m x) ≤ b.length) (sym start)
          (at_zero (header_size + uint3korr m 0) b.length whole) in
      let (p2, run', calls, state, _, connected, _, sent) =
        on_handshake-result h w (record q { buffer = b }) s (inl refl) e (rw start (omega arith))
          small fits (inl not_err) in
      let tidy = not_same (byte m (b.offset + 4)) packet_err not_err in
      (
        q,
        p2,
        run,
        run',
        state ∙ ap (λ x. if x then wait_result else completed) tidy,
        connected ∙ ap (λ x. if x then p.connected else true) tidy,
        calls ∙ ap (λ x. p.calls ++ ((if x then false else true) ∷ [])) tidy,
        sent,
      )
