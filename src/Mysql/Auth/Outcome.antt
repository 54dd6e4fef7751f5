-- ===== src/Mysql/Auth/Outcome.antt =====
-- How swoole_mysql_onHandShake ends: with the server's result, or without it.
use async_ext.Prelude.{
  ◌%◌, ℕ, ◌+◌, ◌-◌, ◌^◌, ◌<◌, ◌≤◌, ◌≡◌, ◌≢◌, ◌⊎◌, inl, inr, refl, sym, ap, ◌∙◌, true, false,
  Bool-cases, some, [], ◌∷◌, ◌++◌, arith, ltb, lt→ltb, le→not-ltb, ◌==◌, ==_iff, if◌then◌else◌,
}
use async_ext.Str.{Memory, byte, sub_size}
use async_ext.Mysql.Wire.{uint2korr, uint3korr, header_size}
use async_ext.Mysql.Packet.{packet_err, packet_eof}
use async_ext.Mysql.Auth.{
  Connector, Crypto, wait_result, completed, other, refused, accepted, error_packet, get_result,
  auth_switch,
}
use async_ext.Mysql.Auth.Connect.{
  Connection, Socket, on_connect, resulted, on_result, by_state, switched, on_handshake,
}

pub not_same : (a b : ℕ) → a ≢ b → (a == b) ≡ false
not_same a b d = elim (Bool-cases (a == b)) [ inl e ↦ absurd (d ((==_iff a b).0 e)) | inr e ↦ e ]

module _ (h : Crypto) (w : Socket) where
  auth_switch-other :
      (m : Memory) (len size : ℕ) (c : Connector)
      → byte m 4 ≢ packet_eof
      → auth_switch h m len size c ≡ other
  unfolding auth_switch
  auth_switch-other m len size c d = rw (not_same (byte m 4) packet_eof d) refl

  abbrev pub unchecked : Connection → Connection
  unchecked p = record p { switch_check = false }

  on_handshake-by_state :
      (p : Connection)
      → (p.switch_check ≡ false) ⊎ (byte p.buffer.str 4 ≢ packet_eof)
      → on_handshake h w p ≡ by_state h w p.state (unchecked p)
  unfolding on_handshake switched
  on_handshake-by_state p d = elim (Bool-cases p.switch_check) [
    | inr f ↦
        ap
          (λ x.
            if x
            then switched h w (auth_switch h p.buffer.str p.buffer.length p.buffer.size p.connector)
                (unchecked p)
            else by_state h w p.state p)
          f
        ∙ ap (λ x. by_state h w p.state (record p { switch_check = x })) f
    | inl t ↦
        ap
          (λ x.
            if x
            then switched h w (auth_switch h p.buffer.str p.buffer.length p.buffer.size p.connector)
                (unchecked p)
            else by_state h w p.state p)
          t
        ∙ ap (λ x. switched h w x (unchecked p))
            (auth_switch-other p.buffer.str p.buffer.length p.buffer.size p.connector
              (elim d [ inl f ↦ (let e : true ≡ false = sym t ∙ f in cc) | inr x ↦ x ]))
  ]

  -- When the server's result is awaited, no error is recorded, no auth switch is looked for or the
  -- first packet in the buffer is none, the offset of the buffer is at most its length, which is
  -- below 2^31, a whole packet stands at the offset, and its code is not 0 if it is an ERR packet,
  -- then swoole_mysql_onHandShake returns after one call of the callback and sends nothing. After
  -- an ERR packet the callback has false, the client is closed, stays in its state and has the
  -- packet's code; after any other packet the callback has true, and the client is connected and
  -- its handshake completed.
  pub on_handshake-result :
      (p : Connection)
      → p.state ≡ wait_result
      → (p.switch_check ≡ false) ⊎ (byte p.buffer.str 4 ≢ packet_eof)
      → p.connector.error_code ≡ 0
      → p.buffer.offset ≤ p.buffer.length
      → p.buffer.length < 2 ^ 31
      → p.buffer.offset + (header_size + uint3korr p.buffer.str p.buffer.offset) ≤ p.buffer.length
      → (byte p.buffer.str (p.buffer.offset + 4) ≢ packet_err)
        ⊎ (0 < uint2korr p.buffer.str (p.buffer.offset + 5))
      → let refused_one = byte p.buffer.str (p.buffer.offset + 4) == packet_err in
        (p' : Connection) × (on_handshake h w p ≡ some p')
        × (p'.calls ≡ p.calls ++ ((if refused_one then false else true) ∷ []))
        × (p'.state ≡ (if refused_one then wait_result else completed))
        × (p'.closed ≡ (if refused_one then true else p.closed))
        × (p'.connected ≡ (if refused_one then p.connected else true))
        × (p'.connector.error_code
            ≡ (if refused_one then uint2korr p.buffer.str (p.buffer.offset + 5) else 0))
        × (p'.sent ≡ p.sent)
  unfolding by_state on_result get_result resulted on_connect error_packet
  on_handshake-result p s d e le small whole code =
      let m = p.buffer.str in
      let k = p.buffer.offset in
      let n : sub_size p.buffer.length k % 2 ^ 32 ≡ p.buffer.length - k = omega arith in
      let q = unchecked p in
      let run : on_handshake h w p ≡ some (on_result h w q) =
        on_handshake-by_state p d ∙ ap (λ x. by_state h w x q) s in
      let f = le→not-ltb (p.buffer.length - k) (header_size + uint3korr m k) (omega arith) in
      elim (Bool-cases (byte m (k + 4) == packet_err)) [
        | inl err ↦
            let r : get_result m k (sub_size p.buffer.length k) p.connector
                ≡ refused (error_packet m k p.connector) =
              rw (n, f, err) refl in
            let pos_code : ltb 0 (uint2korr m (k + 5)) ≡ true = elim code [
              | inl x ↦ absurd (x ((==_iff _ packet_err).0 err))
              | inr l ↦ lt→ltb 0 _ l
            ] in
            (
              resulted h w (refused (error_packet m k p.connector)) q,
              run ∙ ap (λ x. some (resulted h w x q)) r,
              rw (pos_code, err) refl,
              rw (pos_code, err) s,
              rw (pos_code, err) refl,
              rw (pos_code, err) refl,
              rw (pos_code, err) refl,
              rw pos_code refl,
            )
        | inr good ↦
            let r : get_result m k (sub_size p.buffer.length k) p.connector ≡ accepted =
              rw (n, f, good) refl in
            let none_yet : ltb 0 p.connector.error_code ≡ false = ap (ltb 0) e in
            (
              resulted h w accepted q,
              run ∙ ap (λ x. some (resulted h w x q)) r,
              rw (none_yet, good) refl,
              rw (none_yet, good) refl,
              rw (none_yet, good) refl,
              rw (none_yet, good) refl,
              rw (none_yet, good) e,
              rw none_yet refl,
            )
      ]
