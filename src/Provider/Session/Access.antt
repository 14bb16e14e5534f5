-- ===== src/Provider/Session/Access.antt =====
-- Who is served: the handshake and the request that a stream must begin with.
use sendme.Base.{ℕ, ◌≡◌, ◌≢◌, ◌<◌, refl, ap, ◌∙◌, true, Option, none, some, List, [], ◌∷◌, ◌++◌}
use sendme.Base.{sym, drop_all, append-nil, length, arith, leb, ◌==◌, bytes_eq_sound, bytes_eq_refl}
use sendme.Base.{Bool-cases, inl, inr}
use sendme.Base.Bytes.{Byte, u64_mod}
use sendme.Io.{ok, err, >>=-eq-ok}
use sendme.Io.{Outcome-cases, extra_data}
use sendme.Stream.{Recv, read_chunk}
use sendme.Stream.View.{content, ending, seen, seen->>=, read_chunk-none_iff, read_chunk-some}
use sendme.Protocol.Codec.{AuthToken, token_eq, Handshake, Request, protocol_version}
use sendme.Protocol.Frames.{read_lp, split_to}
use sendme.Protocol.Frames.Messages.{frame, read_lp-frame}
use sendme.Env.{Env}
use sendme.Provider.Database.{Database}
use sendme.Provider.Session.{Session, read_handshake, read_request}
use sendme.Provider.Session.{handle_stream, notify_transfer_aborted, check_handshake}

token_eq_sound : (a b : AuthToken) → token_eq a b ≡ true → a ≡ b
unfolding token_eq
token_eq_sound a b e = let p = bytes_eq_sound a.bytes b.bytes e in λ i. record { bytes = p i }

token_eq_refl : (a : AuthToken) → token_eq a a ≡ true
unfolding token_eq
token_eq_refl a = bytes_eq_refl a.bytes

check_handshake-ok :
    (token : AuthToken) (message : Option (Handshake × ℕ)) (v : Recv)
    → (check_handshake token message v).0 ≡ ok tt
    → (h : Handshake) × (n : ℕ) × (message ≡ some (h, n))
      × (h.version ≡ protocol_version)
      × (h.token ≡ token)
check_handshake-ok token none v e = absurd (cc e)
check_handshake-ok token (some (h, n)) v e = elim (Bool-cases (h.version == protocol_version)) [
  | inl version ↦ elim (Bool-cases (token_eq h.token token)) [
    | inl same ↦ (h, n, refl, ground arith, token_eq_sound h.token token same)
    | inr other ↦ absurd (cc (rw (version, other) at e))
  ]
  | inr other ↦ absurd (cc (rw other at e))
]

module _ (env : Env) where
  -- A handshake is accepted only if it was read whole, with this version and this token.
  pub read_handshake-ok :
      (token : AuthToken) (v : Recv)
      → (read_handshake env token v).0 ≡ ok tt
      → (h : Handshake) × (n : ℕ) × ((read_lp env.handshake v).0 ≡ ok (some (h, n)))
        × (h.version ≡ protocol_version)
        × (h.token ≡ token)
  unfolding read_handshake
  read_handshake-ok token v e =
      let (message, read, checked) =
        >>=-eq-ok (read_lp env.handshake) (check_handshake token) v e in
      let (h, n, m, version, same) = check_handshake-ok token message _ checked in
      (h, n, read ∙ ap ok m, version, same)

  -- If `handle_stream` has changed anything on its sending side, however the transport and the peer
  -- behave, then a handshake was read whole that has this version and the provider's token.
  pub handle_stream_authenticated :
      (db : Database) (token : AuthToken) (c : ℕ) (s : Session)
      → (handle_stream env db token c s).1.send ≢ s.send
      → (h : Handshake) × (n : ℕ) × ((read_lp env.handshake s.recv).0 ≡ ok (some (h, n)))
        × (h.version ≡ protocol_version)
        × (h.token ≡ token)
  unfolding handle_stream notify_transfer_aborted
  handle_stream_authenticated db token c s changed =
      elim (Outcome-cases (read_handshake env token s.recv).0) [
        | inl (_, accepted) ↦ read_handshake-ok token s.recv accepted
        | inr (inl (e, rejected)) ↦ absurd (changed (rw rejected refl))
        | inr (inr panicked) ↦ absurd (changed (rw panicked refl))
      ]

  -- A handshake frame with this version and this token is accepted, and nothing of it stays behind.
  pub read_handshake_front :
      (token : AuthToken) (rest : List Byte) (v : Recv)
      → let h : Handshake = record { version = protocol_version; token = token } in
        let bytes = env.handshake.to_bytes h in
        v.buffer ≡ []
        → content v.reader ≡ frame bytes ++ rest
        → length bytes < u64_mod
        → env.handshake.of_bytes bytes ≡ some h
        → seen (read_handshake env token v)
          ≡ record { outcome = ok tt; filled = []; left = rest; last = ending v.reader }
  unfolding read_handshake split_to
  read_handshake_front token rest v b arrived fits decoded =
      let h : Handshake = record { version = protocol_version; token = token } in
      let bytes = env.handshake.to_bytes h in
      let whole : leb (length bytes) (length bytes) ≡ true = ground arith in
      seen->>= (read_lp env.handshake) (check_handshake token) v
        (read_lp-frame env.handshake bytes rest v b arrived fits decoded)
        λ t tb tl te. rw (token_eq_refl token, tb, whole, drop_all bytes, tl, te) refl

  -- A request frame at the end of the stream is accepted.
  pub read_request_front :
      (r : Request) (v : Recv)
      → let bytes = env.request.to_bytes r in
        v.buffer ≡ []
        → content v.reader ≡ frame bytes
        → ending v.reader ≡ none
        → length bytes < u64_mod
        → env.request.of_bytes bytes ≡ some r
        → (read_request env v).0 ≡ ok r
  unfolding read_request
  read_request_front r v b arrived ended fits decoded =
      let bytes = env.request.to_bytes r in
      let p =
        read_lp-frame env.request bytes [] v b (arrived ∙ sym (append-nil (frame bytes))) fits
          decoded in
      let t = (read_lp env.request v).1 in
      let at_end : (read_chunk t.reader).0 ≡ ok none =
        (read_chunk-none_iff t.reader).1 (ap (λ s. s.left) p, ap (λ s. s.last) p ∙ ended) in
      rw (ap (λ s. s.outcome) p, at_end) refl

  -- A stream with a request frame, of fewer than 2 ^ 64 bytes that decode to the request, and at least
  -- one byte after it is refused, when it is read into an empty buffer.
  pub read_request_extra :
      (r : Request) (b : Byte) (rest : List Byte) (v : Recv)
      → let bytes = env.request.to_bytes r in
        v.buffer ≡ []
        → content v.reader ≡ frame bytes ++ b ∷ rest
        → length bytes < u64_mod
        → env.request.of_bytes bytes ≡ some r
        → (read_request env v).0 ≡ err extra_data
  unfolding read_request
  read_request_extra r b rest v empty arrived fits decoded =
      let p =
        read_lp-frame env.request (env.request.to_bytes r) (b ∷ rest) v empty arrived fits
          decoded in
      let t = (read_lp env.request v).1 in
      let (more, at_more) = read_chunk-some t.reader b rest (ap (λ s. s.left) p) in
      rw (ap (λ s. s.outcome) p, at_more) refl
