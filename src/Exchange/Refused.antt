-- ===== src/Exchange/Refused.antt =====
-- The client against a provider that does not have what it asks for.
use sendme.Base.{ℕ, ◌≡◌, refl, ap, ◌∙◌, sym, List, [], ◌++◌, append-nil, arith}
use sendme.Base.Bytes.{Byte}
use sendme.Io.{ok, err, data_not_found}
use sendme.Stream.{Reader}
use sendme.Sink.{Writer, IsWilling}
use sendme.Util.{Hash, IsHash}
use sendme.Protocol.Codec.{AuthToken, IsToken, Handshake, protocol_version, not_found}
use sendme.Env.{Env}
use sendme.Provider.Database.{Database, get}
use sendme.Provider.Transfer.Wire.{response_frame}
use sendme.Provider.Session.{Session}
use sendme.Provider.Session.Serve.{Asks}
use sendme.Provider.Session.Refuse.{IsRefused, handle_stream_refuses}
use sendme.Get.{Decoding, Client, send_request, run}
use sendme.Get.Receive.{Item, collecting}
use sendme.Get.Refused.{receive_not_found}
use sendme.Exchange.{IsLawful, first_request, asking, AskingFits, send_request-Emits, Carries}

module _ (env : Env) (law : IsLawful env) where
  -- A client with the right token that asks a provider for a hash under which it has no collection,
  -- over transports that do not fail, fails with the error that the data was not found, and has handed
  -- nothing to its caller. (The codecs read back what they write, and the encodings fit their buffers.)
  pub run_not_found :
      {D : Type 0} (dec : Decoding D) (db : Database) (hash : Hash) (token : AuthToken)
      (connection_id : ℕ) (w : Writer) (s : Session) (answer : List Byte → Reader)
      (kept : List Item)
      → IsHash hash
      → IsToken token
      → AskingFits env hash token
      → IsWilling 0 w
      → w.sent ≡ []
      → IsRefused (get db hash)
      → IsWilling 0 s.send.writer
      → Carries env db token connection_id
          (asking env hash token)
          s
          (answer (asking env hash token))
      → let p = run env dec (collecting dec) (ok w) answer hash token kept in
        (p.0 ≡ err data_not_found) × (p.1 ≡ kept)
  unfolding run
  run_not_found dec db hash token connection_id w s answer kept h t fits ww w0 refused willing
        carries =
      let shake : Handshake = record { version = protocol_version; token = token } in
      let (fits_h, fits_r, m) = fits in
      let asks : Asks env token (first_request hash) s.recv = record {
        empty = carries.empty;
        arrived = carries.there;
        ended = carries.there_ended;
        short_handshake = omega arith;
        short_request = omega arith;
        handshake_decodes = law.handshakes shake (omega arith, t);
        request_decodes = law.requests (first_request hash) (omega arith, h);
      } in
      let (_, wire, _, _) =
        handle_stream_refuses env 0 law.responses_fit db token connection_id (first_request hash) s
          asks refused (omega arith) willing in
      let e = send_request-Emits env hash token w fits ww in
      let sent : (send_request env hash token w).1.sent ≡ asking env hash token =
        e.wrote ∙ ap (λ (x : List Byte). x ++ asking env hash token) w0 in
      let start : Client (List Item) = record {
        recv = record { reader = answer (asking env hash token); buffer = [] };
        user = kept;
      } in
      let (failed, untouched) =
        receive_not_found env dec (collecting dec) 1 hash [] start law.responses_fit law.responses
          (omega arith) refl
          (carries.back
            ∙ wire
            ∙ ap (λ (x : List Byte). x ++ response_frame env 1 not_found) carries.fresh
            ∙ sym (append-nil _)) in
      (rw (e.result, sent) failed, rw (e.result, sent) untouched)
