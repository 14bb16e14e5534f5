-- ===== src/Get/Refused.antt =====
-- The client when the provider does not have what it asks for.
use sendme.Base.{ℕ, ◌≡◌, ◌<◌, refl, ap, List, [], ◌++◌, arith}
use sendme.Base.Bytes.{Byte, u64_mod}
use sendme.Io.{err, data_not_found}
use sendme.Stream.View.{content}
use sendme.Util.{Hash}
use sendme.Protocol.Codec.{not_found, Response, RoundTrips, IsResponse, from_bytes}
use sendme.Protocol.Frames.Messages.{read_lp_data-frame}
use sendme.Env.{Env}
use sendme.Provider.Transfer.Wire.{response_frame, ResponsesFit}
use sendme.Get.{Decoding, Callbacks, Client, receive, receive_response}

-- A client with an empty buffer before a `NotFound` fails with the error that the data was not found,
-- whatever follows, and has not called its caller. (Responses are read back and fit their buffer.)
pub receive_not_found :
    {D U : Type 0} (env : Env) (dec : Decoding D) (callbacks : Callbacks D U) (id : ℕ) (hash : Hash)
    (rest : List Byte) (s : Client U)
    → ResponsesFit env
    → RoundTrips env.response IsResponse
    → id < u64_mod
    → s.recv.buffer ≡ []
    → content s.recv.reader ≡ response_frame env id not_found ++ rest
    → let p = receive env dec callbacks hash s in (p.0 ≡ err data_not_found) × (p.1.user ≡ s.user)
unfolding receive receive_response from_bytes
receive_not_found env dec callbacks id hash rest s fit law i b arrived =
    let r : Response = record { id = id; payload = not_found } in
    let p =
      read_lp_data-frame (env.response.to_bytes r) rest s.recv b arrived
        (omega (arith, fit r (i, tt))) in
    (rw (ap (λ x. x.outcome) p, law r (i, tt)) refl, rw (ap (λ x. x.outcome) p, law r (i, tt)) refl)
