-- ===== src/Protocol/Closed.antt =====
-- `Closed` of src/protocol.rs: the error codes of connections and streams.
use Prim.Native.String.{String}
use sendme.Base.{ℕ, ◌≡◌, ◌<◌, ◌↔◌, arith, ◌==◌, if◌then◌else◌}

pub data Closed : Type 0 where
  stream_dropped provider_terminating request_received : Closed

-- The discriminants, and `VarInt::from(source as u16)`.
unfoldable pub to_varint : Closed → ℕ
to_varint stream_dropped = 0
to_varint provider_terminating = 1
to_varint request_received = 2

unfoldable pub reason : Closed → String
reason stream_dropped = "stream dropped"
reason provider_terminating = "provider terminating"
reason request_received = "request received"

-- `Result<Closed, UnknownErrorCode>`
pub data FromCode : Type 0 where
  closed : Closed → FromCode
  unknown_error_code : ℕ → FromCode

-- `TryFrom<VarInt>`
unfoldable pub try_from : ℕ → FromCode
try_from value =
    if value == 0
    then closed stream_dropped
    else if value == 1
    then closed provider_terminating
    else if value == 2
    then closed request_received
    else unknown_error_code value

-- A code is read as a reason exactly when it is the code that the reason is sent as; so any other code
-- is read as no reason.
pub try_from_iff : (value : ℕ) (c : Closed) → (try_from value ≡ closed c) ↔ (to_varint c ≡ value)
unfolding try_from to_varint
try_from_iff value stream_dropped = ground arith
try_from_iff value provider_terminating = ground arith
try_from_iff value request_received = ground arith

-- A code that no reason has is refused, and the error carries the code.
pub try_from_unknown : (value : ℕ) → 2 < value → try_from value ≡ unknown_error_code value
unfolding try_from
try_from_unknown value h = ground arith
