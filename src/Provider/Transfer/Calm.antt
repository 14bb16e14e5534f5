-- ===== src/Provider/Transfer/Calm.antt =====
-- No write panics, and so no answer to a request.
use sendme.Base.{ℕ, ◌≢◌, Option, none, some, List, [], ◌∷◌}
use sendme.Base.{drop, arith}
use sendme.Base.Bytes.{Byte}
use sendme.Io.{Io, panic, pure, lift, ◌>>=◌, ◌>>◌}
use sendme.Io.Calm.{IsCalm, calm_rules, >>=-IsCalm}
use sendme.Sink.{
  Answer, accept, refuse, Writer, push, write_all, poll_write, write_buf, close, finish,
}
use sendme.Protocol.Codec.{Res, not_found, Response, Codec, to_slice, from_bytes}
use sendme.Protocol.Frames.{write_lp}
use sendme.Blobs.{Blob}
use sendme.Env.{Env}
use sendme.Provider.Database.{BlobOrCollection, blob, collection, Database, get}
use sendme.Provider.Transfer.{SentStatus, sent, missing, Send, on_writer, grow, write_response}
use sendme.Provider.Transfer.{send_entry, send_blob, send_blobs, transfer_collection}

push-ne-panic :
    (answers : List Answer) (bytes : List Byte) (w : Writer) → (push answers bytes w).0 ≢ panic
unfolding push
push-ne-panic answers [] w h = cc
push-ne-panic [] (b ∷ bs) w h = cc
push-ne-panic (refuse k ∷ answers) (b ∷ bs) w h = cc
push-ne-panic (accept k ∷ answers) (b ∷ bs) w h = push-ne-panic answers (drop k bs) _ h

write_all-IsCalm : (bytes : List Byte) → IsCalm (write_all bytes)
unfolding write_all
write_all-IsCalm bytes = record { at = λ w. push-ne-panic w.answers bytes w }

poll_write-ne-panic :
    (answers : List Answer) (b : Byte) (bs : List Byte) (w : Writer)
    → (poll_write answers b bs w).0 ≢ panic
poll_write-ne-panic [] b bs w h = cc
poll_write-ne-panic (refuse k ∷ answers) b bs w h = cc
poll_write-ne-panic (accept k ∷ answers) b bs w h = cc

write_buf-IsCalm : (bytes : List Byte) → IsCalm (write_buf bytes)
unfolding write_buf
write_buf-IsCalm [] = record { at = λ w h. cc }
write_buf-IsCalm (b ∷ bs) = record { at = λ w. poll_write-ne-panic w.answers b bs w }

close-ne-panic : (answers : List Answer) (w : Writer) → (close answers w).0 ≢ panic
close-ne-panic [] w h = cc
close-ne-panic (refuse k ∷ answers) w h = cc
close-ne-panic (accept k ∷ answers) w h = cc

finish-IsCalm : IsCalm finish
unfolding finish
finish-IsCalm = record { at = λ w. close-ne-panic w.answers w }

write_lp-IsCalm : (bytes : List Byte) → IsCalm (write_lp bytes)
unfolding write_lp
write_lp-IsCalm bytes = search (calm_rules, write_all-IsCalm)

pub on_writer-IsCalm : {A : Type 0} (m : Io Writer A) → IsCalm m → IsCalm (on_writer m)
on_writer-IsCalm m h = record { at = λ s. h.at s.writer }

to_slice-IsCalm :
    {S T : Type 0} (c : Codec T) (value : T) (room : ℕ)
    → IsCalm {S = S} (lift (to_slice c value room))
unfolding to_slice
to_slice-IsCalm c value room = record { at = λ s h. ground arith }

from_bytes-IsCalm :
    {S T : Type 0} (c : Codec T) (bytes : List Byte) → IsCalm {S = S} (lift (from_bytes c bytes))
unfolding from_bytes
from_bytes-IsCalm c bytes = search calm_rules

ruleset writing = (
  calm_rules, write_all-IsCalm, write_buf-IsCalm, finish-IsCalm, write_lp-IsCalm, on_writer-IsCalm,
  to_slice-IsCalm, from_bytes-IsCalm,
)

status-IsCalm :
    (status : SentStatus) (m n : Io Send SentStatus)
    → IsCalm m
    → IsCalm n
    → IsCalm (elim status as (λ _. Io Send SentStatus) [ sent ↦ m | missing ↦ n ])
status-IsCalm sent m n km kn = km
status-IsCalm missing m n km kn = kn

module _ (env : Env) where
  write_within-IsCalm :
      (value : Response) (room : ℕ)
      → IsCalm (lift (to_slice env.response value room) >>= λ used. on_writer (write_lp used))
  write_within-IsCalm value room = search writing

  pub write_response-IsCalm : (id : ℕ) (res : Res) → IsCalm (write_response env id res)
  unfolding write_response
  write_response-IsCalm id res = record {
    at = λ s.
        (write_within-IsCalm (record { id = id; payload = res }) (grow s.out_buffer)).at
          (record s { out_buffer = grow s.out_buffer });
  }

  send_entry-IsCalm : (o : Option BlobOrCollection) (id : ℕ) → IsCalm (send_entry env o id)
  unfolding send_entry
  send_entry-IsCalm (some (blob d)) id = search (writing, write_response-IsCalm) depth 9
  send_entry-IsCalm (some (collection x y)) id = search (writing, write_response-IsCalm)
  send_entry-IsCalm none id = search (writing, write_response-IsCalm)

  not_found_twice-IsCalm :
      (id : ℕ) → IsCalm (do write_response env id not_found; on_writer finish; pure missing)
  not_found_twice-IsCalm id = search (writing, write_response-IsCalm) depth 7

  send_blobs-IsCalm : (db : Database) (bs : List Blob) (id : ℕ) → IsCalm (send_blobs env db bs id)
  unfolding send_blobs send_blob
  send_blobs-IsCalm db [] id = search writing
  send_blobs-IsCalm db (b ∷ bs) id =
      >>=-IsCalm _ _ (send_entry-IsCalm (get db b.hash) id)
        λ status. status-IsCalm status _ _ (send_blobs-IsCalm db bs id) (not_found_twice-IsCalm id)

  pub transfer_collection-IsCalm :
      (db : Database) (id : ℕ) (outboard content : List Byte)
      → IsCalm (transfer_collection env db id outboard content)
  unfolding transfer_collection
  transfer_collection-IsCalm db id outboard content =
      search (writing, write_response-IsCalm, send_blobs-IsCalm) depth 10

  pub refusal-IsCalm : (id : ℕ) → IsCalm (do write_response env id not_found; on_writer finish)
  refusal-IsCalm id = search (writing, write_response-IsCalm)
