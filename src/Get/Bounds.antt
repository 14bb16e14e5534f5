-- ===== src/Get/Bounds.antt =====
-- The sizes that `receive` of src/get.rs checks, and what they come to for the caller.
use sendme.Base.{
  ℕ, ◌+◌, ◌-◌, ◌≡◌, ◌≤◌, Option, none, some, List, [], ◌∷◌, ◌++◌, length, arith, leb, Bool-cases,
  inl, inr,
}
use sendme.Base.Bytes.{Byte}
use sendme.Io.{
  ensure, size_too_large, downloaded_too_much, ◌>>=◌, ◌>>◌, Io, Outcome, ok, err, panic, pure,
  Outcome-cases,
}
use sendme.Stream.{read_chunk}
use sendme.Util.{Hash}
use sendme.Protocol.Codec.{Res, found, not_found, found_collection, from_bytes}
use sendme.Protocol.Frames.{read_lp_data}
use sendme.Blobs.{Blob, collection_of_bytes}
use sendme.Env.{Env}
use sendme.Get.{Decoding, Client, max_data_size, read_bao_encoded}
use sendme.Get.{
  on_user, close_blob, handle_blob_response, download_blob, download_blobs, receive_response,
  receive_message, receive,
}
use sendme.Get.Receive.{Item, collecting}

-- The bytes that a caller keeps.
abbrev pub amount : List Item → ℕ
amount [] = 0
amount (x ∷ xs) = length x.bytes + amount xs

amount-append : (xs ys : List Item) → amount (xs ++ ys) ≡ amount xs + amount ys
amount-append [] ys = omega arith
amount-append (x ∷ xs) ys = omega (arith, amount-append xs ys)

-- What abao's documentation says of the size: no more content than that is read.
abbrev pub KeepsSize : {D : Type 0} → Decoding D → Type 0
KeepsSize {D} dec =
    (d : D) (size : ℕ) (bytes : List Byte)
    → (dec.read_size d).0 ≡ ok size
    → (dec.read_to_end (dec.read_size d).1).0 ≡ ok bytes
    → length bytes ≤ size

-- How much more a run may leave with the caller, by its result.
abbrev pub allowed : Outcome ℕ → ℕ
allowed (ok data_len) = data_len
allowed (err e) = max_data_size
allowed panic = max_data_size

-- No more than the budget was added, and of a number that is left over less.
abbrev Within : ℕ → List Item → Outcome ℕ × Client (List Item) → Type 0
Within budget before p =
    (amount p.1.user ≤ amount before + budget)
    × ((left : ℕ) → p.0 ≡ ok left → amount p.1.user + left ≤ amount before + budget)

module _ {D : Type 0} (env : Env) (dec : Decoding D) (sizes : KeepsSize dec) where
  -- From the size on, with what the decoder and the caller do.
  sized-Within :
      (total remaining size : ℕ) (b : Blob) (d : D) (s : Client (List Item))
      → (dec.read_size d).0 ≡ ok size
      → let sized = dec.read_size d in
        let rest : Io (Client (List Item)) ℕ = (do
          ensure (leb size max_data_size) (size_too_large size)
          ensure (leb size remaining) (downloaded_too_much total)
          blob_reader' ← on_user ((collecting dec).on_blob b.hash sized.1 b.name)
          close_blob env dec (collecting dec) blob_reader'
          pure (remaining - size)) in
        Within remaining s.user (rest s)
  sized-Within total remaining size b d s sized = elim (Bool-cases (leb size max_data_size)) [
    | inr large ↦ rw large (omega arith, λ left h. absurd (cc h))
    | inl small ↦ rw small (elim (Bool-cases (leb size remaining)) [
      | inr over ↦ rw over (omega arith, λ left h. absurd (cc h))
      | inl fits ↦ rw fits (elim (Outcome-cases (dec.read_to_end (dec.read_size d).1).0) [
        | inr (inl (e, refused)) ↦ rw refused (omega arith, λ left h. absurd (cc h))
        | inr (inr panicked) ↦ rw panicked (omega arith, λ left h. absurd (cc h))
        | inl (bytes, all) ↦
            let item : Item = record { hash = b.hash; name = b.name; bytes = bytes } in
            let kept = amount-append s.user (item ∷ []) in
            let room = sizes d size bytes sized all in
            let within : size ≤ remaining = ground (arith, fits) in
            rw all (elim (Bool-cases (dec.read_byte (dec.read_to_end (dec.read_size d).1).1).0) [
              | inl more ↦ rw more (omega arith, λ left h. absurd (cc h))
              | inr ended ↦ rw ended (
                omega arith,
                λ left h. let same : remaining - size ≡ left = ground arith in omega arith,
              )
            ])
      ])
    ])
  ]

  download_blob-Within :
      (total remaining : ℕ) (b : Blob) (s : Client (List Item))
      → Within remaining s.user (download_blob env dec (collecting dec) total remaining b s)
  unfolding download_blob
  download_blob-Within total remaining b s =
      elim (Outcome-cases (handle_blob_response env dec b.hash s.recv).0) [
        | inr (inl (e, refused)) ↦ rw refused (omega arith, λ left h. absurd (cc h))
        | inr (inr panicked) ↦ rw panicked (omega arith, λ left h. absurd (cc h))
        | inl (d, opened) ↦ rw opened (elim (Outcome-cases (dec.read_size d).0) [
          | inr (inl (e, refused)) ↦ rw refused (omega arith, λ left h. absurd (cc h))
          | inr (inr panicked) ↦ rw panicked (omega arith, λ left h. absurd (cc h))
          | inl (size, sized) ↦ rw sized (
              sized-Within total remaining size b d
                (record s { recv = (handle_blob_response env dec b.hash s.recv).1 }) sized)
        ])
      ]

  download_blobs_within :
      (total remaining : ℕ) (bs : List Blob) (s : Client (List Item))
      → amount (download_blobs env dec (collecting dec) total remaining bs s).1.user
        ≤ amount s.user + remaining
  unfolding download_blobs
  download_blobs_within total remaining [] s = omega arith
  download_blobs_within total remaining (b ∷ bs) s =
      let (within, with_left) = download_blob-Within total remaining b s in
      let t = (download_blob env dec (collecting dec) total remaining b s).1 in
      elim (Outcome-cases (download_blob env dec (collecting dec) total remaining b s).0) [
        | inr (inl (e, refused)) ↦ rw refused within
        | inr (inr panicked) ↦ rw panicked within
        | inl (left, done) ↦
            rw done (omega (arith, with_left left done, download_blobs_within total left bs t))
      ]

  -- The two bounds for what `receive` returns.
  abbrev Bounded : List Item → Outcome ℕ × Client (List Item) → Type 0
  Bounded before p =
      (amount p.1.user ≤ amount before + max_data_size)
      × ((data_len : ℕ)
          → p.0 ≡ ok data_len
          → (data_len ≤ max_data_size) × (amount p.1.user ≤ amount before + data_len))

  receive_response-Bounded :
      (hash : Hash) (r : Res) (s : Client (List Item))
      → Bounded s.user (receive_response env dec (collecting dec) hash r s)
  unfolding receive_response
  receive_response-Bounded hash found s = (omega arith, λ n h. absurd (cc h))
  receive_response-Bounded hash not_found s = (omega arith, λ n h. absurd (cc h))
  receive_response-Bounded hash (found_collection total) s =
      elim (Bool-cases (leb total max_data_size)) [
        | inr large ↦ rw large (omega arith, λ n h. absurd (cc h))
        | inl small ↦ rw small (elim (Outcome-cases (read_bao_encoded dec hash s.recv.reader).0) [
          | inr (inl (e, refused)) ↦ rw refused (omega arith, λ n h. absurd (cc h))
          | inr (inr panicked) ↦ rw panicked (omega arith, λ n h. absurd (cc h))
          | inl (bytes, all) ↦
              rw all (elim (Outcome-cases (collection_of_bytes env.collection bytes)) [
                | inr (inl (e, refused)) ↦ rw refused (omega arith, λ n h. absurd (cc h))
                | inr (inr panicked) ↦ rw panicked (omega arith, λ n h. absurd (cc h))
                | inl (c, decoded) ↦
                    let t : Client (List Item) = record s {
                      recv = record s.recv { reader = (read_bao_encoded dec hash s.recv.reader).1 };
                    } in
                    let within = download_blobs_within total total c.blobs t in
                    let fits : total ≤ max_data_size = ground (arith, small) in
                    rw decoded
                      (elim (Outcome-cases
                        (download_blobs env dec (collecting dec) total total c.blobs t).0) [
                          | inr (inl (e, refused)) ↦ rw refused (omega arith, λ n h. absurd (cc h))
                          | inr (inr panicked) ↦ rw panicked (omega arith, λ n h. absurd (cc h))
                          | inl (_, done) ↦ rw done (
                            omega arith,
                            λ n h.
                                let same : total ≡ n = ground arith in (omega arith, omega arith),
                          )
                        ])
              ])
        ])
      ]

  receive_message-Bounded :
      (hash : Hash) (message : Option (List Byte)) (s : Client (List Item))
      → Bounded s.user (receive_message env dec (collecting dec) hash message s)
  receive_message-Bounded hash none s = (omega arith, λ n h. absurd (cc h))
  receive_message-Bounded hash (some buffer) s =
      elim (Outcome-cases (from_bytes env.response buffer)) [
        | inr (inl (e, refused)) ↦ rw refused (omega arith, λ n h. absurd (cc h))
        | inr (inr panicked) ↦ rw panicked (omega arith, λ n h. absurd (cc h))
        | inl (r, decoded) ↦
            let (within, with_len) = receive_response-Bounded hash r.payload s in
            let t = (receive_response env dec (collecting dec) hash r.payload s).1 in
            rw decoded
              (elim (Outcome-cases (receive_response env dec (collecting dec) hash r.payload s).0) [
                | inr (inl (e, refused)) ↦ rw refused (within, λ n h. absurd (cc h))
                | inr (inr panicked) ↦ rw panicked (within, λ n h. absurd (cc h))
                | inl (data_len, done) ↦
                    rw done (elim (Outcome-cases (read_chunk t.recv.reader).0) [
                      | inr (inl (e, refused)) ↦ rw refused (within, λ n h. absurd (cc h))
                      | inr (inr panicked) ↦ rw panicked (within, λ n h. absurd (cc h))
                      | inl (chunk, read) ↦ rw read (
                        within,
                        λ n h.
                            let same : data_len ≡ n = ground arith in
                            let (small, kept) = with_len data_len done in
                            (omega arith, omega arith),
                      )
                    ])
              ])
      ]

  receive-Bounded :
      (hash : Hash) (s : Client (List Item))
      → Bounded s.user (receive env dec (collecting dec) hash s)
  unfolding receive
  receive-Bounded hash s = elim (Outcome-cases (read_lp_data s.recv).0) [
    | inr (inl (e, refused)) ↦ rw refused (omega arith, λ n h. absurd (cc h))
    | inr (inr panicked) ↦ rw panicked (omega arith, λ n h. absurd (cc h))
    | inl (message, read) ↦
        rw read (receive_message-Bounded hash message (record s { recv = (read_lp_data s.recv).1 }))
  ]

  -- Whatever arrives on the stream and however the run ends: a client that keeps the blobs has in the
  -- end no more bytes more than it reports, if it succeeds, and no more than its limit if not; and what
  -- it reports is within the limit. (The decoder gives no more content than the size it gave.)
  pub receive_bounded :
      (hash : Hash) (s : Client (List Item))
      → let p = receive env dec (collecting dec) hash s in
        (allowed p.0 ≤ max_data_size) × (amount p.1.user ≤ amount s.user + allowed p.0)
  receive_bounded hash s =
      let (within, with_len) = receive-Bounded hash s in
      elim (Outcome-cases (receive env dec (collecting dec) hash s).0) [
        | inl (n, done) ↦ rw done (with_len n done)
        | inr (inl (e, refused)) ↦ rw refused (omega arith, within)
        | inr (inr panicked) ↦ rw panicked (omega arith, within)
      ]
