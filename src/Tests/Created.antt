-- ===== src/Tests/Created.antt =====
-- A collection of two files that is created, and a client that gets them.
use sendme.Base.{
  ℕ, ◌≡◌, ◌≢◌, refl, sym, ap, ◌∙◌, inl, inr, List, [], ◌∷◌, length, arith, append-nil, take,
}
use sendme.Base.Bytes.{Byte, to_le, from_le, length-to_le}
use sendme.Io.{Outcome, ok, err, panic}
use sendme.Stream.{Reader}
use sendme.Util.{Hash}
use sendme.Blobs.{Collection}
use sendme.Protocol.Frames.Messages.{frame}
use sendme.Provider.Database.{Database}
use sendme.Provider.Create.{DataSource, file, named_file, create_collection}
use sendme.Provider.Create.Files.{In, source_blobs, source_collection}
use sendme.Provider.Create.Succeeds.{create_collection_succeeds}
use sendme.Provider.Session.{handle_stream}
use sendme.Get.{run}
use sendme.Get.Receive.{collecting, items}
use sendme.Exchange.{asking}
use sendme.Exchange.Created.{Abao, Injective, run_gets_sources}
use sendme.Tests.Toy.{toy, toy-IsLawful, toy-Hashes, collections-RoundTrips, take_word}
use sendme.Tests.Decoder.{frames, frames-Verifies}
use sendme.Tests.Setup.{session-Carries, arriving, writer, session, token}

pub toy-Abao : Abao toy frames
toy-Abao y short = record {
  slice = frame y;
  extracted = refl;
  verified = frames-Verifies (toy.outboard y).1 y short;
  worded = omega (arith, length-to_le 8 (length y));
  headed =
      ap (λ l. from_le (take 8 l)) (sym (append-nil (to_le 8 (length y))))
      ∙ take_word (length y) [] short;
}

abbrev pub sources : List DataSource
sources = file (1 ∷ 2 ∷ 3 ∷ []) ∷ named_file (4 ∷ 5 ∷ []) (112 ∷ []) ∷ []

abbrev pub two : List (List Byte)
two = (1 ∷ 2 ∷ 3 ∷ []) ∷ (4 ∷ 5 ∷ []) ∷ []

abbrev made : Collection
made = source_collection toy sources two

abbrev pub hash : Hash
hash = (toy.outboard (toy.collection.to_bytes made)).1

-- The number of which a hash is made.
abbrev first : List Byte → ℕ
first [] = 0
first (b ∷ bs) = b

pub two-Injective : Injective toy two
two-Injective y z (inl a) (inl b) e = a ∙ sym b
two-Injective y z (inl a) (inr (inl b)) e = absurd (
    omega (
      arith,
      ap (λ (h : Hash). first h.bytes) e,
      ap (λ (l : List Byte). length l) a,
      ap (λ (l : List Byte). length l) b,
    ))
two-Injective y z (inr (inl a)) (inl b) e = absurd (
    omega (
      arith,
      ap (λ (h : Hash). first h.bytes) e,
      ap (λ (l : List Byte). length l) a,
      ap (λ (l : List Byte). length l) b,
    ))
two-Injective y z (inr (inl a)) (inr (inl b)) e = a ∙ sym b
two-Injective y z (inl a) (inr (inr m)) e = elim m [ ]
two-Injective y z (inr (inl a)) (inr (inr m)) e = elim m [ ]
two-Injective y z (inr (inr m)) k e = elim m [ ]

abbrev pub created_db : Outcome (Database × Hash) → Database
created_db (ok p) = p.0
created_db (err e) = []
created_db panic = []

create_collection_succeeds_example :
    (db : Database) × (create_collection toy sources ≡ ok (db, hash))
unfolding to_le from_le
create_collection_succeeds_example =
    create_collection_succeeds toy sources two (refl, refl, refl, (refl, refl, refl, tt))
      (omega arith, refl, (omega arith, refl, tt)) (omega arith) (omega arith)

abbrev pub db : Database
db = created_db (create_collection toy sources)

pub created : create_collection toy sources ≡ ok (db, hash)
created =
    let (made_db, e) = create_collection_succeeds_example in
    e ∙ ap (λ d. ok (d, hash)) (sym (ap created_db e))

-- The hash of the collection is made of another number.
pub other : (y : List Byte) → In y two → hash ≢ (toy.outboard y).1
unfolding to_le
other y (inl a) e =
    omega (arith, ap (λ (h : Hash). first h.bytes) e, ap (λ (l : List Byte). length l) a)
other y (inr (inl a)) e =
    omega (arith, ap (λ (h : Hash). first h.bytes) e, ap (λ (l : List Byte). length l) a)
other y (inr (inr m)) e = elim m [ ]

abbrev pub asked : List Byte
asked = asking toy hash token

abbrev pub answer : List Byte → Reader
answer bytes = arriving (handle_stream toy db token 0 (session asked)).1.send.writer.sent

run_gets_sources_example :
    let p = run toy frames (collecting frames) (ok writer) answer hash token [] in
    (p.0 ≡ ok 5) × (p.1 ≡ items (source_blobs toy sources two) two)
unfolding to_le
run_gets_sources_example =
    run_gets_sources toy 1000 toy-IsLawful frames toy-Abao collections-RoundTrips toy-Hashes sources
      two db hash token 0 writer (session asked) answer [] created (refl, (refl, tt)) (omega arith)
      (omega arith) two-Injective other refl (omega arith, omega arith, omega arith) tt refl
      (λ encoded e. ground arith) tt (session-Carries toy db token 0 asked)
