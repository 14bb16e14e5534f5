-- ===== src/Tests/Texts.antt =====
-- The theorems on content identifiers and tickets at concrete inputs.
use native.Mathlib.Nat.{pow-suc}
use sendme.Base.{ℕ, zero, suc, ◌+◌, ◌-◌, ◌*◌, ◌/◌, ◌%◌, ◌^◌, ◌≡◌, ◌<◌, refl, ap, ◌∙◌}
use sendme.Base.{
  none, some, List, [], ◌∷◌, ◌++◌, arith, length, replicate, All, leb, if◌then◌else◌, take, drop,
}
use mathlib.Core.Path.{subst}
use sendme.Base.{take-append, drop-append}
use sendme.Base.Bytes.{Byte, IsByte, to_le, from_le, from_le_bound, to_le-from_le}
use sendme.Util.{Hash, parsed}
use sendme.Protocol.Codec.{Codec, RoundTrips}
use sendme.Cid.{Blake3Cid, Engines, IsBase32, IsBase32Digit}
use sendme.Cid.{cid_to_string, cid_from_str, cid_from_str-cid_to_string}
use sendme.Ticket.{Ticket, IsTicket}

-- The 36 bytes as one number, written with 58 digits to the base 32.
abbrev digit : ℕ → Byte
digit d = if leb d 25 then 65 + d else 24 + d

abbrev value_of : Byte → ℕ
value_of b = if leb 65 b then b - 65 else b - 24

abbrev digits : ℕ → ℕ → List Byte
digits zero n = []
digits (suc k) n = digit (n % 32) ∷ digits k (n / 32)

abbrev number : List Byte → ℕ
number [] = 0
number (b ∷ l) = value_of b + 32 * number l

value_of-digit : (d : ℕ) → d < 32 → value_of (digit d) ≡ d
value_of-digit d h = ground arith

number-digits : (k n : ℕ) → n < 32 ^ k → number (digits k n) ≡ n
number-digits zero n h = omega arith
number-digits (suc k) n h = omega (
  arith,
  value_of-digit (n % 32) (omega arith),
  number-digits k (n / 32) (omega (arith, pow-suc 32 k)),
)

length-digits : (k n : ℕ) → length (digits k n) ≡ k
length-digits zero n = refl
length-digits (suc k) n = ap suc (length-digits k (n / 32))

digit_alphabet : (d : ℕ) → d < 32 → IsBase32Digit (digit d)
digit_alphabet d h = ground arith

digits_alphabet : (k n : ℕ) → All IsBase32Digit (digits k n)
digits_alphabet zero n = tt
digits_alphabet (suc k) n = (digit_alphabet (n % 32) (omega arith), digits_alphabet k (n / 32))

abbrev engines : Engines
engines = record {
  encode_base32 = λ l. digits 58 (from_le l);
  decode_base32 = λ t. some (to_le 36 (number t));
  decode_multibase = λ s. none;
}

engines-decodes :
    (l : List Byte) → length l ≡ 36 → All IsByte l → to_le 36 (number (digits 58 (from_le l))) ≡ l
engines-decodes l h small =
    let bound : from_le l < 256 ^ 36 = subst (λ k. from_le l < 256 ^ k) h (from_le_bound l small) in
    ap (to_le 36) (number-digits 58 (from_le l) (omega arith))
    ∙ subst (λ k. to_le k (from_le l) ≡ l) h (to_le-from_le l small)

engines-IsBase32 : IsBase32 engines
engines-IsBase32 = record {
  decodes = λ l h small. ap some (engines-decodes l h small);
  length_of_36 = λ l h. length-digits 58 (from_le l);
  alphabet = λ l. digits_alphabet 58 (from_le l);
}

abbrev photos : Hash
photos = record { bytes = replicate 32 9 }

abbrev cid : Blake3Cid
cid = record { hash = photos }

replicate-AllByte : (n : ℕ) (b : Byte) → IsByte b → All IsByte (replicate n b)
replicate-AllByte zero b h = tt
replicate-AllByte (suc n) b h = (h, replicate-AllByte n b h)

cid_from_str-cid_to_string_example : cid_from_str engines (cid_to_string engines cid) ≡ parsed cid
cid_from_str-cid_to_string_example =
    cid_from_str-cid_to_string engines cid engines-IsBase32 refl
      (replicate-AllByte 32 9 (omega arith))

-- Tickets as three fields of 32 bytes, and an address of a word after them.
abbrev tickets : Codec (Ticket (List Byte))
tickets = record {
  to_bytes = λ t. t.hash.bytes ++ (t.peer.key.bytes ++ (t.token.bytes ++ t.addr));
  of_bytes = λ l. some (record {
    hash = record { bytes = take 32 l };
    peer = record { key = record { bytes = take 32 (drop 32 l) } };
    addr = drop 32 (drop 32 (drop 32 l));
    token = record { bytes = take 32 (drop 32 (drop 32 l)) };
  });
}

tickets-RoundTrips : RoundTrips tickets IsTicket
tickets-RoundTrips t (h, p, k) =
    rw
      (
        take-append 32 t.hash.bytes (t.peer.key.bytes ++ (t.token.bytes ++ t.addr)) h,
        drop-append 32 t.hash.bytes (t.peer.key.bytes ++ (t.token.bytes ++ t.addr)) h,
        take-append 32 t.peer.key.bytes (t.token.bytes ++ t.addr) p,
        drop-append 32 t.peer.key.bytes (t.token.bytes ++ t.addr) p,
        take-append 32 t.token.bytes t.addr k,
        drop-append 32 t.token.bytes t.addr k,
      )
      refl

abbrev ticket : Ticket (List Byte)
ticket = record {
  hash = photos;
  peer = record { key = record { bytes = replicate 32 4 } };
  addr = 127 ∷ 0 ∷ 0 ∷ 1 ∷ [];
  token = record { bytes = replicate 32 5 };
}
