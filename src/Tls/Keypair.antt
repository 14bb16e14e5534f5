-- ===== src/Tls/Keypair.antt =====
-- `Keypair` of src/tls.rs. ed25519_dalek and ssh_key are parameters; a generated pair is an argument.
use sendme.Base.{◌≡◌, Option, some, List}
use sendme.Base.Bytes.{Byte}
use sendme.Io.{Outcome, err, chain, or_err, invalid_openssh, invalid_key_format}
use sendme.Tls.{PublicKey, Signature}

-- The pair of ed25519_dalek that a `Keypair` wraps.
pub record Keypair : Type 0 where
  pub secret : List Byte
  pub public : PublicKey

-- `ssh_key::private::KeypairData`, as far as the code tells its variants apart.
pub data KeypairData : Type 0 where
  ed25519 : (public secret : List Byte) → KeypairData
  of_other_kind : KeypairData

-- The crates' functions; `none` is an error.
pub record KeyCrates : Type 0 where
  -- `PrivateKey::from(Ed25519Keypair::from(..)).to_openssh(..)`, of a public and a secret key
  pub openssh : List Byte → List Byte → Option (List Byte)
  -- `PrivateKey::from_openssh(..)` and its `key_data`
  pub from_openssh : List Byte → Option KeypairData
  -- the conversion of an `Ed25519Keypair` to a pair of ed25519_dalek
  pub try_into : List Byte → List Byte → Option Keypair
  -- `Signer::sign`
  pub sign : Keypair → List Byte → Signature

module _ (k : KeyCrates) where
  -- `Keypair::to_openssh`
  unfoldable pub to_openssh : Keypair → Outcome (List Byte)
  to_openssh keypair = or_err (k.openssh keypair.public.bytes keypair.secret) invalid_openssh

  -- The match on the key's data.
  abbrev pub of_key_data : KeypairData → Outcome Keypair
  of_key_data (ed25519 public secret) = or_err (k.try_into public secret) invalid_openssh
  of_key_data of_other_kind = err invalid_key_format

  -- `Keypair::try_from_openssh`
  unfoldable pub try_from_openssh : List Byte → Outcome Keypair
  try_from_openssh bytes = chain (or_err (k.from_openssh bytes) invalid_openssh) of_key_data

  -- What the documentation says of the pair's text: it is read back, as the same pair.
  pub record IsReadBack (keypair : Keypair) : Type 0 where
    pub reads :
        (text : List Byte)
        → k.openssh keypair.public.bytes keypair.secret ≡ some text
        → k.from_openssh text ≡ some (ed25519 keypair.public.bytes keypair.secret)
    pub converts : k.try_into keypair.public.bytes keypair.secret ≡ some keypair
