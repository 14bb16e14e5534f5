-- ===== src/Io.antt =====
-- Results and effects. `Result<T>` of the program (anyhow, std::io) is an `Outcome`, which also has
-- the panic; an `async fn` over mutable arguments is an action on the record of those arguments.
use sendme.Base.{arith, ℕ, ◌≡◌, ◌⊎◌, inl, inr, refl, Bool, true, false, Option, none, some}
pub mod Calm

-- std::io::ErrorKind: the one that the program tests for, and any other.
pub data IoErrorKind : Type 0 where
  unexpected_eof : IoErrorKind
  other : ℕ → IoErrorKind

-- The errors that the program makes or passes on, one constructor for each message.
pub data Error : Type 0 where
  io : IoErrorKind → Error
  serialize_error deserialize_error : Error
  message_too_large : Error
  version_mismatch : ℕ → Error
  token_mismatch no_handshake : Error
  extra_data no_request : Error
  size_too_large : ℕ → Error
  downloaded_too_much : ℕ → Error
  blob_not_read unexpected_message : Error
  data_not_found stream_closed server_disconnected : Error
  slice_error file_error : Error
  not_a_file file_changed : Error
  callback_error : ℕ → Error
  gen_error bind_error connect_error : Error
  invalid_openssh invalid_key_format wrong_token_format : Error
  not_directory_or_file auth_token_parse_error : Error
  create_directory_error temporary_file_error write_output_error : Error

pub data Outcome {ℓ} (A : Type ℓ) : Type ℓ where
  ok : A → Outcome A
  err : Error → Outcome A
  panic : Outcome A

-- `r?` outside an action.
abbrev pub chain {ℓ κ} : {A : Type ℓ} {B : Type κ} → Outcome A → (A → Outcome B) → Outcome B
chain (ok a) f = f a
chain (err e) f = err e
chain panic f = panic

-- An action on a state of type `S`. What it changed stays changed when it fails.
abbrev pub Io {ℓ κ} : Type ℓ → Type κ → Type (ℓ ⊔ κ)
Io S A = S → Outcome A × S

abbrev pub and_then {ℓ κ μ} :
    {S : Type ℓ} {A : Type κ} {B : Type μ} → Outcome A → S → (A → Io S B) → Outcome B × S
and_then (ok a) s f = f a s
and_then (err e) s f = (err e, s)
and_then panic s f = (panic, s)

infixl 5 ◌>>=◌ ◌>>◌
abbrev pub ◌>>=◌ {ℓ κ μ} : {S : Type ℓ} {A : Type κ} {B : Type μ} → Io S A → (A → Io S B) → Io S B
◌>>=◌ m f s = and_then (m s).0 (m s).1 f

abbrev pub ◌>>◌ {ℓ κ μ} : {S : Type ℓ} {A : Type κ} {B : Type μ} → Io S A → Io S B → Io S B
m >> k = m >>= λ _. k

module _ {ℓ κ} {S : Type ℓ} {A : Type κ} where
  abbrev pub pure : A → Io S A
  pure a s = (ok a, s)

  abbrev pub fail : Error → Io S A
  fail e s = (err e, s)

  abbrev pub lift : Outcome A → Io S A
  lift r s = (r, s)

-- `opt.ok_or(e)?`
abbrev pub or_err {ℓ} : {A : Type ℓ} → Option A → Error → Outcome A
or_err none e = err e
or_err (some a) e = ok a

-- `ensure!(b, e)`
abbrev pub ensure {ℓ} : {S : Type ℓ} → Bool → Error → Io S (Unit {0})
ensure true e s = (ok tt, s)
ensure false e s = (err e, s)

-- `.context(..)`, or another error in place of the one that came
abbrev pub recast {ℓ} : {A : Type ℓ} → Error → Outcome A → Outcome A
recast e (ok a) = ok a
recast e (err _) = err e
recast e panic = panic

-- `.unwrap()` and `.expect(..)`
abbrev pub unwrap {ℓ} : {A : Type ℓ} → Outcome A → Outcome A
unwrap (ok a) = ok a
unwrap (err _) = panic
unwrap panic = panic

-- A change of an action's result only.
abbrev pub with_result {ℓ κ} : {S : Type ℓ} {A : Type κ} → (Outcome A → Outcome A) → Io S A → Io S A
with_result f m s = (f (m s).0, (m s).1)

-- A chain goes on with what its first step returned.
pub >>=-ok {ℓ κ μ} :
    {S : Type ℓ} {A : Type κ} {B : Type μ} (m : Io S A) (f : A → Io S B) (s : S) {a : A}
    → (m s).0 ≡ ok a
    → (m >>= f) s ≡ f a (m s).1
>>=-ok m f s e = rw e refl

-- What a successful chain says of its first step.
pub >>=-eq-ok {ℓ κ μ} :
    {S : Type ℓ} {A : Type κ} {B : Type μ} (m : Io S A) (f : A → Io S B) (s : S) {b : B}
    → ((m >>= f) s).0 ≡ ok b
    → (a : A) × ((m s).0 ≡ ok a) × ((f a (m s).1).0 ≡ ok b)
>>=-eq-ok {A} m f s {b} h = by_outcome (m s).0 refl h
  where
    by_outcome :
        (r : Outcome A)
        → (m s).0 ≡ r
        → (and_then r (m s).1 f).0 ≡ ok b
        → (a : A) × ((m s).0 ≡ ok a) × ((f a (m s).1).0 ≡ ok b)
    by_outcome (ok a) e g = (a, e, g)
    by_outcome (err x) e g = cc
    by_outcome panic e g = cc

pub Outcome-cases {ℓ} :
    {A : Type ℓ} (r : Outcome A)
    → ((a : A) × (r ≡ ok a)) ⊎ (((e : Error) × (r ≡ err e)) ⊎ (r ≡ panic))
Outcome-cases (ok a) = inl (a, refl)
Outcome-cases (err e) = inr (inl (e, refl))
Outcome-cases panic = inr (inr refl)

pub chain-eq-ok {ℓ κ} :
    {A : Type ℓ} {B : Type κ} (r : Outcome A) (f : A → Outcome B) {b : B}
    → chain r f ≡ ok b
    → (a : A) × (r ≡ ok a) × (f a ≡ ok b)
chain-eq-ok (ok a) f h = (a, refl, h)
chain-eq-ok (err e) f h = cc
chain-eq-ok panic f h = cc

pub or_err-eq-ok {ℓ} :
    {A : Type ℓ} (o : Option A) (e : Error) {a : A} → or_err o e ≡ ok a → o ≡ some a
or_err-eq-ok none e h = absurd (cc h)
or_err-eq-ok (some b) e h = ground arith
