-- ===== src/Tests/Disk.antt =====
-- A file system that works, and `sendme get` on it.
use sendme.Base.{
  ℕ, zero, suc, ◌+◌, ◌≡◌, ◌≢◌, ◌≤◌, ◌<◌, refl, ap, ◌∙◌, Bool, true, false, List, [], ◌∷◌, ◌++◌,
  arith, length, replicate, bytes_eq, bytes_eq_refl, bytes_eq_sound, if◌then◌else◌, Bool-cases, inl,
  inr,
}
use sendme.Base.Bytes.{Byte}
use sendme.Io.{Outcome, ok, err, panic, file_error}
use sendme.Cli.{Files}
use sendme.Cli.Saved.{Works}

-- The files by their paths; `next` is more than the length of each path.
pub record Disk : Type 0 where
  pub read : List Byte → Outcome (List Byte)
  pub next : ℕ

abbrev pub put_file : List Byte → List Byte → Disk → Disk
put_file path bytes f = record f { read = λ q. if bytes_eq q path then ok bytes else f.read q }

abbrev pub forget : List Byte → Disk → Disk
forget path f = record f { read = λ q. if bytes_eq q path then err file_error else f.read q }

abbrev pub move : List Byte → Outcome (List Byte) → List Byte → Disk → Outcome (Unit {0}) × Disk
move path (ok bytes) target f = (ok tt, put_file target bytes (forget path f))
move path (err e) target f = (err e, f)
move path panic target f = (panic, f)

abbrev pub is_ok : Outcome (List Byte) → Bool
is_ok (ok bytes) = true
is_ok (err e) = false
is_ok panic = false

abbrev pub disk : Files Disk
disk = record {
  exists = λ path f. is_ok (f.read path);
  is_dir = λ path f. true;
  is_file = λ path f. bytes_eq path (1 ∷ []);
  join = λ dir name. dir ++ 47 ∷ name;
  read = λ path f. f.read path;
  write = λ path bytes f. (ok tt, put_file path bytes f);
  read_dir = λ path f. ok (ok (1 ∷ []) ∷ ok (2 ∷ []) ∷ []);
  create_dir_all = λ path f. (ok tt, f);
  temp_file = λ f.
      (ok (replicate f.next 0), put_file (replicate f.next 0) [] (record f { next = f.next + 1 }));
  temp_file_in = λ dir f.
      (ok (replicate f.next 0), put_file (replicate f.next 0) [] (record f { next = f.next + 1 }));
  try_clone = λ path f. ok tt;
  copy_into = λ path bytes f. (ok tt, put_file path bytes f);
  persist = λ path target f. move path (f.read path) target f;
  remove = forget;
}

-- What is not there cannot be read, and paths of up to 99 bytes leave room for temporary files.
abbrev pub Fine : Disk → Type 0
Fine f = (100 ≤ f.next) × ((q : List Byte) → f.next ≤ length q → f.read q ≡ err file_error)

abbrev pub IsShort : List Byte → Type 0
IsShort q = length q < 100

length-replicate : (n : ℕ) → length {A = ℕ} (replicate n 0) ≡ n
length-replicate zero = refl
length-replicate (suc n) = omega (arith, length-replicate n)

pub put_there : (path bytes : List Byte) (f : Disk) → (put_file path bytes f).read path ≡ ok bytes
put_there path bytes f = rw (bytes_eq_refl path) refl

pub forget_gone : (path : List Byte) (f : Disk) → is_ok ((forget path f).read path) ≡ false
forget_gone path f = rw (bytes_eq_refl path) refl

pub put_other :
    (path bytes q : List Byte) (f : Disk) → q ≢ path → (put_file path bytes f).read q ≡ f.read q
put_other path bytes q f d = elim (Bool-cases (bytes_eq q path)) [
  | inl same ↦ absurd (d (bytes_eq_sound q path same))
  | inr other ↦ rw other refl
]

forget_other : (path q : List Byte) (f : Disk) → q ≢ path → (forget path f).read q ≡ f.read q
forget_other path q f d = elim (Bool-cases (bytes_eq q path)) [
  | inl same ↦ absurd (d (bytes_eq_sound q path same))
  | inr other ↦ rw other refl
]

abbrev temp : Disk → List Byte
temp f = replicate f.next 0

-- A path that can be read is not as long as a new one.
differs :
    (f : Disk) (p q bytes : List Byte) → Fine f → f.next ≤ length q → f.read p ≡ ok bytes → q ≢ p
differs f p q bytes fine long there same = cc (fine.1 q long, there, same)

longer : (p q : List Byte) → length p < length q → q ≢ p
longer p q h same = omega (arith, ap length same)

pub disk-Works : Works disk Fine IsShort
disk-Works = record {
  creates = λ dir f fine. (refl, fine, λ q. refl);
  opens = λ dir f fine.
      let same = length-replicate f.next in
      let missing : f.read (temp f) ≡ err file_error = fine.1 (temp f) (omega (arith, same)) in
      (
        temp f,
        refl,
        (
          omega arith,
          λ q long.
              put_other (temp f) [] q f (longer (temp f) q (omega (arith, same)))
              ∙ fine.1 q (omega arith),
        ),
        put_there (temp f) [] f,
        λ q bytes there.
            let new : q ≢ temp f = λ e. cc (missing, there, e) in
            (new, put_other (temp f) [] q f new ∙ there),
      );
  clones = λ t f fine there. refl;
  fills = λ t bytes f fine there. (
    refl,
    (fine.0, λ q long. put_other t bytes q f (differs f t q [] fine long there) ∙ fine.1 q long),
    put_there t bytes f,
    λ q d. put_other t bytes q f d,
  );
  persists = λ t target bytes f fine short there.
      let g = forget t f in
      let whole : move t (f.read t) target f ≡ (ok tt, put_file target bytes g) = rw there refl in
      (
        ap (λ p. p.0) whole,
        rw whole (
          fine.0,
          λ q long.
              put_other target bytes q g (longer target q (omega (arith, fine.0)))
              ∙ forget_other t q f (differs f t q bytes fine long there)
              ∙ fine.1 q long,
        ),
        rw whole (put_there target bytes g),
        λ q d d'. rw whole (put_other target bytes q g d' ∙ forget_other t q f d),
      );
}
