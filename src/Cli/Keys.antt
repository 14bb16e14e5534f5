-- ===== src/Cli/Keys.antt =====
-- `get_keypair` of src/main.rs: the key pair of a provider, which a file keeps from one run to the next.
use sendme.Base.{
  ◌≡◌, refl, ap, sym, ◌∙◌, true, Option, none, some, List, if◌then◌else◌, Bool-cases, inl, inr,
  Option-cases,
}
use sendme.Base.Bytes.{Byte}
use sendme.Io.{Io, ok, chain, pure, lift, ◌>>=◌, ◌>>◌, >>=-ok, >>=-eq-ok}
use sendme.Tls.Keypair.{Keypair, KeyCrates, to_openssh, try_from_openssh, IsReadBack}
use sendme.Cli.{Files}

module _ {F : Type 0} (files : Files F) (k : KeyCrates) where
  -- The file is there.
  unfoldable pub load_keypair : List Byte → Io F Keypair
  load_keypair key_path f = (chain (files.read key_path f) (try_from_openssh k), f)

  -- It is not: the generated pair is written to it.
  unfoldable pub save_keypair : List Byte → Keypair → Io F Keypair
  save_keypair key_path keypair = do
    ser_key ← lift (to_openssh k keypair)
    files.write key_path ser_key
    pure keypair

  unfoldable pub get_keypair : Option (List Byte) → Keypair → Io F Keypair
  unfolding load_keypair save_keypair
  get_keypair none generated f = (ok generated, f)
  get_keypair (some key_path) generated f =
      if files.exists key_path f then load_keypair key_path f else save_keypair key_path generated f

  -- A file that was written is there, and has what was written.
  abbrev pub KeepsFiles : Type 0
  KeepsFiles =
      (path bytes : List Byte) (f : F)
      → (files.write path bytes f).0 ≡ ok tt
      → (files.exists path (files.write path bytes f).1 ≡ true)
        × (files.read path (files.write path bytes f).1 ≡ ok bytes)

  -- What a saved pair's file says.
  save_keypair_lem :
      (key_path : List Byte) (keypair found : Keypair) (f : F)
      → KeepsFiles
      → IsReadBack k keypair
      → (save_keypair key_path keypair f).0 ≡ ok found
      → let g = (save_keypair key_path keypair f).1 in
        (files.exists key_path g ≡ true) × (load_keypair key_path g ≡ (ok found, g))
  unfolding save_keypair load_keypair to_openssh try_from_openssh
  save_keypair_lem key_path keypair found f keeps back e =
      elim (Option-cases (k.openssh keypair.public.bytes keypair.secret)) [
        | inl bad ↦ absurd (cc (rw bad at e))
        | inr (text, good) ↦
            let rest : Io F Keypair = (do files.write key_path text; pure keypair) in
            let whole : save_keypair key_path keypair f ≡ rest f =
              >>=-ok (lift (to_openssh k keypair)) _ f (rw good refl) in
            let (u, wrote, same) =
              >>=-eq-ok (files.write key_path text) (λ _. pure keypair) f
                (ap (λ p. p.0) (sym whole) ∙ e) in
            let (there, holds) = keeps key_path text f wrote in
            let after : rest f ≡ (ok keypair, (files.write key_path text f).1) =
              >>=-ok (files.write key_path text) _ f wrote in
            let loaded : load_keypair key_path (files.write key_path text f).1
                ≡ (ok found, (files.write key_path text f).1) =
              rw (holds, back.reads text good, back.converts)
                (ap (λ r. (r, (files.write key_path text f).1)) same) in
            rw (whole ∙ after) (there, loaded)
      ]

  -- When `get_keypair` succeeds with a path, then running it again with that path on the files that it
  -- left gives the same key pair, whatever pair would be generated, and leaves the files as they are.
  -- (A file that was written is there with what was written, and the generated pair's text is read
  -- back as that pair.)
  pub get_keypair_again :
      (key_path : List Byte) (generated generated' found : Keypair) (f : F)
      → KeepsFiles
      → IsReadBack k generated
      → (get_keypair (some key_path) generated f).0 ≡ ok found
      → let g = (get_keypair (some key_path) generated f).1 in
        get_keypair (some key_path) generated' g ≡ (ok found, g)
  unfolding get_keypair load_keypair
  get_keypair_again key_path generated generated' found f keeps back e =
      elim (Bool-cases (files.exists key_path f)) [
        | inl old ↦
            let first : get_keypair (some key_path) generated f ≡ load_keypair key_path f =
              rw old refl in
            let second : get_keypair (some key_path) generated' f ≡ load_keypair key_path f =
              rw old refl in
            let result : load_keypair key_path f ≡ (ok found, f) =
              ap (λ r. (r, f)) (ap (λ p. p.0) (sym first) ∙ e) in
            rw (first ∙ result) (second ∙ result)
        | inr new ↦
            let first : get_keypair (some key_path) generated f
                ≡ save_keypair key_path generated f =
              rw new refl in
            let (there, loads) =
              save_keypair_lem key_path generated found f keeps back
                (ap (λ p. p.0) (sym first) ∙ e) in
            rw first (rw there loads)
      ]
