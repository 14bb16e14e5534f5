-- ===== src/Provider/Create/Ranges.antt =====
-- That what is created has hashes of 32 bytes and a total that is a `u64`.
use sendme.Base.{◌≡◌, ◌<◌, inl, inr}
use sendme.Base.{Option, none, some, List, [], ◌∷◌, map}
use mathlib.Core.Path.{subst}
use sendme.Base.{arith, All, Bool-cases}
use sendme.Base.Bytes.{Byte, u64_mod}
use sendme.Io.{ok, chain-eq-ok, or_err, file_error}
use sendme.Util.{IsHash}
use sendme.Blobs.{Collection}
use sendme.Env.{Env}
use sendme.Provider.Create.{
  DataSource, file, named_file, compute_outboard, Outboard, Building, outboard_of,
}
use sendme.Provider.Create.{compute_outboards, built_collection}
use sendme.Provider.Create.Built.{link, IsBuilt}

-- The ranges of a collection's fields.
abbrev pub IsCollection : Collection → Type 0
IsCollection c = All (λ b. IsHash b.hash) c.blobs × (c.total_blobs_size < u64_mod)

module _ (env : Env) where
  compute_outboard-IsHash :
      (path : List Byte) (name : Option (List Byte)) {o : Outboard}
      → ((content : List Byte) → IsHash (env.outboard content).1)
      → compute_outboard env path name ≡ ok o
      → IsHash o.hash
  unfolding compute_outboard
  compute_outboard-IsHash path name {o} law e = elim (Bool-cases (env.is_file path)) [
    | inl there ↦
        let (len, _, read) =
          chain-eq-ok (or_err (env.file_len path) file_error) _ (rw there at e) in
        let (content, _, same_len) = chain-eq-ok (or_err (env.read_file path) file_error) _ read in
        let same : (env.outboard content).1 ≡ o.hash = ground arith in
        subst IsHash same (law content)
    | inr missing ↦ absurd (cc (rw missing at e))
  ]

  outboard_of-IsHash :
      (d : DataSource) {o : Outboard}
      → ((content : List Byte) → IsHash (env.outboard content).1)
      → outboard_of env d ≡ ok o
      → IsHash o.hash
  outboard_of-IsHash (file path) law e = compute_outboard-IsHash path none law e
  outboard_of-IsHash (named_file path name) law e = compute_outboard-IsHash path (some name) law e

  pub compute_outboards-AllHash :
      (ds : List DataSource) {os : List Outboard}
      → ((content : List Byte) → IsHash (env.outboard content).1)
      → compute_outboards env ds ≡ ok os
      → All (λ b. IsHash b.hash) (map (link env) os)
  unfolding compute_outboards
  compute_outboards-AllHash [] {os} law e =
      let same : [] ≡ os = ground arith in
      subst (λ l. All (λ b. IsHash b.hash) (map (link env) l)) same tt
  compute_outboards-AllHash (d ∷ ds) {os} law e =
      let (o, first, rest) = chain-eq-ok (outboard_of env d) _ e in
      let (more, tail, whole) = chain-eq-ok (compute_outboards env ds) _ rest in
      let same : o ∷ more ≡ os = ground arith in
      subst (λ l. All (λ b. IsHash b.hash) (map (link env) l)) same
        (outboard_of-IsHash d law first, compute_outboards-AllHash ds law tail)

  -- The hash function of abao gives 32 bytes.
  abbrev pub Hashes : Type 0
  Hashes = (content : List Byte) → IsHash (env.outboard content).1

  pub built-IsCollection :
      (ds : List DataSource) {os : List Outboard} (b : Building)
      → Hashes
      → compute_outboards env ds ≡ ok os
      → IsBuilt env os b
      → IsCollection (built_collection b)
  built-IsCollection ds b hashes computed h =
      (rw h.links (compute_outboards-AllHash ds hashes computed), omega (arith, h.total))
