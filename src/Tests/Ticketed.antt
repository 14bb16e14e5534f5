-- ===== src/Tests/Ticketed.antt =====
-- From the files of a provider to those of `sendme get-ticket`, in the toy environment.
use sendme.Base.{ℕ, ◌≡◌, refl, ap, some, false, List, [], ◌∷◌, arith, length}
use sendme.Base.Bytes.{Byte, to_le}
use sendme.Io.{ok}
use sendme.Provider.Create.Files.{source_blobs}
use sendme.Provider.Service.{Builder, Provider, started, spawn, ticket, provider_peer_id}
use sendme.Cli.Output.{blob_name, get_interactive}
use sendme.Cli.Saving.{AllSaved}
use sendme.Cli.Dispatch
use sendme.Cli.Dispatch.{get_ticket, dispatch}
use sendme.Cli.Ticketed.{ticket_options, get_ticket_saves_sources}
use sendme.Tests.Toy.{toy, toy-IsLawful, toy-Hashes, collections-RoundTrips}
use sendme.Tests.Parts.{plain}
use sendme.Tests.Decoder.{frames}
use sendme.Tests.Disk.{disk, disk-Works}
use sendme.Tests.Command.{copying, render, outputs}
use sendme.Tests.Configs.{crypto, key_crates, rcgen, rustls, listen, alice, bob, server_made}
use sendme.Tests.Connection.{quinn_with, connected}
use sendme.Tests.Created.{
  toy-Abao, sources, two, hash, db, created, two-Injective, other, asked, answer,
}
use sendme.Tests.Setup.{session-Carries, writer, session, token}

abbrev builder : Builder ℕ
builder = record { bind_addr = 4433; keypair = alice; auth_token = token; db = db; keylog = false }

abbrev provider : Provider ℕ
provider = started builder server_made.0 4433

get_ticket_saves_sources_example :
    (spawn crypto key_crates rcgen rustls listen (some 4) builder ≡ ok provider)
    × (dispatch plain 80 (get_ticket (some (100 ∷ [])) (ticket provider hash) false)
        ≡ ok (
            Dispatch.get_interactive
              (ticket provider hash).hash
              (ticket_options provider hash false)
              (ticket provider hash).token
              (some (100 ∷ []))))
    × (let r =
          get_interactive crypto key_crates rcgen rustls
            (quinn_with answer)
            toy
            frames
            copying
            plain
            disk
            render
            bob
            (some 5)
            (ticket provider hash).hash
            (ticket_options provider hash false)
            (ticket provider hash).token
            (some (100 ∷ []))
            outputs in
        (r.0 ≡ ok tt) × AllSaved plain disk (100 ∷ []) r.1.files (source_blobs toy sources two) two)
unfolding to_le blob_name ticket provider_peer_id
get_ticket_saves_sources_example =
    get_ticket_saves_sources crypto key_crates rcgen rustls listen (quinn_with answer) toy 1000
      toy-IsLawful frames toy-Abao collections-RoundTrips toy-Hashes copying plain disk render
      disk-Works (λ d bytes e. rw e refl) sources two hash builder (some 4) (some 5) server_made.0
      4433 80 bob false 7 (100 ∷ []) 0 writer (session asked) outputs created (refl, (refl, tt))
      (omega arith) (omega arith) two-Injective other server_made.1 refl (connected false answer)
      refl (omega arith, λ q long. refl) tt refl (omega arith, omega arith, omega arith) tt refl
      (omega arith, (omega arith, tt))
      ((λ e. omega (arith, ap (λ (l : List Byte). length l) e), tt), (tt, tt))
      (λ encoded e. ground arith) tt (session-Carries toy db token 0 asked)
