-- ===== src/Cli/Provide.antt =====
-- `provide_interactive` of src/main.rs: what is provided, and with which provider. The state of the file
-- system that `create_collection` reads is seen through `env_at`; what is generated, what STDIN brings
-- and how the service ends are inputs.
use sendme.Base.{ℕ, Bool, Option, none, some, List, [], ◌∷◌, if◌then◌else◌}
use sendme.Base.Bytes.{Byte}
use sendme.Io.{Io, Outcome, ok, err, chain, lift, pure, with_result, unwrap, ◌>>=◌, ◌>>◌}
use sendme.Io.{not_directory_or_file, auth_token_parse_error}
use sendme.Sink.{write_all}
use sendme.Util.{Hash, Base64, Parsed, parsed, refused}
use sendme.Protocol.Codec.{AuthToken}
use sendme.Protocol.Token.{AuthTokenParseError, token_from_str}
use sendme.Env.{Env}
use sendme.Tls.Keypair.{Keypair, KeyCrates}
use sendme.Cid.{Blake3Cid}
use sendme.Provider.Database.{Database, blobs}
use sendme.Provider.Create.{DataSource, file, create_collection}
use sendme.Provider.Service
use sendme.Provider.Service.{Builder, Provider, Listen, with_db, spawn, provider_peer_id}
use sendme.Tls.{Crypto}
use sendme.Tls.Config.{Rcgen, Rustls}
use sendme.Cli.{
  Files, Message, reading, peer, auth_token, ticket, Outputs, println, on_files, on_stdout,
  on_stderr,
}
use sendme.Cli.Keys.{get_keypair}

-- What `println!` puts on STDOUT.
pub data Listing : Type 0 where
  collection : Blake3Cid → Listing
  item : (path : List Byte) (size : ℕ) → Listing
  blank : Listing

-- The random values, and what comes from outside.
pub record Inputs : Type 0 where
  pub generated_keypair : Keypair
  pub builder_keypair : Keypair
  pub random : List Byte
  -- what `tokio::io::copy` from STDIN hands on, and how it ends
  pub stdin : List Byte × Outcome (Unit {0})
  -- `provider.await`
  pub finished : Outcome (Unit {0})

abbrev pub of_token : Parsed AuthTokenParseError AuthToken → Outcome AuthToken
of_token (parsed t) = ok t
of_token (refused e) = err auth_token_parse_error

abbrev pub listings : List (Hash × List Byte × ℕ) → List Listing
listings [] = []
listings ((_, path, size) ∷ entries) = item path size ∷ listings entries

module _ {F : Type 0} (files : Files F) where
  -- The loop over a directory's entries.
  unfoldable pub collect_files : List (Outcome (List Byte)) → F → Outcome (List DataSource)
  collect_files [] f = ok []
  collect_files (el ∷ els) f =
      let rest = collect_files els f in
      chain el
        λ path. chain rest λ paths. ok (if files.is_file path f then file path ∷ paths else paths)

  unfoldable pub path_sources : List Byte → F → Outcome (List DataSource)
  path_sources path f =
      if files.is_dir path f
      then chain (files.read_dir path f) (λ els. collect_files els f)
      else if files.is_file path f
      then ok (file path ∷ [])
      else err not_directory_or_file

  -- The function owns the `TempPath` in `tmp_path`: its drop removes the file, at `drop(tmp_path)` when
  -- all went well, and at the end of the scope when a `?` returns earlier or the code panics. So the
  -- removal is the last thing that happens to the file, on each of these ways.
  abbrev pub removing : {A : Type 0} → List Byte → Io (Outputs F) A → Io (Outputs F) A
  removing path m u = let r = m u in (r.0, record r.1 { files = files.remove path r.1.files })

module _ {Address : Type 0} (b : Base64) (default_addr : Address) (inputs : Inputs) where
  abbrev bind_given : Option Address → Builder Address → Builder Address
  bind_given none builder = builder
  bind_given (some addr) builder = Service.bind_addr addr builder

  abbrev token_given : Option (List Byte) → Builder Address → Outcome (Builder Address)
  token_given none builder = ok builder
  token_given (some encoded) builder =
      chain (of_token (token_from_str b encoded)) λ token. ok (Service.auth_token token builder)

  -- The builder with the command's options.
  unfoldable pub provider_builder :
      Database → Keypair → Option Address → Option (List Byte) → Bool → Outcome (Builder Address)
  provider_builder db keypair addr token keylog = token_given token (
      bind_given addr (
        Service.keylog keylog
          (Service.keypair keypair (with_db default_addr inputs.builder_keypair inputs.random db))))

module _ {K F Address : Type 0} (c : Crypto) (k : KeyCrates) (rcgen : Rcgen K) (rustls : Rustls)
    (listen : Listen Address) (own : Option K) (b : Base64) (files : Files F) (env_at : F → Env)
    (render : Message Address → List Byte) (show : Listing → List Byte) (default_addr : Address)
    (inputs : Inputs) where
  abbrev print : Listing → Io (Outputs F) (Unit {0})
  print l = on_stdout (with_result unwrap (write_all (show l)))

  unfoldable pub print_all : List Listing → Io (Outputs F) (Unit {0})
  print_all [] = pure tt
  print_all (l ∷ ls) = do print l; print_all ls

  abbrev say : Message Address → Io (Outputs F) (Unit {0})
  say m = on_stderr (println (render m))

  -- From the collection on.
  unfoldable pub serve :
      Keypair
      → Option Address
      → Option (List Byte)
      → Bool
      → List DataSource
      → Io (Outputs F) (Unit {0})
  unfolding blobs
  serve keypair addr token keylog sources = do
    created ← λ u. (create_collection (env_at u.files) sources, u)
    print_all (collection (record { hash = created.1 }) ∷ listings (blobs created.0))
    print blank
    builder ← lift (provider_builder b default_addr inputs created.0 keypair addr token keylog)
    provider ← lift (spawn c k rcgen rustls listen own builder)
    say (peer (provider_peer_id provider))
    say (auth_token provider.auth_token)
    say (ticket (Service.ticket provider created.1))
    lift inputs.finished

  -- With a path, or with what STDIN brings in a temporary file.
  unfoldable pub provide_sources :
      Keypair
      → Option (List Byte)
      → Option Address
      → Option (List Byte)
      → Bool
      → Io (Outputs F) (Unit {0})
  unfolding path_sources
  provide_sources keypair (some path) addr token keylog = do
    say (reading path)
    sources ← λ u. (path_sources files path u.files, u)
    serve keypair addr token keylog sources
  provide_sources keypair none addr token keylog = do
    path ← on_files files.temp_file
    removing files path (do
      on_files (files.copy_into path inputs.stdin.0)
      lift inputs.stdin.1
      serve keypair addr token keylog (file path ∷ []))

  unfoldable pub provide_interactive :
      Option (List Byte)
      → Option Address
      → Option (List Byte)
      → Option (List Byte)
      → Bool
      → Io (Outputs F) (Unit {0})
  provide_interactive path addr token key keylog = do
    keypair ← on_files (get_keypair files k key inputs.generated_keypair)
    provide_sources keypair path addr token keylog
