-- ===== src/Cli/Dispatch.antt =====
-- `main` of src/main.rs: which part of the program a command runs, and with what. Parsing the command
-- line is clap's; the signal of ctrl-c is an input.
use sendme.Base.{◌≡◌, refl, Bool, Option, none, some, List}
use sendme.Base.Bytes.{Byte}
use sendme.Io.{Outcome, ok, err, chain, wrong_token_format}
use sendme.Util.{Hash, Base64, Decodes, Parsed, parsed, refused}
use sendme.Protocol.Codec.{AuthToken, IsToken}
use sendme.Protocol.Token.{
  AuthTokenParseError, token_from_str, token_to_string, token_from_str-token_to_string,
}
use sendme.Tls.PeerId.{PeerId}
use sendme.Ticket.{Ticket}
use sendme.Cid.{Blake3Cid}
use sendme.Get.Setup.{Options, default_options}

pub data Commands (Address : Type 0) : Type 0 where
  provide :
      (path : Option (List Byte)) (addr : Option Address) (auth_token key : Option (List Byte))
      (keylog : Bool)
      → Commands Address
  get :
      (hash : Blake3Cid) (peer : PeerId) (token : List Byte) (addr : Option Address)
      (out : Option (List Byte)) (keylog : Bool)
      → Commands Address
  get_ticket :
      (out : Option (List Byte)) (ticket : Ticket Address) (keylog : Bool) → Commands Address

-- The calls of `get_interactive` and `provide_interactive`.
pub data Call (Address : Type 0) : Type 0 where
  get_interactive : Hash → Options Address → AuthToken → (out : Option (List Byte)) → Call Address
  provide_interactive :
      (path : Option (List Byte)) (addr : Option Address) (auth_token key : Option (List Byte))
      (keylog : Bool)
      → Call Address

-- `.context("Wrong format for authentication token")?`
abbrev pub of_parsed_token : Parsed AuthTokenParseError AuthToken → Outcome AuthToken
of_parsed_token (parsed t) = ok t
of_parsed_token (refused e) = err wrong_token_format

abbrev pub with_addr : {Address : Type 0} → Option Address → Options Address → Options Address
with_addr none opts = opts
with_addr (some addr) opts = record opts { addr = addr }

module _ {Address : Type 0} (b : Base64) (default_addr : Address) where
  -- The match on the command, up to the call.
  unfoldable pub dispatch : Commands Address → Outcome (Call Address)
  dispatch (get hash peer token addr out keylog) =
      let opts =
        with_addr addr
          (record (default_options default_addr) { peer_id = some peer; keylog = keylog }) in
      chain (of_parsed_token (token_from_str b token))
        λ auth_token. ok (get_interactive hash.hash opts auth_token out)
  dispatch (get_ticket out ticket keylog) =
      let opts : Options Address = record {
        addr = ticket.addr;
        peer_id = some ticket.peer;
        keylog = keylog;
      } in
      ok (get_interactive ticket.hash opts ticket.token out)
  dispatch (provide path addr auth_token key keylog) =
      ok (provide_interactive path addr auth_token key keylog)

  -- `select!`, which polls the call first: its result if it ends before the signal,
  -- and success if not. The line that is printed then is left out.
  unfoldable pub select : Option (Outcome (Unit {0})) → Outcome (Unit {0})
  select none = ok tt
  select (some result) = result

  -- Getting with a ticket is getting with the ticket's hash, peer, token and address as flags, whatever
  -- the default address, given that base64 reads back what it writes and the ticket's token is one.
  pub dispatch-ticket :
      (ticket : Ticket Address) (out : Option (List Byte)) (keylog : Bool)
      → Decodes b
      → IsToken ticket.token
      → dispatch (get_ticket out ticket keylog)
        ≡ dispatch (
            get
              (record { hash = ticket.hash })
              ticket.peer
              (token_to_string b ticket.token)
              (some ticket.addr)
              out
              keylog)
  unfolding dispatch
  dispatch-ticket ticket out keylog law h =
      rw (token_from_str-token_to_string b ticket.token law h) refl
