-- ===== src/Server.antt =====
-- What a request can change: the state behind the storage interfaces and the log; for HTTP, also the
-- response.
use go_api_demo.Log.{Sink}
use go_api_demo.Response.{Writer}

pub record Host (S : Type 0) : Type 0 where
  pub store : S
  pub sink : Sink

pub record Exchange (S : Type 0) : Type 0 where
  pub writer : Writer
  pub host : Host S

module _ {S : Type 0} where
  abbrev pub with_log : (Sink → Sink) → Host S → Host S
  with_log f h = record h { sink = f h.sink }

  abbrev pub with_writer : (Writer → Writer) → Exchange S → Exchange S
  with_writer f x = record x { writer = f x.writer }

  abbrev pub with_host : (Host S → Host S) → Exchange S → Exchange S
  with_host f x = record x { host = f x.host }
