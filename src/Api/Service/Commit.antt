-- ===== src/Api/Service/Commit.antt =====
-- The commit of a turn's writes with the delivery of its reply (crates/api/src/service.rs).
use andy.Base.{some, List, Text}
use andy.Domain.{WriteIntent}
use andy.Db.Tables.{Database, OutboundRow, Ensures}
use andy.Db.Flush.{FlushResult, flush_writes}
use andy.Api.Program.{try_query}
use andy.Api.Program.Holds.{Holds, Holds-bind, Holds-try_query, Holds-pure}
use andy.Api.Outbound.{deliver_outbound_by_dedup_key}
use andy.Api.Outbound.Queued.{deliver-Holds}
use andy.Api.Service.{Service, commit_and_reply_writes, after_flush}

module _ {κ} (P : Database → Type κ) (service : Service)
    (queue : (db : Database) (os : List OutboundRow)
      → P db
      → P (record db { outbound_messages = os })) where
  flushed-Holds : (key : Text) (r : FlushResult) → Holds P (after_flush service key r)
  unfolding after_flush
  flushed-Holds key FlushResult.superseded = Holds-pure P tt
  flushed-Holds key FlushResult.committed =
      Holds-bind P (deliver_outbound_by_dedup_key service.sendblue key) _
        (deliver-Holds P service.sendblue queue key) λ _. Holds-pure P tt

  -- What the flush keeps, the commit keeps.
  pub commit-Holds :
      (dedup key : Text) (ws : List WriteIntent)
      → ((db : Database)
          → P db
          → Ensures (λ r. P r.1) (flush_writes service.engine (some dedup) ws db))
      → Holds P (commit_and_reply_writes service dedup key ws)
  unfolding commit_and_reply_writes
  commit-Holds dedup key ws h =
      Holds-bind P (try_query (flush_writes service.engine (some dedup) ws)) _
        (Holds-try_query P _ h) (flushed-Holds key)
