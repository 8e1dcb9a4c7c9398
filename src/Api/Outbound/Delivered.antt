-- ===== src/Api/Outbound/Delivered.antt =====
-- `deliver_due_outbound` of crates/api/src/outbound.rs with a provider that takes every message.
use mathlib.Core.List.{reverse_aux, Permᴰ}
use andy.Base.{ℕ, ◌≡◌, true, List, [], ◌∷◌, All, map, length, Text, ◌==◌}
use andy.Domain.{Uuid, Instant}
use andy.Db.Tables.{OutboundRow, OutboundStatus}
use andy.Db.Outbox.{OutboundMessageRow, mark_outbound_sent}
use andy.Db.Outbox.Claims.{returned}
use andy.Api.Program
use andy.Api.Program.{World, Outcome, Program, final}

-- What the provider gets of a message.
abbrev pub letter : OutboundMessageRow → Text × Text
letter m = (m.phone, m.content)

-- The rows with an identifier are sent.
abbrev pub IsSent : Uuid → List OutboundRow → Type 0
IsSent id rows =
    All (λ (o : OutboundRow). (o.id == id) ≡ true → o.status ≡ OutboundStatus.sent) rows

-- The tables and the calls after each message was sent and marked.
abbrev after : List OutboundMessageRow → World → World
after [] w = w
after (m ∷ ms) w = after ms (record { db = mark_outbound_sent m.id w.db; sent = letter m ∷ w.sent })

-- A run that sent the messages of the rows `due`, as a claim at the time `at` returns them: how it
-- ends, what the provider got, and how the rows are left.
pub record Delivers (before : List (Text × Text)) (at : Instant) (due : List OutboundRow)
    (o : Outcome (ℕ × ℕ)) : Type 0 where
  pub taken : List OutboundMessageRow
  pub order : Permᴰ taken (map (returned at) due)
  pub counts : o ≡ Outcome.done (length due, 0) (final o)
  pub calls : (final o).sent ≡ reverse_aux (map letter taken) before
  pub rows : All (λ (m : OutboundRow). IsSent m.id (final o).db.outbound_messages) due
