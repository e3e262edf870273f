-- ===== src/Numbering.antt =====
-- src/common/numbering/number-sequence.service.ts. `next` runs inside the caller's transaction and
-- holds a lock on its row, so a call is one step.
pub mod Gapless
use girvi_ghata_backend.Base.{ℕ, ◌+◌, Bool, ◌&&◌, Option, none, some, ◌==◌, if◌then◌else◌}
use girvi_ghata_backend.Calendar.{Instant, Calendar}
use girvi_ghata_backend.Result.{Result, ok, no_sequence, or_throw, ◌>>=◌}
use girvi_ghata_backend.Table.{Table, find_first, update}
use girvi_ghata_backend.Store.{Store, Entity, DocumentNumber, NumberSequence}

abbrev pub entity_code : Entity → ℕ
entity_code Entity.girvi_number = 0
entity_code Entity.payment_number = 1
entity_code Entity.redemption_number = 2
entity_code Entity.customer_number = 3
entity_code Entity.expense_number = 4

abbrev pub is_sequence : ℕ → Entity → NumberSequence → Bool
is_sequence tenant entity q = q.tenant == tenant && entity_code q.entity == entity_code entity

-- The padding of the number to six digits is left to the text of a `DocumentNumber`.
unfoldable pub next :
    Calendar
    → Instant
    → Table NumberSequence
    → ℕ
    → Entity
    → Result (DocumentNumber × Table NumberSequence)
next cal now sequences tenant entity = do
  row ← or_throw (find_first (is_sequence tenant entity) sequences) no_sequence
  let next_value = row.1.last_value + 1
  let year = if row.1.year_in_key then some (cal now).year else none
  ok (
    record { prefix = row.1.prefix; year = year; number = next_value },
    update row.0 (λ q. record q { last_value = next_value }) sequences,
  )
