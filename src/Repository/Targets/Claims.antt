-- ===== src/Repository/Targets/Claims.antt =====
-- An inbound event of internal/repository/postgres.go is claimed once.
use crypto_price_alert.Base.{
  ℕ, String, Bool, true, ◌==◌, ◌≡◌, ◌≢◌, nat_eq, string_eq, ok, arith, Result-cases, inl, inr,
  if◌then◌else◌, refl, none,
}
use crypto_price_alert.Domain.Provider.{ChatProvider}
use crypto_price_alert.Domain.InboundEvent
use crypto_price_alert.Domain.InboundEvent.{InboundEvent}
use crypto_price_alert.Repository.Tables.{Tables}
use crypto_price_alert.Repository.Targets.{claim_inbound_event}

-- What the theorem relies on in the database: `held` tells whether there is a row of a provider and an
-- external identifier; an insertion that does not fail inserts a row unless there is one, and leaves one.
-- The primary keys are new UUIDs, so that no other conflict keeps a row out.
pub record UniqueEvents {W : Type 0} (t : Tables W) (held : W → ChatProvider → String → Bool)
    : Type 0 where
  pub inserted :
      (event : InboundEvent) (w : W) (n : ℕ)
      → (t.insert_event event w).0 ≡ ok n
      → n ≡ (if held w event.provider event.external_event_id then 0 else 1)
  pub held_after :
      (event : InboundEvent) (w : W) (n : ℕ)
      → (t.insert_event event w).0 ≡ ok n
      → held (t.insert_event event w).1 event.provider event.external_event_id ≡ true

-- The parts of a claim that does not fail.
record Claimed {W : Type 0} (t : Tables W) (event : InboundEvent) (w : W) (new : Bool)
    : Type 0 where
  row : InboundEvent
  same_provider : row.provider ≡ event.provider
  same_event : row.external_event_id ≡ event.external_event_id
  affected : ℕ
  statement : (t.insert_event row w).0 ≡ ok affected
  after : (claim_inbound_event t event w).1 ≡ (t.insert_event row w).1
  answer : new ≡ (affected == 1)

claim_inbound_event-Claimed :
    {W : Type 0} (t : Tables W) (event : InboundEvent) (w : W) (new : Bool)
    → (claim_inbound_event t event w).0 ≡ ok new
    → Claimed t event w new
unfolding claim_inbound_event
claim_inbound_event-Claimed t event w new h = elim (Result-cases (InboundEvent.validate event)) [
  | inr (error, v) ↦ absurd (ground arith)
  | inl (valid, v) ↦ elim (Result-cases (t.parse_uuid event.id)) [
    | inr (error, p) ↦ absurd (ground arith)
    | inl (id, p) ↦
        (let row : InboundEvent = record event { id = id; processed_at = none } in
          elim (Result-cases (t.insert_event row w).0) [
            | inr (error, s) ↦ absurd (ground arith)
            | inl (n, s) ↦ record {
              row = row;
              same_provider = refl;
              same_event = refl;
              affected = n;
              statement = s;
              after = rw (v, p, s, claim_inbound_event) refl;
              answer = ground arith;
            }
          ])
  ]
]

-- Over a database with one row for each provider and external identifier of an event, right after a
-- claim that did not fail, a claim of an event with the same provider and identifier does not
-- succeed.
pub claim_inbound_event-once :
    {W : Type 0} (t : Tables W) (held : W → ChatProvider → String → Bool)
    (event again : InboundEvent) (w : W) (new : Bool)
    → UniqueEvents t held
    → again.provider ≡ event.provider
    → again.external_event_id ≡ event.external_event_id
    → (claim_inbound_event t event w).0 ≡ ok new
    → (claim_inbound_event t again (claim_inbound_event t event w).1).0 ≢ ok true
claim_inbound_event-once t held event again w new unique provider external first second =
    let a = claim_inbound_event-Claimed t event w new first in
    let b = claim_inbound_event-Claimed t again (claim_inbound_event t event w).1 true second in
    let kept = unique.held_after a.row w a.affected a.statement in
    let count = unique.inserted b.row (claim_inbound_event t event w).1 b.affected b.statement in
    let there : held (claim_inbound_event t event w).1 b.row.provider b.row.external_event_id
        ≡ true =
      rw (b.same_provider, b.same_event, provider, external, a.after)
        (rw (a.same_provider, a.same_event) at kept) in
    ground (arith, there, count, b.answer)

-- Over such a database, an event whose row is there is not claimed.
pub claim_inbound_event-held :
    {W : Type 0} (t : Tables W) (held : W → ChatProvider → String → Bool) (event : InboundEvent)
    (w : W)
    → UniqueEvents t held
    → held w event.provider event.external_event_id ≡ true
    → (claim_inbound_event t event w).0 ≢ ok true
claim_inbound_event-held t held event w unique there claimed =
    let c = claim_inbound_event-Claimed t event w true claimed in
    let count = unique.inserted c.row w c.affected c.statement in
    let same : held w c.row.provider c.row.external_event_id ≡ true =
      rw (c.same_provider, c.same_event) there in
    ground (arith, same, count, c.answer)
