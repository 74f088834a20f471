-- ===== src/Domain.antt =====
-- internal/domain/types.go: the values that the components exchange, and their `Validate` methods.
-- A `time.Time` is the number of nanoseconds since Go's zero time, midnight of January 1 of the year 1
-- in UTC, so `IsZero` is a test for 0, and `UTC` and `In` leave it alone. The string types of the
-- source (`Interval`, `MarketProvider`, `ChatProvider`, `JobStatus`) are texts here too.
pub mod Interval
pub mod Location
pub mod Provider
pub mod Period
pub mod Candle
pub mod Job
pub mod Target
pub mod AlertConfig
pub mod InboundEvent
