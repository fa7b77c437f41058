-- ===== src/Tx2/Resolve/Amounts.antt =====
-- packages/konduit/tx2/src/channel.rs: what a step does to the amount of a channel.
use konduit.Data.Primitives.{Primitives}
use konduit.Tx2.Interval.{Interval}
use konduit.Tx2.Step.{Channel}
