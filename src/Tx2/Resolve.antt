-- ===== src/Tx2/Resolve.antt =====
-- packages/konduit/tx2/src/channel.rs: `Channel::resolve`, the one entry of all steps.
pub mod Outcome
pub mod Inversion
pub mod Legal
pub mod Kept
pub mod Gains
pub mod Amounts
use konduit.Base.{ℕ, Result, ok, err}
use konduit.Data.Primitives.{Primitives}
use konduit.Tx2.Interval.{Interval}
use konduit.Tx2.Step.{Channel, Want, Will, Error}
use konduit.Tx2.Channel.{want_add, want_sub}
use konduit.Tx2.Closing.{want_close, want_respond, want_elapse}
use konduit.Tx2.Pendings.{want_end, want_unlock, want_expire}

unfoldable pub resolve : Primitives → Channel → Want → Interval → Result Error Will
resolve P ch (Want.add amount) interval = want_add ch amount
resolve P ch (Want.sub squash cheques) interval = want_sub ch squash cheques interval
resolve P ch Want.close interval = want_close ch interval
resolve P ch (Want.respond squash cheques) interval = want_respond ch squash cheques interval
resolve P ch Want.end interval = want_end ch interval
resolve P ch Want.elapse interval = want_elapse ch interval
resolve P ch (Want.unlock secrets) interval = want_unlock P ch secrets interval
resolve P ch Want.expire interval = want_expire ch interval
