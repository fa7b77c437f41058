-- ===== src/Server/Channel/Tests.antt =====
-- Runs of packages/konduit/server/src/channel.rs on a concrete channel, with simple primitives.
use konduit.Base.{
  ℕ, ◌+◌, ◌≤◌, ◌<◌, ◌≡◌, refl, Bool, true, false, Option, some, List, [], ◌∷◌, length, Result, ok,
  err, arith,
}
use konduit.Data.Cheque.{Cheque, Locked, Unlocked, Secret, locked, unlocked}
use konduit.Data.Signed
use konduit.Data.Signed.{Squash, IsSigned, IsSquashSigned}
use konduit.Receipt
use konduit.Receipt.{Receipt, max_unsquashed}
use konduit.Receipt.Tests.{
  plain, lock8, secret7, cheque_of, squash_of, mixed, with_next, next, opened, generous, advanced,
}
use konduit.Server.Channel.{
  Channel, Retainer, Error, receipt_error, last_used_index, can_commit, retainer_le, apply_squash,
  apply_locked, apply_secrets,
}
use konduit.Server.Channel.Funds.{apply_locked-solvent, can_commit-refused}

abbrev retainer : Retainer
retainer = record { amount = 30; subbed = 2; useds = [] }

-- A retainer whose last used index is far ahead of the receipt.
abbrev ahead : Retainer
ahead = record { amount = 30; subbed = 2; useds = (record { index = 9; amount = 2 }) ∷ [] }

abbrev channel_of : Retainer → Receipt → Channel
channel_of t r = record {
  key = [];
  tag = [];
  retainer = some t;
  receipt = some r;
  is_active = true;
}

abbrev start : Channel
start = channel_of retainer mixed

start-next : apply_locked plain start next ≡ ok (channel_of retainer with_next)
unfolding apply_locked Signed.try_verify_locked konduit.Server.Channel.uncommitted Receipt.capacity
    Receipt.committed konduit.Base.Words.add64 konduit.Base.Words.sum64 Receipt.apply_locked
    Receipt.max_index
start-next = refl

start-secrets : apply_secrets plain start (secret7 ∷ []) ≡ ok (channel_of retainer opened)
unfolding apply_secrets Receipt.apply_secret Receipt.open_cheques Receipt.open_cheque
    konduit.Data.Cheque.try_from_locked
start-secrets = refl

start-generous : apply_squash plain start generous ≡ ok (channel_of retainer advanced)
unfolding apply_squash Signed.try_verify_squash konduit.Server.Channel.squash_receipt
    Receipt.apply_squash konduit.Base.Words.add64 konduit.Base.Words.sum64
    konduit.Data.SquashBody.is_index_squashed konduit.Data.Indexes.has
start-generous = refl

apply_locked-solvent_example :
    (t : Retainer) × (r' : Receipt) × (some retainer ≡ some t)
    × (some with_next ≡ some r')
    × (Receipt.committed r' ≤ t.subbed + t.amount)
    × (length r'.cheques ≤ max_unsquashed)
apply_locked-solvent_example =
    apply_locked-solvent plain start next {r = mixed} refl (omega arith) (omega arith) start-next

start-quote : can_commit start 7 ≡ ok 3
unfolding can_commit konduit.Server.Channel.uncommitted Receipt.capacity Receipt.committed
    konduit.Base.Words.add64 konduit.Base.Words.sum64 konduit.Server.Channel.next_index
    Receipt.propose_index Receipt.max_index
start-quote = refl

next-IsSigned : IsSigned plain [] [] (locked next)
unfolding Signed.cheque_verifies
next-IsSigned = refl

not_used : last_used_index retainer ≤ Receipt.propose_index mixed
not_used = omega arith

abbrev behind : Channel
behind = channel_of ahead mixed

behind-quote : can_commit behind 7 ≡ ok 9
unfolding can_commit konduit.Server.Channel.uncommitted Receipt.capacity Receipt.committed
    konduit.Base.Words.add64 konduit.Base.Words.sum64 konduit.Server.Channel.next_index
    Receipt.propose_index Receipt.max_index
behind-quote = refl

abbrev ninth : Locked
ninth = cheque_of 9 4 300 lock8

ninth-IsSigned : IsSigned plain [] [] (locked ninth)
unfolding Signed.cheque_verifies
ninth-IsSigned = refl

beyond : Receipt.propose_index mixed < last_used_index ahead
unfolding Receipt.propose_index konduit.Base.Words.add64 Receipt.max_index
beyond = omega arith

can_commit-refused_example :
    (9 ≡ last_used_index ahead)
    × (apply_locked plain behind ninth ≡ err (receipt_error Receipt.input))
can_commit-refused_example =
    can_commit-refused plain behind 7 9 ninth ahead mixed behind-quote refl refl beyond
      ninth-IsSigned refl (omega arith)

abbrev settled : Receipt
settled = record { squash = squash_of 6 2 []; cheques = [] }

earlier-IsSigned : IsSquashSigned plain [] [] (squash_of 6 1 [])
unfolding Signed.squash_verifies
earlier-IsSigned = refl

abbrev candidates : List Retainer
candidates = retainer ∷ ahead ∷ []
