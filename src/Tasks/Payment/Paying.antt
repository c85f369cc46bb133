-- ===== src/Tasks/Payment/Paying.antt =====
-- From a request to the payment service to the task that is paid for.
use kin_app_server.Common.{◌≡◌, Bool, some, ◌∷◌}
use kin_app_server.Common.Int.{ℤ}
use kin_app_server.Tasks.{Task2}
use kin_app_server.Tasks.Reward.{amount}
use kin_app_server.Tasks.Payment.{Request, Purse}

-- The request `r` was sent, and is remembered for its callback.
record IsSent (t : Task2) (d : ℤ) (push : Bool) (r : Request) (s s' : Purse) : Type 0 where
  task : r.task_id ≡ t.task_id
  kin : amount t d ≡ some r.kin
  cached : s'.cached ≡ (r.memo, t.task_id, push) ∷ s.cached
  txs : s'.txs ≡ s.txs
