-- ===== src/Payments/Tests/Queue.antt =====
-- The theorems on the queue of funds requests, at a queue with a cancelled request.
use pop.Common.{◌⊎◌, Bool, true, false, List, [], ◌∷◌, ℕ}
use pop.Common.Int.{pos}
use pop.Common.Result.{ok}
use pop.Payments.Info.{Found}
use pop.Payments.Queue.{FundsReq, Messages, process_task, process_queue}
use pop.Payments.Queue.Answers.{Kept, Sent, process_queue-cases}

abbrev request : ℕ → Bool → FundsReq
request n active = record { promise = n; amt = pos n; active = active }

abbrev queue : List FundsReq
queue = request 3 false ∷ request 2 true ∷ request 4 true ∷ []

abbrev messages : Messages
messages = record { create = λ _. ok 8; add_funds = λ _ _. ok 9 }

process_queue-cases_example :
    let p = process_queue (process_task messages Found.untracked) queue in
    Kept Found.untracked queue p.0 p.1 ⊎ Sent messages Found.untracked queue p.0 p.1
process_queue-cases_example = process_queue-cases messages Found.untracked queue
