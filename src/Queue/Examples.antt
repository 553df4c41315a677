-- ===== src/Queue/Examples.antt =====
-- Three items sent to a local queue of one.
use dytor.Common.{ℕ, ◌≡◌, [], ◌∷◌, some}
use dytor.Queue.Laws.{send_all, recv_times, recv_times-send_all}

recv_times-send_all_example :
    recv_times {A = ℕ} 3 (send_all (9 ∷ []) (1 ∷ 2 ∷ 3 ∷ [])) ≡ some (3 ∷ 2 ∷ 1 ∷ [], 9 ∷ [])
recv_times-send_all_example = recv_times-send_all (1 ∷ 2 ∷ 3 ∷ []) (9 ∷ [])
