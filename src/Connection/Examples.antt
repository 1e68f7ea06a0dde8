-- ===== src/Connection/Examples.antt =====
-- An approval that comes too late.
use oncm.Prelude.{◌≡◌, refl, true, some}
use oncm.Connection.{
  State, initial, request, expire, answer, result, rejected, fulfilled, ended, is_waiting, here,
  next, answers, requests,
}
use oncm.Connection.Closed.{Ended, timeout_ends}

abbrev asking : State
asking = (request 2 (request 1 initial).0).0

in_time : (answer (result 9) 1 asking).1 ≡ some (fulfilled 9)
unfolding request answer
in_time = refl

too_late : (answer (result 9) 1 (expire 2 asking).0).1 ≡ some (rejected ended)
unfolding request answer expire
too_late = refl

waits : is_waiting 2 asking.waiting ≡ true
unfolding request
waits = refl

timeout_ends_example : Ended asking (request 3 (answer (result 9) 1 (expire 2 asking).0).0).0
timeout_ends_example =
    timeout_ends asking 2 waits (next (next here (answers (result 9) 1)) (requests 3))
