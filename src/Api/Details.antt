-- ===== src/Api/Details.antt =====
-- What an answer to an error tells.
use ledger_ops_api.Api.Problem.{
  to_problem, from_ledger_error, from_http_exception, internal_error, ledger_status,
}
use ledger_ops_api.Common.{Failure, String, ◌≡◌, ◌&&◌, leb, false, ◌≤◌, arith}

-- Every failure of a call is answered by a status from 400 to 500, and an answer with the status 500 carries no text of the error.

pub to_problem-has_detail :
    (e : Failure) (path : String)
    → (((to_problem e path).has_detail && leb 500 (to_problem e path).status) ≡ false)
      × (400 ≤ (to_problem e path).status)
      × ((to_problem e path).status ≤ 500)
unfolding to_problem from_ledger_error from_http_exception internal_error ledger_status
to_problem-has_detail e path = ground arith
