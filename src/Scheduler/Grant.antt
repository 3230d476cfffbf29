-- ===== src/Scheduler/Grant.antt =====
-- fifo.go: admission, and the grants that give a reservation back. `none` is the panic of release.
use llemon_swap.Base.{
  ◌+◌, ◌-◌, String, Bool, true, false, not, Option, none, some, ◌>>=◌, leb, update, if◌then◌else◌,
}
use llemon_swap.Scheduler.State.{
  Error, concurrency_limit, HandlerReq, Effects, admission, grant_serve, grant_error, Config, Fifo,
  limit, emit,
}

unfoldable pub release : String → Fifo → Option Fifo
release m s =
    if leb (s.reserved m) 0
    then none
    else some (record s { reserved = update s.reserved m (s.reserved m - 1) })

-- The reservation of an admitted request.
abbrev pub reserve : String → Bool × Fifo → Bool × Fifo
reserve m (taken, s) =
    if taken
    then (true, record s { reserved = update s.reserved m (s.reserved m + 1) })
    else (false, s)

module _ (eff : Effects) where
  -- sendAdmission: whether the caller took the answer, and the state after the send.
  unfoldable pub send_admission : HandlerReq → Option Error → Fifo → Bool × Fifo
  send_admission req err s =
      if not req.has_admit
      then (true, s)
      else if eff.is_done s.trace req
      then (false, s)
      else if eff.takes_admission s.trace req
      then (true, emit (admission req.respond err) s)
      else (false, s)

  unfoldable pub reject_admission : HandlerReq → Error → Fifo → Fifo
  unfolding send_admission
  reject_admission req err s = (send_admission req (some err) s).1

  unfoldable pub admit : Config → HandlerReq → Fifo → Bool × Fifo
  unfolding reject_admission send_admission limit
  admit cfg req s =
      if leb (limit cfg req.model) (s.reserved req.model)
      then (false, reject_admission req concurrency_limit s)
      else reserve req.model (send_admission req none s)

  unfoldable pub grant_handler : HandlerReq → String → Fifo → Option Fifo
  unfolding release
  grant_handler req m s =
      let taken = eff.takes_grant s.trace req m in
      let s' = emit (grant_serve req.respond m taken) s in
      if taken
      then some (record s' { in_flight = update s'.in_flight m (s'.in_flight m + 1) })
      else release m s'

  unfoldable pub grant_failure : HandlerReq → Error → Fifo → Option Fifo
  unfolding release
  grant_failure req err s = do
    s' ← release req.model s
    some (emit (grant_error req.respond err) s')
