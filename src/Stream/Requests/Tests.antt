-- ===== src/Stream/Requests/Tests.antt =====
-- A stream with requests, and the theorems about it.
use uni_event.Base.{◌≡◌, refl, true, none, some, [], ◌∷◌, arith, ◌++◌}
use Prim.Native.Nat.{bit_and}
use uni_event.Stream.{
  create, has, raise, lower, connect_flags, wantread, try_read_start, begin_reading,
  set_connect_result, add_sizes, sub_sizes, write_queued, write_exec, dontread_bit,
}
use uni_event.Stream.Flags.{sound}
use uni_event.Stream.Requests.{
  connect_exec, shutdown_exec, Requests, Req, connect_request, write_request, disconnect_request,
  timed_out, fresh, after_start, exec, started, resume, push, connect, write, disconnect, left,
  read_error, connect_event, connected, happened, complete, shutdown, told, skipped,
}
use uni_event.Stream.Requests.Steps.{Reach}
use uni_event.Stream.Requests.Moves.{IsStarted}
use uni_event.Stream.Requests.Front.{Reach-IsStarted}
use uni_event.Stream.Requests.Sizes.{Reach-IsCounted}
use uni_event.Stream.Requests.Sums.{IsCounted}
use uni_event.Stream.Requests.Answers.{InOrder, Reach-InOrder}
use uni_event.Stream.Requests.Failure.{IsIdle, all_told, complete-failed}
use uni_event.Stream.Requests.Forgotten.{complete-wraps}

-- A stream that connects, and has a write and a shutdown behind that.
connecting : Requests
unfolding fresh create connect write shutdown write_queued add_sizes push exec connect_exec
    shutdown_exec started raise
connecting = shutdown 2 (write 1 (3 ∷ 4 ∷ []) (connect 0 fresh))

connecting-Reach : Reach (0 ∷ 1 ∷ 2 ∷ []) connecting
unfolding connecting
connecting-Reach = Reach.shuts 2 (Reach.writes 1 (3 ∷ 4 ∷ []) (Reach.connects 0 Reach.created))

connecting-queue :
    connecting.queue
    ≡ connect_request 0 ∷ write_request 1 (3 ∷ 4 ∷ []) ∷ Req.shutdown_request 2 ∷ []
unfolding connecting
connecting-queue = refl

connecting-sound : sound connecting.stream.flags ≡ true
unfolding connecting has
connecting-sound = refl

complete-failed_example :
    IsIdle
      (connecting.answered
        ++ (0, some timed_out)
          ∷ all_told (write_request 1 (3 ∷ 4 ∷ []) ∷ Req.shutdown_request 2 ∷ []))
      (bit_and connecting.stream.flags dontread_bit)
      (complete (some timed_out) none connecting)
complete-failed_example =
    complete-failed 0 (write_request 1 (3 ∷ 4 ∷ []) ∷ Req.shutdown_request 2 ∷ []) timed_out none
      connecting connecting-queue connecting-sound

-- The connect succeeds.
joined : Requests
unfolding connecting complete happened connected connect_event set_connect_result connect_flags
    wantread begin_reading try_read_start read_error left told skipped resume exec connect_exec
    shutdown_exec started write_exec sub_sizes after_start has raise lower
joined = complete none none connecting

joined-Reach : Reach (0 ∷ 1 ∷ 2 ∷ []) joined
unfolding joined
joined-Reach = Reach.reports none none refl connecting-Reach

Reach-IsStarted_example : IsStarted joined
Reach-IsStarted_example = Reach-IsStarted joined-Reach

Reach-IsCounted_example : IsCounted joined
Reach-IsCounted_example = Reach-IsCounted joined-Reach

Reach-InOrder_example : InOrder (0 ∷ 1 ∷ 2 ∷ []) joined
Reach-InOrder_example = Reach-InOrder joined-Reach

-- A stream that is connected, and writes, disconnects, connects and writes again.
connected_once : Requests
unfolding fresh create connect push exec connect_exec shutdown_exec started complete happened
    connected connect_event set_connect_result connect_flags wantread begin_reading try_read_start
    read_error left told skipped resume has raise lower
connected_once = complete none none (connect 0 fresh)

again : Requests
unfolding connected_once write disconnect connect push exec connect_exec shutdown_exec started
    write_queued add_sizes write_exec sub_sizes after_start has
again = write 3 (7 ∷ []) (connect 2 (disconnect (write 1 (5 ∷ []) connected_once)))

again-Reach : Reach (0 ∷ 1 ∷ 2 ∷ 3 ∷ []) again
unfolding again connected_once
again-Reach = Reach.writes 3 (7 ∷ []) (
    Reach.connects 2 (
      Reach.disconnects
        (Reach.writes 1 (5 ∷ []) (Reach.reports none none refl (Reach.connects 0 Reach.created)))))

again-queue :
    again.queue
    ≡ write_request 1 (5 ∷ [])
      ∷ disconnect_request
      ∷ connect_request 2
      ∷ write_request 3 (7 ∷ [])
      ∷ []
unfolding again
again-queue = refl

complete-wraps_example :
    let u = complete none none (complete none none again) in
    (u.queue ≡ write_request 3 (7 ∷ []) ∷ []) × (u.stream.wq_size ≡ 18446744073709551609)
complete-wraps_example =
    complete-wraps 1 2 3 (5 ∷ []) (7 ∷ []) [] none again again-Reach again-queue (omega arith)
      (omega arith)
