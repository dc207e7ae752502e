-- ===== src/Router/Loop.antt =====
-- Chapter2.go, `runChapter2`: the start, and the endless loop around `EpollWait`, round by round.
use Prim.Native.String.{String}
use go_software_router.Prelude.{ℕ, List, [], ◌∷◌, ◌≡◌, ok}
use go_software_router.Router.State.{Router, Sendto, M, ◌>>◌, stop, log_fatal}
use go_software_router.Router.Frames.{Received, handle_event}
use go_software_router.Router.Setup.{Interface, initial, start}

-- One element of `events[:nfds]`: a descriptor, and what `Recvfrom` gives at the device of each position.
pub record Event : Type 0 where
  pub fd : ℕ
  pub received : ℕ → Received

-- What one call of `EpollWait` gives: EINTR, another error, or ready descriptors.
pub data Wait : Type 0 where
  interrupted wait_failed : Wait
  ready : List Event → Wait

module _ (sendto : Sendto) (mode : String) where
  unfoldable pub handle_events : List Event → M (Unit {0})
  unfolding handle_event
  handle_events [] = stop
  handle_events (e ∷ rest) = handle_event sendto mode e.fd e.received >> handle_events rest

  -- One round of the loop.
  unfoldable pub wait_round : Wait → M (Unit {0})
  unfolding handle_events
  wait_round interrupted = stop
  wait_round wait_failed = log_fatal
  wait_round (ready events) = handle_events events

  -- The states in which the loop waits, after the start on the given interfaces.
  pub data Reach (netifs : List Interface) : Router → Type 0 where
    started : (r : Router) → start mode netifs initial ≡ ok (tt, r) → Reach netifs r
    waited :
        {r : Router} (w : Wait) (s : Router)
        → Reach netifs r
        → wait_round w r ≡ ok (tt, s)
        → Reach netifs s
