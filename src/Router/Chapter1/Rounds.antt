-- ===== src/Router/Chapter1/Rounds.antt =====
-- Chapter1.go: the rounds of its loop, and what `main` does in the mode "ch1".
use go_software_router.Prelude.{
  ℕ, ◌+◌, ◌-◌, ◌≡◌, refl, ap, ◌∙◌, List, [], ◌∷◌, ◌++◌, some, Bool-cases, inl, inr, Result, ok,
  crash, ◌==◌, length, get_elem?, get_elem?-append_back, All, arith, u32,
}
use go_software_router.Prelude.Int.{pos, negsuc}
use go_software_router.Device.{NetDevice, is_ignore_interfaces}
use go_software_router.Router.State.{Router, Sendto, M}
use go_software_router.Router.Frames.{Received, bytes, failed, net_device_poll}
use go_software_router.Router.Setup.{Interface, initial}
use go_software_router.Router.Loop.{Event, Wait, interrupted, wait_failed, ready}
use go_software_router.Router.Chapter1.{
  open_devices, poll_copy, poll_copies, copies_events, copies_round, main_start, main_round, Waits,
  began, went_on,
}
use go_software_router.Router.Chapter1.Quiet.{EndsQuiet, quiet, gave_up, ethernet_input-EndsQuiet}

-- The state with other copies.
more_copies :
    (r : Router) (copies : List NetDevice) (x : Result (Unit {0} × Router))
    → EndsQuiet (record r { copies = copies }) x
    → EndsQuiet r x
more_copies r copies x (quiet cs) = quiet cs
more_copies r copies x gave_up = gave_up

last_copy :
    {A : Type 0} (xs ys : List A) (y : A)
    → get_elem? (xs ++ (ys ++ y ∷ [])) (length xs + length ys) ≡ some y
last_copy xs ys y =
    let none_left : length xs + length ys - length xs - length ys ≡ 0 = omega arith in
    get_elem?-append_back xs (ys ++ y ∷ []) (length xs + length ys) (omega arith)
    ∙ (get_elem?-append_back ys (y ∷ []) (length xs + length ys - length xs) (omega arith)
        ∙ ap (get_elem? (y ∷ [])) none_left)

module _ (sendto : Sendto) where
  poll_copy-EndsQuiet :
      (d : NetDevice) (x : Received) (r : Router)
      → d.ipdev.address ≡ 0
      → EndsQuiet r (poll_copy sendto d x r)
  unfolding poll_copy net_device_poll
  poll_copy-EndsQuiet d (failed (pos n)) r h = gave_up
  poll_copy-EndsQuiet d (failed (negsuc n)) r h = elim (Bool-cases (n == 0)) [
    | inl ignored ↦ rw ignored (quiet (r.copies ++ d ∷ []))
    | inr other ↦ rw other gave_up
  ]
  poll_copy-EndsQuiet d (bytes bs) r h =
      let i = length r.net_device_list + length r.copies in
      more_copies r (r.copies ++ d ∷ []) _ (
        ethernet_input-EndsQuiet sendto i d bs (record r { copies = r.copies ++ d ∷ [] }) h
          (last_copy r.net_device_list r.copies d) (omega arith))

  then-EndsQuiet :
      (m : M (Unit {0})) (r : Router) (x : Result (Unit {0} × Router))
      → EndsQuiet r x
      → ((s : Router) → EndsQuiet s (m s))
      → EndsQuiet r (elim x [ crash c ↦ crash c | ok (u, s) ↦ m s ])
  then-EndsQuiet m r x (quiet cs) k =
      more_copies r cs (m (record r { copies = cs })) (k (record r { copies = cs }))
  then-EndsQuiet m r x gave_up k = gave_up

  poll_copies-EndsQuiet :
      (fd : ℕ) (received : ℕ → Received) (i : ℕ) (l : List NetDevice) (r : Router)
      → All (λ (d : NetDevice). d.ipdev.address ≡ 0) l
      → EndsQuiet r (poll_copies sendto fd received i l r)
  unfolding poll_copies
  poll_copies-EndsQuiet fd received i [] r h = quiet r.copies
  poll_copies-EndsQuiet fd received i (d ∷ l) r h = elim (Bool-cases (fd == u32 d.socket)) [
    | inl hit ↦ rw hit (
        then-EndsQuiet (poll_copies sendto fd received (i + 1) l) r
          (poll_copy sendto d (received i) r) (poll_copy-EndsQuiet d (received i) r h.0)
          (λ s. poll_copies-EndsQuiet fd received (i + 1) l s h.1))
    | inr other ↦ rw other (poll_copies-EndsQuiet fd received (i + 1) l r h.1)
  ]

  copies_events-EndsQuiet :
      (l : List NetDevice) (events : List Event) (r : Router)
      → All (λ (d : NetDevice). d.ipdev.address ≡ 0) l
      → EndsQuiet r (copies_events sendto l events r)
  unfolding copies_events
  copies_events-EndsQuiet l [] r h = quiet r.copies
  copies_events-EndsQuiet l (e ∷ events) r h =
      then-EndsQuiet (copies_events sendto l events) r (poll_copies sendto e.fd e.received 0 l r)
        (poll_copies-EndsQuiet e.fd e.received 0 l r h) (λ s. copies_events-EndsQuiet l events s h)

open_devices-All :
    (netifs : List Interface) → All (λ (d : NetDevice). d.ipdev.address ≡ 0) (open_devices netifs)
unfolding open_devices
open_devices-All [] = tt
open_devices-All (netif ∷ rest) = elim (Bool-cases (is_ignore_interfaces netif.name)) [
  | inl skipped ↦ rw skipped (open_devices-All rest)
  | inr taken ↦ rw taken (refl, open_devices-All rest)
]

-- A round of Chapter 1 on the devices of any interfaces, from any state, whatever the sockets and `EpollWait` give,
-- does not panic: it ends the program by log.Fatal, or it leaves the state as it is but for the copies. No frame
-- is sent, and no ARP entry is made.
pub copies_round-EndsQuiet :
    (sendto : Sendto) (netifs : List Interface) (w : Wait) (r : Router)
    → EndsQuiet r (copies_round sendto (open_devices netifs) w r)
unfolding copies_round
copies_round-EndsQuiet sendto netifs interrupted r = gave_up
copies_round-EndsQuiet sendto netifs wait_failed r = gave_up
copies_round-EndsQuiet sendto netifs (ready events) r =
    copies_events-EndsQuiet sendto (open_devices netifs) events r (open_devices-All netifs)

EndsQuiet-ok :
    (r s : Router) (x : Result (Unit {0} × Router))
    → EndsQuiet r x
    → x ≡ ok (tt, s)
    → (copies : List NetDevice) × (s ≡ record r { copies = copies })
EndsQuiet-ok r s x (quiet cs) e = (cs, cc)
EndsQuiet-ok r s x gave_up e = cc

-- In every state in which `main` waits in the mode "ch1", on any interfaces and after any rounds, no frame was sent and
-- the globals are as they were before `main`: no devices, no ARP entries, no routes and no NAT tables.
pub Waits-ch1 :
    (sendto : Sendto) (netifs : List Interface) (r : Router)
    → Waits sendto "ch1" netifs r
    → (copies : List NetDevice) × (r ≡ record initial { copies = copies })
unfolding main_start main_round
Waits-ch1 sendto netifs r (began s e) = ([], cc)
Waits-ch1 sendto netifs r (went_on {r = before} w s waits e) =
    let (cs, same) = Waits-ch1 sendto netifs before waits in
    let (cs', next) =
      EndsQuiet-ok before s (copies_round sendto (open_devices netifs) w before)
        (copies_round-EndsQuiet sendto netifs w before) e in
    (cs', next ∙ ap (λ (q : Router). record q { copies = cs' }) same)
