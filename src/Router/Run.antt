-- ===== src/Router/Run.antt =====
-- Handlers that succeed, step by step, and the frame that a device sends.
use go_software_router.Prelude.{
  ℕ, ◌≡◌, refl, ap, ◌∙◌, List, [], ◌∷◌, ◌++◌, some, Bool, true, false, Result, ok, crash, get_elem?,
  get_elem?_found, get_elem?-append_front, if◌then◌else◌,
}
use go_software_router.Device.{Mac, NetDevice}
use go_software_router.Router.State.{Router, Frame, Sendto, M, lift, ◌>>=◌, deref, fetched}
use go_software_router.Router.Output.{header_to_packet, ethernet_output, net_device_transmit}

-- The frame in which a device sends a payload to a station.
abbrev pub frame_of : NetDevice → Mac → ℕ → List ℕ → Frame
frame_of d mac eth_type payload = record {
  socket = d.socket;
  sockaddr = d.sockaddr;
  bytes =
      header_to_packet (record { dest_addr = mac; src_addr = d.macaddr; ether_type = eth_type })
      ++ payload;
}

-- A step that succeeds hands its result and its state to the rest.
pub run :
    {A B : Type 0} (m : M A) (f : A → M B) {a : A} {r r' : Router}
    → m r ≡ ok (a, r')
    → (m >>= f) r ≡ f a r'
run m f e = ap (λ x. elim x [ crash c ↦ crash c | ok (a, r') ↦ f a r' ]) e

pub run_if :
    {A : Type 0} {b : Bool} (m n : M A) (r : Router) → b ≡ true → (if b then m else n) r ≡ m r
run_if m n r e = ap (λ c. (if c then m else n) r) e

pub run_else :
    {A : Type 0} {b : Bool} (m n : M A) (r : Router) → b ≡ false → (if b then m else n) r ≡ n r
run_else m n r e = ap (λ c. (if c then m else n) r) e

pub run_lift : {A : Type 0} {x : Result A} {a : A} (r : Router) → x ≡ ok a → lift x r ≡ ok (a, r)
run_lift r e = ap (λ y. lift y r) e

pub deref-some :
    (i : ℕ) (d : NetDevice) (r : Router)
    → get_elem? r.net_device_list i ≡ some d
    → deref (some i) r ≡ ok (d, r)
unfolding deref
deref-some i d r at_i =
    let found = get_elem?_found r.net_device_list i at_i in
    ap (fetched r) (get_elem?-append_front r.net_device_list r.copies i found ∙ at_i)

module _ (sendto : Sendto) where
  transmit_lem :
      (d : NetDevice) (bs : List ℕ) (r : Router)
      → let f : Frame = record { socket = d.socket; sockaddr = d.sockaddr; bytes = bs } in
        sendto r.sent f ≡ true
        → net_device_transmit sendto d bs r ≡ ok (true, record r { sent = r.sent ++ f ∷ [] })
  unfolding net_device_transmit
  transmit_lem d bs r taken = rw taken refl

  pub ethernet_output_lem :
      (i : ℕ) (d : NetDevice) (mac : Mac) (bs : List ℕ) (t : ℕ) (r : Router)
      → get_elem? r.net_device_list i ≡ some d
      → sendto r.sent (frame_of d mac t bs) ≡ true
      → ethernet_output sendto (some i) mac bs t r
        ≡ ok (tt, record r { sent = r.sent ++ frame_of d mac t bs ∷ [] })
  unfolding ethernet_output
  ethernet_output_lem i d mac bs t r at_i taken =
      run (deref (some i)) _ (deref-some i d r at_i)
      ∙ run (net_device_transmit sendto d (frame_of d mac t bs).bytes) _ (transmit_lem d _ r taken)
