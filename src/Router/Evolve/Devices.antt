-- ===== src/Router/Evolve/Devices.antt =====
-- Reads and writes of a device, as steps that keep to the relation.
use mathlib.Core.List.{append-nil}
use go_software_router.Prelude.{
  ℕ, zero, suc, ◌-◌, ◌≤◌, List, [], ◌∷◌, ◌++◌, map, Option, none, some, Result, ok, crash, panic,
  ◌≡◌, refl, sym, ap, ◌∙◌, set, get_elem?, length, All-append, All-set, All-get_elem?, arith,
  get_elem?-append_front, get_elem?-append_back, lt→ltb, ltb-false, dec_lt,
}
use go_software_router.Device.{NetDevice, EthernetHeader}
use go_software_router.Router.State.{Router, M, ◌>>=◌, ◌>>◌, lift, deref, fetched, store}
use go_software_router.Router.Sound.{NatRule, IsSound, DeviceUses}
use go_software_router.Router.Evolve.{
  configuration, Evolves-refl, After, done, crashed, Keeps, After-bind,
}

-- What follows a read of a device may use what the rule asks of the device.
pub Keeps-after_deref :
    {o : NatRule} {A : Type 0} (p : Option ℕ) {f : NetDevice → M A}
    → ((d : NetDevice) → DeviceUses o d → Keeps o (f d))
    → Keeps o (deref p >>= f)
unfolding deref
Keeps-after_deref none k = record { after = λ r w. crashed panic }
Keeps-after_deref {o} {A} (some i) {f} k = record {
  after = λ r w. go r w (get_elem? (r.net_device_list ++ r.copies) i) refl;
}
  where
    go :
        (r : Router)
        → IsSound o r
        → (x : Option NetDevice) → get_elem? (r.net_device_list ++ r.copies) i ≡ x
        → After o r (◌>>=◌ (λ s. fetched r x) f r)
    go r w none e = crashed panic
    go r w (some d) e =
        let all = All-append (DeviceUses o) r.net_device_list r.copies w.listed w.copied in
        (k d (All-get_elem? (DeviceUses o) (r.net_device_list ++ r.copies) i d all e)).after r w

pub Keeps-deref : {o : NatRule} (p : Option ℕ) → Keeps o (deref p)
unfolding deref
Keeps-deref none = record { after = λ r w. crashed panic }
Keeps-deref {o} (some i) = record {
  after = λ r w. go r w (get_elem? (r.net_device_list ++ r.copies) i);
}
  where
    go : (r : Router) → IsSound o r → (x : Option NetDevice) → After o r (fetched r x)
    go r w none = crashed panic
    go r w (some d) = done d r (Evolves-refl r) w

-- A new frame header at a device changes no configuration.
map-set :
    (l : List NetDevice) (i : ℕ) (d : NetDevice) (h : EthernetHeader)
    → get_elem? l i ≡ some d
    → map configuration (set l i (record d { ethe_header = h })) ≡ map configuration l
map-set [] i d h e = refl
map-set (x ∷ l) zero d h e =
    let same : x ≡ d = cc in ap (λ c. configuration c ∷ map configuration l) (sym same)
map-set (x ∷ l) (suc i) d h e = ap (◌∷◌ (configuration x)) (map-set l i d h e)

-- A device gets a header.
store-After :
    {o : NatRule} (i : ℕ) (d : NetDevice) (h : EthernetHeader) (r : Router)
    → IsSound o r
    → get_elem? (r.net_device_list ++ r.copies) i ≡ some d
    → After o r (store i (record d { ethe_header = h }) r)
unfolding store
store-After {o} i d h r w e =
    let d' : NetDevice = record d { ethe_header = h } in
    let all = All-append (DeviceUses o) r.net_device_list r.copies w.listed w.copied in
    let mine : DeviceUses o d' =
      All-get_elem? (DeviceUses o) (r.net_device_list ++ r.copies) i d all e in
    elim (dec_lt i (length r.net_device_list)) [
      | yes front ↦ rw (lt→ltb i (length r.net_device_list) front) (
          done tt (record r { net_device_list = set r.net_device_list i d' })
            (record {
              same_routes = refl;
              same_devices =
                  map-set r.net_device_list i d h
                    (sym (get_elem?-append_front r.net_device_list r.copies i front) ∙ e);
              same_copies = refl;
              new_frames = [];
              history = sym (append-nil r.sent);
            })
            (record {
              unique = w.unique;
              tables = w.tables;
              listed = All-set (DeviceUses o) r.net_device_list i d' w.listed mine;
              copied = w.copied;
            }))
      | no back ↦
          let behind : length r.net_device_list ≤ i = omega (arith, back) in
          rw (ltb-false i (length r.net_device_list) behind) (
            done tt (record r { copies = set r.copies (i - length r.net_device_list) d' })
              (record {
                same_routes = refl;
                same_devices = refl;
                same_copies =
                    map-set r.copies (i - length r.net_device_list) d h
                      (sym (get_elem?-append_back r.net_device_list r.copies i behind) ∙ e);
                new_frames = [];
                history = sym (append-nil r.sent);
              })
              (record {
                unique = w.unique;
                tables = w.tables;
                listed = w.listed;
                copied =
                    All-set (DeviceUses o) r.copies (i - length r.net_device_list) d' w.copied mine;
              }))
    ]

-- The device at a position gets a header, and a handler that keeps to the relation goes on.
pub Keeps-store :
    {o : NatRule} {A : Type 0} (i : ℕ) (x : Result EthernetHeader)
    (k : NetDevice → EthernetHeader → M A)
    → ((d : NetDevice) (h : EthernetHeader) → Keeps o (k d h))
    → Keeps o
        (deref (some i) >>= λ d. lift x >>= λ h. store i (record d { ethe_header = h }) >> k d h)
unfolding deref
Keeps-store {o} {A} i x k keep = record {
  after = λ r w. go r w (get_elem? (r.net_device_list ++ r.copies) i) refl x;
}
  where
    rest : NetDevice → Result EthernetHeader → M A
    rest d y = lift y >>= λ h. store i (record d { ethe_header = h }) >> k d h

    go :
        (r : Router)
        → IsSound o r
        → (z : Option NetDevice) → get_elem? (r.net_device_list ++ r.copies) i ≡ z
        → (y : Result EthernetHeader) → After o r (◌>>=◌ (λ s. fetched r z) (λ d. rest d y) r)
    go r w none e y = crashed panic
    go r w (some d) e (crash c) = crashed c
    go r w (some d) e (ok h) =
        After-bind (store i (record d { ethe_header = h }) r) (λ _. k d h) (store-After i d h r w e)
          (λ _. keep d h)
