-- ===== src/Router/Evolve.antt =====
-- The relation between the states before and after a handler, and the rules by which a handler keeps to it.
pub mod Devices
use mathlib.Core.List.{append-nil, append_assoc}
use go_software_router.Prelude.{
  ℕ, zero, suc, ◌+◌, ◌-◌, ◌≤◌, ◌<◌, List, [], ◌∷◌, ◌++◌, map, Option, none, some, Bool, true, false,
  Result, ok, Crash, crash, panic, fatal, ◌≡◌, refl, sym, ap, ◌∙◌, inl, inr, if◌then◌else◌, set,
  get_elem?, length, ltb, All, All-append, All-set, All-get_elem?, arith, Bool-cases,
  get_elem?-append_front, get_elem?-append_back, get_elem?_found, lt→ltb, ltb-false, dec_lt,
}
use go_software_router.Device.{Mac, NetDevice, EthernetHeader, zero_mac}
use go_software_router.Arp.{add_arp_table_entry}
use go_software_router.Arp.Table.{HasUniqueAddresses, add_arp_table_entry-HasUniqueAddresses}
use go_software_router.Router.State.{
  Router, Frame, M, pure, ◌>>=◌, ◌>>◌, lift, log_fatal, get, deref, fetched, store, add_arp,
  search_arp,
}
use go_software_router.Router.Sound.{NatRule, IsSound, DeviceUses}

-- A device but for the header of its last frame.
abbrev pub configuration : NetDevice → NetDevice
configuration d = record d {
  ethe_header = record { dest_addr = zero_mac; src_addr = zero_mac; ether_type = 0 };
}

pub record Evolves (r r' : Router) : Type 0 where
  pub same_routes : r'.iproute ≡ r.iproute
  pub same_devices : map configuration r'.net_device_list ≡ map configuration r.net_device_list
  pub same_copies : map configuration r'.copies ≡ map configuration r.copies
  pub new_frames : List Frame
  pub history : r'.sent ≡ r.sent ++ new_frames

pub Evolves-refl : (r : Router) → Evolves r r
Evolves-refl r = record {
  same_routes = refl;
  same_devices = refl;
  same_copies = refl;
  new_frames = [];
  history = sym (append-nil r.sent);
}

pub Evolves-trans : {r s t : Router} → Evolves r s → Evolves s t → Evolves r t
Evolves-trans {r} p q = record {
  same_routes = q.same_routes ∙ p.same_routes;
  same_devices = q.same_devices ∙ p.same_devices;
  same_copies = q.same_copies ∙ p.same_copies;
  new_frames = p.new_frames ++ q.new_frames;
  history =
      q.history
      ∙ (ap (λ l. l ++ q.new_frames) p.history ∙ append_assoc r.sent p.new_frames q.new_frames);
}

-- A handler that ends in a sound state which evolved from `r`, or ends the program.
pub data After {A : Type 0} (rule : NatRule) (r : Router) : Result (A × Router) → Type 0 where
  done : (a : A) (r' : Router) → Evolves r r' → IsSound rule r' → After rule r (ok (a, r'))
  crashed : (c : Crash) → After rule r (crash c)

-- From every sound state the handler ends so.
pub record Keeps {A : Type 0} (rule : NatRule) (m : M A) : Type 0 where
  pub after : (r : Router) → IsSound rule r → After rule r (m r)

weaken :
    {o : NatRule} {A : Type 0} {r s : Router} (x : Result (A × Router))
    → Evolves r s
    → After o s x
    → After o r x
weaken x p (done a t q w) = done a t (Evolves-trans p q) w
weaken x p (crashed c) = crashed c

pub After-bind :
    {o : NatRule} {A B : Type 0} {r : Router} (x : Result (A × Router)) (f : A → M B)
    → After o r x
    → ((a : A) → Keeps o (f a))
    → After o r (elim x [ crash c ↦ crash c | ok (a, r') ↦ f a r' ])
After-bind x f (done a r' p w) k = weaken (f a r') p ((k a).after r' w)
After-bind x f (crashed c) k = crashed c

pub Keeps-pure : {o : NatRule} {A : Type 0} (a : A) → Keeps o (pure a)
Keeps-pure a = record { after = λ r w. done a r (Evolves-refl r) w }

pub Keeps-get : {o : NatRule} → Keeps o get
Keeps-get = record { after = λ r w. done r r (Evolves-refl r) w }

pub Keeps-log_fatal : {o : NatRule} {A : Type 0} → Keeps o (log_fatal {A = A})
Keeps-log_fatal = record { after = λ r w. crashed fatal }

pub Keeps-lift : {o : NatRule} {A : Type 0} (x : Result A) → Keeps o (lift x)
Keeps-lift (ok a) = Keeps-pure a
Keeps-lift (crash c) = record { after = λ r w. crashed c }

pub Keeps-bind :
    {o : NatRule} {A B : Type 0} {m : M A} {f : A → M B}
    → Keeps o m
    → ((a : A) → Keeps o (f a))
    → Keeps o (m >>= f)
Keeps-bind {m} {f} k l = record { after = λ r w. After-bind (m r) f (k.after r w) l }

pub Keeps-if :
    {o : NatRule} {A : Type 0} (b : Bool) {m n : M A}
    → Keeps o m
    → Keeps o n
    → Keeps o (if b then m else n)
Keeps-if true k l = k
Keeps-if false k l = l

pub Keeps-option :
    {o : NatRule} {A B : Type 0} (x : Option B) {m : M A} {f : B → M A}
    → Keeps o m
    → ((b : B) → Keeps o (f b))
    → Keeps o (elim x [ none ↦ m | some b ↦ f b ])
Keeps-option none k l = k
Keeps-option (some b) k l = l b

pub Keeps-search_arp : {o : NatRule} (ip : ℕ) → Keeps o (search_arp ip)
unfolding search_arp
Keeps-search_arp ip = record { after = λ r w. done _ r (Evolves-refl r) w }

-- What follows a read of the state may use that it is sound.
pub Keeps-after_get :
    {o : NatRule} {A : Type 0} {f : Router → M A}
    → ((r : Router) → IsSound o r → Keeps o (f r))
    → Keeps o (get >>= f)
Keeps-after_get k = record { after = λ r w. (k r w).after r w }

pub Keeps-add_arp :
    {o : NatRule} (dev : Option ℕ) (ip : ℕ) (mac : Mac) → Keeps o (add_arp dev ip mac)
unfolding add_arp
Keeps-add_arp dev ip mac = record {
  after = λ r w.
      done tt (record r { arp_table = add_arp_table_entry dev ip mac r.arp_table })
        (record {
          same_routes = refl;
          same_devices = refl;
          same_copies = refl;
          new_frames = [];
          history = sym (append-nil r.sent);
        })
        (record {
          unique = add_arp_table_entry-HasUniqueAddresses dev ip mac r.arp_table w.unique;
          tables = w.tables;
          listed = w.listed;
          copied = w.copied;
        });
}
