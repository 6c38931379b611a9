-- ===== src/Bridge/Addresses/Overlap.antt =====
-- The addresses that `ensureAddr` leaves on the bridge.
use mathlib.Core.List.{Memᴰ}
use mathlib.Core.List.Memᴰ
use plugins.Prelude.{
  List, [], ◌∷◌, ◌≡◌, ◌≢◌, ◌⊎◌, inl, inr, refl, Bool, true, false, Result, ok, err, Text, any,
  if◌then◌else◌, Bool-cases, text_eq_self,
}
use plugins.Prelude.Effects.{Act, fail, continue, ◌>>=◌, ◌>>◌, >>-cases}
use plugins.Net.{IpNet}
use plugins.Links.{LinkError, Family, Link, Netlink, unless_exists}
use plugins.Bridge.Addresses.{
  conflicts, listed, same_text, delete_addr, clear_for, add_new, ensure_addr,
}

-- Netlink shows and changes the addresses of a link, of one family, as the kernel documents it.
pub record KeepsAddresses {S : Type 0} (nl : Netlink S) (net_text : IpNet → Text) (br : Link)
    (family : Family) (view : S → List IpNet) : Type 0 where
  pub list_ok :
      (s : S) (addrs : List IpNet) → (nl.addr_list br family s).0 ≡ ok addrs → addrs ≡ view s
  pub list_none : (s : S) → (nl.addr_list br family s).0 ≡ err LinkError.no_entry → view s ≡ []
  pub list_state : (s : S) → (nl.addr_list br family s).1 ≡ s
  pub add_ok :
      (s : S) (n x : IpNet)
      → (nl.addr_add br n s).0 ≡ ok tt
      → Memᴰ x (view (nl.addr_add br n s).1)
      → (x ≡ n) ⊎ Memᴰ x (view s)
  pub add_there :
      (s : S) (n : IpNet) → (nl.addr_add br n s).0 ≡ ok tt → Memᴰ n (view (nl.addr_add br n s).1)
  pub add_exists :
      (s : S) (n : IpNet) → (nl.addr_add br n s).0 ≡ err LinkError.exists → Memᴰ n (view s)
  pub add_err :
      (s : S) (n : IpNet) (e : LinkError)
      → (nl.addr_add br n s).0 ≡ err e
      → view (nl.addr_add br n s).1 ≡ view s
  pub del_ok :
      (s : S) (n x : IpNet)
      → (nl.addr_del br n s).0 ≡ ok tt
      → Memᴰ x (view (nl.addr_del br n s).1)
      → Memᴰ x (view s) × (x ≢ n)
  pub mac_view : (s : S) (mac : Text) → view (nl.set_hardware_addr br mac s).1 ≡ view s

module _ {S : Type 0} (nl : Netlink S) (net_text : IpNet → Text) (br : Link) (family : Family)
    (view : S → List IpNet) (law : KeepsAddresses nl net_text br family view) (ipn : IpNet) where
  -- An address may stay beside the one that is ensured.
  abbrev pub IsBeside : IpNet → Type 0
  IsBeside x = (x ≡ ipn) ⊎ (conflicts family ipn x ≡ false)

  abbrev IsFresh : List IpNet → Type 0
  IsFresh addrs = any (λ a. same_text nl net_text a ipn) addrs ≡ false

  -- What the loop has met may stay.
  abbrev IsCleared : List IpNet → S → Type 0
  IsCleared rest s = (x : IpNet) → Memᴰ x (view s) → Memᴰ x rest ⊎ IsBeside x

  IsCleared-skip :
      (a : IpNet) (rest : List IpNet) (s : S)
      → conflicts family ipn a ≡ false
      → IsCleared (a ∷ rest) s
      → IsCleared rest s
  IsCleared-skip a rest s free inv x m = from_either (inv x m)
    where
      met : (x ≡ a) ⊎ Memᴰ x rest → Memᴰ x rest ⊎ IsBeside x
      met (inl e) = inr (inr (rw e free))
      met (inr m') = inl m'

      from_either : Memᴰ x (a ∷ rest) ⊎ IsBeside x → Memᴰ x rest ⊎ IsBeside x
      from_either (inl m') = met (Memᴰ.cases_cons m')
      from_either (inr b) = inr b

  IsCleared-delete :
      (a : IpNet) (rest : List IpNet) (s : S)
      → (nl.addr_del br a s).0 ≡ ok tt
      → IsCleared (a ∷ rest) s
      → IsCleared rest (nl.addr_del br a s).1
  IsCleared-delete a rest s h inv x m =
      let (m', other) = law.del_ok s a x h m in from_either other (inv x m')
    where
      met : x ≢ a → (x ≡ a) ⊎ Memᴰ x rest → Memᴰ x rest ⊎ IsBeside x
      met other (inl e) = elim (other e) [ ]
      met other (inr m') = inl m'

      from_either : x ≢ a → Memᴰ x (a ∷ rest) ⊎ IsBeside x → Memᴰ x rest ⊎ IsBeside x
      from_either other (inl m') = met other (Memᴰ.cases_cons m')
      from_either other (inr b) = inr b

  -- A loop that ends without an error has met no address with the text, and has left those beside it.
  abbrev IsDone : Bool → Act LinkError S Bool → S → Type 0
  IsDone b m s = (m s).0 ≡ ok b → (b ≡ false) × IsCleared [] (m s).1

  delete-IsDone :
      (a : IpNet) (addrs : List IpNet) (b : Bool) (m : Act LinkError S Bool)
      → ((s : S) → IsCleared addrs s → IsDone b m s)
      → (s : S) → IsCleared (a ∷ addrs) s
      → IsDone b (delete_addr nl net_text br a >> m) s
  delete-IsDone a addrs b m hm s inv h = from_either (>>-cases (delete_addr nl net_text br a) m s)
    where
      from_either :
          ((u : Unit {0}) × ((nl.addr_del br a s).0 ≡ ok u)
              × ((delete_addr nl net_text br a >> m) s ≡ m (nl.addr_del br a s).1))
            ⊎ ((e : LinkError) × ((nl.addr_del br a s).0 ≡ err e)
                × ((delete_addr nl net_text br a >> m) s ≡ (err e, (nl.addr_del br a s).1)))
          → (b ≡ false) × IsCleared [] ((delete_addr nl net_text br a >> m) s).1
      from_either (inl (u, gone, next)) =
          rw next (hm (nl.addr_del br a s).1 (IsCleared-delete a addrs s gone inv) (rw next at h))
      from_either (inr (e, gone, next)) = let h' = rw next at h in cc

  force-IsDone :
      (force : Bool) (b : Bool) (m : Act LinkError S Bool) (s : S)
      → IsDone b m s
      → IsDone b (if force then m else fail LinkError.other_address) s
  force-IsDone true b m s hm = hm
  force-IsDone false b m s hm = λ h. cc

  clear_for-IsDone :
      (force : Bool) (addrs : List IpNet) (b : Bool)
      → IsFresh addrs
      → (s : S) → IsCleared addrs s
      → IsDone b (clear_for nl net_text br family ipn force addrs) s
  unfolding clear_for
  clear_for-IsDone force [] b fresh s inv = λ h. (cc, inv)
  clear_for-IsDone force (a ∷ addrs) b fresh s inv =
      elim (Bool-cases (same_text nl net_text a ipn)) [
        | inl e ↦ let no = rw e at fresh in cc
        | inr e ↦ elim (Bool-cases (conflicts family ipn a)) [
          | inl c ↦
              rw (e, c)
                (force-IsDone force b _ s (
                  delete-IsDone a addrs b _ (clear_for-IsDone force addrs b (rw e at fresh)) s inv))
          | inr c ↦
              rw (e, c)
                (clear_for-IsDone force addrs b (rw e at fresh) s (IsCleared-skip a addrs s c inv))
        ]
      ]

  -- After an action that succeeds the address is there, and every address is one that may stay.
  abbrev pub LeavesBeside : Result LinkError (Unit {0}) × S → Type 0
  LeavesBeside c =
      c.0 ≡ ok tt → Memᴰ ipn (view c.1) × ((x : IpNet) → Memᴰ x (view c.1) → IsBeside x)

  stays : (s : S) (x : IpNet) → IsCleared [] s → Memᴰ x (view s) → IsBeside x
  stays s x inv m = elim (inv x m) [ inl none_left ↦ elim (Memᴰ.not-nil none_left) [ ] | inr b ↦ b ]

  abbrev add_from : Result LinkError (Unit {0}) × S → Result LinkError (Unit {0}) × S
  add_from c =
      continue (unless_exists c.0 c.1).0 (λ u. nl.set_hardware_addr br br.hardware_addr)
        (unless_exists c.0 c.1).1

  add_from-LeavesBeside :
      (s : S) (c : Result LinkError (Unit {0}) × S)
      → (c.0 ≡ ok tt → (x : IpNet) → Memᴰ x (view c.1) → (x ≡ ipn) ⊎ Memᴰ x (view s))
      → (c.0 ≡ ok tt → Memᴰ ipn (view c.1))
      → (c.0 ≡ err LinkError.exists → Memᴰ ipn (view s))
      → ((e : LinkError) → c.0 ≡ err e → view c.1 ≡ view s)
      → IsCleared [] s
      → LeavesBeside (add_from c)
  add_from-LeavesBeside s (ok tt, s') hok there met herr inv h =
      rw (law.mac_view s' br.hardware_addr)
        (there refl, λ x m. elim (hok refl x m) [ inl e ↦ inl e | inr m' ↦ stays s x inv m' ])
  add_from-LeavesBeside s (err LinkError.exists, s') hok there met herr inv h =
      rw (law.mac_view s' br.hardware_addr, herr LinkError.exists refl)
        (met refl, λ x m. stays s x inv m)
  add_from-LeavesBeside s (err e, s') hok there met herr inv h = cc

  cleared-LeavesBeside :
      (c : Result LinkError Bool × S)
      → ((b : Bool) → c.0 ≡ ok b → (b ≡ false) × IsCleared [] c.1)
      → LeavesBeside (continue c.0 (λ found. add_new nl net_text br ipn found) c.1)
  cleared-LeavesBeside (ok true, s) done = λ h. let no = (done true refl).0 in cc
  cleared-LeavesBeside (ok false, s) done =
      add_from-LeavesBeside s (nl.addr_add br ipn s) (λ h x. law.add_ok s ipn x h)
        (law.add_there s ipn) (law.add_exists s ipn) (law.add_err s ipn) (done false refl).1
  cleared-LeavesBeside (err e, s) done = λ h. cc

  listed-LeavesBeside :
      (force : Bool) (s : S) (c : Result LinkError (List IpNet) × S)
      → ((addrs : List IpNet) → c.0 ≡ ok addrs → addrs ≡ view s)
      → (c.0 ≡ err LinkError.no_entry → view s ≡ [])
      → c.1 ≡ s
      → IsFresh (view s)
      → LeavesBeside (
          ((λ (t : S). listed nl net_text c.0 c.1) >>= λ addrs.
          clear_for nl net_text br family ipn force addrs >>= λ found.
          add_new nl net_text br ipn found)
            s)
  listed-LeavesBeside force s (ok addrs, s') hok hnone hs fresh =
      cleared-LeavesBeside (clear_for nl net_text br family ipn force addrs s') λ b.
        clear_for-IsDone force addrs b (rw (hok addrs refl) fresh) s'
          (λ x m. inl (rw (hok addrs refl) (rw hs at m)))
  listed-LeavesBeside force s (err LinkError.no_entry, s') hok hnone hs fresh =
      cleared-LeavesBeside (clear_for nl net_text br family ipn force [] s')
        λ b. clear_for-IsDone force [] b refl s' (λ x m. inl (rw (← hnone refl) (rw hs at m)))
  listed-LeavesBeside force s (err e, s') hok hnone hs fresh = λ h. cc

  ensure_addr-LeavesBeside :
      (force : Bool) (s : S)
      → IsFresh (view s)
      → LeavesBeside (ensure_addr nl net_text br family ipn force s)
  unfolding ensure_addr
  ensure_addr-LeavesBeside force s =
      listed-LeavesBeside force s (nl.addr_list br family s) (law.list_ok s) (law.list_none s)
        (law.list_state s)

  clear_for-met :
      (force : Bool) (addrs : List IpNet) (s : S)
      → Memᴰ ipn addrs
      → ((x : IpNet) → Memᴰ x addrs → IsBeside x)
      → clear_for nl net_text br family ipn force addrs s ≡ (ok true, s)
  unfolding clear_for
  clear_for-met force [] s there beside = elim (Memᴰ.not-nil there) [ ]
  clear_for-met force (a ∷ addrs) s there beside = elim (Bool-cases (same_text nl net_text a ipn)) [
    | inl e ↦ rw e refl
    | inr e ↦ elim (beside a (Memᴰ.head refl)) [
      | inl same ↦ let self = text_eq_self (net_text ipn) in let e' = rw same at e in cc
      | inr free ↦ elim (Memᴰ.cases_cons there) [
        | inl same ↦ let self = text_eq_self (net_text ipn) in let e' = rw (← same) at e in cc
        | inr later ↦
            rw (e, free) (clear_for-met force addrs s later (λ x m. beside x (Memᴰ.tail m)))
      ]
    ]
  ]

-- A second call of ensureAddr, with the flag to force or without it, succeeds and changes nothing:
-- after a call that succeeded for an address that the bridge did not have, if the addresses can be
-- listed again.
pub ensure_addr-ensure_addr :
    {S : Type 0} (nl : Netlink S) (net_text : IpNet → Text) (br : Link) (family : Family)
    (view : S → List IpNet) (law : KeepsAddresses nl net_text br family view) (ipn : IpNet)
    (force again : Bool) (s s' : S) (addrs : List IpNet)
    → any (λ a. same_text nl net_text a ipn) (view s) ≡ false
    → ensure_addr nl net_text br family ipn force s ≡ (ok tt, s')
    → (nl.addr_list br family s').0 ≡ ok addrs
    → ensure_addr nl net_text br family ipn again s' ≡ (ok tt, s')
unfolding ensure_addr
ensure_addr-ensure_addr {S} nl net_text br family view law ipn force again s s' addrs fresh done
      lists =
    let made : LeavesBeside nl net_text br family view law ipn
        (ensure_addr nl net_text br family ipn force s) =
      ensure_addr-LeavesBeside nl net_text br family view law ipn force s fresh in
    let left : LeavesBeside nl net_text br family view law ipn (ok tt, s') = rw done at made in
    let (there, beside) = left refl in
    let same : addrs ≡ view s' = law.list_ok s' addrs lists in
    rw (lists, law.list_state s')
      (rw
        (clear_for-met nl net_text br family view law ipn again addrs s' (rw same there)
          (rw same beside))
        refl)
