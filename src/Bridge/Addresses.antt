-- ===== src/Bridge/Addresses.antt =====
-- `ensureAddr` of plugins/main/bridge/bridge.go. A wrapped error is the error itself.
pub mod Overlap
use plugins.Prelude.{
  ℕ, List, [], ◌∷◌, Bool, true, false, ◌||◌, Option, none, some, Result, ok, err, Text, text_eq,
  if◌then◌else◌,
}
use plugins.Prelude.Effects.{Act, pure, fail, catch, ◌>>=◌, ◌>>◌}
use plugins.Net.{IpNet, net_contains}
use plugins.Links.{LinkError, Family, all, v4, v6, Link, Netlink, unless_exists}

abbrev pub is_v4_family : Family → Bool
is_v4_family v4 = true
is_v4_family _ = false

-- whether an address may not stand beside another one on the bridge
unfoldable pub conflicts : Family → IpNet → IpNet → Bool
unfolding net_contains
conflicts family ipn a = is_v4_family family || net_contains a ipn.ip || net_contains ipn a.ip

module _ {S : Type 0} (nl : Netlink S) (net_text : IpNet → Text) where
  abbrev pub listed : Result LinkError (List IpNet) → Act LinkError S (List IpNet)
  listed (ok addrs) = pure addrs
  listed (err LinkError.no_entry) = pure []
  listed (err _) = fail LinkError.list_failed

  abbrev pub same_text : IpNet → IpNet → Bool
  same_text a b = text_eq (net_text a) (net_text b)

  abbrev pub delete_addr : Link → IpNet → Act LinkError S (Unit {0})
  delete_addr br a = nl.addr_del br a

  -- the loop of `ensureAddr`: whether it has met the address itself
  unfoldable pub clear_for : Link → Family → IpNet → Bool → List IpNet → Act LinkError S Bool
  clear_for br family ipn force [] = pure false
  clear_for br family ipn force (a ∷ addrs) =
      let rest = clear_for br family ipn force addrs in
      if same_text a ipn
      then pure true
      else if conflicts family ipn a
      then (if force then delete_addr br a >> rest else fail LinkError.other_address)
      else rest

  abbrev pub add_new : Link → IpNet → Bool → Act LinkError S (Unit {0})
  add_new br ipn true = pure tt
  add_new br ipn false =
      catch (nl.addr_add br ipn) unless_exists >> nl.set_hardware_addr br br.hardware_addr

  unfoldable pub ensure_addr : Link → Family → IpNet → Bool → Act LinkError S (Unit {0})
  unfolding clear_for
  ensure_addr br family ipn force = catch (nl.addr_list br family) listed >>= λ addrs.
      clear_for br family ipn force addrs >>= λ found. add_new br ipn found
