-- ===== src/Links/Veth.antt =====
-- The operations of pkg/ip/link_linux.go. The container's end of a pair is in the namespace of
-- `cont`, the other end in that of `host`.
use plugins.Prelude.{
  ℕ, zero, suc, List, [], ◌++◌, Bool, true, false, ◌&&◌, not, Option, none, some, Result, ok, err,
  Text, text, length, ◌==◌, ltb, if◌then◌else◌,
}
use plugins.Prelude.Int.{ℤ, pos}
use plugins.Prelude.Effects.{Act, pure, fail, lift, catch, relabel, ◌>>=◌, ◌>>◌}
use plugins.Net.{IpNet}
use plugins.Links.{
  LinkError, Kind, veth, all, Link, Netlink, attempt, hex_text, global_nets, own_routes,
}

abbrev pub is_exist : LinkError → Bool
is_exist LinkError.exists = true
is_exist _ = false

abbrev pub is_set : Text → Bool
is_set t = ltb 0 (length t)

module _ {S : Type 0} (entropy : Act LinkError S (List ℕ)) (parse_mac : Text → Option Text)
    (cont host : Netlink S) where
  unfoldable pub random_veth_name : Act LinkError S Text
  unfolding hex_text
  random_veth_name = entropy >>= λ bytes. pure (text "veth" ++ hex_text bytes)

  abbrev parsed_mac : Text → Result LinkError (Option Text)
  parsed_mac mac =
      if is_set mac
      then elim (parse_mac mac) [ none ↦ err LinkError.bad_mac | some m ↦ ok (some m) ]
      else ok none

  unfoldable pub make_veth_pair : Text → Text → ℤ → Text → Act LinkError S Link
  make_veth_pair name peer mtu mac = lift (parsed_mac mac) >>= λ m.
      cont.add_veth name peer mtu m
      >> catch (cont.link_by_name name)
          λ r. elim r [ ok veth2 ↦ pure veth2 | err e ↦ attempt (cont.link_del name) >> fail e ]

  unfoldable pub peer_exists : Text → Act LinkError S Bool
  peer_exists name =
      catch (cont.link_by_name name) λ r. elim r [ ok l ↦ pure true | err e ↦ pure false ]

  -- the loop of `makeVeth`, with the rounds that are left
  unfoldable pub make_veth_in : ℕ → Text → Text → ℤ → Text → Act LinkError S (Text × Link)
  make_veth_in zero name peer_name mtu mac = fail LinkError.no_unique_name
  make_veth_in (suc n) name peer_name mtu mac =
      let again = make_veth_in n name peer_name mtu mac in
      (if is_set peer_name then pure peer_name else random_veth_name) >>= λ peer.
      catch (make_veth_pair name peer mtu mac) λ r. elim r [
        | ok l ↦ pure (peer, l)
        | err e ↦
            if is_exist e
            then (peer_exists peer >>= λ there.
                if there && not (is_set peer_name) then again else fail LinkError.name_exists)
            else fail LinkError.pair_failed
      ]

  unfoldable pub make_veth : Text → Text → ℤ → Text → Act LinkError S (Text × Link)
  unfolding make_veth_in
  make_veth name peer_name mtu mac = make_veth_in 10 name peer_name mtu mac

  -- what `SetupVethWithName` does in the namespace of the host
  abbrev pub host_end_up : Text → Act LinkError S Link
  host_end_up name =
      host.enter
      >> (relabel LinkError.lookup_failed (host.link_by_name name) >>= λ l.
          relabel LinkError.not_set_up (host.link_set_up l) >> (own_routes host name >> pure l))

  -- the ends in the host and in the container
  unfoldable pub setup_veth_with_name : Text → Text → ℤ → Text → Act LinkError S (Link × Link)
  setup_veth_with_name cont_name host_name mtu mac =
      make_veth cont_name host_name mtu mac >>= λ made.
      relabel LinkError.not_set_up (cont.link_set_up made.1)
      >> (host_end_up made.0 >>= λ host_veth. pure (host_veth, made.1))

  unfoldable pub setup_veth : Text → ℤ → Text → Act LinkError S (Link × Link)
  setup_veth cont_name mtu mac = setup_veth_with_name cont_name [] mtu mac

module _ {S : Type 0} (nl : Netlink S) where
  unfoldable pub rename_link : Text → Text → Act LinkError S (Unit {0})
  rename_link cur_name new_name = nl.link_by_name cur_name >>= λ l. nl.link_set_name l new_name

  -- a link, or `ErrLinkNotFound`
  abbrev pub found_link : Text → Act LinkError S Link
  found_link name = catch (nl.link_by_name name) λ r. elim r [
    | ok l ↦ pure l
    | err LinkError.link_not_found ↦ fail LinkError.link_not_found
    | err _ ↦ fail LinkError.lookup_failed
  ]

  unfoldable pub del_link_by_name : Text → Act LinkError S (Unit {0})
  del_link_by_name name = found_link name >>= λ l. relabel LinkError.del_failed (nl.link_del l.name)

  unfoldable pub del_link_by_name_addr : Text → Act LinkError S (List IpNet)
  unfolding global_nets
  del_link_by_name_addr name = found_link name >>= λ l.
      relabel LinkError.list_failed (nl.addr_list l all) >>= λ addrs.
      relabel LinkError.del_failed (nl.link_del l.name) >> pure (global_nets addrs)

  -- the fallback to ethtool
  abbrev peer_of_stats : Option ℕ → Result LinkError ℕ
  peer_of_stats none = err LinkError.bad_peer_index
  peer_of_stats (some n) =
      if ltb 32767 n
      then err LinkError.bad_peer_index
      else if n == 0
      then err LinkError.bad_peer_index
      else ok n

  abbrev peer_index_of : Link → ℤ → Act LinkError S ℕ
  peer_index_of l (pos (suc n)) = pure (suc n)
  peer_index_of l _ = nl.peer_stat l.name >>= λ stat. lift (peer_of_stats stat)

  abbrev veth_only : Kind → Act LinkError S (Unit {0})
  veth_only veth = pure tt
  veth_only _ = fail LinkError.not_veth

  unfoldable pub get_veth_peer_ifindex : Text → Act LinkError S (Link × ℕ)
  get_veth_peer_ifindex name = relabel LinkError.lookup_failed (nl.link_by_name name) >>= λ l.
      veth_only l.kind >> (peer_index_of l l.parent_index >>= λ peer. pure (l, peer))
