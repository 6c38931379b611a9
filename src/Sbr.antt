-- ===== src/Sbr.antt =====
-- plugins/meta/sbr/main.go, after the configuration is parsed: routing by the source address.
--
-- Rules, the lists of routes and the lock of the namespace are parameters beside netlink's record. A
-- wrapped error is the error itself.
pub mod Tables
use plugins.Prelude.{
  ℕ, zero, suc, ◌+◌, List, [], ◌∷◌, ◌++◌, map, Bool, true, false, ◌&&◌, ◌||◌, not, Option, none,
  some, Result, ok, err, Text, text_eq, any, length, get_elem?, ◌==◌, if◌then◌else◌,
}
use plugins.Prelude.Int.{ℤ, pos, negsuc}
use plugins.Prelude.Effects.{Act, pure, fail, lift, catch, relabel, each, ◌>>=◌, ◌>>◌}
use plugins.Net.{Ip, IpNet, to4, slice, is_nil, equal, net_contains, cidr_mask}
use plugins.Bridge.{zero_of}
use plugins.Links.{
  LinkError, Family, all, v4, v6, universe, Link, Netlink, NetRoute, Interface, IpConfig, AddResult,
}

-- `netlink.Rule`
pub record Rule : Type 0 where
  pub table : ℕ
  pub src : Option IpNet

pub record Rules (S : Type 0) : Type 0 where
  pub rule_list : Act LinkError S (List Rule)
  pub rule_add : Rule → Act LinkError S (Unit {0})
  pub rule_del : Rule → Act LinkError S (Unit {0})
  pub route_list_all : Act LinkError S (List NetRoute)
  pub route_list_of : Link → Act LinkError S (List NetRoute)
  pub route_replace : NetRoute → Act LinkError S (Unit {0})
  pub lock : Text → Act LinkError S (Unit {0})
  pub unlock : Text → Act LinkError S (Unit {0})

-- whether an address belongs to another interface than the one that is named
unfoldable pub is_elsewhere : Text → List Interface → Option ℤ → Bool
is_elsewhere iface interfaces (some (pos i)) = elim (get_elem? interfaces i) [
  | none ↦ false
  | some intf ↦ not (text_eq intf.name iface)
]
is_elsewhere iface interfaces _ = false

unfoldable pub relevant : Text → List Interface → List IpConfig → List IpConfig
unfolding is_elsewhere
relevant iface interfaces [] = []
relevant iface interfaces (ipc ∷ ips) =
    let rest = relevant iface interfaces ips in
    if is_elsewhere iface interfaces ipc.interface then rest else ipc ∷ rest

unfoldable pub get_ip_cfgs : Text → AddResult → Result LinkError (List IpConfig)
unfolding relevant
get_ip_cfgs iface prev =
    if length prev.ips == 0
    then err LinkError.missing_ip
    else ok (relevant iface prev.interfaces prev.ips)

-- whether a rule or a route has a table
unfoldable pub is_used : List Rule → List NetRoute → ℕ → Bool
is_used rules routes table =
    any (λ (r : Rule). r.table == table) rules || any (λ (r : NetRoute). r.table == table) routes

-- the loop of `getNextTableID`
unfoldable pub next_from : ℕ → List Rule → List NetRoute → ℕ → ℕ
next_from zero rules routes table = table
next_from (suc n) rules routes table =
    let rest = next_from n rules routes (table + 1) in
    if is_used rules routes table then rest else table

-- Each round but the last meets the table of another rule or route.
unfoldable pub get_next_table_id : List Rule → List NetRoute → ℕ → ℕ
unfolding next_from
get_next_table_id rules routes candidate =
    next_from (length rules + length routes) rules routes candidate

abbrev pub first_table_id : ℕ
first_table_id = 100

abbrev pub is_v4 : IpConfig → Bool
unfolding to4
is_v4 ipc = not (is_nil (to4 ipc.address.ip))

-- the rule for the one address, and the default route to its gateway
abbrev pub source_rule : ℕ → IpConfig → Rule
unfolding cidr_mask
source_rule table ipc = record {
  table = table;
  src = some (record {
    ip = ipc.address.ip;
    mask = if is_v4 ipc then cidr_mask 4 32 else cidr_mask 16 128;
  });
}

abbrev pub gateway_route : ℕ → ℕ → IpConfig → NetRoute
unfolding cidr_mask
gateway_route table index ipc = record {
  dst = some (record {
    ip = if is_v4 ipc then zero_of v4 else zero_of v6;
    mask = if is_v4 ipc then cidr_mask 4 0 else cidr_mask 16 0;
  });
  src = none;
  gw = ipc.gateway;
  table = table;
  flags = 0;
  link_index = index;
  scope = universe;
}

-- whether a route of the interface is copied for an address
unfoldable pub is_copied : IpConfig → NetRoute → Bool
unfolding net_contains
is_copied ipc r =
    net_contains ipc.address (slice r.src)
    || net_contains ipc.address (slice r.gw)
    || (is_nil r.src && is_nil r.gw)

-- `errReturn` keeps an earlier error where there is no new one.
abbrev pub or_last :
    Result LinkError (Unit {0}) → Result LinkError (Unit {0}) → Result LinkError (Unit {0})
or_last last (ok u) = last
or_last last (err e) = err e

module _ {S : Type 0} (nl : Netlink S) (ops : Rules S) where
  abbrev pub copy_route : ℕ → IpConfig → NetRoute → Act LinkError S (Unit {0})
  unfolding is_copied
  copy_route table ipc r =
      if is_copied ipc r then ops.route_replace (record r { table = table; flags = 0 }) else pure tt

  unfoldable pub add_source : ℕ → ℕ → List NetRoute → IpConfig → Act LinkError S (Unit {0})
  add_source table index routes ipc =
      ops.rule_add (source_rule table ipc)
      >> ((if is_nil ipc.gateway then pure tt else nl.route_add (gateway_route table index ipc))
          >> each routes (copy_route table ipc))

  -- the loop of `doRoutes`, with the next table
  unfoldable pub add_sources :
      List Rule → List NetRoute → ℕ → ℕ → List IpConfig → Act LinkError S (Unit {0})
  unfolding add_source get_next_table_id
  add_sources rules routes index table [] = pure tt
  add_sources rules routes index table (ipc ∷ ips) =
      add_source table index routes ipc
      >> add_sources rules routes index (get_next_table_id rules routes (table + 1)) ips

  -- From the list of the link's routes on, these are the routes.
  unfoldable pub do_routes : List IpConfig → Text → Act LinkError S (Unit {0})
  unfolding add_sources
  do_routes ips iface = ops.rule_list >>= λ rules. ops.route_list_all >>= λ all_routes.
      nl.link_by_name iface >>= λ l. ops.route_list_of l >>= λ routes.
      add_sources rules routes l.index (get_next_table_id rules all_routes first_table_id) ips
      >> each routes nl.route_del

  -- `withLockAndNetNS`; an error leaves the lock to the end of the process
  abbrev pub with_lock : Text → Act LinkError S (Unit {0}) → Act LinkError S (Unit {0})
  with_lock path body = ops.lock path >> (nl.enter >> (body >> ops.unlock path))

  unfoldable pub cmd_add : Option AddResult → Text → Text → Act LinkError S AddResult
  unfolding get_ip_cfgs do_routes
  cmd_add prev netns if_name = elim prev [
    | none ↦ fail LinkError.missing_prev_result
    | some res ↦ lift (get_ip_cfgs if_name res) >>= λ ips.
        with_lock netns (do_routes ips if_name) >> pure res
  ]

  abbrev pub is_source : List IpNet → Rule → Bool
  unfolding equal
  is_source addrs r = elim r.src [
    | none ↦ false
    | some src ↦ any (λ (a : IpNet). equal src.ip a.ip) addrs
  ]

  -- the loop of `tidyRules`, with the last error
  unfoldable pub tidy_each :
      List IpNet → Result LinkError (Unit {0}) → List Rule → Act LinkError S (Unit {0})
  tidy_each addrs last [] = lift last
  tidy_each addrs last (r ∷ rules) =
      if is_source addrs r
      then catch (ops.rule_del r) (λ res. tidy_each addrs (or_last last res) rules)
      else tidy_each addrs last rules

  unfoldable pub tidy_rules : Text → Act LinkError S (Unit {0})
  unfolding tidy_each
  tidy_rules iface = ops.rule_list >>= λ rules.
      nl.link_by_name iface >>= λ l. nl.addr_list l all >>= λ addrs. tidy_each addrs (ok tt) rules

  unfoldable pub cmd_del : Text → Text → Act LinkError S (Unit {0})
  unfolding tidy_rules
  cmd_del netns if_name = with_lock netns (tidy_rules if_name)
