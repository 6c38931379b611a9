-- ===== src/Bandwidth.antt =====
-- plugins/meta/bandwidth: main.go after JSON decoding, and ifb_creator.go.
--
-- Netlink, the hash of names and what is computed in floating point are parameters. Rates and bursts
-- are numbers of 64 bits.
pub mod Check
use plugins.Prelude.{
  ℕ, zero, suc, ◌+◌, ◌-◌, ◌/◌, ◌%◌, ◌^◌, List, [], ◌∷◌, ◌++◌, Bool, true, false, ◌&&◌, ◌||◌, not,
  Option, none, some, Result, ok, err, Text, text, text_eq, ◌==◌, leb, ltb, length, if◌then◌else◌,
}
use plugins.Prelude.Int.{ℤ, pos, negsuc}
use plugins.Prelude.Effects.{Act, pure, fail, lift, catch, check_that, ◌>>=◌, ◌>>◌, relabel}
use plugins.ChainNames.{must_format_hash_with_prefix}

pub data BandwidthError : Type 0 where
  burst_missing rate_missing burst_too_large not_chained no_interfaces no_peer peer_not_in_host :
      BandwidthError
  no_host_interface link_not_found netlink_failed invalid_rate invalid_burst no_qdisc mismatch :
      BandwidthError
  nil_panic name_panic : BandwidthError

-- `BandwidthEntry`
pub record BandwidthEntry : Type 0 where
  pub ingress_rate : ℕ
  pub ingress_burst : ℕ
  pub egress_rate : ℕ
  pub egress_burst : ℕ

unfoldable pub is_zero : BandwidthEntry → Bool
is_zero bw =
    bw.ingress_burst == 0 && bw.ingress_rate == 0 && bw.egress_burst == 0 && bw.egress_rate == 0

-- `current.Interface`
pub record Interface : Type 0 where
  pub name : Text
  pub mac : Text
  pub sandbox : Text

-- `PluginConf`, with the interfaces of the previous result
pub record PluginConf : Type 0 where
  pub name : Text
  pub entry : Option BandwidthEntry
  pub runtime_entry : Option BandwidthEntry
  pub prev_result : Option (List Interface)

unfoldable pub get_bandwidth : PluginConf → Option BandwidthEntry
get_bandwidth conf = elim conf.entry [ none ↦ conf.runtime_entry | some bw ↦ some bw ]

-- `validateRateAndBurst`; a number without a sign is not negative
unfoldable pub validate_rate_and_burst : ℕ → ℕ → Result BandwidthError (Unit {0})
validate_rate_and_burst rate burst =
    if burst == 0 && not (rate == 0)
    then err burst_missing
    else if rate == 0 && not (burst == 0)
    then err rate_missing
    else if leb (2 ^ 32 - 1) (burst / 8)
    then err burst_too_large
    else ok tt

-- `parseConfig` on a decoded configuration
unfoldable pub validate_entry : Option BandwidthEntry → Result BandwidthError (Unit {0})
validate_entry none = ok tt
validate_entry (some bw) = elim (validate_rate_and_burst bw.ingress_rate bw.ingress_burst) [
  | err e ↦ err e
  | ok u ↦ validate_rate_and_burst bw.egress_rate bw.egress_burst
]

unfoldable pub parse_config : Result BandwidthError PluginConf → Result BandwidthError PluginConf
parse_config (err e) = err e
parse_config (ok conf) = elim (validate_entry (get_bandwidth conf)) [
  | err e ↦ err e
  | ok u ↦ ok conf
]

pub record Link : Type 0 where
  pub name : Text
  pub index : ℕ
  pub mtu : ℤ
  pub mac : Text

-- `netlink.Tbf`
pub record Tbf : Type 0 where
  pub rate : ℕ
  pub limit : ℕ
  pub buffer : ℕ

pub data Qdisc : Type 0 where
  tbf : Tbf → Qdisc
  pfifo_fast other : Qdisc

pub record Netlink (S : Type 0) : Type 0 where
  pub get_ns : Act BandwidthError S (Unit {0})
  -- the index of the peer of an interface of the container, which is not positive where there is none
  pub peer_index : Text → S → ℤ × S
  pub link_by_index : ℕ → Act BandwidthError S Link
  pub link_by_name : Text → Act BandwidthError S Link
  pub add_ifb : Text → ℤ → Act BandwidthError S (Unit {0})
  pub del_link : Text → Act BandwidthError S (Unit {0})
  pub add_tbf : ℕ → Tbf → Act BandwidthError S (Unit {0})
  -- the ingress qdisc of a link, and the filter that redirects its traffic to another link
  pub add_ingress : ℕ → Act BandwidthError S (Unit {0})
  pub add_redirection : ℕ → ℕ → Act BandwidthError S (Unit {0})
  pub qdisc_list : Link → Act BandwidthError S (List Qdisc)

-- `SafeQdiscList`
unfoldable pub without_pfifo : List Qdisc → List Qdisc
without_pfifo [] = []
without_pfifo (pfifo_fast ∷ qdiscs) = without_pfifo qdiscs
without_pfifo (tbf t ∷ qdiscs) = tbf t ∷ without_pfifo qdiscs
without_pfifo (other ∷ qdiscs) = other ∷ without_pfifo qdiscs

unfoldable pub find_host : Text → List Interface → Option Interface
find_host name [] = none
find_host name (i ∷ interfaces) =
    if text_eq i.sandbox [] && text_eq i.name name then some i else find_host name interfaces

abbrev same_tbf : Tbf → Tbf → Result BandwidthError (Unit {0})
same_tbf a b =
    if a.rate == b.rate && a.limit == b.limit && a.buffer == b.buffer then ok tt else err mismatch

-- the loop of `cmdCheck` over the qdiscs, which stops at one of another kind
unfoldable pub check_each : Tbf → List Qdisc → Result BandwidthError (Unit {0})
check_each t [] = ok tt
check_each t (tbf u ∷ qdiscs) = elim (same_tbf u t) [ err e ↦ err e | ok v ↦ check_each t qdiscs ]
check_each t (pfifo_fast ∷ qdiscs) = ok tt
check_each t (other ∷ qdiscs) = ok tt

unfoldable pub check_qdiscs : Tbf → List Qdisc → Result BandwidthError (Unit {0})
check_qdiscs t qdiscs = if length qdiscs == 0 then err no_qdisc else check_each t qdiscs

module _ {S : Type 0} (nl : Netlink S) (hash : Text → Text) (buffer_of : ℕ → ℕ → ℕ)
    (latency_bytes : ℕ → ℕ) where
  -- `limit`: the sum is of 32 bits
  abbrev pub limit : ℕ → ℕ → ℕ
  limit rate burst = (latency_bytes rate + burst) % 2 ^ 32

  -- the values of `createTBF` and `cmdCheck`
  unfoldable pub tbf_of : ℕ → ℕ → Tbf
  tbf_of rate burst =
      let rate_bytes = rate / 8 in
      let burst_bytes = burst / 8 % 2 ^ 32 in
      record {
        rate = rate_bytes;
        limit = limit rate_bytes burst_bytes;
        buffer = buffer_of rate_bytes burst_bytes;
      }

  unfoldable pub create_tbf : ℕ → ℕ → ℕ → Act BandwidthError S (Unit {0})
  create_tbf rate burst index =
      check_that (not (rate == 0)) invalid_rate
      >> (check_that (not (burst == 0)) invalid_burst >> nl.add_tbf index (tbf_of rate burst))

  unfoldable pub create_ingress_qdisc : ℕ → ℕ → Text → Act BandwidthError S (Unit {0})
  create_ingress_qdisc rate burst host =
      nl.link_by_name host >>= λ device. create_tbf rate burst device.index

  unfoldable pub create_egress_qdisc : ℕ → ℕ → Text → Text → Act BandwidthError S (Unit {0})
  create_egress_qdisc rate burst host ifb = do
    ifb_device ← nl.link_by_name ifb
    device ← nl.link_by_name host
    nl.add_ingress device.index
    nl.add_redirection device.index ifb_device.index
    create_tbf rate burst ifb_device.index

  abbrev teardown_result : Result BandwidthError (Unit {0}) → Act BandwidthError S (Unit {0})
  teardown_result (ok u) = pure u
  teardown_result (err link_not_found) = pure tt
  teardown_result (err e) = fail e

  unfoldable pub teardown_ifb : Text → Act BandwidthError S (Unit {0})
  teardown_ifb name = catch (nl.del_link name) teardown_result

  abbrev pub peer_link : ℤ → Act BandwidthError S Link
  peer_link (pos (suc n)) = relabel peer_not_in_host (nl.link_by_index (suc n))
  peer_link _ = fail no_peer

  abbrev host_named : List Interface → Link → Act BandwidthError S Interface
  host_named interfaces link = elim (find_host link.name interfaces) [
    | none ↦ fail no_host_interface
    | some i ↦ pure i
  ]

  unfoldable pub get_host_interface : List Interface → Text → Act BandwidthError S Interface
  get_host_interface interfaces if_name s =
      if length interfaces == 0
      then (err no_interfaces, s)
      else (let (peer, s') = nl.peer_index if_name s in
          (peer_link peer >>= host_named interfaces) s')

  unfoldable pub get_ifb_device_name : Text → Text → Act BandwidthError S Text
  get_ifb_device_name network container =
      elim (must_format_hash_with_prefix hash 15 (text "bwp") (network ++ container)) [
        | none ↦ fail name_panic
        | some name ↦ pure name
      ]

  abbrev pub limits : ℕ → ℕ → Bool
  limits rate burst = ltb 0 rate && ltb 0 burst

  -- the egress part of `cmdAdd`, with the interface that it adds to the result
  unfoldable pub add_egress :
      BandwidthEntry → Text → Text → Text → Act BandwidthError S (List Interface)
  add_egress bw host network container = do
    device ← nl.link_by_name host
    ifb ← get_ifb_device_name network container
    nl.add_ifb ifb device.mtu
    ifb_device ← nl.link_by_name ifb
    create_egress_qdisc bw.egress_rate bw.egress_burst host ifb
    pure (record { name = ifb; mac = ifb_device.mac; sandbox = [] } ∷ [])

  abbrev pub shape :
      BandwidthEntry
      → Text
      → Text
      → List Interface
      → Interface
      → Act BandwidthError S (List Interface)
  shape bw network container interfaces host = do
    (if limits bw.ingress_rate bw.ingress_burst
        then create_ingress_qdisc bw.ingress_rate bw.ingress_burst host.name
        else pure tt)
    more ←
        (if limits bw.egress_rate bw.egress_burst
          then add_egress bw host.name network container
          else pure [])
    pure (interfaces ++ more)

  abbrev pub add_to :
      BandwidthEntry
      → Text
      → Text
      → Text
      → Option (List Interface)
      → Act BandwidthError S (List Interface)
  add_to bw network container if_name none = fail not_chained
  add_to bw network container if_name (some interfaces) =
      nl.get_ns >> (get_host_interface interfaces if_name >>= shape bw network container interfaces)

  -- `cmdAdd`, with the interfaces of the result; none is the missing result that it prints
  unfoldable pub cmd_add : PluginConf → Text → Text → Act BandwidthError S (Option (List Interface))
  cmd_add conf container if_name = elim (get_bandwidth conf) [
    | none ↦ pure conf.prev_result
    | some bw ↦
        if is_zero bw
        then pure conf.prev_result
        else add_to bw conf.name container if_name conf.prev_result >>= λ interfaces.
            pure (some interfaces)
  ]

  unfoldable pub cmd_del : PluginConf → Text → Act BandwidthError S (Unit {0})
  cmd_del conf container = get_ifb_device_name conf.name container >>= teardown_ifb

  abbrev pub check_link : ℕ → ℕ → Link → Act BandwidthError S (Unit {0})
  check_link rate burst link = nl.qdisc_list link >>= λ qdiscs.
      lift (check_qdiscs (tbf_of rate burst) (without_pfifo qdiscs))

  abbrev pub check_egress : BandwidthEntry → Text → Text → Act BandwidthError S (Unit {0})
  check_egress bw network container = do
    ifb ← get_ifb_device_name network container
    device ← nl.link_by_name ifb
    check_link bw.egress_rate bw.egress_burst device

  -- the two comparisons of `cmdCheck`; to read a field of a nil bandwidth panics
  abbrev pub check_shape :
      Option BandwidthEntry → Text → Text → Link → Act BandwidthError S (Unit {0})
  check_shape none network container link = fail nil_panic
  check_shape (some bw) network container link =
      (if limits bw.ingress_rate bw.ingress_burst
        then check_link bw.ingress_rate bw.ingress_burst link
        else pure tt)
      >> (if limits bw.egress_rate bw.egress_burst
          then check_egress bw network container
          else pure tt)

  unfoldable pub cmd_check : PluginConf → Text → Text → Act BandwidthError S (Unit {0})
  cmd_check conf container if_name = elim conf.prev_result [
    | none ↦ fail not_chained
    | some interfaces ↦
        nl.get_ns
        >> (get_host_interface interfaces if_name >>= λ host.
            nl.link_by_name host.name >>= check_shape (get_bandwidth conf) conf.name container)
  ]
