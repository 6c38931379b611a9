-- ===== src/HostLocal/Types.antt =====
-- The data of host-local/backend/allocator, and the errors of the plugin: one constructor for each
-- message of the source, `index_panic` for a slice index out of range, and `out_of_fuel` where a
-- loop of the model has used up its rounds.
use plugins.Prelude.{List, Option}
use plugins.Net.{Ip, IpNet}

pub data Error : Type 0 where
  not_v4_nor_v6 network_too_small version_mismatch host_bits_set : Error
  range_start_outside range_end_outside index_panic out_of_fuel : Error
  empty_range_set mixed_families subnets_overlap not_in_range_set : Error
  requested_is_gateway requested_not_available already_allocated no_addresses : Error
  io_failure not_exist : Error
  missing_ipam bad_args bad_ip no_ranges too_many_per_family range_sets_overlap : Error
  bad_json invalid_range_set : Error
  requested_unfulfilled not_found_for_container failed_to_allocate release_failed : Error

pub record Range : Type 0 where
  pub range_start : Option Ip
  pub range_end : Option Ip
  pub subnet : IpNet
  pub gateway : Option Ip

abbrev pub RangeSet : Type 0
RangeSet = List Range
