-- ===== src/Portmap/Parse/Chosen.antt =====
-- Which addresses of the previous result `parseConfig` of plugins/meta/portmap takes for the
-- container's.
use plugins.Prelude.{
  List, [], ◌∷◌, Bool, ◌&&◌, not, Option, none, some, Text, length, ◌==◌, if◌then◌else◌,
}
use plugins.Net.{IpNet}
use plugins.Portmap.Ports.{is_v6}
use plugins.Portmap.Parse.{ResultIp, Interface, is_other_interface}

-- The address is not nil, its interface may be the container's, and it is of the family.
abbrev pub is_eligible : Text → List Interface → Bool → ResultIp → Bool
is_eligible if_name interfaces v6 ip =
    not (length ip.address.ip == 0)
    && not (is_other_interface if_name interfaces ip)
    && (if is_v6 ip.address.ip then v6 else not v6)

abbrev pub first : (ResultIp → Bool) → List ResultIp → Option IpNet
first p [] = none
first p (ip ∷ rest) = if p ip then some ip.address else first p rest

abbrev or_else : Option IpNet → Option IpNet → Option IpNet
or_else none o = o
or_else (some a) o = some a
