-- ===== src/Vrf.antt =====
-- plugins/meta/vrf: vrf.go, and the commands of main.go after the configuration is parsed.
--
-- Netlink is a parameter, over a state. A link shows its name, its index, the index of its master,
-- and the routing table if it is a VRF.
pub mod Tables
use plugins.Prelude.{
  ℕ, zero, suc, ◌+◌, ◌-◌, ◌^◌, List, [], ◌∷◌, Bool, true, false, ◌&&◌, not, Option, none, some,
  Result, ok, err, Text, text_eq, any, length, ◌==◌, if◌then◌else◌,
}
use plugins.Prelude.Effects.{Act, pure, fail, lift, catch, check_that, relabel, each, ◌>>=◌, ◌>>◌}

pub data VrfError : Type 0 where
  link_not_found netlink_failed not_a_vrf no_free_table other_table has_master : VrfError
  missing_prev_result not_assigned : VrfError

-- `netlink.Link`
pub record Link : Type 0 where
  pub name : Text
  pub index : ℕ
  pub master_index : ℕ
  pub table : Option ℕ

pub record Netlink (S : Type 0) : Type 0 where
  pub link_by_name : Text → Act VrfError S Link
  pub link_by_index : ℕ → Act VrfError S Link
  pub link_list : Act VrfError S (List Link)
  -- to add a VRF, which then has its index
  pub link_add : Text → ℕ → Act VrfError S Link
  pub link_set_up : Link → Act VrfError S (Unit {0})
  pub link_del : Link → Act VrfError S (Unit {0})
  pub set_master : Link → Link → Act VrfError S (Unit {0})
  pub set_no_master : Link → Act VrfError S (Unit {0})
  -- the IPv6 addresses of a link
  pub addr_list : Link → Act VrfError S (List Text)
  pub addr_add : Link → Text → Act VrfError S (Unit {0})
  pub addr_equal : Text → Text → Bool

abbrev pub tables : List Link → List ℕ
tables [] = []
tables (l ∷ links) = elim l.table [ none ↦ tables links | some t ↦ t ∷ tables links ]

-- the loop of `findFreeRoutingTableID`
unfoldable pub free_from : ℕ → ℕ → List ℕ → Result VrfError ℕ
free_from zero res taken = err no_free_table
free_from (suc n) res taken = elim (any (λ t. t == res) taken) [
  | true ↦ free_from n (res + 1) taken
  | false ↦ ok res
]

-- It tries the numbers below `2 ^ 32 - 1`.
abbrev pub tries : ℕ
tries = 4294967294

unfoldable pub find_free_routing_table_id : List Link → Result VrfError ℕ
find_free_routing_table_id links = free_from tries 1 (tables links)

module _ {S : Type 0} (nl : Netlink S) where
  unfoldable pub find_vrf : Text → Act VrfError S Link
  find_vrf name =
      nl.link_by_name name >>= λ l. elim l.table [ none ↦ fail not_a_vrf | some t ↦ pure l ]

  abbrev pub table_id : ℕ → List Link → Result VrfError ℕ
  table_id table links = if table == 0 then find_free_routing_table_id links else ok table

  unfoldable pub create_vrf : Text → ℕ → Act VrfError S Link
  create_vrf name table = nl.link_list >>= λ links. lift (table_id table links) >>= λ id.
      nl.link_add name id >>= λ vrf. nl.link_set_up vrf >>= λ u. pure vrf

  abbrev assigned_to : Link → List Link → List Link
  assigned_to vrf [] = []
  assigned_to vrf (l ∷ links) =
      let rest = assigned_to vrf links in if l.master_index == vrf.index then l ∷ rest else rest

  unfoldable pub assigned_interfaces : Link → Act VrfError S (List Link)
  assigned_interfaces vrf = nl.link_list >>= λ links. pure (assigned_to vrf links)

  -- an address that the change of the master has removed is added again
  abbrev pub restore_address : Link → List Text → Text → Act VrfError S (Unit {0})
  restore_address i after address =
      if any (λ current. nl.addr_equal address current) after
      then pure tt
      else nl.addr_add i address

  unfoldable pub add_interface : Link → Text → Act VrfError S (Unit {0})
  add_interface vrf intf = relabel link_not_found (nl.link_by_name intf) >>= λ i.
      if not (i.master_index == 0)
      then nl.link_by_index i.master_index >> fail has_master
      else nl.addr_list i >>= λ before.
          nl.set_master i vrf >> (nl.addr_list i >>= λ after. each before (restore_address i after))

  unfoldable pub reset_master : Text → Act VrfError S (Unit {0})
  reset_master name = nl.link_by_name name >>= λ i. nl.set_no_master i

  -- what `cmdAdd` makes of the result of `findVRF`
  abbrev pub found_or_created : Text → ℕ → Result VrfError Link → Act VrfError S Link
  found_or_created name table (ok vrf) = elim vrf.table [
    | none ↦ fail not_a_vrf
    | some t ↦ if not (table == 0) && not (t == table) then fail other_table else pure vrf
  ]
  found_or_created name table (err link_not_found) = create_vrf name table
  found_or_created name table (err e) = fail e

  -- `cmdAdd`, with whether there is a previous result
  unfoldable pub cmd_add : Bool → Text → ℕ → Text → Act VrfError S (Unit {0})
  cmd_add has_prev name table if_name =
      check_that has_prev missing_prev_result
      >> (catch (find_vrf name) (found_or_created name table) >>= λ vrf. add_interface vrf if_name)

  abbrev pub release : Text → Result VrfError Link → Act VrfError S (Unit {0})
  release if_name (err link_not_found) = pure tt
  release if_name (err e) = fail e
  release if_name (ok vrf) =
      reset_master if_name
      >> (assigned_interfaces vrf >>= λ left. if length left == 0 then nl.link_del vrf else pure tt)

  unfoldable pub cmd_del : Text → Text → Act VrfError S (Unit {0})
  cmd_del name if_name = catch (find_vrf name) (release if_name)

  -- what `cmdCheck` does in the network namespace
  unfoldable pub check_assigned : Text → Text → Act VrfError S (Unit {0})
  check_assigned name if_name = find_vrf name >>= λ vrf. catch (assigned_interfaces vrf) λ r.
      elim r [
        | err e ↦ fail not_assigned
        | ok links ↦ if any (λ l. text_eq l.name if_name) links then pure tt else fail not_assigned
      ]

  -- `cmdCheck`: it drops the error of the check
  unfoldable pub cmd_check : Bool → Text → Text → Act VrfError S (Unit {0})
  cmd_check has_prev name if_name =
      check_that has_prev missing_prev_result >> catch (check_assigned name if_name) λ r. pure tt
