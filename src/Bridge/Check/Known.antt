-- ===== src/Bridge/Check/Known.antt =====
-- The names of the interfaces that CHECK of plugins/main/bridge/bridge.go looks for.
use plugins.Prelude.{
  ◌≡◌, inl, inr, sym, List, [], ◌∷◌, true, false, ok, Text, text_eq, text_eq-eq, ◌&&◌, Bool-cases,
  if◌then◌else◌, arith,
}
use plugins.Prelude.Effects.{>>=-eq_ok}
use plugins.Links.{Netlink, Interface}
use plugins.Bridge.{NetConf}
use plugins.Bridge.Layer3.{CmdArgs}
use plugins.Bridge.Check.{
  CniBridgeIf, no_interface, is_set, validate_interface, validate_cni_br_interface,
  validate_cni_container_interface, known_interfaces,
}
use plugins.Bridge.Check.Shown.{validate_interface-named}

abbrev IsNamed : Text → Interface → Type 0
IsNamed name intf = is_set intf.name ≡ true → intf.name ≡ name

module _ (n : NetConf) (args : CmdArgs) where
  abbrev AreNamed : Interface × Interface → Type 0
  AreNamed known = IsNamed n.br_name known.0 × IsNamed args.if_name known.1

  AreNamed-next :
      (intf : Interface) (known : Interface × Interface)
      → AreNamed known
      → AreNamed (
          if text_eq n.br_name intf.name
          then (intf, known.1)
          else if text_eq args.if_name intf.name && text_eq args.netns intf.sandbox
          then (known.0, intf)
          else known)
  AreNamed-next intf known h = elim (Bool-cases (text_eq n.br_name intf.name)) [
    | inl e ↦ rw e ((λ given. sym (text_eq-eq _ _ e)), h.1)
    | inr e ↦
        elim (Bool-cases (text_eq args.if_name intf.name && text_eq args.netns intf.sandbox)) [
          | inl f ↦
              let named : text_eq args.if_name intf.name ≡ true = ground arith in
              rw (e, f) (h.0, (λ given. sym (text_eq-eq _ _ named)))
          | inr f ↦ rw (e, f) h
        ]
  ]

  known_interfaces-AreNamed :
      (interfaces : List Interface) (known : Interface × Interface)
      → AreNamed known
      → AreNamed (known_interfaces n args interfaces known)
  unfolding known_interfaces
  known_interfaces-AreNamed [] known h = h
  known_interfaces-AreNamed (intf ∷ interfaces) known h =
      known_interfaces-AreNamed interfaces _ (AreNamed-next intf known h)

  module _ (interfaces : List Interface) where
    abbrev known : Interface × Interface
    known = known_interfaces n args interfaces (no_interface, no_interface)

    known-AreNamed : AreNamed known
    known-AreNamed =
        known_interfaces-AreNamed interfaces (no_interface, no_interface)
          ((λ given. ground arith), (λ given. ground arith))

    -- The interface that passes the check of a bridge has the name of the configuration.
    pub known_br :
        {S : Type 0} (nl : Netlink S) (s : S) (br : CniBridgeIf)
        → (validate_cni_br_interface nl known.0 n s).0 ≡ ok br
        → known.0.name ≡ n.br_name
    unfolding validate_cni_br_interface
    known_br nl s br h =
        let (l, e, rest) = >>=-eq_ok (validate_interface nl known.0 false) _ s br h in
        known-AreNamed.0 (validate_interface-named nl known.0 false s l e)

    -- The interface that passes the check of the container's has the name of the arguments.
    pub known_cont :
        {S : Type 0} (nl : Netlink S) (s : S) (c : CniBridgeIf)
        → (validate_cni_container_interface nl known.1 s).0 ≡ ok c
        → known.1.name ≡ args.if_name
    unfolding validate_cni_container_interface
    known_cont nl s c h =
        let (l, e, rest) = >>=-eq_ok (validate_interface nl known.1 true) _ s c h in
        known-AreNamed.1 (validate_interface-named nl known.1 true s l e)
