-- ===== src/Portmap/Parse/Valid.antt =====
-- What a configuration that `parseConfig` of plugins/meta/portmap accepts is like.
use plugins.Prelude.{
  ℕ, zero, suc, ◌≤◌, ◌<◌, ◌≡◌, List, [], ◌∷◌, Option, Result, ok, >>=-eq-ok, Text, length, All,
  arith, refl, ap,
}
use plugins.Prelude.Int.{ℤ, pos, negsuc}
use plugins.Portmap.Ports.{PortMapEntry}
use plugins.Portmap.Parse.{
  ParseError, RawConf, RawEntry, PrevResult, Parsed, bad_container_port, bad_host_port, positive,
  mark_bit, valid_entries, parse_config,
}

abbrev pub HasPorts : PortMapEntry → Type 0
HasPorts e = (0 < e.host_port) × (0 < e.container_port)

positive-lt : (e : ParseError) (i : ℤ) (n : ℕ) → positive e i ≡ ok n → 0 < n
positive-lt e (pos zero) n h = cc
positive-lt e (pos (suc k)) n h = ground arith
positive-lt e (negsuc k) n h = cc

mark_bit-le : (raw : RawConf) (n : ℕ) → mark_bit raw ≡ ok n → n ≤ 31
unfolding mark_bit
mark_bit-le raw n h = ground arith

valid_entries-HasPorts :
    (raw : List RawEntry) (entries : List PortMapEntry)
    → valid_entries raw ≡ ok entries
    → All HasPorts entries × (length entries ≡ length raw)
unfolding valid_entries
valid_entries-HasPorts [] entries h = let e : entries ≡ [] = cc in rw e (tt, refl)
valid_entries-HasPorts (pm ∷ rest) entries h =
    let (c, h1, e1) = >>=-eq-ok _ (positive bad_container_port pm.container_port) h in
    let (p, h2, e2) = >>=-eq-ok _ (positive bad_host_port pm.host_port) h1 in
    let (es, h3, e3) = >>=-eq-ok _ (valid_entries rest) h2 in
    let (all, l) = valid_entries-HasPorts rest es e3 in
    let entry : PortMapEntry = record {
      host_port = p;
      container_port = c;
      protocol = pm.protocol;
      host_ip = pm.host_ip;
    } in
    let same : entries ≡ entry ∷ es = cc in
    rw same (
      (
        (
          positive-lt bad_host_port pm.host_port p e2,
          positive-lt bad_container_port pm.container_port c e1,
        ),
        all,
      ),
      ap suc l,
    )

both_equal :
    {xs ys : List PortMapEntry} {m n : ℕ}
    → xs ≡ ys
    → m ≡ n
    → All HasPorts ys
    → n ≤ 31
    → All HasPorts xs × (m ≤ 31)
both_equal e f all bound = (rw e all, rw f bound)

-- A configuration that is accepted has positive ports in every mapping and a mark bit of at most 31.
pub parse_config-HasPorts :
    (unmarshal : Text → Result ParseError RawConf)
    (prev_result : Text → Result ParseError (Option PrevResult)) (stdin if_name container_id : Text)
    (p : Parsed)
    → parse_config unmarshal prev_result stdin if_name container_id ≡ ok p
    → All HasPorts p.conf.port_maps × (p.conf.mark_masq_bit ≤ 31)
unfolding parse_config
parse_config-HasPorts unmarshal prev_result stdin if_name container_id p h =
    let (raw, h1, e1) = >>=-eq-ok _ (unmarshal stdin) h in
    let (prev, h2, e2) = >>=-eq-ok _ (prev_result stdin) h1 in
    let (bit, h3, e3) = >>=-eq-ok _ (mark_bit raw) h2 in
    let (entries, h4, e4) = >>=-eq-ok _ (valid_entries raw.port_maps) h3 in
    let (all, _) = valid_entries-HasPorts raw.port_maps entries e4 in
    let bound = mark_bit-le raw bit e3 in
    let same_entries : p.conf.port_maps ≡ entries = ground arith in
    let same_bit : p.conf.mark_masq_bit ≡ bit = ground arith in
    both_equal same_entries same_bit all bound
