-- ===== src/HostLocal/Dns.antt =====
-- host-local/dns.go: the lines of a resolv.conf file. Opening and scanning the file are not
-- modelled; the lines come as an argument.
use plugins.Prelude.{
  List, [], ◌∷◌, ◌++◌, Bool, true, ◌||◌, Text, text, text_eq, trim_space, fields, ◌==◌,
  if◌then◌else◌,
}

-- `types.DNS`
pub record Dns : Type 0 where
  pub nameservers : List Text
  pub domain : Text
  pub search_list : List Text
  pub options : List Text

abbrev pub empty_dns : Dns
empty_dns = record { nameservers = []; domain = []; search_list = []; options = [] }

-- a comment or an empty line, after trimming
unfoldable pub is_skipped : Text → Bool
is_skipped [] = true
is_skipped (c ∷ _) = c == b'#' || c == b';'

-- The switch on the first field, for a line with two fields at least.
unfoldable pub add_entry : Dns → Text → Text → List Text → Dns
add_entry dns key value rest =
    if text_eq key (text "nameserver")
    then record dns { nameservers = dns.nameservers ++ value ∷ [] }
    else if text_eq key (text "domain")
    then record dns { domain = value }
    else if text_eq key (text "search")
    then record dns { search_list = dns.search_list ++ value ∷ rest }
    else if text_eq key (text "options")
    then record dns { options = dns.options ++ value ∷ rest }
    else dns

abbrev add_fields : Dns → List Text → Dns
add_fields dns [] = dns
add_fields dns (key ∷ []) = dns
add_fields dns (key ∷ value ∷ rest) = add_entry dns key value rest

unfoldable pub parse_line : Dns → Text → Dns
parse_line dns line =
    let l = trim_space line in if is_skipped l then dns else add_fields dns (fields l)

-- The loop of `parseResolvConf`.
unfoldable pub parse_resolv_conf : Dns → List Text → Dns
parse_resolv_conf dns [] = dns
parse_resolv_conf dns (line ∷ lines) = parse_resolv_conf (parse_line dns line) lines

-- What one line adds, whatever was read before it.
unfoldable pub line_dns : Text → Dns
line_dns line = parse_line empty_dns line

abbrev pub merge : Dns → Dns → Dns
merge a b = record {
  nameservers = a.nameservers ++ b.nameservers;
  domain = if text_eq b.domain [] then a.domain else b.domain;
  search_list = a.search_list ++ b.search_list;
  options = a.options ++ b.options;
}
