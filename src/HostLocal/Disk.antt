-- ===== src/HostLocal/Disk.antt =====
-- host-local/backend/disk/backend.go: one file for each reserved address in a directory of the
-- network, and one for the last address of each range set.
--
-- The directory is an association list from file names to contents. Which system calls fail is a
-- parameter, `fails`, that holds for one command: the theorems are for every such choice. The text
-- form of addresses (`IP.String`, `net.ParseIP`) and the operating system are parameters too.
pub mod Files
pub mod Lawful
pub mod Release
pub mod Atomic
use plugins.Prelude.{
  ℕ, zero, suc, ◌≡◌, ◌≢◌, List, [], ◌∷◌, ◌++◌, map, Bool, true, false, ◌&&◌, ◌||◌, not, Option,
  none, some, Result, ok, err, Text, text, text_eq, trim_space, ◌==◌, if◌then◌else◌,
}
use plugins.Net.{Ip, equal}
use plugins.HostLocal.Types.{Error, io_failure, not_exist}
use plugins.HostLocal.Store.{Store}

abbrev pub last_ip_file_prefix : Text
last_ip_file_prefix = text "last_reserved_ip."

abbrev pub line_break : Text
line_break = 13 ∷ 10 ∷ []

-- The system calls of the store on a file. `open_file` fails for another reason than that the file
-- exists; `write_file` is the opening in `ioutil.WriteFile`, which empties the file, and
-- `write_content` what it writes then.
pub data Op : Type 0 where
  open_file write_string close_file remove_file write_file write_content read_file : Op

-- `fname` with the characters replaced that Windows does not allow
unfoldable pub escaped : Bool → Text → Text
escaped windows fname = if windows then map (λ c. if c == b':' then b'_' else c) fname else fname

-- The text form of addresses, and the file names made of it.
pub record Format : Type 0 where
  pub windows : Bool
  pub ip_string : Ip → Text
  pub parse_ip : Text → Option Ip
  -- Addresses with one text form are equal.
  pub ip_string_inj :
      (a b : Ip) → escaped windows (ip_string a) ≡ escaped windows (ip_string b) → equal a b ≡ true
  -- The text form of an address never begins as the name of a file for a last address.
  pub ip_string_name :
      (a : Ip) (r : Text)
      → escaped windows (ip_string a) ≢ escaped windows (last_ip_file_prefix ++ r)

abbrev pub Dir : Type 0
Dir = List (Text × Text)

unfoldable pub get_file : Text → Dir → Option Text
get_file name [] = none
get_file name ((n, d) ∷ dir) = if text_eq n name then some d else get_file name dir

unfoldable pub put_file : Text → Text → Dir → Dir
put_file name d [] = (name, d) ∷ []
put_file name d ((n, e) ∷ dir) =
    if text_eq n name then (name, d) ∷ dir else (n, e) ∷ put_file name d dir

unfoldable pub delete_file : Text → Dir → Dir
delete_file name [] = []
delete_file name ((n, e) ∷ dir) =
    let rest = delete_file name dir in if text_eq n name then rest else (n, e) ∷ rest

module _ (fmt : Format) (fails : Op → Text → Bool) where
  abbrev pub ip_file : Ip → Text
  ip_file ip = escaped fmt.windows (fmt.ip_string ip)

  abbrev pub last_file : Text → Text
  last_file range_id = escaped fmt.windows (last_ip_file_prefix ++ range_id)

  -- whether `ioutil.WriteFile` fails
  abbrev pub fails_write : Text → Bool
  fails_write name = fails write_file name || fails write_content name

  -- `os.Remove` where its error is ignored
  unfoldable pub try_remove : Text → Dir → Dir
  try_remove name dir = if fails remove_file name then dir else delete_file name dir

  -- the content of the file of a reservation
  abbrev pub owner : Text → Text → Text
  owner id ifname = trim_space id ++ line_break ++ ifname

  unfoldable pub reserve : Text → Text → Ip → Text → Dir → Result Error Bool × Dir
  reserve id ifname ip range_id dir =
      let fname = ip_file ip in
      let created = put_file fname [] dir in
      let written = put_file fname (owner id ifname) dir in
      let recorded = put_file (last_file range_id) (fmt.ip_string ip) written in
      let emptied = put_file (last_file range_id) [] written in
      if fails open_file fname then (err io_failure, dir) else elim (get_file fname dir) [
        | some _ ↦ (ok false, dir)
        | none ↦
            if fails write_string fname
            then (err io_failure, try_remove fname created)
            else if fails close_file fname
            then (err io_failure, try_remove fname written)
            else if fails write_file (last_file range_id)
            then (err io_failure, written)
            else if fails write_content (last_file range_id)
            then (err io_failure, emptied)
            else (ok true, recorded)
      ]

  unfoldable pub last_reserved_ip : Text → Dir → Result Error (Option Ip)
  last_reserved_ip range_id dir =
      if fails read_file (last_file range_id)
      then err io_failure
      else elim (get_file (last_file range_id) dir) [
        | none ↦ err not_exist
        | some d ↦ ok (fmt.parse_ip d)
      ]

  unfoldable pub release : Ip → Dir → Result Error (Unit {0}) × Dir
  release ip dir = elim (get_file (ip_file ip) dir) [
    | none ↦ (err not_exist, dir)
    | some _ ↦
        if fails remove_file (ip_file ip)
        then (err io_failure, dir)
        else (ok tt, delete_file (ip_file ip) dir)
  ]

  -- whether `Walk` reads the file and its trimmed content is the text
  abbrev pub holds : Text → Text → Text → Bool
  holds match n d = not (fails read_file n) && text_eq (trim_space d) match

  -- `FindByKey`; its callback returns no error, so there is none
  unfoldable pub find_by_key : Text → Dir → Bool
  find_by_key match [] = false
  find_by_key match ((n, d) ∷ dir) = holds match n d || find_by_key match dir

  unfoldable pub find_by_id : Text → Text → Dir → Bool
  find_by_id id ifname dir = find_by_key (owner id ifname) dir || find_by_key (trim_space id) dir

  -- `ReleaseByKey`: whether a file was removed, and the files that stay
  unfoldable pub release_by_key : Text → Dir → Bool × Dir
  release_by_key match [] = (false, [])
  release_by_key match ((n, d) ∷ dir) =
      let (found, rest) = release_by_key match dir in
      if holds match n d && not (fails remove_file n) then (true, rest) else (found, (n, d) ∷ rest)

  unfoldable pub release_by_id : Text → Text → Dir → Result Error (Unit {0}) × Dir
  release_by_id id ifname dir =
      let (found, rest) = release_by_key (owner id ifname) dir in
      if found then (ok tt, rest) else (ok tt, (release_by_key (trim_space id) rest).1)

  unfoldable pub get_by_id : Text → Text → Dir → List Ip
  get_by_id id ifname [] = []
  get_by_id id ifname ((n, d) ∷ dir) =
      let rest = get_by_id id ifname dir in
      if holds (owner id ifname) n d || holds (trim_space id) n d
      then elim (fmt.parse_ip n) [ some ip ↦ ip ∷ rest | none ↦ rest ]
      else rest

  -- The disk's `Store`.
  abbrev pub disk_store : Store Dir
  disk_store = record {
    reserve = reserve;
    last_reserved_ip = last_reserved_ip;
    release = release;
    release_by_id = release_by_id;
    get_by_id = get_by_id;
  }

  -- An address is reserved while it has a file.
  unfoldable pub is_reserved : Dir → Ip → Bool
  is_reserved dir ip = elim (get_file (ip_file ip) dir) [ some _ ↦ true | none ↦ false ]
