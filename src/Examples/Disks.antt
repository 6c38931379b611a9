-- ===== src/Examples/Disks.antt =====
-- A disk store with one reservation, and a text form of addresses: a mark and the bytes.
use plugins.Prelude.{
  ℕ, ◌≡◌, ◌≢◌, refl, List, [], ◌∷◌, ◌++◌, Bool, true, false, Option, some, none, arith, Text, text,
  ok, err, trim_space,
}
use plugins.Net.{Ip, equal}
use plugins.Net.Facts.{IsBytes, equal_self}
use plugins.HostLocal.Types.{io_failure}
use plugins.HostLocal.Store.{IsLawful}
use plugins.HostLocal.Iter.Spots.{Spot}
use plugins.HostLocal.Iter.Walk.{reserve_first}
use plugins.HostLocal.Iter.Pool.{spots_at}
use plugins.HostLocal.Iter.Order.{IsOrder}
use plugins.HostLocal.Allocator.{IpAllocator, get_requested, get_any}
use plugins.HostLocal.Allocator.RoundRobin.{has_address, last_reserved, get_any-reserve_first}
use plugins.HostLocal.Allocator.Outcomes.{Outcome, get_any-Outcome}
use plugins.HostLocal.Allocator.Requested.{RequestOutcome, get_requested-RequestOutcome}
use plugins.HostLocal.Disk.{
  read_file, fails_write, release_by_id, Op, open_file, write_file, remove_file, Format, Dir,
  escaped, last_ip_file_prefix, line_break, get_file, disk_store, is_reserved, owner, ip_file,
  release_by_id, reserve, get_by_id, last_reserved_ip, put_file,
}
use plugins.HostLocal.Disk.Lawful.{disk_store-IsLawful}
use plugins.HostLocal.Disk.Atomic.{reserve-leaks}
use plugins.HostLocal.Commands.{Requests, cmd_add, cmd_del}
use plugins.HostLocal.Commands.Failure.{KeepsOnError, KeepsUnlessReserved, cmd_add-KeepsOnError}
use plugins.HostLocal.Commands.OnDisk.{
  IsAbsent, release-IsAbsent, reserve-KeepsAbsent, cmd_add-IsAbsent, cmd_del-IsAbsent,
}
use plugins.Examples.Addresses.{ten_two, ten_five, ten_two-IsPlain}
use plugins.Examples.Pools.{small_pool, small_pool-IsPool}

abbrev mark : Ip → Text
mark a = b'!' ∷ a

abbrev unmark : Text → Option Ip
unmark [] = none
unmark (c ∷ cs) = some cs

mark_inj : (a b : Ip) → escaped false (mark a) ≡ escaped false (mark b) → equal a b ≡ true
unfolding escaped
mark_inj a b e = let f : a ≡ b = cc in rw f (equal_self b)

mark_name : (a : Ip) (r : Text) → escaped false (mark a) ≢ escaped false (last_ip_file_prefix ++ r)
unfolding escaped
mark_name a r e = ground arith

abbrev marked : Format
marked = record {
  windows = false;
  ip_string = mark;
  parse_ip = unmark;
  ip_string_inj = mark_inj;
  ip_string_name = mark_name;
}

abbrev never : Op → Text → Bool
never op n = false

abbrev on_write_file : Op → Text → Bool
on_write_file write_file n = true
on_write_file _ n = false

abbrev on_open_file : Op → Text → Bool
on_open_file open_file n = true
on_open_file _ n = false

abbrev one_file : Dir
one_file =
    (mark ten_two, text "box-a" ++ line_break ++ text "eth0")
    ∷ (text "last_reserved_ip.0", mark ten_two)
    ∷ []

abbrev small_allocator : IpAllocator Dir
small_allocator = record {
  rangeset = small_pool;
  store = disk_store marked never;
  range_id = text "0";
}

none_of_box_b : has_address small_allocator (text "box-b") (text "eth0") one_file ≡ false
unfolding get_by_id trim_space
none_of_box_b = refl

last_is_ten_two : last_reserved small_allocator (text "box-b") (text "eth0") one_file ≡ some ten_two
unfolding last_reserved_ip get_file escaped
last_is_ten_two = refl

last-IsBytes :
    (last : Ip)
    → last_reserved small_allocator (text "box-b") (text "eth0") one_file ≡ some last
    → IsBytes last
last-IsBytes last e = let f = rw last_is_ten_two at e in ground (arith, ten_two-IsPlain.bytes)

abbrev two_files : Dir
two_files =
    (mark ten_two, text "box-a" ++ line_break ++ text "eth0")
    ∷ (text "last_reserved_ip.0", mark ten_five)
    ∷ (mark ten_five, text "box-b" ++ line_break ++ text "eth0")
    ∷ []

reserve_ten_five :
    reserve marked never (text "box-b") (text "eth0") ten_five (text "0") one_file
    ≡ (ok true, two_files)
unfolding reserve get_file put_file escaped trim_space
reserve_ten_five = refl

open_fails :
    reserve marked on_open_file (text "box-b") (text "eth0") ten_five (text "0") one_file
    ≡ (err io_failure, one_file)
unfolding reserve get_file put_file escaped trim_space
open_fails = refl

no_ten_five : get_file (ip_file marked on_write_file ten_five) one_file ≡ none
unfolding get_file escaped
no_ten_five = refl

IsAbsent-box_b : IsAbsent marked never (text "box-b") (text "eth0") one_file
unfolding trim_space
IsAbsent-box_b = (refl, (refl, tt))

trimmed_box_b :
    trim_space (owner marked never (text "box-b") (text "eth0"))
    ≡ owner marked never (text "box-b") (text "eth0")
unfolding trim_space
trimmed_box_b = refl

get_any-Outcome_example :
    Outcome
      (is_reserved marked never)
      (spots_at 0 small_pool)
      one_file
      (get_any small_allocator (text "box-b") (text "eth0") one_file)
get_any-Outcome_example =
    get_any-Outcome small_allocator (text "box-b") (text "eth0") one_file (is_reserved marked never)
      small_pool-IsPool (disk_store-IsLawful marked never) last-IsBytes none_of_box_b

get_any-reserve_first_example :
    (order : List Spot) × IsOrder small_pool
      (last_reserved small_allocator (text "box-b") (text "eth0") one_file)
      order
    × (get_any small_allocator (text "box-b") (text "eth0") one_file
        ≡ reserve_first
            (disk_store marked never)
            (text "box-b")
            (text "eth0")
            (text "0")
            order
            one_file)
get_any-reserve_first_example =
    get_any-reserve_first small_allocator (text "box-b") (text "eth0") one_file small_pool-IsPool
      last-IsBytes none_of_box_b

disk_store-IsLawful_example : IsLawful (disk_store marked never) (is_reserved marked never)
disk_store-IsLawful_example = disk_store-IsLawful marked never

reads : (n : Text) → never read_file n ≡ false
reads n = refl

writes : (n : Text) → fails_write marked never n ≡ false
writes n = refl

trimmed_box_a :
    trim_space (owner marked never (text "box-a") (text "eth0"))
    ≡ owner marked never (text "box-a") (text "eth0")
unfolding trim_space
trimmed_box_a = refl

removes : (n : Text) → never remove_file n ≡ false
removes n = refl

reserve-leaks_example :
    ((reserve marked on_write_file (text "box-b") (text "eth0") ten_five (text "0") one_file).0
      ≡ err io_failure)
    × (is_reserved marked on_write_file
          (reserve marked on_write_file (text "box-b") (text "eth0") ten_five (text "0") one_file).1
          ten_five
        ≡ true)
reserve-leaks_example =
    reserve-leaks marked on_write_file (text "box-b") (text "eth0") ten_five (text "0") one_file
      no_ten_five refl refl refl refl

-- No order of the requests is changed.
abbrev as_it_is : ℕ → Requests → Requests
as_it_is n m = m

-- a request that no range has
abbrev far_away : List Ip
far_away = (192 ∷ 168 ∷ 0 ∷ 9 ∷ []) ∷ []

cmd_add-IsAbsent_example : KeepsOnError (IsAbsent marked never (text "box-b") (text "eth0")) (
    cmd_add
      (disk_store marked never)
      (text "box-b")
      (text "eth0")
      as_it_is
      mark
      (small_pool ∷ [])
      far_away
      one_file)
cmd_add-IsAbsent_example =
    cmd_add-IsAbsent marked never (text "box-b") (text "eth0") reads removes trimmed_box_b writes
      as_it_is (small_pool ∷ []) far_away one_file IsAbsent-box_b

cmd_del-IsAbsent_example :
    ((cmd_del
        (disk_store marked never)
        (text "box-a")
        (text "eth0")
        as_it_is
        (small_pool ∷ [])
        one_file).0
      ≡ ok tt)
    × IsAbsent marked never
        (text "box-a")
        (text "eth0")
        (cmd_del
          (disk_store marked never)
          (text "box-a")
          (text "eth0")
          as_it_is
          (small_pool ∷ [])
          one_file).1
cmd_del-IsAbsent_example =
    cmd_del-IsAbsent marked never (text "box-a") (text "eth0") reads removes trimmed_box_a as_it_is
      small_pool [] one_file

released_box_b :
    (dir : Dir)
    → IsAbsent marked never
        (text "box-b")
        (text "eth0")
        (release_by_id marked never (text "box-b") (text "eth0") dir).1
released_box_b =
    release-IsAbsent marked never (text "box-b") (text "eth0") reads removes trimmed_box_b

keeps_box_b :
    (ip : Ip) (dir : Dir)
    → IsAbsent marked never (text "box-b") (text "eth0") dir
    → KeepsUnlessReserved
        (IsAbsent marked never (text "box-b") (text "eth0"))
        (reserve marked never (text "box-b") (text "eth0") ip (text "0") dir)
keeps_box_b ip dir h =
    reserve-KeepsAbsent marked never (text "box-b") (text "eth0") reads removes trimmed_box_b writes
      ip (text "0") dir h

cmd_add-KeepsOnError_example : KeepsOnError (IsAbsent marked never (text "box-b") (text "eth0")) (
    cmd_add
      (disk_store marked never)
      (text "box-b")
      (text "eth0")
      as_it_is
      mark
      (small_pool ∷ small_pool ∷ [])
      []
      one_file)
cmd_add-KeepsOnError_example =
    cmd_add-KeepsOnError (IsAbsent marked never (text "box-b") (text "eth0"))
      (disk_store marked never) (text "box-b") (text "eth0") as_it_is
      (reserve-KeepsAbsent marked never (text "box-b") (text "eth0") reads removes trimmed_box_b
        writes)
      released_box_b mark (small_pool ∷ small_pool ∷ []) [] one_file IsAbsent-box_b

get_requested-RequestOutcome_example :
    RequestOutcome
      (is_reserved marked never)
      small_pool
      ten_five
      one_file
      (get_requested small_allocator (text "box-b") (text "eth0") ten_five one_file)
get_requested-RequestOutcome_example =
    get_requested-RequestOutcome small_allocator (is_reserved marked never)
      (disk_store-IsLawful marked never) (text "box-b") (text "eth0") ten_five one_file
